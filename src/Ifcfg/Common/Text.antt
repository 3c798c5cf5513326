-- ===== src/Ifcfg/Common/Text.antt =====
-- `_add_common` of os_net_config/impl_ifcfg.py as a whole: the lines in their order, and the text.
use os_net_config.Base.{
  ◌≡◌, ap, ◌&&◌, Option, none, some, List, [], ◌∷◌, ◌++◌, if◌then◌else◌, nat_eq, str_eq,
  option_str_eq,
}
use os_net_config.Base.Str.{Str, str}
use os_net_config.Objects.{BaseOpts, Kind}
use os_net_config.Ifcfg.Parse.Print.{print_ifcfg}
use os_net_config.Ifcfg.Common.{
  Line, written, given, quoted, first_lines, kind_lines, master_lines, port_lines,
}
use os_net_config.Ifcfg.Common.Types.{type_lines, ovs_extra_of, reads_mac}
use os_net_config.Ifcfg.Common.Tail.{ethtool_opts_of, mtu_lines, static_lines, last_lines}
use os_net_config.Ifcfg.Routes.{ended}

-- What stands before the lines of the MTU
unfoldable pub head_lines : BaseOpts → Kind → List Str → Str → List Line
unfolding first_lines kind_lines master_lines port_lines type_lines
head_lines b k members mac =
    first_lines b k
    ++ (kind_lines b k
        ++ (master_lines b
            ++ (port_lines b k
                ++ ((given b.linux_bridge_name, str "BRIDGE", b.linux_bridge_name)
                    ∷ (type_lines b k members mac
                        ++ ((
                          given (ethtool_opts_of k),
                          str "ETHTOOL_OPTS",
                          quoted (ethtool_opts_of k),
                        )
                            ∷ []))))))

-- What stands behind them
unfoldable pub tail_lines : BaseOpts → Kind → Str → List Line
unfolding static_lines last_lines ovs_extra_of
tail_lines b k mac = static_lines b ++ last_lines b (ovs_extra_of b k mac)

unfoldable pub lines_of : BaseOpts → Kind → List Str → Str → List Line
unfolding head_lines mtu_lines tail_lines
lines_of b k members mac = head_lines b k members mac ++ (mtu_lines b ++ tail_lines b k mac)

unfoldable pub ifcfg_text : List Line → Str
unfolding written
ifcfg_text lines =
    ended (str "# This file is autogenerated by os-net-config") ++ print_ifcfg (written lines)

-- `common.interface_mac` of the primary interface, where the class asks for it; `none` is its
-- error.
unfoldable pub primary_mac : (Str → Option Str) → BaseOpts → Kind → Option Str
unfolding reads_mac
primary_mac macs b k =
    if reads_mac k && given b.primary_interface_name then macs b.primary_interface_name else some []

abbrev pub text_with : BaseOpts → Kind → List Str → Option Str → Option Str
text_with b k members none = none
text_with b k members (some mac) = some (ifcfg_text (lines_of b k members mac))

-- `_add_common`, but for the dicts that it fills
unfoldable pub add_common : (Str → Option Str) → BaseOpts → Kind → List Str → Option Str
unfolding lines_of ifcfg_text primary_mac
add_common macs b k members = text_with b k members (primary_mac macs b k)

pub add_common_known :
    (macs : Str → Option Str) (b : BaseOpts) (k : Kind) (members : List Str) (mac : Str)
    → primary_mac macs b k ≡ some mac
    → add_common macs b k members ≡ some (ifcfg_text (lines_of b k members mac))
unfolding add_common
add_common_known macs b k members mac known = ap (text_with b k members) known
