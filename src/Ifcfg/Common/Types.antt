-- ===== src/Ifcfg/Common/Types.antt =====
-- The second chain of `elif` of `_add_common` of os_net_config/impl_ifcfg.py: the lines of each
-- class, and what it adds to `ovs_extra`.
use os_net_config.Base.{
  Bool, true, false, ◌&&◌, ◌||◌, not, List, [], ◌∷◌, ◌++◌, if◌then◌else◌, nat_eq, str_eq,
  option_str_eq,
}
use os_net_config.Base.Str.{Str, str, join}
use os_net_config.Objects.{
  BaseOpts, Kind, vlan, ovs_bridge, ovs_user_bridge, linux_bridge, linux_team, linux_bond, ovs_bond,
  ovs_tunnel, ovs_patch_port,
}
use os_net_config.Ifcfg.Common.{Line, given, has_items, quoted}

-- The members of a bridge or bond, joined by blanks
abbrev joined : List Str → Str
joined = join (str " ")

-- `OVSBOOTPROTO=dhcp`
abbrev ovs_dhcp : BaseOpts → Line
ovs_dhcp b = (b.use_dhcp || b.use_dhcpv6, str "OVSBOOTPROTO", str "dhcp")

abbrev ovs_options_line : Str → Line
ovs_options_line ovs_options = (given ovs_options, str "OVS_OPTIONS", quoted ovs_options)

abbrev dhcp_interfaces : BaseOpts → List Str → Line
dhcp_interfaces b members =
    (has_items members && b.use_dhcp, str "OVSDHCPINTERFACES", quoted (joined members))

abbrev macaddr_line : BaseOpts → Str → Line
macaddr_line b mac = (given b.primary_interface_name, str "MACADDR", quoted mac)

abbrev dhcp_line : BaseOpts → Line
dhcp_line b = (b.use_dhcp, str "BOOTPROTO", str "dhcp")

-- `mac` is the address of the primary interface.
unfoldable pub type_lines : BaseOpts → Kind → List Str → Str → List Line
type_lines b (ovs_bridge ovs_options ovs_extra) members mac =
    (true, str "DEVICETYPE", str "ovs")
    ∷ (true, str "TYPE", str "OVSBridge")
    ∷ ovs_dhcp b
    ∷ dhcp_interfaces b members
    ∷ ovs_options_line ovs_options
    ∷ []
type_lines b (ovs_user_bridge ovs_internal ovs_options ovs_extra) members mac =
    (true, str "DEVICETYPE", str "ovs")
    ∷ (true, str "TYPE", str "OVSUserBridge")
    ∷ (not ovs_internal, str "LINKSTATUS", str "down")
    ∷ ovs_dhcp b
    ∷ dhcp_interfaces b members
    ∷ ovs_options_line ovs_options
    ∷ []
type_lines b (ovs_bond ovs_options ovs_extra) members mac =
    (true, str "DEVICETYPE", str "ovs")
    ∷ (true, str "TYPE", str "OVSBond")
    ∷ ovs_dhcp b
    ∷ (has_items members, str "BOND_IFACES", quoted (joined members))
    ∷ ovs_options_line ovs_options
    ∷ []
type_lines b linux_bridge members mac =
    (true, str "TYPE", str "Bridge")
    ∷ (true, str "DELAY", str "0")
    ∷ dhcp_line b
    ∷ macaddr_line b mac
    ∷ []
type_lines b (linux_bond bonding_options ethtool_opts) members mac =
    macaddr_line b mac
    ∷ dhcp_line b
    ∷ (given bonding_options, str "BONDING_OPTS", quoted bonding_options)
    ∷ []
type_lines b (linux_team bonding_options) members mac =
    macaddr_line b mac
    ∷ dhcp_line b
    ∷ (true, str "DEVICETYPE", str "Team")
    ∷ (given bonding_options, str "TEAM_CONFIG", 39 ∷ (bonding_options ++ (39 ∷ [])))
    ∷ []
type_lines b (ovs_tunnel tunnel_type ovs_options ovs_extra) members mac =
    (true, str "DEVICETYPE", str "ovs")
    ∷ (true, str "TYPE", str "OVSTunnel")
    ∷ (true, str "OVS_BRIDGE", b.bridge_name)
    ∷ (true, str "OVS_TUNNEL_TYPE", tunnel_type)
    ∷ (true, str "OVS_TUNNEL_OPTIONS", quoted (joined ovs_options))
    ∷ []
type_lines b (ovs_patch_port peer ovs_extra) members mac =
    (true, str "DEVICETYPE", str "ovs")
    ∷ (true, str "TYPE", str "OVSPatchPort")
    ∷ (true, str "OVS_BRIDGE", b.bridge_name)
    ∷ (true, str "OVS_PATCH_PEER", peer)
    ∷ []
type_lines b k members mac =
    dhcp_line b ∷ (not b.use_dhcp && not (has_items b.addresses), str "BOOTPROTO", str "none") ∷ []

-- `ovs_extra` at the end
unfoldable pub ovs_extra_of : BaseOpts → Kind → Str → List Str
ovs_extra_of b (vlan vlan_id device ovs_options ovs_extra) mac =
    if b.ovs_port then ovs_extra else []
ovs_extra_of b (ovs_bridge ovs_options ovs_extra) mac =
    let set_bridge = str "set bridge " ++ b.name in
    let table_size = set_bridge ++ str " other-config:mac-table-size=50000" in
    let rest =
      if given b.primary_interface_name
      then (set_bridge ++ (str " other-config:hwaddr=" ++ mac)) ∷ ovs_extra
      else ovs_extra in
    table_size ∷ rest
ovs_extra_of b (ovs_user_bridge ovs_internal ovs_options ovs_extra) mac = ovs_extra
ovs_extra_of b (ovs_bond ovs_options ovs_extra) mac = ovs_extra
ovs_extra_of b (ovs_tunnel tunnel_type ovs_options ovs_extra) mac = ovs_extra
ovs_extra_of b (ovs_patch_port peer ovs_extra) mac = ovs_extra
ovs_extra_of b k mac = []

-- Whether the class asks for the MAC address of its primary interface.
unfoldable pub reads_mac : Kind → Bool
reads_mac (ovs_bridge ovs_options ovs_extra) = true
reads_mac linux_bridge = true
reads_mac (linux_bond bonding_options ethtool_opts) = true
reads_mac (linux_team bonding_options) = true
reads_mac k = false
