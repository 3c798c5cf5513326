-- ===== src/Ifcfg/Common/Tail.antt =====
-- The end of `_add_common` of os_net_config/impl_ifcfg.py, which is the same for all classes.
use os_net_config.Base.{
  ℕ, zero, suc, Bool, true, ◌&&◌, ◌||◌, not, List, [], ◌∷◌, ◌++◌, map, if◌then◌else◌, ltb, nat_eq,
  str_eq, option_str_eq,
}
use os_net_config.Base.Str.{Str, str, join, decimal}
use os_net_config.Objects.{
  Address, BaseOpts, Kind, Domain, domain_text, domain_list, v4_addresses, v6_addresses, interface,
  linux_bond, ib_interface, sriov_vf, sriov_pf,
}
use os_net_config.Ifcfg.Common.{Line, given, has_items, quoted}

abbrev pub ethtool_opts_of : Kind → Str
ethtool_opts_of (interface hotplug linkdelay ethtool_opts) = ethtool_opts
ethtool_opts_of (linux_bond bonding_options ethtool_opts) = ethtool_opts
ethtool_opts_of (ib_interface ethtool_opts) = ethtool_opts
ethtool_opts_of (sriov_vf device vfid ethtool_opts) = ethtool_opts
ethtool_opts_of (sriov_pf link_mode ethtool_opts) = ethtool_opts
ethtool_opts_of _ = []

abbrev pub has_mtu : BaseOpts → Bool
has_mtu b = ltb 0 b.mtu

-- `base_opt.use_dhcpv6 or base_opt.v6_addresses()`
abbrev pub has_v6 : BaseOpts → Bool
has_v6 b = b.use_dhcpv6 || has_items (v6_addresses b)

unfoldable pub mtu_lines : BaseOpts → List Line
mtu_lines b =
    (has_mtu b, str "MTU", decimal b.mtu)
    ∷ (has_v6 b, str "IPV6INIT", str "yes")
    ∷ (has_v6 b && has_mtu b, str "IPV6_MTU", decimal b.mtu)
    ∷ []

-- `num`
abbrev pub num : ℕ → Str
num zero = []
num (suc i) = decimal (suc i)

-- The loop over the IPv4 addresses
unfoldable pub address_lines : ℕ → List Address → List Line
address_lines i [] = []
address_lines i (address ∷ addresses) =
    (true, str "IPADDR" ++ num i, address.ip)
    ∷ (true, str "NETMASK" ++ num i, address.netmask)
    ∷ address_lines (suc i) addresses

unfoldable pub v6_lines : List Address → List Line
v6_lines [] = []
v6_lines (first_v6 ∷ others) =
    (true, str "IPV6_AUTOCONF", str "no")
    ∷ (true, str "IPV6ADDR", first_v6.ip_netmask)
    ∷ (
      has_items others,
      str "IPV6ADDR_SECONDARIES",
      quoted (join (str " ") (map (λ a. a.ip_netmask) others)),
    )
    ∷ []

unfoldable pub static_lines : BaseOpts → List Line
unfolding address_lines v6_lines
static_lines b =
    (b.use_dhcpv6, str "DHCPV6C", str "yes")
    ∷ (not b.use_dhcpv6 && has_items (v4_addresses b), str "BOOTPROTO", str "static")
    ∷ (if b.use_dhcpv6 then [] else address_lines 0 (v4_addresses b) ++ v6_lines (v6_addresses b))

abbrev dns_lines : List Str → List Line
dns_lines [] = []
dns_lines (first ∷ []) = (true, str "DNS1", first) ∷ []
dns_lines (first ∷ second ∷ others) = (true, str "DNS1", first) ∷ (true, str "DNS2", second) ∷ []

abbrev domain_line : Domain → Line
domain_line (domain_text domain) = (given domain, str "DOMAIN", domain)
domain_line (domain_list domains) =
    (has_items domains, str "DOMAIN", quoted (join (str " ") domains))

unfoldable pub last_lines : BaseOpts → List Str → List Line
last_lines b ovs_extra =
    (given b.hwaddr, str "HWADDR", b.hwaddr)
    ∷ (has_items ovs_extra, str "OVS_EXTRA", quoted (join (str " -- ") ovs_extra))
    ∷ (not b.defroute, str "DEFROUTE", str "no")
    ∷ (given b.dhclient_args, str "DHCLIENTARGS", b.dhclient_args)
    ∷ (dns_lines b.dns_servers ++ (domain_line b.domain ∷ []))
