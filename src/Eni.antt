-- ===== src/Eni.antt =====
-- The eni provider, os_net_config/impl_eni.py: the text of /etc/network/interfaces.
pub mod Provider
pub mod Settles
pub mod Twice
pub mod Read
use os_net_config.Base.{
  ℕ, zero, suc, ◌+◌, ◌-◌, ◌*◌, ◌/◌, ◌%◌, ◌≤◌, ◌<◌, String, ◌≡◌, refl, sym, ap, ◌∙◌, subst, ◌≢◌, ◌↔◌,
  ◌⊎◌, inl, inr, Bool, true, false, ◌&&◌, ◌||◌, not, Option, none, some, List, [], ◌∷◌, ◌++◌, map,
  arith, if◌then◌else◌, ltb, leb, nat_beq, nat_beq_iff, leb→le, Bool-cases, Option-cases, is_some,
  or_default, Bool-ext, ◌==◌, beq_refl, beq→eq, ne→beq, beq→ne, beq_sym, list_beq, list_beq_iff,
  option_beq, option_beq_iff, nat_eq, str_eq, option_str_eq, Eq, length, length-append, get_elem?,
  take, select, any, all, All, contains, contains-append, contains-select, any_iff, NodupB, find,
  change_first, find-change_first, find-change_first_other, find-test, find-change_first_on,
  find-change_first_on_other, All-map, find-All, bind,
}
use os_net_config.Base.Str.{
  Str, str, newline, starts_with, contains_str, push_first, split, partition, lstrip, strip,
  is_space, is_digit, isdigit, upper, join, int_onto, int, digits_onto, decimal,
}
use os_net_config.Base.Dict.{Dict, get, put}
use os_net_config.Sriov.Lines.{write_lines}
use os_net_config.Ifcfg.Routes.{Route, is_empty}
use os_net_config.Ifcfg.Common.{has_items}
use os_net_config.Objects.{
  Address, BaseOpts, Kind, Object, Members, node, route_table, nil, cons, names_of, v4_addresses,
  v6_addresses, interface, vlan, ovs_interface, ovs_bridge,
}

-- The name of the interface in its stanza
unfoldable pub iface_name : BaseOpts → Kind → Str
iface_name b (vlan vlan_id device ovs_options ovs_extra) = str "vlan" ++ decimal vlan_id
iface_name b k = b.name

unfoldable pub family_of : Option Address → Str
family_of none = str "inet"
family_of (some static_addr) = if static_addr.version == 6 then str "inet6" else str "inet"

unfoldable pub method_of : BaseOpts → Str
method_of b =
    if b.use_dhcp then str "dhcp" else if has_items b.addresses then str "static" else str "manual"

-- `_iface`
unfoldable pub iface_line : BaseOpts → Kind → Option Address → Str
iface_line b k static_addr =
    str "iface "
    ++ (iface_name b k ++ (str " " ++ (family_of static_addr ++ (str " " ++ method_of b))))

-- `address_data`
unfoldable pub address_data : Option Address → ℕ → List Str
address_data none ip_version = []
address_data (some static_addr) ip_version =
    (str "    address " ++ static_addr.ip)
    ∷ (str "    netmask "
        ++ (if ip_version == 6 then decimal static_addr.prefixlen else static_addr.netmask))
    ∷ []

-- `"%s" % text` where a missing text is the empty one
abbrev pub or_none : Str → Str
or_none [] = str "None"
or_none (c ∷ s) = c ∷ s

-- `for mem in interface.members: if isinstance(mem, objects.Interface)`
unfoldable pub flush_lines : Members → List Str
flush_lines nil = []
flush_lines (cons (node b (interface hotplug linkdelay ethtool_opts) ms) rest) =
    (str "    pre-up ip addr flush dev " ++ b.name) ∷ flush_lines rest
flush_lines (cons o rest) = flush_lines rest

abbrev pub spaced : List Str → Str
spaced [] = []
spaced (name ∷ names) = str " " ++ (name ++ spaced names)

unfoldable pub member_lines : Members → List Str
member_lines nil = []
member_lines (cons o ms) =
    (str "    ovs_ports" ++ spaced (names_of (cons o ms))) ∷ flush_lines (cons o ms)

-- The lines in front of the one with `iface`
unfoldable pub start_lines : BaseOpts → Kind → List Str
start_lines b (ovs_bridge ovs_options ovs_extra) =
    (str "auto " ++ b.name) ∷ (str "allow-ovs " ++ b.name) ∷ []
start_lines b (vlan vlan_id device ovs_options ovs_extra) =
    (str "auto vlan" ++ decimal vlan_id)
    ∷ (if b.ovs_port
        then (str "allow-" ++ (or_none b.bridge_name ++ (str " vlan" ++ decimal vlan_id))) ∷ []
        else [])
start_lines b (interface hotplug linkdelay ethtool_opts) =
    if b.ovs_port
    then (str "auto " ++ b.name)
      ∷ (str "allow-" ++ (or_none b.bridge_name ++ (str " " ++ b.name)))
      ∷ []
    else if hotplug
    then (str "allow-hotplug " ++ b.name) ∷ []
    else (str "auto " ++ b.name) ∷ []
start_lines b k =
    if b.ovs_port
    then (str "auto " ++ b.name)
      ∷ (str "allow-" ++ (or_none b.bridge_name ++ (str " " ++ b.name)))
      ∷ []
    else (str "auto " ++ b.name) ∷ []

-- The lines behind the addresses that depend on the class
unfoldable pub class_lines : BaseOpts → Kind → Members → List Str
class_lines b (ovs_bridge ovs_options ovs_extra) ms = str "    ovs_type OVSBridge" ∷ member_lines ms
class_lines b (vlan vlan_id device ovs_options ovs_extra) ms =
    if b.ovs_port
    then (str "    ovs_bridge " ++ or_none b.bridge_name)
      ∷ str "    ovs_type OVSIntPort"
      ∷ (str "    ovs_options tag=" ++ decimal vlan_id)
      ∷ []
    else (str "    vlan-raw-device " ++ or_none device) ∷ []
class_lines b k ms =
    if b.ovs_port
    then (str "    ovs_bridge " ++ or_none b.bridge_name) ∷ str "    ovs_type OVSPort" ∷ []
    else []

unfoldable pub mtu_line : BaseOpts → List Str
mtu_line b = if b.mtu == 0 then [] else (str "    mtu " ++ decimal b.mtu) ∷ []

-- The command with the MAC address of the primary interface; reading the address may fail.
unfoldable pub hwaddr_extra : (Str → Option Str) → BaseOpts → Members → Option (List Str)
hwaddr_extra macs b nil = some []
hwaddr_extra macs b (cons o ms) =
    if is_empty b.primary_interface_name then some [] else elim (macs b.primary_interface_name) [
      | none ↦ none
      | some mac ↦
          some ((str "set bridge " ++ (b.name ++ (str " other-config:hwaddr=" ++ mac))) ∷ [])
    ]

-- `ovs_extra`
unfoldable pub extra_of : (Str → Option Str) → BaseOpts → Kind → Members → Option (List Str)
extra_of macs b (ovs_bridge ovs_options ovs_extra) ms = elim (hwaddr_extra macs b ms) [
  | none ↦ none
  | some extra ↦ some (extra ++ ovs_extra)
]
extra_of macs b k ms = some []

abbrev pub extra_line : List Str → List Str
extra_line [] = []
extra_line (e ∷ es) = (str "    ovs_extra " ++ join (str " -- ") (e ∷ es)) ∷ []

-- The lines behind the one with `iface`
unfoldable pub option_lines : BaseOpts → Kind → Members → Option Address → ℕ → List Str → List Str
option_lines b k ms static_addr ip_version extra =
    address_data static_addr ip_version ++ (class_lines b k ms ++ (mtu_line b ++ extra_line extra))

-- `_add_common(interface, static_addr, ip_version)` with an address, or without any. A `hwaddr` is
-- not implemented.
unfoldable pub stanza :
    (Str → Option Str) → BaseOpts → Kind → Members → ℕ → Option Address → Option (List Str)
unfolding option_lines
stanza macs b k ms ip_version static_addr =
    if is_empty b.hwaddr
    then elim (extra_of macs b k ms) [
      | none ↦ none
      | some extra ↦ some (
          start_lines b k
          ++ (iface_line b k static_addr ∷ option_lines b k ms static_addr ip_version extra))
    ]
    else none

-- `for address in addresses: data += self._add_common(interface, address, ip_version)`
unfoldable pub stanzas :
    (Str → Option Str) → BaseOpts → Kind → Members → ℕ → List Address → Option (List Str)
stanzas macs b k ms ip_version [] = some []
stanzas macs b k ms ip_version (a ∷ addresses) =
    bind (stanza macs b k ms ip_version (some a))
      (λ first. bind (stanzas macs b k ms ip_version addresses) (λ rest. some (first ++ rest)))

abbrev pub or_stanza : Option (List Str) → List Str → Option (List Str)
or_stanza otherwise [] = otherwise
or_stanza otherwise (line ∷ lines) = some (line ∷ lines)

-- `_add_common(interface)`, as lines
unfoldable pub data_lines : (Str → Option Str) → BaseOpts → Kind → Members → Option (List Str)
data_lines macs b k ms = bind (stanzas macs b k ms 4 (v4_addresses b)) (λ v4.
    bind (stanzas macs b k ms 6 (v6_addresses b))
      (λ v6. or_stanza (stanza macs b k ms 4 none) (v4 ++ v6)))
