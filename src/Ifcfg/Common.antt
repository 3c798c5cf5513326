-- ===== src/Ifcfg/Common.antt =====
-- `_add_common` of os_net_config/impl_ifcfg.py: the text of an object's ifcfg file.
pub mod Types
pub mod Tail
pub mod Text
pub mod Values
pub mod Keys
pub mod Static
pub mod Read
pub mod Mtu
use os_net_config.Base.{
  ℕ, zero, suc, ◌+◌, ◌-◌, ◌*◌, ◌/◌, ◌%◌, ◌≤◌, ◌<◌, String, ◌≡◌, refl, sym, ap, ◌∙◌, subst, ◌≢◌, ◌↔◌,
  ◌⊎◌, inl, inr, Bool, true, false, ◌&&◌, ◌||◌, not, Option, none, some, List, [], ◌∷◌, ◌++◌, map,
  arith, if◌then◌else◌, ltb, leb, nat_beq, nat_beq_iff, leb→le, Bool-cases, Option-cases, is_some,
  or_default, Bool-ext, ◌==◌, beq_refl, beq→eq, ne→beq, beq→ne, beq_sym, list_beq, list_beq_iff,
  option_beq, option_beq_iff, nat_eq, str_eq, option_str_eq, Eq, length, length-append, get_elem?,
  take, select, any, all, All, contains, contains-append, contains-select, any_iff, NodupB, find,
  change_first, find-change_first, find-change_first_other, find-test, find-change_first_on,
  find-change_first_on_other, All-map, find-All,
}
use os_net_config.Base.Str.{
  Str, str, newline, starts_with, contains_str, push_first, split, partition, lstrip, strip,
  is_space, is_digit, isdigit, upper, join, int_onto, int, digits_onto, decimal,
}
use os_net_config.Base.Dict.{Dict}
use os_net_config.Objects.{
  Address, BaseOpts, Kind, Domain, domain_text, domain_list, v4_addresses, v6_addresses, interface,
  vlan, ivs_interface, ovs_interface, nfvswitch_internal, ovs_bridge, ovs_user_bridge, linux_bridge,
  ivs_bridge, nfvswitch_bridge, linux_team, linux_bond, ovs_bond, ovs_tunnel, ovs_patch_port,
  ib_interface, ib_child_interface, sriov_vf, sriov_pf, linux_tap,
}
use os_net_config.Ifcfg.Parse.Print.{print_ifcfg}

-- `if test: data += "key=value\n"`: the test, the key and the value. The tests of an `if` in an
-- `if` are joined.
abbrev pub Line : Type 0
Line = Bool × Str × Str

-- The lines that are written.
unfoldable pub written : List Line → Dict Str Str
written [] = []
written ((test, key, value) ∷ lines) =
    let rest = written lines in if test then (key, value) ∷ rest else rest

-- A text that is there and is not empty is true.
abbrev pub given : Str → Bool
given [] = false
given (c ∷ s) = true

abbrev pub has_items {ℓ} : {A : Type ℓ} → List A → Bool
has_items [] = false
has_items (x ∷ xs) = true

abbrev pub yes_no : Bool → Str
yes_no test = if test then str "yes" else str "no"

-- `"\"%s\""`
unfoldable pub quoted : Str → Str
quoted s = 34 ∷ (s ++ (34 ∷ []))

abbrev pub is_hotplug : Kind → Bool
is_hotplug (interface hotplug linkdelay ethtool_opts) = hotplug
is_hotplug _ = false

unfoldable pub first_lines : BaseOpts → Kind → List Line
first_lines b k =
    (true, str "DEVICE", b.name)
    ∷ (true, str "ONBOOT", yes_no b.onboot)
    ∷ (true, str "HOTPLUG", yes_no (is_hotplug k))
    ∷ (true, str "NM_CONTROLLED", yes_no b.nm_controlled)
    ∷ (not (has_items b.dns_servers) && not b.use_dhcp, str "PEERDNS", str "no")
    ∷ []

unfoldable pub is_word : ℕ → Bool
is_word c = is_digit c || (leb b'a' c && leb c b'z') || (leb b'A' c && leb c b'Z') || (c == b'_')

-- `re.match(r'\w+\.\d+$', name)` on ASCII text
unfoldable pub is_vlan_name : Str → Bool
unfolding is_word
is_vlan_name name = elim (partition b'.' name) [
  | none ↦ false
  | some (base, suffix) ↦ has_items base && all is_word base && isdigit suffix
]

-- The first chain of `elif`
unfoldable pub kind_lines : BaseOpts → Kind → List Line
kind_lines b (vlan vlan_id device ovs_options ovs_extra) =
    (not b.ovs_port, str "VLAN", str "yes")
    ∷ (not b.ovs_port && given device, str "PHYSDEV", device)
    ∷ (
      not b.ovs_port && (not (given device) && given b.linux_bond_name),
      str "PHYSDEV",
      b.linux_bond_name,
    )
    ∷ (b.ovs_port && given ovs_options, str "OVS_OPTIONS", quoted ovs_options)
    ∷ []
kind_lines b ivs_interface = (true, str "TYPE", str "IVSIntPort") ∷ []
kind_lines b nfvswitch_internal = (true, str "TYPE", str "NFVSWITCHIntPort") ∷ []
kind_lines b (ib_interface ethtool_opts) = (true, str "TYPE", str "Infiniband") ∷ []
kind_lines b (ib_child_interface parent pkey_id) =
    (true, str "TYPE", str "Infiniband")
    ∷ (true, str "PKEY", str "yes")
    ∷ (true, str "PHYSDEV", parent)
    ∷ (true, str "PKEY_ID", pkey_id)
    ∷ []
kind_lines b (interface hotplug linkdelay ethtool_opts) =
    (is_vlan_name b.name, str "VLAN", str "yes")
    ∷ (not (is_vlan_name b.name) && given linkdelay, str "LINKDELAY", linkdelay)
    ∷ []
kind_lines b k = (is_vlan_name b.name, str "VLAN", str "yes") ∷ []

unfoldable pub master_lines : BaseOpts → List Line
master_lines b =
    (given b.linux_bond_name, str "MASTER", b.linux_bond_name)
    ∷ (given b.linux_bond_name, str "SLAVE", str "yes")
    ∷ (given b.linux_team_name, str "TEAM_MASTER", b.linux_team_name)
    ∷ (given b.linux_team_name && b.primary, str "TEAM_PORT_CONFIG", str "'{\"prio\": 100}'")
    ∷ (given b.ivs_bridge_name, str "DEVICETYPE", str "ivs")
    ∷ (given b.ivs_bridge_name, str "IVS_BRIDGE", b.ivs_bridge_name)
    ∷ (given b.nfvswitch_bridge_name, str "DEVICETYPE", str "nfvswitch")
    ∷ (given b.nfvswitch_bridge_name, str "NFVSWITCH_BRIDGE", b.nfvswitch_bridge_name)
    ∷ []

-- `if base_opt.ovs_port`
unfoldable pub port_lines : BaseOpts → Kind → List Line
port_lines b (vlan vlan_id device ovs_options ovs_extra) =
    (b.ovs_port, str "DEVICETYPE", str "ovs")
    ∷ (b.ovs_port && given b.bridge_name, str "TYPE", str "OVSIntPort")
    ∷ (b.ovs_port && given b.bridge_name, str "OVS_BRIDGE", b.bridge_name)
    ∷ (b.ovs_port && given b.bridge_name, str "OVS_OPTIONS", quoted (str "tag=" ++ decimal vlan_id))
    ∷ []
port_lines b (linux_team bonding_options) =
    (b.ovs_port && given b.bridge_name, str "TYPE", str "OVSPort")
    ∷ (b.ovs_port && given b.bridge_name, str "OVS_BRIDGE", b.bridge_name)
    ∷ []
port_lines b k =
    (b.ovs_port, str "DEVICETYPE", str "ovs")
    ∷ (b.ovs_port && given b.bridge_name, str "TYPE", str "OVSPort")
    ∷ (b.ovs_port && given b.bridge_name, str "OVS_BRIDGE", b.bridge_name)
    ∷ []
