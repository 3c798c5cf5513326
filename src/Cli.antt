-- ===== src/Cli.antt =====
-- The two passes over the objects in `main` of os_net_config/cli.py.
pub mod Sriov
use os_net_config.Base.{
  ℕ, zero, suc, ◌+◌, ◌-◌, ◌*◌, ◌/◌, ◌%◌, ◌≤◌, ◌<◌, String, ◌≡◌, refl, sym, ap, ◌∙◌, subst, ◌≢◌, ◌↔◌,
  ◌⊎◌, inl, inr, Bool, true, false, ◌&&◌, ◌||◌, not, Option, none, some, List, [], ◌∷◌, ◌++◌, map,
  arith, if◌then◌else◌, ltb, leb, nat_beq, nat_beq_iff, leb→le, Bool-cases, Option-cases, is_some,
  or_default, Bool-ext, ◌==◌, beq_refl, beq→eq, ne→beq, beq→ne, beq_sym, list_beq, list_beq_iff,
  option_beq, option_beq_iff, nat_eq, str_eq, option_str_eq, Eq, length, length-append, get_elem?,
  take, select, any, all, All, contains, contains-append, contains-select, any_iff, NodupB, find,
  change_first, find-change_first, find-change_first_other, find-test, find-change_first_on,
  find-change_first_on_other, All-map, find-All,
}
use os_net_config.Base.Str.{
  Str, str, newline, starts_with, contains_str, push_first, split, partition, lstrip, strip,
  is_space, is_digit, isdigit, upper, join, int_onto, int, digits_onto, decimal,
}
use os_net_config.Objects.{
  Address, BaseOpts, Kind, Object, Members, node, route_table, nil, cons, name_of, names_of,
  has_members, v4_addresses, v6_addresses, interface, vlan, ivs_interface, ovs_interface,
  nfvswitch_internal, ovs_bridge, ovs_user_bridge, linux_bridge, ivs_bridge, nfvswitch_bridge,
  linux_team, linux_bond, ovs_bond, ovs_tunnel, ovs_patch_port, ib_interface, ib_child_interface,
  sriov_vf, sriov_pf, linux_tap,
}
use os_net_config.Ifcfg.Common.{given}

abbrev pub is_sriov_pf : Object → Bool
is_sriov_pf (node b (sriov_pf link_mode ethtool_opts) ms) = true
is_sriov_pf o = false

-- `_is_sriovpf_obj_found`, and its loop with the value that `configure_sriov` has before it
unfoldable mutual
  pub is_sriovpf_obj_found : Object → Bool
  is_sriovpf_obj_found (node b (sriov_pf link_mode ethtool_opts) ms) = true
  is_sriovpf_obj_found (node b k ms) = has_members k && found_in_members false ms
  is_sriovpf_obj_found (route_table n i) = false

  pub found_in_members : Bool → Members → Bool
  found_in_members configure_sriov nil = configure_sriov
  found_in_members configure_sriov (cons o ms) =
      let rest = found_in_members (is_sriovpf_obj_found o) ms in
      if is_sriov_pf o then true else rest

-- `get_sriovpf_member_of_bond_ovs_port`
abbrev switchdev_name : Object → List Str
switchdev_name (node b (sriov_pf link_mode ethtool_opts) ms) =
    if link_mode == str "switchdev" then b.name ∷ [] else []
switchdev_name o = []

unfoldable pub switchdev_names : Members → List Str
unfolding str
switchdev_names nil = []
switchdev_names (cons o ms) = switchdev_name o ++ switchdev_names ms

abbrev bond_names : Object → List Str
bond_names (node b (linux_bond bonding_options ethtool_opts) ms) = switchdev_names ms
bond_names o = []

unfoldable pub bonds_names : Members → List Str
unfolding switchdev_names
bonds_names nil = []
bonds_names (cons o ms) = bond_names o ++ bonds_names ms

unfoldable pub get_sriovpf_member_of_bond_ovs_port : Object → List Str
unfolding bonds_names
get_sriovpf_member_of_bond_ovs_port (node b (ovs_bridge ovs_options ovs_extra) ms) = bonds_names ms
get_sriovpf_member_of_bond_ovs_port o = []

-- `disable_ipv6_for_netdevs`: the text that is written
unfoldable pub disable_ipv6_for_netdevs : List Str → Str
disable_ipv6_for_netdevs [] = []
disable_ipv6_for_netdevs (net_device ∷ net_devices) =
    str "net.ipv6.conf."
    ++ (net_device ++ (str ".disable_ipv6 = 1" ++ (newline ∷ disable_ipv6_for_netdevs net_devices)))

-- The local variables of the passes: the objects that the provider has been given, the variable
-- `obj`, and what the first pass finds.
pub record Passes : Type 0 where
  pub added : List Object
  pub obj : Option Object
  pub configure_sriov : Bool
  pub sriovpf_bond_ovs_ports : List Str

abbrev pub before_passes : Passes
before_passes = record {
  added = [];
  obj = none;
  configure_sriov = false;
  sriovpf_bond_ovs_ports = [];
}

-- The first pass. `object_from_json` gives an object, or `none` where it raises
-- SriovVfNotFoundException.
unfoldable pub add_pf : Object → Passes → Passes
unfolding get_sriovpf_member_of_bond_ovs_port is_sriovpf_obj_found
add_pf o s =
    if is_sriovpf_obj_found o
    then record s {
      added = s.added ++ (o ∷ []);
      obj = some o;
      configure_sriov = true;
      sriovpf_bond_ovs_ports = s.sriovpf_bond_ovs_ports ++ get_sriovpf_member_of_bond_ovs_port o;
    }
    else record s { obj = some o }

unfoldable pub first_pass : List (Option Object) → Passes → Passes
unfolding add_pf
first_pass [] s = s
first_pass (none ∷ objs) s = first_pass objs s
first_pass (some o ∷ objs) s = first_pass objs (add_pf o s)

-- The second pass. Where an object is not found in a dry run, `obj` is still the one before; `none`
-- is the error that is raised, also where `obj` has no value yet.
unfoldable pub add_others : Object → Passes → Passes
unfolding is_sriovpf_obj_found
add_others o s =
    if is_sriovpf_obj_found o
    then record s { obj = some o }
    else record s { added = s.added ++ (o ∷ []); obj = some o }

unfoldable pub second_pass : Bool → List (Option Object) → Passes → Option Passes
unfolding add_others
second_pass noop [] s = some s
second_pass noop (some o ∷ objs) s = second_pass noop objs (add_others o s)
second_pass noop (none ∷ objs) s = elim (s.obj) [
  | none ↦ none
  | some o ↦ if noop then second_pass noop objs (add_others o s) else none
]
