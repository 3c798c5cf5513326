-- ===== src/Ifcfg/Provider/Delete.antt =====
-- The `del_` methods of IfcfgNetConfig in os_net_config/impl_ifcfg.py, and `del_object` of NetConfig
-- in os_net_config/__init__.py.
pub mod Trees
use os_net_config.Base.{
  ℕ, zero, suc, ◌+◌, ◌-◌, ◌*◌, ◌/◌, ◌%◌, ◌≤◌, ◌<◌, String, ◌≡◌, refl, sym, ap, ◌∙◌, subst, ◌≢◌, ◌↔◌,
  ◌⊎◌, inl, inr, Bool, true, false, ◌&&◌, ◌||◌, not, Option, none, some, List, [], ◌∷◌, ◌++◌, map,
  arith, if◌then◌else◌, ltb, leb, nat_beq, nat_beq_iff, leb→le, Bool-cases, Option-cases, is_some,
  or_default, Bool-ext, ◌==◌, beq_refl, beq→eq, ne→beq, beq→ne, beq_sym, list_beq, list_beq_iff,
  option_beq, option_beq_iff, nat_eq, str_eq, option_str_eq, Eq, length, length-append, get_elem?,
  take, select, any, all, All, contains, contains-append, contains-select, any_iff, NodupB, find,
  change_first, find-change_first, find-change_first_other, find-test, find-change_first_on,
  find-change_first_on_other, All-map, find-All, bind,
}
use os_net_config.Base.Str.{
  Str, str, newline, starts_with, contains_str, push_first, split, partition, lstrip, strip,
  is_space, is_digit, isdigit, upper, join, int_onto, int, digits_onto, decimal,
}
use os_net_config.Objects.{
  Address, BaseOpts, Kind, Object, Members, node, route_table, nil, cons, name_of, names_of,
  has_members, v4_addresses, v6_addresses, interface, vlan, ivs_interface, ovs_interface,
  nfvswitch_internal, ovs_bridge, ovs_user_bridge, linux_bridge, ivs_bridge, nfvswitch_bridge,
  linux_team, linux_bond, ovs_bond, ovs_tunnel, ovs_patch_port, ib_interface, ib_child_interface,
  sriov_vf, sriov_pf, linux_tap,
}
use os_net_config.Ifcfg.Provider.{Provider}

-- `_del_common`
abbrev pub del_common : BaseOpts → Provider → Provider
del_common b p = record p { remove_iface = p.remove_iface ++ (b.name ∷ []) }

-- `del_sriov_pf`
abbrev pub del_sriov_pf : BaseOpts → Provider → Provider
del_sriov_pf b p = record p { remove_sriov_pfs = p.remove_sriov_pfs ++ (b.name ∷ []) }

-- `del_object`. `none` is an error: the methods for an IvsInterface and an NfvswitchInternal are
-- missing, those for an IvsBridge and an NfvswitchBridge are not implemented, and the branch for
-- all other classes reads an attribute that the module `json` does not have.
unfoldable mutual
  pub del_object : Object → Provider → Option Provider
  del_object (route_table n i) p = some p
  del_object (node b (interface h l e) ms) p = some (del_common b p)
  del_object (node b (vlan i d o e) ms) p = some (del_common b p)
  del_object (node b (ovs_bridge o e) ms) p = bind (del_members ms p) (λ q. some (del_common b q))
  del_object (node b (ovs_user_bridge i o e) ms) p =
      bind (del_members ms p) (λ q. some (del_common b q))
  del_object (node b ivs_bridge ms) p = bind (del_members ms p) (λ q. none)
  del_object (node b (nfvswitch_bridge options) ms) p = bind (del_members ms p) (λ q. none)
  del_object (node b (ovs_bond o e) ms) p = del_members ms (del_common b p)
  del_object (node b (linux_bond o e) ms) p = bind (del_members ms p) (λ q. some (del_common b q))
  del_object (node b (ib_interface e) ms) p = some (del_common b p)
  del_object (node b (ib_child_interface parent i) ms) p = some (del_common b p)
  del_object (node b (sriov_pf m e) ms) p = some (del_sriov_pf b p)
  del_object (node b (sriov_vf d i e) ms) p = some (del_common b p)
  del_object (node b k ms) p = none

  pub del_members : Members → Provider → Option Provider
  del_members nil p = some p
  del_members (cons o ms) p = bind (del_object o p) (del_members ms)
