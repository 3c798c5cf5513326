-- ===== src/Ifcfg/Apply.antt =====
-- `IfcfgNetConfig.apply` of os_net_config/impl_ifcfg.py up to the point where commands are run:
-- which files are rewritten, and which interfaces are restarted or changed in place. This file
-- has the state and the pieces that the loops of `apply` have in common.
pub mod Children
pub mod Loops
pub mod Bridges
pub mod Vlans
pub mod Decide
pub mod Updates
pub mod Settled
pub mod Quiet
pub mod Second
pub mod Stale
pub mod Crossed
pub mod Names
use os_net_config.Base.{
  ℕ, zero, suc, ◌+◌, ◌-◌, ◌*◌, ◌/◌, ◌%◌, ◌≤◌, ◌<◌, String, ◌≡◌, refl, sym, ap, ◌∙◌, subst, ◌≢◌, ◌↔◌,
  ◌⊎◌, inl, inr, Bool, true, false, ◌&&◌, ◌||◌, not, Option, none, some, List, [], ◌∷◌, ◌++◌, map,
  arith, if◌then◌else◌, ltb, leb, nat_beq, nat_beq_iff, leb→le, Bool-cases, Option-cases, is_some,
  or_default, Bool-ext, ◌==◌, beq_refl, beq→eq, ne→beq, beq→ne, beq_sym, list_beq, list_beq_iff,
  option_beq, option_beq_iff, nat_eq, str_eq, option_str_eq, Eq, length, length-append, get_elem?,
  select, any, all, All, contains, contains-append, contains-select, any_iff, NodupB,
}
use os_net_config.Base.Str.{
  Str, str, newline, starts_with, contains_str, push_first, split, partition, lstrip, strip,
  is_space, is_digit, isdigit, upper, join, int_onto, int, digits_onto, decimal,
}
use os_net_config.Base.Dict.{
  Dict, keys, values, get, has, put, get-put, has-put, has-eq-is_some, contains-keys, dict_laws,
}
use os_net_config.Ifcfg.Parse.{
  Files, get_file_data, is_quote, key_value, parse_line, enter, parse_lines, parse_ifcfg,
}
use os_net_config.Ifcfg.Changes.{
  note_old, old_changes, new_changes, enumerate_ifcfg_changes, permitted_changes, boot_protocols,
  moves_to_dhcp, forces_restart, ifcfg_requires_restart, Change, modified, removed, added,
}

-- What the `add_` methods have collected: the file contents by the name of the object.
pub record NetConfig : Type 0 where
  pub root_dir : Str
  pub interface_data : Dict Str Str
  pub ivsinterface_data : Dict Str Str
  pub nfvswitch_intiface_data : Dict Str Str
  pub vlan_data : Dict Str Str
  pub ib_childs_data : Dict Str Str
  pub ib_interface_data : Dict Str Str
  pub route_data : Dict Str Str
  pub route6_data : Dict Str Str
  pub rule_data : Dict Str Str
  pub bridge_data : Dict Str Str
  pub linuxbridge_data : Dict Str Str
  pub linuxbond_data : Dict Str Str
  pub linuxteam_data : Dict Str Str
  pub member_names : Dict Str (List Str)

-- The local variables of `apply` that its loops fill. `route6_path` is the variable of that name,
-- which one loop reads after another has set it.
pub record Plan : Type 0 where
  pub restart_interfaces : List Str
  pub restart_vlans : List Str
  pub restart_ib_childs : List Str
  pub restart_bridges : List Str
  pub restart_linux_bonds : List Str
  pub restart_linux_teams : List Str
  pub apply_interfaces : List (Str × Str × Str)
  pub apply_bridges : List (Str × Str × Str)
  pub apply_routes : List (Str × Str)
  pub apply_rules : List (Str × Str)
  pub update_files : Dict Str Str
  pub all_file_names : List Str
  pub linux_bond_children : Dict Str (List Str)
  pub ivs_uplinks : List Str
  pub ivs_interfaces : List Str
  pub nfvswitch_interfaces : List Str
  pub nfvswitch_internal_ifaces : List Str
  pub stop_dhclient_interfaces : List Str
  pub ovs_needs_restart : Bool
  pub route6_path : Option Str

abbrev pub no_changes : Plan
no_changes = record {
  restart_interfaces = [];
  restart_vlans = [];
  restart_ib_childs = [];
  restart_bridges = [];
  restart_linux_bonds = [];
  restart_linux_teams = [];
  apply_interfaces = [];
  apply_bridges = [];
  apply_routes = [];
  apply_rules = [];
  update_files = [];
  all_file_names = [];
  linux_bond_children = [];
  ivs_uplinks = [];
  ivs_interfaces = [];
  nfvswitch_interfaces = [];
  nfvswitch_internal_ifaces = [];
  stop_dhclient_interfaces = [];
  ovs_needs_restart = false;
  route6_path = none;
}

unfoldable pub ifcfg_config_path : Str → Str
ifcfg_config_path name = str "/etc/sysconfig/network-scripts/ifcfg-" ++ name

unfoldable pub route_config_path : Str → Str
route_config_path name = str "/etc/sysconfig/network-scripts/route-" ++ name

unfoldable pub route6_config_path : Str → Str
route6_config_path name = str "/etc/sysconfig/network-scripts/route6-" ++ name

unfoldable pub route_rule_config_path : Str → Str
route_rule_config_path name = str "/etc/sysconfig/network-scripts/rule-" ++ name

-- `utils.diff`
unfoldable pub diff : Files → Str → Str → Bool
diff fs filename new_data = not (get_file_data fs filename == new_data)

-- What is done about one ifcfg file.
pub data Verdict : Type 0 where
  unchanged restart in_place : Verdict

unfoldable pub verdict : Files → Str → Str → Verdict
verdict fs path new_data =
    if diff fs path new_data
    then if ifcfg_requires_restart fs path new_data then restart else in_place
    else unchanged

-- `if name not in xs: xs.append(name)`
abbrev pub append_new : List Str → Str → List Str
append_new xs name = if contains xs name then xs else xs ++ (name ∷ [])

-- `for child in children: if child not in restart_interfaces: restart_interfaces.append(child)`
unfoldable pub append_children : List Str → List Str → List Str
append_children xs [] = xs
append_children xs (child ∷ children) = append_children (append_new xs child) children

-- `update_files[path] = data`
abbrev pub write : Str → Str → Plan → Plan
write path file_data p = record p { update_files = put p.update_files path file_data }

-- `if utils.diff(path, data): update_files[path] = data`
unfoldable pub write_if_new : Files → Str → Str → Plan → Plan
write_if_new fs path file_data p = if diff fs path file_data then write path file_data p else p

-- The block for one route file. Routes of what is restarted need no command.
unfoldable pub note_routes : Files → Bool → Str → Str → Str → Plan → Plan
note_routes fs restarts name path file_data p =
    let q = write path file_data p in
    if diff fs path file_data
    then if restarts
      then q
      else record q { apply_routes = q.apply_routes ++ ((name, file_data) ∷ []) }
    else p

-- The block for one rule file.
unfoldable pub note_rules : Files → Bool → Str → Str → Str → Plan → Plan
note_rules fs restarts name path file_data p =
    let q = write path file_data p in
    if diff fs path file_data
    then if restarts
      then q
      else record q { apply_rules = q.apply_rules ++ ((name, file_data) ∷ []) }
    else p

module _ (c : NetConfig) (name : Str) where
  abbrev pub interface_path : Str
  interface_path = c.root_dir ++ ifcfg_config_path name

  abbrev pub route_path : Str
  route_path = c.root_dir ++ route_config_path name

  abbrev pub route6_path_of : Str
  route6_path_of = c.root_dir ++ route6_config_path name

  abbrev pub rule_path : Str
  rule_path = c.root_dir ++ route_rule_config_path name

  abbrev pub routes_of : Str
  routes_of = or_default (get c.route_data name) []

  abbrev pub routes6_of : Str
  routes6_of = or_default (get c.route6_data name) []

  abbrev pub rules_of : Str
  rules_of = or_default (get c.rule_data name) []

-- Both route files and the rule file, by their own paths.
abbrev pub note_all : NetConfig → Files → Bool → Str → Plan → Plan
note_all c fs restarts name p = note_rules fs restarts name (rule_path c name) (rules_of c name) (
    note_routes fs restarts name (route6_path_of c name) (routes6_of c name)
      (note_routes fs restarts name (route_path c name) (routes_of c name) p))
