-- ===== src/Ifcfg/Apply/Bridges.antt =====
-- The loops of `apply` over Open vSwitch bridges, Linux bridges, teams and Linux bonds, whose
-- members are restarted with them.
use os_net_config.Base.{
  ℕ, Bool, Option, none, some, List, [], ◌∷◌, ◌++◌, if◌then◌else◌, nat_eq, str_eq, option_str_eq,
  any, contains,
}
use os_net_config.Base.Str.{Str}
use os_net_config.Base.Dict.{Dict, put}
use os_net_config.Ifcfg.Parse.{Files}
use os_net_config.Ifcfg.Apply.{
  diff, verdict, append_new, append_children, write, write_if_new, note_routes, note_rules,
  interface_path, route_path, route6_path_of, rule_path, routes_of, routes6_of, rules_of, NetConfig,
  Plan, unchanged, restart, in_place,
}
use os_net_config.Ifcfg.Apply.Children.{child_members}
use os_net_config.Ifcfg.Apply.Loops.{four_names, note_rest}

module _ (fuel : ℕ) (c : NetConfig) (fs : Files) where
  abbrev pub children : Str → List Str
  children name = child_members fuel c.member_names name

  -- The three branches for the ifcfg file of a bridge of either kind.
  unfoldable pub note_bridge : Str → Str → Plan → Plan
  note_bridge name bridge_data p = elim (verdict fs (interface_path c name) bridge_data) [
    | unchanged ↦ p
    | restart ↦ write (interface_path c name) bridge_data (record p {
      restart_bridges = p.restart_bridges ++ (name ∷ []);
      restart_interfaces = append_children p.restart_interfaces (children name);
    })
    | in_place ↦ write (interface_path c name) bridge_data (record p {
      apply_bridges = p.apply_bridges ++ ((name, interface_path c name, bridge_data) ∷ []);
    })
  ]

  abbrev pub with_names : Str → Plan → Plan
  with_names name p = record p { all_file_names = p.all_file_names ++ four_names c name }

  -- The routes of a bridge are held back if `restart_interfaces` has its name.
  unfoldable pub bridge_loop : Dict Str Str → Plan → Plan
  bridge_loop [] p = p
  bridge_loop ((name, bridge_data) ∷ rest) p =
      bridge_loop rest (note_rest c fs name (note_bridge name bridge_data (with_names name p)))

  -- The IPv6 routes of a Linux bridge are compared with the file that an earlier loop looked at
  -- last, in `route6_path`.
  abbrev pub linuxbridge_files : Str → Str → Plan → Plan
  linuxbridge_files route6_path name p =
      let restarts = contains p.restart_bridges name in
      let q = note_routes fs restarts name (route_path c name) (routes_of c name) p in
      let r = write (route6_path_of c name) (routes6_of c name) q in
      note_rules fs restarts name (rule_path c name) (rules_of c name) (
        if diff fs route6_path (routes6_of c name)
        then if restarts
          then r
          else record r { apply_routes = r.apply_routes ++ ((name, routes6_of c name) ∷ []) }
        else q)

  -- `none` is the error that Python raises where no earlier loop has set `route6_path`.
  unfoldable pub linuxbridge_loop : Dict Str Str → Plan → Option Plan
  linuxbridge_loop [] p = some p
  linuxbridge_loop ((name, bridge_data) ∷ rest) p = elim p.route6_path [
    | none ↦ none
    | some path ↦
        linuxbridge_loop rest
          (linuxbridge_files path name (note_bridge name bridge_data (with_names name p)))
  ]

  -- The rules of a team and of a bond are written and never applied in place.
  abbrev pub note_without_rules : Bool → Str → Plan → Plan
  note_without_rules restarts name p = write_if_new fs (rule_path c name) (rules_of c name) (
      note_routes fs restarts name (route6_path_of c name) (routes6_of c name)
        (note_routes fs restarts name (route_path c name) (routes_of c name) p))

  unfoldable pub note_team : Str → Str → Plan → Plan
  note_team name team_data p = elim (verdict fs (interface_path c name) team_data) [
    | unchanged ↦ p
    | restart ↦ write (interface_path c name) team_data (record p {
      restart_linux_teams = p.restart_linux_teams ++ (name ∷ []);
      restart_interfaces = append_children p.restart_interfaces (children name);
    })
    | in_place ↦ write (interface_path c name) team_data (record p {
      apply_interfaces = p.apply_interfaces ++ ((name, interface_path c name, team_data) ∷ []);
    })
  ]

  unfoldable pub team_loop : Dict Str Str → Plan → Plan
  team_loop [] p = p
  team_loop ((name, team_data) ∷ rest) p =
      let q = note_team name team_data (with_names name p) in
      team_loop rest (note_without_rules (contains q.restart_linux_teams name) name q)

  -- An unchanged bond is restarted if one of its members is.
  unfoldable pub note_bond : Str → Str → Plan → Plan
  note_bond name bond_data p = elim (verdict fs (interface_path c name) bond_data) [
    | unchanged ↦
        if any (λ child. contains p.restart_interfaces child) (children name)
        then record p { restart_linux_bonds = append_new p.restart_linux_bonds name }
        else p
    | restart ↦ write (interface_path c name) bond_data (record p {
      restart_linux_bonds = p.restart_linux_bonds ++ (name ∷ []);
      restart_interfaces = append_children p.restart_interfaces (children name);
    })
    | in_place ↦ write (interface_path c name) bond_data (record p {
      apply_interfaces = p.apply_interfaces ++ ((name, interface_path c name, bond_data) ∷ []);
    })
  ]

  abbrev pub with_children : Str → Plan → Plan
  with_children name p = record p {
    linux_bond_children = put p.linux_bond_children name (children name);
  }

  unfoldable pub bond_loop : Dict Str Str → Plan → Plan
  bond_loop [] p = p
  bond_loop ((name, bond_data) ∷ rest) p =
      let q = note_bond name bond_data (with_children name (with_names name p)) in
      bond_loop rest (note_without_rules (contains q.restart_linux_bonds name) name q)
