-- ===== src/Ifcfg/Apply/Vlans.antt =====
-- The loops of `apply` over VLANs and InfiniBand children, which are restarted with the device
-- below them.
use os_net_config.Base.{
  Bool, false, Option, none, some, List, [], ◌∷◌, ◌++◌, if◌then◌else◌, nat_eq, str_eq,
  option_str_eq, contains,
}
use os_net_config.Base.Str.{Str, str}
use os_net_config.Base.Dict.{Dict, get}
use os_net_config.Ifcfg.Parse.{Files, parse_ifcfg}
use os_net_config.Ifcfg.Apply.{
  verdict, append_new, write, interface_path, note_all, NetConfig, Plan, unchanged, restart,
  in_place,
}
use os_net_config.Ifcfg.Apply.Loops.{four_names}

-- `itertools.chain(restart_interfaces, restart_bridges, restart_linux_bonds, restart_linux_teams)`
abbrev pub restarts_of : Plan → List Str
restarts_of p =
    p.restart_interfaces ++ (p.restart_bridges ++ (p.restart_linux_bonds ++ p.restart_linux_teams))

-- A file without PHYSDEV gives `None`, which no list of names holds.
unfoldable pub device_in : Option Str → List Str → Bool
device_in none restarts = false
device_in (some device) restarts = contains restarts device

-- `self.parse_ifcfg(data).get('PHYSDEV') in restarts`
unfoldable pub device_restarts : Str → Plan → Bool
unfolding device_in
device_restarts file_data p =
    device_in (get (parse_ifcfg file_data) (str "PHYSDEV")) (restarts_of p)

module _ (c : NetConfig) (fs : Files) where
  unfoldable pub note_vlan : Str → Str → Plan → Plan
  note_vlan name vlan_data p =
      let path = interface_path c name in
      if device_restarts vlan_data p
      then write path vlan_data (record p { restart_vlans = append_new p.restart_vlans name })
      else elim (verdict fs path vlan_data) [
        | unchanged ↦ p
        | restart ↦
            write path vlan_data (record p { restart_vlans = p.restart_vlans ++ (name ∷ []) })
        | in_place ↦
            write path vlan_data
              (record p { apply_interfaces = p.apply_interfaces ++ ((name, path, vlan_data) ∷ []) })
      ]

  unfoldable pub vlan_loop : Dict Str Str → Plan → Plan
  vlan_loop [] p = p
  vlan_loop ((name, vlan_data) ∷ rest) p =
      let q =
        note_vlan name vlan_data
          (record p { all_file_names = p.all_file_names ++ four_names c name }) in
      vlan_loop rest (note_all c fs (contains q.restart_vlans name) name q)

  unfoldable pub note_ib_child : Str → Str → Plan → Plan
  note_ib_child name ib_child_data p =
      let path = interface_path c name in
      if device_restarts ib_child_data p
      then write path ib_child_data
          (record p { restart_ib_childs = append_new p.restart_ib_childs name })
      else elim (verdict fs path ib_child_data) [
        | unchanged ↦ p
        | restart ↦
            write path ib_child_data
              (record p { restart_ib_childs = p.restart_ib_childs ++ (name ∷ []) })
        | in_place ↦ write path ib_child_data (record p {
          apply_interfaces = p.apply_interfaces ++ ((name, path, ib_child_data) ∷ []);
        })
      ]

  unfoldable pub ib_child_loop : Dict Str Str → Plan → Plan
  ib_child_loop [] p = p
  ib_child_loop ((name, ib_child_data) ∷ rest) p =
      let q =
        note_ib_child name ib_child_data
          (record p { all_file_names = p.all_file_names ++ four_names c name }) in
      ib_child_loop rest (note_all c fs (contains q.restart_ib_childs name) name q)
