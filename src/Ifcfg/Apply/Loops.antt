-- ===== src/Ifcfg/Apply/Loops.antt =====
-- The loops of `apply` over plain, IVS, NFVswitch and InfiniBand interfaces.
use os_net_config.Base.{
  ◌&&◌, ◌||◌, some, List, [], ◌∷◌, ◌++◌, if◌then◌else◌, nat_eq, str_eq, option_str_eq, contains,
}
use os_net_config.Base.Str.{Str, str, contains_str}
use os_net_config.Base.Dict.{Dict}
use os_net_config.Ifcfg.Parse.{Files}
use os_net_config.Ifcfg.Apply.{
  diff, verdict, write, interface_path, route_path, route6_path_of, rule_path, note_all, NetConfig,
  Plan, unchanged, restart, in_place, ifcfg_requires_restart,
}

-- The three branches for an ifcfg file of an interface.
unfoldable pub note_interface : Files → Str → Str → Str → Plan → Plan
note_interface fs name path file_data p = elim (verdict fs path file_data) [
  | unchanged ↦ p
  | restart ↦
      write path file_data (record p { restart_interfaces = p.restart_interfaces ++ (name ∷ []) })
  | in_place ↦
      write path file_data
        (record p { apply_interfaces = p.apply_interfaces ++ ((name, path, file_data) ∷ []) })
]

-- What else a changed plain interface needs: Open vSwitch is restarted for a DPDK port that needs
-- a restart, and a DHCP client is stopped where the file does not ask for one.
unfoldable pub note_services : Files → Str → Str → Str → Plan → Plan
note_services fs name path file_data p =
    if diff fs path file_data
    then record p {
      ovs_needs_restart =
          p.ovs_needs_restart
          || (ifcfg_requires_restart fs path file_data && contains_str file_data (str "OVSDPDK"));
      stop_dhclient_interfaces =
          if contains_str file_data (str "BOOTPROTO=dhcp")
          then p.stop_dhclient_interfaces
          else p.stop_dhclient_interfaces ++ (name ∷ []);
    }
    else p

-- The names of the files, and the uplinks of the two virtual switches.
unfoldable pub note_names : NetConfig → Str → Str → Plan → Plan
note_names c name file_data p = record p {
  all_file_names =
      p.all_file_names ++ (interface_path c name ∷ route_path c name ∷ route6_path_of c name ∷ []);
  route6_path = some (route6_path_of c name);
  ivs_uplinks =
      if contains_str file_data (str "IVS_BRIDGE")
      then p.ivs_uplinks ++ (name ∷ [])
      else p.ivs_uplinks;
  nfvswitch_interfaces =
      if contains_str file_data (str "NFVSWITCH_BRIDGE")
      then p.nfvswitch_interfaces ++ (name ∷ [])
      else p.nfvswitch_interfaces;
}

-- All four files of an object.
abbrev pub four_names : NetConfig → Str → List Str
four_names c name =
    interface_path c name ∷ route_path c name ∷ route6_path_of c name ∷ rule_path c name ∷ []

module _ (c : NetConfig) (fs : Files) where
  -- Routes and rules, for what `restart_interfaces` holds.
  abbrev pub note_rest : Str → Plan → Plan
  note_rest name p = note_all c fs (contains p.restart_interfaces name) name p

  unfoldable pub interface_loop : Dict Str Str → Plan → Plan
  interface_loop [] p = p
  interface_loop ((name, iface_data) ∷ rest) p = interface_loop rest (
      note_rest name (
        note_services fs name (interface_path c name) iface_data (
          note_interface fs name (interface_path c name) iface_data
            (note_names c name iface_data p))))

  unfoldable pub ivs_loop : Dict Str Str → Plan → Plan
  ivs_loop [] p = p
  ivs_loop ((name, iface_data) ∷ rest) p = ivs_loop rest (
      note_rest name (
        note_interface fs name (interface_path c name) iface_data (record p {
          all_file_names = p.all_file_names ++ four_names c name;
          route6_path = some (route6_path_of c name);
          ivs_interfaces = p.ivs_interfaces ++ (name ∷ []);
        })))

  unfoldable pub nfvswitch_loop : Dict Str Str → Plan → Plan
  nfvswitch_loop [] p = p
  nfvswitch_loop ((name, iface_data) ∷ rest) p = nfvswitch_loop rest (
      note_rest name (
        note_interface fs name (interface_path c name) iface_data (record p {
          all_file_names = p.all_file_names ++ four_names c name;
          route6_path = some (route6_path_of c name);
          nfvswitch_internal_ifaces = p.nfvswitch_internal_ifaces ++ (name ∷ []);
        })))

  unfoldable pub ib_loop : Dict Str Str → Plan → Plan
  ib_loop [] p = p
  ib_loop ((name, iface_data) ∷ rest) p = ib_loop rest (
      note_rest name (
        note_interface fs name (interface_path c name) iface_data (record p {
          all_file_names = p.all_file_names ++ four_names c name;
          route6_path = some (route6_path_of c name);
          ivs_uplinks =
              if contains_str iface_data (str "IVS_BRIDGE")
              then p.ivs_uplinks ++ (name ∷ [])
              else p.ivs_uplinks;
        })))
