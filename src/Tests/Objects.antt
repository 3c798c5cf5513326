-- ===== src/Tests/Objects.antt =====
-- Objects at work: a bridge of Open vSwitch with a bond, a VLAN and a physical function.
use os_net_config.Base.{
  ℕ, ◌≡◌, refl, true, false, ◌&&◌, ◌||◌, Option, none, some, List, [], ◌∷◌, ◌++◌, map, arith,
  list_beq, nat_eq, str_eq, option_str_eq, select, all, contains, NodupB,
}
use os_net_config.Base.Str.{Str, str, partition, join, decimal}
use os_net_config.Objects.{
  BaseOpts, Object, node, nil, cons, has_members, v4_addresses, v6_addresses, interface, ovs_bridge,
  linux_bridge, linux_bond, sriov_pf, domain_text,
}
use os_net_config.Base.Dict.{get, update, keys, last_of}
use os_net_config.Ifcfg.Parse.{parse_ifcfg, get_file_data}
use os_net_config.Ifcfg.Commands.{link_mtu, iproute2_apply}
use os_net_config.Ifcfg.Changes.{ifcfg_requires_restart}
use os_net_config.Ifcfg.Common.{
  Line, has_items, written, first_lines, kind_lines, master_lines, port_lines, quoted, is_vlan_name,
}
use os_net_config.Ifcfg.Common.Types.{type_lines, ovs_extra_of, reads_mac}
use os_net_config.Ifcfg.Common.Tail.{mtu_lines, static_lines, last_lines, address_lines, v6_lines}
use os_net_config.Ifcfg.Common.Text.{
  head_lines, tail_lines, lines_of, ifcfg_text, primary_mac, add_common,
}
use os_net_config.Ifcfg.Common.Values.{unquoted}
use os_net_config.Ifcfg.Common.Read.{
  AreOneLineValues, are_one_line, parse_ifcfg-add_common, mtu_value,
}
use os_net_config.Ifcfg.Common.Mtu.{with_mtu}
use os_net_config.Ifcfg.Common.Mtu.Command.{with_mtu-in_place}
use os_net_config.Ifcfg.Apply.{NetConfig, Plan, interface_path}
use os_net_config.Ifcfg.Provider.{
  Provider, Slot, data_of, add_objects, interfaces, new_provider, linuxbridges,
}
use os_net_config.Ifcfg.Provider.Tree.{all_files}
use os_net_config.Ifcfg.Provider.Result.{data_of-add_objects}
use os_net_config.Ifcfg.Provider.Delete.{del_object}
use os_net_config.Ifcfg.Provider.Delete.Trees.{
  all_deletable, removed_ifaces, removed_pfs, outcome, del_object_lem,
}
use os_net_config.Cli.{is_sriovpf_obj_found, Passes, before_passes, first_pass, second_pass}
use os_net_config.Cli.Sriov.{
  present, other, any_pf, last_found, is_sriovpf_obj_found-last, passes-added, holds_pf,
}
use os_net_config.Ifcfg.Parse.Print.{print_ifcfg, print_line}
use os_net_config.Ifcfg.Common.Static.{address_value, first_address}
use os_net_config.Ifcfg.Provider.Files.{files_in}
use os_net_config.Ifcfg.Apply.Decide.{decide}
use os_net_config.Ifcfg.Apply.Quiet.{write_files}
use os_net_config.Ifcfg.Provider.Names.{places, all_places, names_at}
use os_net_config.Ifcfg.Provider.Applied.{decide-add_objects}

abbrev options : Str → BaseOpts
options name = record {
  name = name;
  hwaddr = [];
  hwname = [];
  renamed = false;
  mtu = 1500;
  use_dhcp = false;
  use_dhcpv6 = false;
  addresses =
      record {
        ip_netmask = str "10.0.0.1/24";
        ip = str "10.0.0.1";
        netmask = str "255.255.255.0";
        prefixlen = 24;
        version = 4;
      }
      ∷ [];
  routes = [];
  rules = [];
  primary = false;
  defroute = true;
  dhclient_args = [];
  dns_servers = [];
  domain = domain_text [];
  nm_controlled = false;
  onboot = true;
  bridge_name = [];
  linux_bridge_name = [];
  ivs_bridge_name = [];
  nfvswitch_bridge_name = [];
  linux_bond_name = [];
  linux_team_name = [];
  ovs_port = false;
  primary_interface_name = [];
}

abbrev em1 : Object
em1 = node (options (str "em1")) (interface false [] []) nil

abbrev pf : Object
pf = node (options (str "pf1")) (sriov_pf (str "legacy") []) nil

abbrev bond : Object
bond = node (options (str "bond1")) (linux_bond [] []) (cons pf nil)

-- The physical function is in the bond, and an interface comes behind the bond.
abbrev bridge : Object
bridge = node (options (str "br1")) (ovs_bridge [] []) (cons bond (cons em1 nil))

abbrev macs : Str → Option Str
macs name = some (str "52:54:00:00:00:01")

abbrev lines_with : ℕ → List Line
lines_with m = lines_of (with_mtu (options (str "em1")) m) (interface false [] []) [] []

-- Two MTUs of four digits
are_lines : (AreOneLineValues (lines_with 1500)) × (AreOneLineValues (lines_with 9000))
unfolding lines_of head_lines tail_lines mtu_lines static_lines last_lines first_lines kind_lines
    master_lines port_lines type_lines ovs_extra_of address_lines v6_lines v4_addresses v6_addresses
    select all contains str list_beq decimal quoted join
are_lines = (are_one_line (lines_with 1500) refl, are_one_line (lines_with 9000) refl)

em1_text :
    add_common macs (options (str "em1")) (interface false [] []) []
    ≡ some (
        str
          "# This file is autogenerated by os-net-config\nDEVICE=em1\nONBOOT=yes\nHOTPLUG=no\nNM_CONTROLLED=no\nPEERDNS=no\nMTU=1500\nBOOTPROTO=static\nIPADDR=10.0.0.1\nNETMASK=255.255.255.0\n")
unfolding add_common lines_of ifcfg_text primary_mac reads_mac head_lines tail_lines mtu_lines
    static_lines last_lines first_lines kind_lines master_lines port_lines type_lines ovs_extra_of
    address_lines v6_lines v4_addresses v6_addresses select written print_ifcfg print_line str
    decimal is_vlan_name partition has_items
em1_text = refl

parse_ifcfg-add_common_example :
    (s : Str) × (add_common macs (options (str "em1")) (interface false [] []) [] ≡ some s)
    × (get (parse_ifcfg s) (str "DEVICE") ≡ some (unquoted (str "em1")))
    × (get (parse_ifcfg s) (str "ONBOOT") ≡ some (str "yes"))
    × (get (parse_ifcfg s) (str "MTU") ≡ mtu_value (options (str "em1")))
    × (get (parse_ifcfg s) (str "IPADDR")
        ≡ address_value (λ a. a.ip) (first_address (options (str "em1"))))
    × (get (parse_ifcfg s) (str "NETMASK")
        ≡ address_value (λ a. a.netmask) (first_address (options (str "em1"))))
parse_ifcfg-add_common_example =
    parse_ifcfg-add_common macs (options (str "em1")) (interface false [] []) [] []
      (unfold primary_mac reads_mac in refl) are_lines.0

-- The MTU of the interface goes from 1500 to 9000.
with_mtu-in_place_example :
    (ifcfg_requires_restart
        ((str "ifcfg-em1", ifcfg_text (lines_with 1500)) ∷ [])
        (str "ifcfg-em1")
        (ifcfg_text (lines_with 9000))
      ≡ false)
    × (iproute2_apply
          (λ netmask. 24)
          ((str "ifcfg-em1", ifcfg_text (lines_with 1500)) ∷ [])
          (str "em1")
          (str "ifcfg-em1")
          (ifcfg_text (lines_with 9000))
        ≡ link_mtu (str "em1") (decimal 9000) ∷ [])
with_mtu-in_place_example =
    with_mtu-in_place (options (str "em1")) 9000 (interface false [] []) [] []
      (unfold v6_addresses select in refl) (omega arith) (omega arith) (omega arith) (λ netmask. 24)
      ((str "ifcfg-em1", ifcfg_text (lines_with 1500)) ∷ []) (str "ifcfg-em1") (str "em1")
      (unfold get_file_data get list_beq str in refl) are_lines.0 are_lines.1

abbrev nothing : NetConfig
nothing = record {
  root_dir = [];
  interface_data = [];
  ivsinterface_data = [];
  nfvswitch_intiface_data = [];
  vlan_data = [];
  ib_childs_data = [];
  ib_interface_data = [];
  route_data = [];
  route6_data = [];
  rule_data = [];
  bridge_data = [];
  linuxbridge_data = [];
  linuxbond_data = [];
  linuxteam_data = [];
  member_names = [];
}

abbrev provider : Provider
provider = record {
  config = nothing;
  route_table_data = [];
  renamed_interfaces = [];
  bond_primary_ifaces = [];
  nfvswitch_options = none;
  remove_iface = [];
  remove_sriov_pfs = [];
}

data_of-add_objects_example :
    (q : Provider) × (add_objects macs (bridge ∷ []) provider ≡ some q)
    × ((slot : Slot)
        → data_of q.config slot ≡ update (data_of nothing slot) (all_files macs slot (bridge ∷ [])))
data_of-add_objects_example = data_of-add_objects macs (bridge ∷ []) provider (λ name. refl)

-- The names that are in the dict for interfaces afterwards: the physical function of the bond,
-- and the interface behind it.
names_of_files : keys (all_files macs interfaces (bridge ∷ [])) ≡ str "pf1" ∷ str "em1" ∷ []
unfolding keys files_in has_members
names_of_files = refl

del_object_lem_example :
    del_object bridge provider
    ≡ outcome (all_deletable bridge) provider (removed_ifaces bridge) (removed_pfs bridge)
del_object_lem_example = del_object_lem bridge provider

deleted_names :
    (all_deletable bridge ≡ true)
    × (removed_ifaces bridge ≡ str "bond1" ∷ str "em1" ∷ str "br1" ∷ [])
    × (removed_pfs bridge ≡ str "pf1" ∷ [])
unfolding all_deletable removed_ifaces removed_pfs has_members
deleted_names = (refl, refl, refl)

-- A bridge of Linux cannot be deleted.
linux_bridge_fails : del_object (node (options (str "br2")) linux_bridge nil) provider ≡ none
unfolding del_object
linux_bridge_fails = refl

is_sriovpf_obj_found-last_example : is_sriovpf_obj_found bridge ≡ (
    has_members (ovs_bridge [] [])
    && (any_pf (cons bond (cons em1 nil)) || last_found false (cons bond (cons em1 nil))))
is_sriovpf_obj_found-last_example =
    is_sriovpf_obj_found-last (options (str "br1")) (ovs_bridge [] []) (cons bond (cons em1 nil))
      refl

-- The physical function in the bond is overlooked, since the interface is the last member.
overlooked : (is_sriovpf_obj_found bridge ≡ false) × (holds_pf bridge ≡ true)
unfolding is_sriovpf_obj_found holds_pf has_members
overlooked = (refl, refl)

passes-added_example :
    (s : Passes) × (second_pass false
        (map some (pf ∷ em1 ∷ []))
        (first_pass (some pf ∷ none ∷ []) before_passes)
      ≡ some s)
    × (s.added
        ≡ select is_sriovpf_obj_found (present (some pf ∷ none ∷ []))
          ++ select other (pf ∷ em1 ∷ []))
passes-added_example = passes-added false (some pf ∷ none ∷ []) (pf ∷ em1 ∷ [])

abbrev root : Str
root = str "/"

names_differ : NodupB (names_at (all_places (bridge ∷ [])))
unfolding places contains has_members list_beq str
names_differ = (refl, (refl, (refl, (refl, tt))))

no_linux_bridge : all_files macs linuxbridges (bridge ∷ []) ≡ []
unfolding files_in has_members
no_linux_bridge = refl

decide-add_objects_example :
    (q : Provider) × (plan : Plan) × (add_objects macs (bridge ∷ []) (new_provider root) ≡ some q)
    × (decide 3 q.config [] ≡ some plan)
    × ((slot : Slot) (n text : Str)
        → last_of (all_files macs slot (bridge ∷ [])) n none ≡ some text
        → get_file_data (write_files plan.update_files []) (interface_path q.config n) ≡ text)
decide-add_objects_example =
    decide-add_objects macs (bridge ∷ []) root 3 [] (λ name. refl) names_differ no_linux_bridge
