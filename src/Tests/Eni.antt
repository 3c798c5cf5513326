-- ===== src/Tests/Eni.antt =====
-- The eni provider at work: an interface and a VLAN on a bridge.
use os_net_config.Base.{
  ◌≡◌, refl, sym, ap, ◌∙◌, subst, Bool, true, false, not, Option, some, List, [], ◌∷◌, ◌++◌, map,
  ◌==◌, list_beq, nat_eq, str_eq, option_str_eq, select, All, contains, bind,
}
use os_net_config.Base.Str.{Str, str, decimal}
use os_net_config.Base.Dict.{get, keys, put}
use os_net_config.Sriov.Lines.{IsLine, write_lines}
use os_net_config.Ifcfg.Common.{has_items}
use os_net_config.Ifcfg.Parse.{get_file_data}
use os_net_config.Ifcfg.Apply.{diff}
use os_net_config.Objects.{
  Address, BaseOpts, nil, domain_text, v4_addresses, v6_addresses, interface,
}
use os_net_config.Eni.{
  iface_name, family_of, method_of, iface_line, address_data, start_lines, class_lines, mtu_line,
  extra_of, option_lines, stanza, stanzas, data_lines,
}
use os_net_config.Eni.Provider.{
  EniNetConfig, Networks, Links, ifdown, write_config, ifup, add_eni_interface, add_eni_routes,
  new_config, config_of, network_config_path, apply_eni,
}
use os_net_config.Eni.Settles.{before, failures, apply_eni-commands}
use os_net_config.Eni.Twice.{apply_eni_twice, apply_eni-noop}
use os_net_config.Eni.Read.{read_interfaces, shown, wanted_stanza}
use os_net_config.Eni.Read.Whole.{read_interfaces-add_eni_interface}
use mathlib.Core.Option.{some-injective}

abbrev options : Str → List Address → BaseOpts
options name addresses = record {
  name = name;
  hwaddr = [];
  hwname = [];
  renamed = false;
  mtu = 1500;
  use_dhcp = false;
  use_dhcpv6 = false;
  addresses = addresses;
  routes = [];
  rules = [];
  primary = false;
  defroute = true;
  dhclient_args = [];
  dns_servers = [];
  domain = domain_text [];
  nm_controlled = false;
  onboot = true;
  bridge_name = [];
  linux_bridge_name = [];
  ivs_bridge_name = [];
  nfvswitch_bridge_name = [];
  linux_bond_name = [];
  linux_team_name = [];
  ovs_port = false;
  primary_interface_name = [];
}

abbrev v4 : Address
v4 = record {
  ip_netmask = str "10.0.0.1/24";
  ip = str "10.0.0.1";
  netmask = str "255.255.255.0";
  prefixlen = 24;
  version = 4;
}

abbrev v6 : Address
v6 = record {
  ip_netmask = str "2001::1/64";
  ip = str "2001::1";
  netmask = str "ffff:ffff:ffff:ffff::";
  prefixlen = 64;
  version = 6;
}

abbrev em1 : BaseOpts
em1 = options (str "em1") (v6 ∷ v4 ∷ [])

abbrev macs : Str → Option Str
macs name = some (str "52:54:00:00:00:01")

abbrev networks : Networks
networks text = some (text, str "255.255.255.0")

abbrev provider : Bool → EniNetConfig
provider noop = record {
  noop = noop;
  root_dir = [];
  interfaces = (str "em1", str "iface em1 inet manual\n") ∷ [];
  routes = [];
  bridges = (str "br1", str "iface br1 inet manual\n") ∷ [];
}

abbrev em1_lines : List Str
em1_lines =
    str "auto em1"
    ∷ str "iface em1 inet static"
    ∷ str "    address 10.0.0.1"
    ∷ str "    netmask 255.255.255.0"
    ∷ str "    mtu 1500"
    ∷ str "auto em1"
    ∷ str "iface em1 inet6 static"
    ∷ str "    address 2001::1"
    ∷ str "    netmask 64"
    ∷ str "    mtu 1500"
    ∷ []

em1_data : data_lines macs em1 (interface false [] []) nil ≡ some em1_lines
unfolding data_lines stanzas stanza iface_name family_of method_of iface_line address_data
    start_lines class_lines mtu_line option_lines v4_addresses v6_addresses select decimal str
    extra_of
em1_data = refl

em1_IsLine : All IsLine em1_lines
unfolding contains str
em1_IsLine = (refl, (refl, (refl, (refl, (refl, (refl, (refl, (refl, (refl, (refl, tt))))))))))

em1_has_address : has_items (v4_addresses em1 ++ v6_addresses em1) ≡ true
unfolding v4_addresses v6_addresses select
em1_has_address = refl

em1_no_space : contains (iface_name em1 (interface false [] [])) b' ' ≡ false
unfolding contains iface_name str
em1_no_space = refl

abbrev with_em1 : EniNetConfig
with_em1 = record (provider false) { interfaces = (str "em1", write_lines em1_lines) ∷ [] }

em1_added :
    add_eni_interface macs networks em1 (interface false [] []) nil (provider false) ≡ some with_em1
unfolding add_eni_interface add_eni_routes put list_beq str
em1_added =
    ap
      (λ o. bind o (λ lines. add_eni_routes networks em1 (record (provider false) {
        interfaces = put (provider false).interfaces (str "em1") (write_lines lines);
      })))
      em1_data

read_interfaces-add_eni_interface_example :
    (text : Str) × (get with_em1.interfaces em1.name ≡ some text)
    × (map shown (read_interfaces text)
        ≡ map (wanted_stanza em1 (interface false [] []) 4) (v4_addresses em1)
          ++ map (wanted_stanza em1 (interface false [] []) 6) (v6_addresses em1))
read_interfaces-add_eni_interface_example =
    read_interfaces-add_eni_interface macs em1 (interface false [] []) nil em1_no_space networks
      (provider false) with_em1 em1_has_address
      (λ lines h. subst (All IsLine) (some-injective _ _ (sym em1_data ∙ h)) em1_IsLine) em1_added

-- The bridge does not come up.
abbrev links : Links
links = record { is_down = λ name. true; is_up = λ name. not (name == str "br1") }

is_changed : diff [] (network_config_path []) (new_config (provider false)) ≡ true
unfolding diff get_file_data get network_config_path new_config config_of list_beq str
is_changed = refl

apply_eni-commands_example : apply_eni (provider false) links true (before []) ≡ record {
  files = (network_config_path [], new_config (provider false)) ∷ [];
  commands =
      ifdown (str "em1")
      ∷ ifdown (str "br1")
      ∷ write_config (network_config_path []) (new_config (provider false))
      ∷ ifup (str "br1")
      ∷ ifup (str "em1")
      ∷ [];
  errors = failures (provider false) links (str "br1" ∷ str "em1" ∷ []);
  raised = has_items (failures (provider false) links (str "br1" ∷ str "em1" ∷ []));
}
unfolding keys put
apply_eni-commands_example = apply_eni-commands (provider false) links [] (λ name. refl) is_changed

failed : failures (provider false) links (str "br1" ∷ str "em1" ∷ []) ≡ str "br1" ∷ []
unfolding failures select list_beq str
failed = refl

apply_eni_twice_example :
    (get_file_data
        (apply_eni (provider false) links true (before [])).files
        (network_config_path [])
      ≡ new_config (provider false))
    × ((now : Links) (again : Bool)
        → apply_eni
            (provider false)
            now
            again
            (before (apply_eni (provider false) links true (before [])).files)
          ≡ before (apply_eni (provider false) links true (before [])).files)
apply_eni_twice_example = apply_eni_twice (provider false) links [] true refl (λ name. refl)

apply_eni-noop_example :
    ((apply_eni (provider true) links true (before [])).files ≡ [])
    × ((apply_eni (provider true) links true (before [])).raised ≡ false)
apply_eni-noop_example = apply_eni-noop (provider true) links [] true refl
