-- ===== src/Tests/Build.antt =====
-- The constructors of objects at work: an alias with a VLAN, and a bridge with a primary member.
use os_net_config.Base.{
  ◌≡◌, refl, Bool, true, false, Option, some, [], ◌∷◌, ◌++◌, list_beq, nat_eq, str_eq,
  option_str_eq, contains, bind,
}
use os_net_config.Base.Str.{Str, str, split, decimal}
use os_net_config.Base.Dict.{Dict, get}
use os_net_config.Objects.{
  BaseOpts, Members, node, nil, cons, domain_text, interface, linux_bridge, linux_team,
}
use os_net_config.Objects.Build.{
  fresh, with_nic, base_name, init_opts, in_bridge, in_team, init_linux_bridge, init_linux_team,
}
use os_net_config.Objects.Alias.{init_opts-vlan}
use os_net_config.Objects.Primary.{
  primary_name, primaries, AreNamed, assigned, only, init_linux_lem,
}

abbrev arguments : Str → Bool → BaseOpts
arguments name primary = record {
  name = name;
  hwaddr = [];
  hwname = [];
  renamed = false;
  mtu = 1500;
  use_dhcp = true;
  use_dhcpv6 = false;
  addresses = [];
  routes = [];
  rules = [];
  primary = primary;
  defroute = true;
  dhclient_args = [];
  dns_servers = [];
  domain = domain_text [];
  nm_controlled = false;
  onboot = true;
  bridge_name = [];
  linux_bridge_name = [];
  ivs_bridge_name = [];
  nfvswitch_bridge_name = [];
  linux_bond_name = [];
  linux_team_name = [];
  ovs_port = false;
  primary_interface_name = [];
}

abbrev mapped_nic_names : Dict Str Str
mapped_nic_names = (str "nic1", str "em1") ∷ []

abbrev macs : Str → Option Str
macs name = some (str "52:54:00:00:00:01")

nic1_no_dot : contains (str "nic1") b'.' ≡ false
unfolding contains str
nic1_no_dot = refl

nic1_mapped : get mapped_nic_names (str "nic1") ≡ some (str "em1")
unfolding get list_beq str
nic1_mapped = refl

init_opts-vlan_example :
    (init_opts mapped_nic_names macs false (arguments (str "nic1" ++ (b'.' ∷ decimal 10)) false)
      ≡ some (record (fresh (arguments (str "nic1" ++ (b'.' ∷ decimal 10)) false)) {
        name = str "em1" ++ (b'.' ∷ decimal 10);
      }))
    × (init_opts mapped_nic_names macs true (arguments (str "nic1" ++ (b'.' ∷ decimal 10)) false)
        ≡ some (record (fresh (arguments (str "nic1" ++ (b'.' ∷ decimal 10)) false)) {
          hwname = str "em1" ++ (b'.' ∷ decimal 10);
          hwaddr = str "52:54:00:00:00:01";
          renamed = true;
        }))
init_opts-vlan_example =
    init_opts-vlan (str "nic1") 10 nic1_no_dot mapped_nic_names macs
      (arguments (str "nic1" ++ (b'.' ∷ decimal 10)) false) (str "em1") (str "52:54:00:00:00:01")
      nic1_mapped refl refl

abbrev members : Members
members =
    cons (node (arguments (str "em1") false) (interface false [] []) nil)
      (cons (node (arguments (str "em2") true) (interface false [] []) nil) nil)

members_named : AreNamed members
unfolding AreNamed primary_name str
members_named = (refl, (refl, tt))

br1_made :
    init_opts mapped_nic_names macs false (arguments (str "br1") false)
    ≡ some (fresh (arguments (str "br1") false))
unfolding init_opts with_nic base_name get split list_beq str
br1_made = refl

init_linux_lem_example :
    (init_linux_bridge mapped_nic_names macs false (arguments (str "br1") false) members
      ≡ bind (only (primaries members)) (λ name. some (
          node
            (record (fresh (arguments (str "br1") false)) { primary_interface_name = name })
            linux_bridge
            (assigned (in_bridge (str "br1")) members))))
    × (init_linux_team mapped_nic_names macs false
          (arguments (str "br1") false)
          (str "mode=1")
          members
        ≡ bind (only (primaries members)) (λ name. some (
            node
              (record (fresh (arguments (str "br1") false)) { primary_interface_name = name })
              (linux_team (str "mode=1"))
              (assigned (in_team (str "br1")) members))))
init_linux_lem_example =
    init_linux_lem mapped_nic_names macs false (arguments (str "br1") false) (str "mode=1") members
      (fresh (arguments (str "br1") false)) (fresh (arguments (str "br1") false)) members_named
      br1_made br1_made

found_primary : only (primaries members) ≡ some (str "em2")
unfolding primaries primary_name
found_primary = refl
