-- ===== src/Ifcfg/Provider.antt =====
-- The `add_` methods of IfcfgNetConfig in os_net_config/impl_ifcfg.py, and `add_object` of NetConfig
-- in os_net_config/__init__.py.
pub mod Files
pub mod Tree
pub mod Result
pub mod Names
pub mod Applied
pub mod Delete
use os_net_config.Base.{
  ℕ, zero, suc, ◌+◌, ◌-◌, ◌*◌, ◌/◌, ◌%◌, ◌≤◌, ◌<◌, String, ◌≡◌, refl, sym, ap, ◌∙◌, subst, ◌≢◌, ◌↔◌,
  ◌⊎◌, inl, inr, Bool, true, false, ◌&&◌, ◌||◌, not, Option, none, some, List, [], ◌∷◌, ◌++◌, map,
  arith, if◌then◌else◌, ltb, leb, nat_beq, nat_beq_iff, leb→le, Bool-cases, Option-cases, is_some,
  or_default, Bool-ext, ◌==◌, beq_refl, beq→eq, ne→beq, beq→ne, beq_sym, list_beq, list_beq_iff,
  option_beq, option_beq_iff, nat_eq, str_eq, option_str_eq, Eq, length, length-append, get_elem?,
  take, select, any, all, All, contains, contains-append, contains-select, any_iff, NodupB, find,
  change_first, find-change_first, find-change_first_other, find-test, find-change_first_on,
  find-change_first_on_other, All-map, find-All, bind,
}
use os_net_config.Base.Str.{
  Str, str, newline, starts_with, contains_str, push_first, split, partition, lstrip, strip,
  is_space, is_digit, isdigit, upper, join, int_onto, int, digits_onto, decimal,
}
use os_net_config.Base.Dict.{Dict, put}
use os_net_config.Objects.{
  Address, BaseOpts, Kind, Object, Members, node, route_table, nil, cons, name_of, names_of,
  has_members, v4_addresses, v6_addresses, interface, vlan, ivs_interface, ovs_interface,
  nfvswitch_internal, ovs_bridge, ovs_user_bridge, linux_bridge, ivs_bridge, nfvswitch_bridge,
  linux_team, linux_bond, ovs_bond, ovs_tunnel, ovs_patch_port, ib_interface, ib_child_interface,
  sriov_vf, sriov_pf, linux_tap,
}
use os_net_config.Ifcfg.Routes.{add_routes, add_rules}
use os_net_config.Ifcfg.Apply.{NetConfig}
use os_net_config.Ifcfg.Common.{given, has_items}
use os_net_config.Ifcfg.Common.Text.{add_common}

-- The attributes of IfcfgNetConfig that the methods fill: those that `apply` reads in its loops,
-- and the others.
pub record Provider : Type 0 where
  pub config : NetConfig
  pub route_table_data : Dict ℕ Str
  pub renamed_interfaces : Dict Str Str
  pub bond_primary_ifaces : Dict Str Str
  pub nfvswitch_options : Option Str
  pub remove_iface : List Str
  pub remove_sriov_pfs : List Str

-- `IfcfgNetConfig(root_dir=root_dir)`
abbrev pub new_provider : Str → Provider
new_provider root_dir = record {
  config = record {
    root_dir = root_dir;
    interface_data = [];
    ivsinterface_data = [];
    nfvswitch_intiface_data = [];
    vlan_data = [];
    ib_childs_data = [];
    ib_interface_data = [];
    route_data = [];
    route6_data = [];
    rule_data = [];
    bridge_data = [];
    linuxbridge_data = [];
    linuxbond_data = [];
    linuxteam_data = [];
    member_names = [];
  };
  route_table_data = [];
  renamed_interfaces = [];
  bond_primary_ifaces = [];
  nfvswitch_options = none;
  remove_iface = [];
  remove_sriov_pfs = [];
}

-- Whether `_add_common` stores the names of the members.
unfoldable pub names_members : Kind → Bool
names_members ivs_bridge = false
names_members (nfvswitch_bridge options) = false
names_members k = has_members k

-- What `_add_common` does besides returning a text
unfoldable pub note_members : BaseOpts → Kind → List Str → NetConfig → NetConfig
unfolding names_members has_members
note_members b k members c =
    if names_members k && has_items members
    then record c { member_names = put c.member_names b.name members }
    else c

unfoldable pub note_primary : BaseOpts → Kind → Provider → Provider
note_primary b (ovs_bond ovs_options ovs_extra) p =
    if given b.primary_interface_name
    then record p {
      bond_primary_ifaces = put p.bond_primary_ifaces b.name b.primary_interface_name;
    }
    else p
note_primary b k p = p

-- `if x.routes: self._add_routes(...)` and `if x.rules: self._add_rules(...)`
unfoldable pub note_routes_of : BaseOpts → NetConfig → NetConfig
note_routes_of b c =
    if has_items b.routes
    then record c {
      route_data = put c.route_data b.name (add_routes b.name b.routes).0;
      route6_data = put c.route6_data b.name (add_routes b.name b.routes).1;
    }
    else c

unfoldable pub note_rules_of : BaseOpts → NetConfig → NetConfig
note_rules_of b c =
    if has_items b.rules
    then record c { rule_data = put c.rule_data b.name (add_rules b.rules) }
    else c

-- The dicts for the files of objects, which are attributes of IfcfgNetConfig
pub data Slot : Type 0 where
  interfaces ivsinterfaces nfvswitch_intifaces vlans ib_childs ib_interfaces bridges linuxbridges
        linuxbonds linuxteams :
      Slot

unfoldable pub data_of : NetConfig → Slot → Dict Str Str
data_of c interfaces = c.interface_data
data_of c ivsinterfaces = c.ivsinterface_data
data_of c nfvswitch_intifaces = c.nfvswitch_intiface_data
data_of c vlans = c.vlan_data
data_of c ib_childs = c.ib_childs_data
data_of c ib_interfaces = c.ib_interface_data
data_of c bridges = c.bridge_data
data_of c linuxbridges = c.linuxbridge_data
data_of c linuxbonds = c.linuxbond_data
data_of c linuxteams = c.linuxteam_data

-- `self.xxx_data[name] = data`
unfoldable pub store : Slot → Str → Str → NetConfig → NetConfig
store interfaces name text c = record c { interface_data = put c.interface_data name text }
store ivsinterfaces name text c = record c { ivsinterface_data = put c.ivsinterface_data name text }
store nfvswitch_intifaces name text c = record c {
  nfvswitch_intiface_data = put c.nfvswitch_intiface_data name text;
}
store vlans name text c = record c { vlan_data = put c.vlan_data name text }
store ib_childs name text c = record c { ib_childs_data = put c.ib_childs_data name text }
store ib_interfaces name text c = record c { ib_interface_data = put c.ib_interface_data name text }
store bridges name text c = record c { bridge_data = put c.bridge_data name text }
store linuxbridges name text c = record c { linuxbridge_data = put c.linuxbridge_data name text }
store linuxbonds name text c = record c { linuxbond_data = put c.linuxbond_data name text }
store linuxteams name text c = record c { linuxteam_data = put c.linuxteam_data name text }

-- `if x.renamed: self.renamed_interfaces[x.hwname] = x.name`
unfoldable pub note_renamed : BaseOpts → Provider → Provider
note_renamed b p =
    if b.renamed
    then record p { renamed_interfaces = put p.renamed_interfaces b.hwname b.name }
    else p

module _ (macs : Str → Option Str) (b : BaseOpts) (k : Kind) (members : List Str) where
  abbrev pub with_text : Slot → Str → Provider → Option Str → Option Provider
  with_text slot suffix p none = none
  with_text slot suffix p (some text) = some (record (note_primary b k p) {
    config = store slot b.name (text ++ suffix) (note_members b k members p.config);
  })

  -- `data = self._add_common(x)`, with a suffix, and `self.xxx_data[x.name] = data`; `none` is
  -- the error of `_add_common`.
  unfoldable pub add_file : Slot → Str → Provider → Option Provider
  unfolding note_members note_primary store
  add_file slot suffix p = with_text slot suffix p (add_common macs b k members)

  abbrev pub routed : Option Provider → Option Provider
  routed none = none
  routed (some p) = some (record p { config = note_rules_of b (note_routes_of b p.config) })

  -- A method that also stores routes and rules
  unfoldable pub add_routed : Slot → Str → Provider → Option Provider
  unfolding add_file note_routes_of note_rules_of
  add_routed slot suffix p = routed (add_file slot suffix p)

  abbrev pub renamed_after : Option Provider → Option Provider
  renamed_after none = none
  renamed_after (some p) = some (note_renamed b p)

  -- `add_interface` and `add_ib_interface`
  unfoldable pub add_renamed : Slot → Provider → Option Provider
  unfolding add_routed note_renamed
  add_renamed slot p = renamed_after (add_routed slot [] p)

  -- The methods
  unfoldable pub add_interface : Provider → Option Provider
  unfolding add_renamed
  add_interface = add_renamed interfaces

  unfoldable pub add_vlan : Provider → Option Provider
  unfolding add_routed
  add_vlan = add_routed vlans []

  unfoldable pub add_ivs_interface : Provider → Option Provider
  unfolding add_routed
  add_ivs_interface = add_routed ivsinterfaces []

  unfoldable pub add_nfvswitch_internal : Provider → Option Provider
  unfolding add_routed
  add_nfvswitch_internal = add_routed nfvswitch_intifaces []

  unfoldable pub add_bridge : Provider → Option Provider
  unfolding add_routed
  add_bridge = add_routed bridges []

  unfoldable pub add_ovs_user_bridge : Provider → Option Provider
  unfolding add_routed
  add_ovs_user_bridge = add_routed bridges []

  unfoldable pub add_linux_bridge : Provider → Option Provider
  unfolding add_routed
  add_linux_bridge = add_routed linuxbridges []

  unfoldable pub add_bond : Provider → Option Provider
  unfolding add_routed
  add_bond = add_routed interfaces []

  unfoldable pub add_linux_bond : Provider → Option Provider
  unfolding add_routed
  add_linux_bond = add_routed linuxbonds []

  unfoldable pub add_linux_team : Provider → Option Provider
  unfolding add_routed
  add_linux_team = add_routed linuxteams []

  unfoldable pub add_ovs_tunnel : Provider → Option Provider
  unfolding add_file
  add_ovs_tunnel = add_file interfaces []

  unfoldable pub add_ovs_patch_port : Provider → Option Provider
  unfolding add_file
  add_ovs_patch_port = add_file interfaces []

  unfoldable pub add_ib_interface : Provider → Option Provider
  unfolding add_renamed
  add_ib_interface = add_renamed ib_interfaces

  unfoldable pub add_ib_child_interface : Provider → Option Provider
  unfolding add_routed
  add_ib_child_interface = add_routed ib_childs []

  unfoldable pub add_sriov_pf : Provider → Option Provider
  unfolding add_routed
  add_sriov_pf = add_routed interfaces []

  unfoldable pub add_sriov_vf : Provider → Option Provider
  unfolding add_routed
  add_sriov_vf = add_routed interfaces []

  unfoldable pub add_linux_tap : Provider → Option Provider
  unfolding add_routed
  add_linux_tap = add_routed interfaces (str "TYPE=Tap\n")

-- `add_nfvswitch_bridge`
unfoldable pub add_nfvswitch_bridge : Str → Provider → Option Provider
add_nfvswitch_bridge options p = some (record p { nfvswitch_options = some options })

-- The method that `add_object` calls for the class. `add_ivs_bridge` does nothing, and no method is
-- called for an OvsInterface.
unfoldable pub add_one :
    (Str → Option Str) → Provider → BaseOpts → Kind → List Str → Option Provider
unfolding add_interface add_vlan add_ivs_interface add_nfvswitch_internal add_bridge
    add_ovs_user_bridge add_linux_bridge add_bond add_linux_bond add_linux_team add_ovs_tunnel
    add_ovs_patch_port add_ib_interface add_ib_child_interface add_sriov_pf add_sriov_vf
    add_linux_tap add_nfvswitch_bridge
add_one macs p b (interface h l e) members = add_interface macs b (interface h l e) members p
add_one macs p b (vlan i d o e) members = add_vlan macs b (vlan i d o e) members p
add_one macs p b ivs_interface members = add_ivs_interface macs b ivs_interface members p
add_one macs p b ovs_interface members = some p
add_one macs p b nfvswitch_internal members =
    add_nfvswitch_internal macs b nfvswitch_internal members p
add_one macs p b (ovs_bridge o e) members = add_bridge macs b (ovs_bridge o e) members p
add_one macs p b (ovs_user_bridge i o e) members =
    add_ovs_user_bridge macs b (ovs_user_bridge i o e) members p
add_one macs p b linux_bridge members = add_linux_bridge macs b linux_bridge members p
add_one macs p b ivs_bridge members = some p
add_one macs p b (nfvswitch_bridge options) members = add_nfvswitch_bridge options p
add_one macs p b (linux_team o) members = add_linux_team macs b (linux_team o) members p
add_one macs p b (linux_bond o e) members = add_linux_bond macs b (linux_bond o e) members p
add_one macs p b (ovs_bond o e) members = add_bond macs b (ovs_bond o e) members p
add_one macs p b (ovs_tunnel t o e) members = add_ovs_tunnel macs b (ovs_tunnel t o e) members p
add_one macs p b (ovs_patch_port peer e) members =
    add_ovs_patch_port macs b (ovs_patch_port peer e) members p
add_one macs p b (ib_interface e) members = add_ib_interface macs b (ib_interface e) members p
add_one macs p b (ib_child_interface parent i) members =
    add_ib_child_interface macs b (ib_child_interface parent i) members p
add_one macs p b (sriov_vf d i e) members = add_sriov_vf macs b (sriov_vf d i e) members p
add_one macs p b (sriov_pf m e) members = add_sriov_pf macs b (sriov_pf m e) members p
add_one macs p b linux_tap members = add_linux_tap macs b linux_tap members p

-- `add_object`; its calls for the members come after the one for the object.
unfoldable mutual
  pub add_object : (Str → Option Str) → Object → Provider → Option Provider
  add_object macs (node b k ms) p =
      let rest = λ (q : Provider). add_members macs ms q in
      bind (add_one macs p b k (names_of ms)) (if has_members k then rest else some)
  add_object macs (route_table n i) p =
      some (record p { route_table_data = put p.route_table_data i n })

  pub add_members : (Str → Option Str) → Members → Provider → Option Provider
  add_members macs nil p = some p
  add_members macs (cons o ms) p = bind (add_object macs o p) (add_members macs ms)

-- `for obj in objs: provider.add_object(obj)`
unfoldable pub add_objects : (Str → Option Str) → List Object → Provider → Option Provider
add_objects macs [] p = some p
add_objects macs (o ∷ objs) p = bind (add_object macs o p) (add_objects macs objs)
