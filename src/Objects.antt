-- ===== src/Objects.antt =====
-- The objects of os_net_config/objects.py, as the providers read them: the classes without those
-- for DPDK, VPP, Contrail and DCB.
pub mod Build
pub mod Alias
pub mod Primary
use os_net_config.Base.{
  ℕ, Bool, true, false, List, [], ◌∷◌, ◌==◌, nat_eq, str_eq, option_str_eq, select,
}
use os_net_config.Base.Str.{Str}
use os_net_config.Ifcfg.Routes.{Route, RouteRule}

-- `Address`
pub record Address : Type 0 where
  pub ip_netmask : Str
  pub ip : Str
  pub netmask : Str
  pub prefixlen : ℕ
  pub version : ℕ

-- `domain` is a text or a list of texts.
pub data Domain : Type 0 where
  domain_text : Str → Domain
  domain_list : List Str → Domain

-- `_BaseOpts`. A text or a number that is missing is the empty text or 0: the providers only ask
-- whether it is true.
pub record BaseOpts : Type 0 where
  pub name : Str
  pub hwaddr : Str
  pub hwname : Str
  pub renamed : Bool
  pub mtu : ℕ
  pub use_dhcp : Bool
  pub use_dhcpv6 : Bool
  pub addresses : List Address
  pub routes : List Route
  pub rules : List RouteRule
  pub primary : Bool
  pub defroute : Bool
  pub dhclient_args : Str
  pub dns_servers : List Str
  pub domain : Domain
  pub nm_controlled : Bool
  pub onboot : Bool
  pub bridge_name : Str
  pub linux_bridge_name : Str
  pub ivs_bridge_name : Str
  pub nfvswitch_bridge_name : Str
  pub linux_bond_name : Str
  pub linux_team_name : Str
  pub ovs_port : Bool
  pub primary_interface_name : Str

-- The class of an object, with the attributes that are its own.
pub data Kind : Type 0 where
  interface : (hotplug : Bool) (linkdelay ethtool_opts : Str) → Kind
  vlan : (vlan_id : ℕ) (device ovs_options : Str) (ovs_extra : List Str) → Kind
  ivs_interface : Kind
  ovs_interface : Kind
  nfvswitch_internal : Kind
  ovs_bridge : (ovs_options : Str) (ovs_extra : List Str) → Kind
  ovs_user_bridge : (ovs_internal : Bool) (ovs_options : Str) (ovs_extra : List Str) → Kind
  linux_bridge : Kind
  ivs_bridge : Kind
  nfvswitch_bridge : (options : Str) → Kind
  linux_team : (bonding_options : Str) → Kind
  linux_bond : (bonding_options ethtool_opts : Str) → Kind
  ovs_bond : (ovs_options : Str) (ovs_extra : List Str) → Kind
  ovs_tunnel : (tunnel_type : Str) (ovs_options ovs_extra : List Str) → Kind
  ovs_patch_port : (peer : Str) (ovs_extra : List Str) → Kind
  ib_interface : (ethtool_opts : Str) → Kind
  ib_child_interface : (parent pkey_id : Str) → Kind
  sriov_vf : (device : Str) (vfid : ℕ) (ethtool_opts : Str) → Kind
  sriov_pf : (link_mode ethtool_opts : Str) → Kind
  linux_tap : Kind

-- An object with its members; a class without the attribute `members` has none.
mutual
  pub data Object : Type 0 where
    node : BaseOpts → Kind → Members → Object
    route_table : (table_name : Str) (table_id : ℕ) → Object

  pub data Members : Type 0 where
    nil : Members
    cons : Object → Members → Members

unfoldable pub name_of : Object → Str
name_of (node b k ms) = b.name
name_of (route_table n i) = n

-- `[member.name for member in members]`
unfoldable pub names_of : Members → List Str
unfolding name_of
names_of nil = []
names_of (cons o ms) = name_of o ∷ names_of ms

-- `v4_addresses` and `v6_addresses`
unfoldable pub v4_addresses : BaseOpts → List Address
v4_addresses b = select (λ a. a.version == 4) b.addresses

unfoldable pub v6_addresses : BaseOpts → List Address
v6_addresses b = select (λ a. a.version == 6) b.addresses

-- Whether the class has the attribute `members`.
unfoldable pub has_members : Kind → Bool
has_members (ovs_bridge ovs_options ovs_extra) = true
has_members (ovs_user_bridge ovs_internal ovs_options ovs_extra) = true
has_members linux_bridge = true
has_members ivs_bridge = true
has_members (nfvswitch_bridge options) = true
has_members (linux_team bonding_options) = true
has_members (linux_bond bonding_options ethtool_opts) = true
has_members (ovs_bond ovs_options ovs_extra) = true
has_members k = false
