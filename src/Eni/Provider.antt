-- ===== src/Eni/Provider.antt =====
-- The eni provider of os_net_config/impl_eni.py: its dicts, the `add_` methods and `apply`, with
-- `ifup`, `ifdown` and `write_config` of os_net_config/__init__.py.
use os_net_config.Base.{
  Bool, true, ◌&&◌, ◌||◌, Option, none, some, List, [], ◌∷◌, ◌++◌, if◌then◌else◌, or_default,
  nat_eq, str_eq, option_str_eq, bind,
}
use os_net_config.Base.Str.{Str, str}
use os_net_config.Base.Dict.{Dict, keys, get, put}
use os_net_config.Sriov.Lines.{write_lines}
use os_net_config.Ifcfg.Routes.{Route, is_empty}
use os_net_config.Ifcfg.Common.{has_items}
use os_net_config.Ifcfg.Parse.{Files}
use os_net_config.Ifcfg.Apply.{diff}
use os_net_config.Objects.{
  BaseOpts, Kind, Object, Members, node, route_table, nil, cons, interface, vlan, ovs_interface,
  ovs_bridge,
}
use os_net_config.Eni.{data_lines}

-- `ENINetConfig`
pub record EniNetConfig : Type 0 where
  pub noop : Bool
  pub root_dir : Str
  pub interfaces : Dict Str Str
  pub routes : Dict Str Str
  pub bridges : Dict Str Str

-- The address and the netmask that netaddr's `IPNetwork` reads from a text, if it can
abbrev pub Networks : Type 0
Networks = Str → Option (Str × Str)

unfoldable pub route_lines : Networks → Route → Option (List Str)
route_lines networks route =
    let options = if is_empty route.route_options then [] else str " " ++ route.route_options in
    bind
      (networks
        (if route.default && is_empty route.ip_netmask then str "0.0.0.0/0" else route.ip_netmask))
      (λ (ip, netmask).
        let net =
          ip ++ (str " netmask " ++ (netmask ++ (str " gw " ++ (route.next_hop ++ options)))) in
        some ((str "up route add -net " ++ net) ∷ (str "down route del -net " ++ net) ∷ []))

unfoldable pub routes_lines : Networks → List Route → Option (List Str)
routes_lines networks [] = some []
routes_lines networks (route ∷ rest) =
    bind (route_lines networks route)
      (λ first. bind (routes_lines networks rest) (λ lines. some (first ++ lines)))

-- `if obj.routes: self._add_routes(obj.name, obj.routes)`
unfoldable pub add_eni_routes : Networks → BaseOpts → EniNetConfig → Option EniNetConfig
add_eni_routes networks b p =
    if has_items b.routes
    then bind (routes_lines networks b.routes)
        (λ lines. some (record p { routes = put p.routes b.name (write_lines lines) }))
    else some p

-- `add_interface` and `add_vlan`
unfoldable pub add_eni_interface :
    (Str → Option Str) → Networks → BaseOpts → Kind → Members → EniNetConfig → Option EniNetConfig
add_eni_interface macs networks b k ms p = bind (data_lines macs b k ms) (λ lines.
    add_eni_routes networks b
      (record p { interfaces = put p.interfaces b.name (write_lines lines) }))

-- `add_bridge`
unfoldable pub add_eni_bridge :
    (Str → Option Str) → Networks → BaseOpts → Kind → Members → EniNetConfig → Option EniNetConfig
add_eni_bridge macs networks b k ms p = bind (data_lines macs b k ms) (λ lines.
    add_eni_routes networks b (record p { bridges = put p.bridges b.name (write_lines lines) }))

-- `add_object` for one object; what the provider does not have raises NotImplementedError, and an
-- OvsInterface is passed over.
unfoldable pub add_eni_one :
    (Str → Option Str) → Networks → BaseOpts → Kind → Members → EniNetConfig → Option EniNetConfig
add_eni_one macs networks b (interface hotplug linkdelay ethtool_opts) ms p =
    add_eni_interface macs networks b (interface hotplug linkdelay ethtool_opts) ms p
add_eni_one macs networks b (vlan vlan_id device ovs_options ovs_extra) ms p =
    add_eni_interface macs networks b (vlan vlan_id device ovs_options ovs_extra) ms p
add_eni_one macs networks b (ovs_bridge ovs_options ovs_extra) ms p =
    add_eni_bridge macs networks b (ovs_bridge ovs_options ovs_extra) ms p
add_eni_one macs networks b ovs_interface ms p = some p
add_eni_one macs networks b k ms p = none

-- `add_object`; only the members of a bridge are added.
unfoldable mutual
  pub add_eni_object : (Str → Option Str) → Networks → Object → EniNetConfig → Option EniNetConfig
  add_eni_object macs networks (node b (ovs_bridge ovs_options ovs_extra) ms) p =
      bind (add_eni_one macs networks b (ovs_bridge ovs_options ovs_extra) ms p)
        (add_eni_members macs networks ms)
  add_eni_object macs networks (node b k ms) p = add_eni_one macs networks b k ms p
  add_eni_object macs networks (route_table n i) p = none

  pub add_eni_members : (Str → Option Str) → Networks → Members → EniNetConfig → Option EniNetConfig
  add_eni_members macs networks nil p = some p
  add_eni_members macs networks (cons o ms) p =
      bind (add_eni_object macs networks o p) (add_eni_members macs networks ms)

unfoldable pub network_config_path : Str → Str
network_config_path prefix = prefix ++ str "/etc/network/interfaces"

-- The loops that put `new_config` together
unfoldable pub config_of : Dict Str Str → Dict Str Str → Str
config_of routes [] = []
config_of routes ((name, data_text) ∷ rest) =
    (data_text ++ or_default (get routes name) []) ++ config_of routes rest

unfoldable pub new_config : EniNetConfig → Str
new_config p = config_of p.routes p.bridges ++ config_of p.routes p.interfaces

-- What is done, in this order
pub data Command : Type 0 where
  ifdown : (name : Str) → Command
  write_config : (filename text : Str) → Command
  ifup : (name : Str) → Command

-- How the commands end: whether `ifdown` raises no error, with its `ip link set`, and whether
-- `/sbin/ifup` succeeds.
pub record Links : Type 0 where
  pub is_down : Str → Bool
  pub is_up : Str → Bool

-- The files, the commands so far, `errors`, and whether an error was raised
pub record Run : Type 0 where
  pub files : Files
  pub commands : List Command
  pub errors : List Str
  pub raised : Bool

abbrev pub noted : Command → Run → Run
noted command r = record r { commands = r.commands ++ (command ∷ []) }

-- `for name in names: self.ifdown(name)`
unfoldable pub ifdown_all : Bool → Links → List Str → Run → Run
ifdown_all noop links [] r = r
ifdown_all noop links (name ∷ names) r =
    let rest = ifdown_all noop links names (noted (ifdown name) r) in
    if noop || links.is_down name then rest else record (noted (ifdown name) r) { raised = true }

-- `for name in names: self.ifup(name)`; a failure is kept in `errors`.
unfoldable pub ifup_all : Bool → Links → List Str → Run → Run
ifup_all noop links [] r = r
ifup_all noop links (name ∷ names) r = ifup_all noop links names (
    if noop || links.is_up name
    then noted (ifup name) r
    else record (noted (ifup name) r) { errors = r.errors ++ (name ∷ []) })

unfoldable pub write_run : Bool → Str → Str → Run → Run
write_run noop path text r =
    let q = noted (write_config path text) r in
    if noop then q else record q { files = put r.files path text }

-- A part of `apply` that is not reached when an error was raised.
abbrev pub unless_raised : (Run → Run) → Run → Run
unless_raised rest r = if r.raised then r else rest r

unfoldable pub stop_all : EniNetConfig → Links → Run → Run
stop_all p links r =
    unless_raised (ifdown_all p.noop links (keys p.bridges))
      (ifdown_all p.noop links (keys p.interfaces) r)

-- `if self.errors: raise`
unfoldable pub start_all : EniNetConfig → Links → Run → Run
start_all p links r =
    let q = ifup_all p.noop links (keys p.interfaces) (ifup_all p.noop links (keys p.bridges) r) in
    if has_items q.errors then record q { raised = true } else q

-- `apply(activate=activate)`; without an error it returns the path with `new_config`.
unfoldable pub apply_eni : EniNetConfig → Links → Bool → Run → Run
apply_eni p links activate r =
    let path = network_config_path p.root_dir in
    let text = new_config p in
    if diff r.files path text
    then unless_raised
        (λ q.
          let written = write_run p.noop path text q in
          if activate then start_all p links written else written)
        (if activate then stop_all p links r else r)
    else r
