-- ===== src/Objects/Build.antt =====
-- What the constructors of os_net_config/objects.py do: `_BaseOpts.__init__`, and the loops over the
-- members in `LinuxBridge.__init__` and `LinuxTeam.__init__`.
use os_net_config.Base.{
  Bool, true, false, Option, none, some, List, [], ◌∷◌, ◌++◌, if◌then◌else◌, nat_eq, str_eq,
  option_str_eq, bind,
}
use os_net_config.Base.Str.{Str, split, isdigit}
use os_net_config.Base.Dict.{Dict, get}
use os_net_config.Ifcfg.Routes.{is_empty}
use os_net_config.Objects.{
  BaseOpts, Object, Members, node, route_table, nil, cons, linux_bridge, linux_team,
}

-- `base_name` and `vlan_suffix` of `<nic>.<vlan_id>`, by the pieces of the name
unfoldable pub base_name : Str → List Str → Str
base_name name (first ∷ id ∷ more) = if isdigit id then first else name
base_name name pieces = name

unfoldable pub vlan_suffix : List Str → Str
vlan_suffix (first ∷ id ∷ more) = if isdigit id then b'.' ∷ id else []
vlan_suffix pieces = []

-- The attributes that do not come from the arguments
unfoldable pub fresh : BaseOpts → BaseOpts
fresh b = record b {
  hwaddr = [];
  hwname = [];
  renamed = false;
  bridge_name = [];
  linux_bridge_name = [];
  ivs_bridge_name = [];
  nfvswitch_bridge_name = [];
  linux_bond_name = [];
  linux_team_name = [];
  ovs_port = false;
  primary_interface_name = [];
}

-- The name, for the interface that an alias is mapped to. With `persist_mapping` the alias stays and
-- the interface is to be renamed; reading its MAC address may fail.
unfoldable pub with_nic : (Str → Option Str) → Bool → Str → Option Str → BaseOpts → Option BaseOpts
with_nic macs persist_mapping suffix none b = some b
with_nic macs persist_mapping suffix (some nic) b =
    if persist_mapping
    then elim (macs (nic ++ suffix)) [
      | none ↦ none
      | some mac ↦ some (record b { hwname = nic ++ suffix; hwaddr = mac; renamed = true })
    ]
    else some (record b { name = nic ++ suffix })

-- `_BaseOpts.__init__`, where the record has the arguments, and the dict is what `mapped_nics` gives
unfoldable pub init_opts : Dict Str Str → (Str → Option Str) → Bool → BaseOpts → Option BaseOpts
unfolding base_name vlan_suffix fresh with_nic
init_opts mapped_nic_names macs persist_mapping b =
    let pieces = split b'.' b.name in
    with_nic macs persist_mapping (vlan_suffix pieces)
      (get mapped_nic_names (base_name b.name pieces)) (fresh b)

-- What the primary interface is when a member has been seen: only one is allowed.
unfoldable pub take_primary : BaseOpts → Str → Option Str
take_primary member primary_interface_name =
    if member.primary
    then if is_empty primary_interface_name
      then some (
          if is_empty member.primary_interface_name
          then member.name
          else member.primary_interface_name)
      else none
    else some primary_interface_name

-- `for member in self.members`, with what is assigned to a member. A route table has no attribute
-- `primary`.
unfoldable pub link_members : (BaseOpts → BaseOpts) → Members → Str → Option (Members × Str)
unfolding take_primary
link_members assign nil primary_name = some (nil, primary_name)
link_members assign (cons (route_table n i) ms) primary_name = none
link_members assign (cons (node b k kids) ms) primary_name =
    bind (take_primary b primary_name) (λ next.
      bind (link_members assign ms next)
        (λ (linked, found). some (cons (node (assign b) k kids) linked, found)))

abbrev pub in_bridge : Str → BaseOpts → BaseOpts
in_bridge bridge_name b = record b { linux_bridge_name = bridge_name; ovs_port = false }

-- `LinuxBridge.__init__`
unfoldable pub init_linux_bridge :
    Dict Str Str → (Str → Option Str) → Bool → BaseOpts → Members → Option Object
unfolding init_opts link_members
init_linux_bridge mapped_nic_names macs persist_mapping b members =
    bind (init_opts mapped_nic_names macs persist_mapping (record b { primary = false })) (λ opts.
      bind (link_members (in_bridge b.name) members []) (λ (linked, found).
        some (node (record opts { primary_interface_name = found }) linux_bridge linked)))

abbrev pub in_team : Str → BaseOpts → BaseOpts
in_team team_name b = record b { linux_team_name = team_name }

-- `LinuxTeam.__init__`
unfoldable pub init_linux_team :
    Dict Str Str → (Str → Option Str) → Bool → BaseOpts → Str → Members → Option Object
unfolding init_opts link_members
init_linux_team mapped_nic_names macs persist_mapping b bonding_options members =
    bind (init_opts mapped_nic_names macs persist_mapping b) (λ opts.
      bind (link_members (in_team b.name) members []) (λ (linked, found). some (
        node (record opts { primary_interface_name = found }) (linux_team bonding_options) linked)))
