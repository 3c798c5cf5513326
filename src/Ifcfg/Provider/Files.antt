-- ===== src/Ifcfg/Provider/Files.antt =====
-- What `add_object` leaves in the dicts of IfcfgNetConfig in os_net_config/impl_ifcfg.py: a table of
-- the classes says which dict the file of an object goes to.
use os_net_config.Base.{
  ℕ, ◌≡◌, refl, ap, ◌∙◌, inl, inr, Bool, false, ◌&&◌, Option, none, some, List, [], ◌∷◌, ◌++◌,
  if◌then◌else◌, Bool-cases, or_default, ◌==◌, nat_eq, str_eq, option_str_eq,
}
use os_net_config.Base.Str.{Str, str}
use os_net_config.Objects.{
  BaseOpts, Kind, Object, Members, node, route_table, nil, cons, names_of, has_members, interface,
  vlan, ivs_interface, ovs_interface, nfvswitch_internal, ovs_bridge, ovs_user_bridge, linux_bridge,
  ivs_bridge, nfvswitch_bridge, linux_team, linux_bond, ovs_bond, ovs_tunnel, ovs_patch_port,
  ib_interface, ib_child_interface, sriov_vf, sriov_pf, linux_tap,
}
use os_net_config.Base.Dict.{Dict, put, update}
use os_net_config.Ifcfg.Apply.{NetConfig}
use os_net_config.Ifcfg.Common.{has_items, given}
use os_net_config.Ifcfg.Common.Text.{add_common}
use os_net_config.Ifcfg.Provider.{
  Provider, note_members, note_primary, note_routes_of, note_rules_of, note_renamed, Slot, data_of,
  store, names_members, add_file, add_routed, add_renamed, with_text, routed, renamed_after,
  add_one, interfaces, ivsinterfaces, nfvswitch_intifaces, vlans, ib_childs, ib_interfaces, bridges,
  linuxbridges, linuxbonds, linuxteams,
}

-- The dict for the file of an object of the class, if it has a file
abbrev pub slot_of : Kind → Option Slot
slot_of (vlan vlan_id device ovs_options ovs_extra) = some vlans
slot_of ivs_interface = some ivsinterfaces
slot_of nfvswitch_internal = some nfvswitch_intifaces
slot_of (ib_child_interface parent pkey_id) = some ib_childs
slot_of (ib_interface ethtool_opts) = some ib_interfaces
slot_of (ovs_bridge ovs_options ovs_extra) = some bridges
slot_of (ovs_user_bridge ovs_internal ovs_options ovs_extra) = some bridges
slot_of linux_bridge = some linuxbridges
slot_of (linux_bond bonding_options ethtool_opts) = some linuxbonds
slot_of (linux_team bonding_options) = some linuxteams
slot_of ovs_interface = none
slot_of ivs_bridge = none
slot_of (nfvswitch_bridge options) = none
slot_of _ = some interfaces

abbrev pub slot_number : Slot → ℕ
slot_number interfaces = 0
slot_number ivsinterfaces = 1
slot_number nfvswitch_intifaces = 2
slot_number vlans = 3
slot_number ib_childs = 4
slot_number ib_interfaces = 5
slot_number bridges = 6
slot_number linuxbridges = 7
slot_number linuxbonds = 8
slot_number linuxteams = 9

abbrev pub is_slot : Slot → Option Slot → Bool
is_slot slot none = false
is_slot slot (some other) = slot_number slot == slot_number other

abbrev suffix_of : Kind → Str
suffix_of linux_tap = str "TYPE=Tap\n"
suffix_of _ = []

-- The file of one object, for the dict
abbrev pub own_file : (Str → Option Str) → Slot → BaseOpts → Kind → List Str → Dict Str Str
own_file macs slot b k members =
    if is_slot slot (slot_of k)
    then (b.name, or_default (add_common macs b k members) [] ++ suffix_of k) ∷ []
    else []

-- The files of an object and of its members, in their order
unfoldable mutual
  pub files_in : (Str → Option Str) → Slot → Object → Dict Str Str
  files_in macs slot (node b k ms) =
      own_file macs slot b k (names_of ms)
      ++ (if has_members k then files_of_members macs slot ms else [])
  files_in macs slot (route_table n i) = []

  pub files_of_members : (Str → Option Str) → Slot → Members → Dict Str Str
  files_of_members macs slot nil = []
  files_of_members macs slot (cons o ms) = files_in macs slot o ++ files_of_members macs slot ms

data_of-store :
    (s slot : Slot) (name text : Str) (c : NetConfig)
    → data_of (store s name text c) slot
      ≡ update
          (data_of c slot)
          (if slot_number slot == slot_number s then (name, text) ∷ [] else [])
unfolding data_of store update
data_of-store interfaces interfaces name text c = refl
data_of-store interfaces slot name text c = refl
data_of-store ivsinterfaces interfaces name text c = refl
data_of-store ivsinterfaces slot name text c = refl
data_of-store nfvswitch_intifaces interfaces name text c = refl
data_of-store nfvswitch_intifaces slot name text c = refl
data_of-store vlans interfaces name text c = refl
data_of-store vlans slot name text c = refl
data_of-store ib_childs interfaces name text c = refl
data_of-store ib_childs slot name text c = refl
data_of-store ib_interfaces interfaces name text c = refl
data_of-store ib_interfaces slot name text c = refl
data_of-store bridges interfaces name text c = refl
data_of-store bridges slot name text c = refl
data_of-store linuxbridges interfaces name text c = refl
data_of-store linuxbridges slot name text c = refl
data_of-store linuxbonds interfaces name text c = refl
data_of-store linuxbonds slot name text c = refl
data_of-store linuxteams interfaces name text c = refl
data_of-store linuxteams slot name text c = refl

-- The dicts for files do not depend on the other ones.
data_of-other :
    (slot : Slot) (c : NetConfig) (route route6 rule : Dict Str Str) (members : Dict Str (List Str))
    → data_of
        (record c {
          route_data = route;
          route6_data = route6;
          rule_data = rule;
          member_names = members;
        })
        slot
      ≡ data_of c slot
unfolding data_of
data_of-other interfaces c route route6 rule members = refl
data_of-other slot c route route6 rule members = refl

module _ (slot : Slot) (b : BaseOpts) (c : NetConfig) where
  data_of-note_members :
      (k : Kind) (members : List Str) → data_of (note_members b k members c) slot ≡ data_of c slot
  unfolding note_members
  data_of-note_members k members = elim (Bool-cases (names_members k && has_items members)) [
    | inl named ↦ rw named (data_of-other slot c _ _ _ (put c.member_names b.name members))
    | inr unnamed ↦ rw unnamed
  ]

  data_of-note_routes_of : data_of (note_routes_of b c) slot ≡ data_of c slot
  unfolding note_routes_of
  data_of-note_routes_of = elim (Bool-cases (has_items b.routes)) [
    | inl routed ↦ rw routed (data_of-other slot c _ _ _ _)
    | inr unrouted ↦ rw unrouted
  ]

  data_of-note_rules_of : data_of (note_rules_of b c) slot ≡ data_of c slot
  unfolding note_rules_of
  data_of-note_rules_of = elim (Bool-cases (has_items b.rules)) [
    | inl ruled ↦ rw ruled (data_of-other slot c _ _ _ _)
    | inr unruled ↦ rw unruled
  ]

-- The state after a call that raises no error, as far as the files of one dict are concerned
abbrev pub Leaves : Slot → Provider → Dict Str Str → Option Provider → Type 0
Leaves slot p files none = Unit {0}
Leaves slot p files (some q) = data_of q.config slot ≡ update (data_of p.config slot) files

config-note_primary :
    (b : BaseOpts) (k : Kind) (p : Provider) → (note_primary b k p).config ≡ p.config
unfolding note_primary
config-note_primary b (ovs_bond o e) p = elim (Bool-cases (given b.primary_interface_name)) [
  | inl named ↦ rw named
  | inr unnamed ↦ rw unnamed
]
config-note_primary b k p = refl

config-note_renamed : (b : BaseOpts) (p : Provider) → (note_renamed b p).config ≡ p.config
unfolding note_renamed
config-note_renamed b p = elim (Bool-cases b.renamed) [
  | inl renamed ↦ rw renamed
  | inr kept ↦ rw kept
]

module _ (macs : Str → Option Str) (slot s : Slot) (suffix : Str) (b : BaseOpts) (k : Kind)
    (members : List Str) (p : Provider) where
  abbrev file_for : Option Str → Dict Str Str
  file_for o =
      if slot_number slot == slot_number s then (b.name, or_default o [] ++ suffix) ∷ [] else []

  with_text-Leaves :
      (o : Option Str) → Leaves slot p (file_for o) (with_text macs b k members s suffix p o)
  with_text-Leaves none = tt
  with_text-Leaves (some text) =
      data_of-store s slot b.name (text ++ suffix) (note_members b k members p.config)
      ∙ ap (λ d. update d (file_for (some text))) (data_of-note_members slot b p.config k members)

  add_file-Leaves :
      Leaves slot p (file_for (add_common macs b k members)) (add_file macs b k members s suffix p)
  unfolding add_file
  add_file-Leaves = with_text-Leaves (add_common macs b k members)

  routed-Leaves :
      (files : Dict Str Str) (o : Option Provider)
      → Leaves slot p files o
      → Leaves slot p files (routed macs b k members o)
  routed-Leaves files none h = tt
  routed-Leaves files (some q) h =
      data_of-note_rules_of slot b (note_routes_of b q.config)
      ∙ data_of-note_routes_of slot b q.config
      ∙ h

  renamed-Leaves :
      (files : Dict Str Str) (o : Option Provider)
      → Leaves slot p files o
      → Leaves slot p files (renamed_after macs b k members o)
  renamed-Leaves files none h = tt
  renamed-Leaves files (some q) h = ap (λ c. data_of c slot) (config-note_renamed b q) ∙ h

  add_routed-Leaves :
      Leaves slot p
        (file_for (add_common macs b k members))
        (add_routed macs b k members s suffix p)
  unfolding add_routed
  add_routed-Leaves =
      routed-Leaves (file_for (add_common macs b k members)) (add_file macs b k members s suffix p)
        add_file-Leaves

module _ (macs : Str → Option Str) (slot s : Slot) (b : BaseOpts) (k : Kind) (members : List Str)
    (p : Provider) where
  add_renamed-Leaves :
      Leaves slot p
        (file_for macs slot s [] b k members p (add_common macs b k members))
        (add_renamed macs b k members s p)
  unfolding add_renamed
  add_renamed-Leaves =
      renamed-Leaves macs slot s [] b k members p _ (add_routed macs b k members s [] p)
        (add_routed-Leaves macs slot s [] b k members p)

update-nil : (d : Dict Str Str) → update d [] ≡ d
unfolding update
update-nil d = refl

module _ (macs : Str → Option Str) (slot : Slot) (b : BaseOpts) (members : List Str)
    (p : Provider) where
  pub add_one-Leaves :
      (k : Kind) → Leaves slot p (own_file macs slot b k members) (add_one macs p b k members)
  unfolding add_one
  add_one-Leaves (interface h l e) =
      add_renamed-Leaves macs slot interfaces b (interface h l e) members p
  add_one-Leaves (vlan i d o e) = add_routed-Leaves macs slot vlans [] b (vlan i d o e) members p
  add_one-Leaves ivs_interface =
      add_routed-Leaves macs slot ivsinterfaces [] b ivs_interface members p
  add_one-Leaves ovs_interface = unfold update in refl
  add_one-Leaves nfvswitch_internal =
      add_routed-Leaves macs slot nfvswitch_intifaces [] b nfvswitch_internal members p
  add_one-Leaves (ovs_bridge o e) =
      add_routed-Leaves macs slot bridges [] b (ovs_bridge o e) members p
  add_one-Leaves (ovs_user_bridge i o e) =
      add_routed-Leaves macs slot bridges [] b (ovs_user_bridge i o e) members p
  add_one-Leaves linux_bridge = add_routed-Leaves macs slot linuxbridges [] b linux_bridge members p
  add_one-Leaves ivs_bridge = unfold update in refl
  add_one-Leaves (nfvswitch_bridge options) = unfold update in refl
  add_one-Leaves (linux_team o) =
      add_routed-Leaves macs slot linuxteams [] b (linux_team o) members p
  add_one-Leaves (linux_bond o e) =
      add_routed-Leaves macs slot linuxbonds [] b (linux_bond o e) members p
  add_one-Leaves (ovs_bond o e) =
      add_routed-Leaves macs slot interfaces [] b (ovs_bond o e) members p
  add_one-Leaves (ovs_tunnel t o e) =
      add_file-Leaves macs slot interfaces [] b (ovs_tunnel t o e) members p
  add_one-Leaves (ovs_patch_port peer e) =
      add_file-Leaves macs slot interfaces [] b (ovs_patch_port peer e) members p
  add_one-Leaves (ib_interface e) =
      add_renamed-Leaves macs slot ib_interfaces b (ib_interface e) members p
  add_one-Leaves (ib_child_interface parent i) =
      add_routed-Leaves macs slot ib_childs [] b (ib_child_interface parent i) members p
  add_one-Leaves (sriov_vf d i e) =
      add_routed-Leaves macs slot interfaces [] b (sriov_vf d i e) members p
  add_one-Leaves (sriov_pf m e) =
      add_routed-Leaves macs slot interfaces [] b (sriov_pf m e) members p
  add_one-Leaves linux_tap =
      add_routed-Leaves macs slot interfaces (str "TYPE=Tap\n") b linux_tap members p
