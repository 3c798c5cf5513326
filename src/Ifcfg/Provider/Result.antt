-- ===== src/Ifcfg/Provider/Result.antt =====
-- When `add_object` of os_net_config/__init__.py raises no error, and what it leaves then in the
-- dicts of IfcfgNetConfig.
use os_net_config.Base.{
  ◌≡◌, refl, ap, subst, inl, inr, Bool, true, false, ◌&&◌, Option, none, some, List, [], ◌∷◌,
  if◌then◌else◌, Bool-cases, Option-cases, is_some, nat_eq, str_eq, option_str_eq, bind,
}
use os_net_config.Base.Str.{Str, str}
use os_net_config.Objects.{
  BaseOpts, Kind, Object, Members, node, route_table, nil, cons, names_of, has_members, interface,
  vlan, ivs_interface, ovs_interface, nfvswitch_internal, ovs_bridge, ovs_user_bridge, linux_bridge,
  ivs_bridge, nfvswitch_bridge, linux_team, linux_bond, ovs_bond, ovs_tunnel, ovs_patch_port,
  ib_interface, ib_child_interface, sriov_vf, sriov_pf, linux_tap,
}
use os_net_config.Base.Dict.{update}
use os_net_config.Ifcfg.Common.{given}
use os_net_config.Ifcfg.Common.Types.{reads_mac}
use os_net_config.Ifcfg.Common.Text.{primary_mac, text_with, add_common}
use os_net_config.Ifcfg.Provider.{
  Provider, Slot, data_of, add_file, add_routed, add_renamed, with_text, routed, renamed_after,
  add_one, add_object, add_members, add_objects, interfaces, ivsinterfaces, nfvswitch_intifaces,
  vlans, ib_childs, ib_interfaces, bridges, linuxbridges, linuxbonds, linuxteams,
}
use os_net_config.Ifcfg.Provider.Files.{Leaves}
use os_net_config.Ifcfg.Provider.Tree.{all_files, add_objects-Leaves}

-- The MAC address of every interface is known.
abbrev pub AreKnown : (Str → Option Str) → Type 0
AreKnown macs = (name : Str) → is_some (macs name) ≡ true

abbrev Succeeds : Option Provider → Type 0
Succeeds o = is_some o ≡ true

module _ (macs : Str → Option Str) (known : AreKnown macs) (b : BaseOpts) where
  primary_mac-some : (k : Kind) → is_some (primary_mac macs b k) ≡ true
  unfolding primary_mac
  primary_mac-some k = elim (Bool-cases (reads_mac k && given b.primary_interface_name)) [
    | inl asked ↦ rw asked (known b.primary_interface_name)
    | inr unasked ↦ rw unasked
  ]

  text_with-some :
      (k : Kind) (members : List Str) (o : Option Str)
      → is_some o ≡ true
      → is_some (text_with b k members o) ≡ true
  text_with-some k members none h = h
  text_with-some k members (some mac) h = refl

  with_text-some :
      (k : Kind) (members : List Str) (s : Slot) (suffix : Str) (p : Provider) (o : Option Str)
      → is_some o ≡ true
      → Succeeds (with_text macs b k members s suffix p o)
  with_text-some k members s suffix p none h = h
  with_text-some k members s suffix p (some text) h = refl

  module _ (members : List Str) (p : Provider) where
    add_file-some :
        (k : Kind) (s : Slot) (suffix : Str) → Succeeds (add_file macs b k members s suffix p)
    unfolding add_file add_common
    add_file-some k s suffix =
        with_text-some k members s suffix p (add_common macs b k members)
          (text_with-some k members (primary_mac macs b k) (primary_mac-some k))

    routed-some :
        (k : Kind) (o : Option Provider) → Succeeds o → Succeeds (routed macs b k members o)
    routed-some k none h = h
    routed-some k (some q) h = refl

    add_routed-some :
        (k : Kind) (s : Slot) (suffix : Str) → Succeeds (add_routed macs b k members s suffix p)
    unfolding add_routed
    add_routed-some k s suffix =
        routed-some k (add_file macs b k members s suffix p) (add_file-some k s suffix)

    renamed-some :
        (k : Kind) (o : Option Provider) → Succeeds o → Succeeds (renamed_after macs b k members o)
    renamed-some k none h = h
    renamed-some k (some q) h = refl

    add_renamed-some : (k : Kind) (s : Slot) → Succeeds (add_renamed macs b k members s p)
    unfolding add_renamed
    add_renamed-some k s =
        renamed-some k (add_routed macs b k members s [] p) (add_routed-some k s [])

    add_one-some : (k : Kind) → Succeeds (add_one macs p b k members)
    unfolding add_one
    add_one-some (interface h l e) = add_renamed-some (interface h l e) interfaces
    add_one-some (vlan i d o e) = add_routed-some (vlan i d o e) vlans []
    add_one-some ivs_interface = add_routed-some ivs_interface ivsinterfaces []
    add_one-some ovs_interface = refl
    add_one-some nfvswitch_internal = add_routed-some nfvswitch_internal nfvswitch_intifaces []
    add_one-some (ovs_bridge o e) = add_routed-some (ovs_bridge o e) bridges []
    add_one-some (ovs_user_bridge i o e) = add_routed-some (ovs_user_bridge i o e) bridges []
    add_one-some linux_bridge = add_routed-some linux_bridge linuxbridges []
    add_one-some ivs_bridge = refl
    add_one-some (nfvswitch_bridge options) = refl
    add_one-some (linux_team o) = add_routed-some (linux_team o) linuxteams []
    add_one-some (linux_bond o e) = add_routed-some (linux_bond o e) linuxbonds []
    add_one-some (ovs_bond o e) = add_routed-some (ovs_bond o e) interfaces []
    add_one-some (ovs_tunnel t o e) = add_file-some (ovs_tunnel t o e) interfaces []
    add_one-some (ovs_patch_port peer e) = add_file-some (ovs_patch_port peer e) interfaces []
    add_one-some (ib_interface e) = add_renamed-some (ib_interface e) ib_interfaces
    add_one-some (ib_child_interface parent i) =
        add_routed-some (ib_child_interface parent i) ib_childs []
    add_one-some (sriov_vf d i e) = add_routed-some (sriov_vf d i e) interfaces []
    add_one-some (sriov_pf m e) = add_routed-some (sriov_pf m e) interfaces []
    add_one-some linux_tap = add_routed-some linux_tap interfaces (str "TYPE=Tap\n")

bind-some :
    (o : Option Provider) (f : Provider → Option Provider)
    → Succeeds o
    → ((q : Provider) → Succeeds (f q))
    → Succeeds (bind o f)
bind-some none f h k = h
bind-some (some q) f h k = k q

if-some :
    (test : Bool) (rest : Provider → Option Provider)
    → ((q : Provider) → Succeeds (rest q))
    → (q : Provider) → Succeeds ((if test then rest else some) q)
if-some true rest h q = h q
if-some false rest h q = refl

mutual
  unfolding add_object

  add_object-some :
      (macs : Str → Option Str)
      → AreKnown macs
      → (o : Object) (p : Provider) → Succeeds (add_object macs o p)
  add_object-some macs known (node b k ms) p =
      bind-some (add_one macs p b k (names_of ms))
        (if has_members k then add_members macs ms else some)
        (add_one-some macs known b (names_of ms) p k)
        (if-some (has_members k) (add_members macs ms) (add_members-some macs known ms))
  add_object-some macs known (route_table n i) p = refl

  add_members-some :
      (macs : Str → Option Str)
      → AreKnown macs
      → (ms : Members) (p : Provider) → Succeeds (add_members macs ms p)
  add_members-some macs known nil p = refl
  add_members-some macs known (cons o ms) p =
      bind-some (add_object macs o p) (add_members macs ms) (add_object-some macs known o p)
        (add_members-some macs known ms)

add_objects-some :
    (macs : Str → Option Str)
    → AreKnown macs
    → (objs : List Object) (p : Provider) → Succeeds (add_objects macs objs p)
unfolding add_objects
add_objects-some macs known [] p = refl
add_objects-some macs known (o ∷ objs) p =
    bind-some (add_object macs o p) (add_objects macs objs) (add_object-some macs known o p)
      (add_objects-some macs known objs)

-- Adding objects raises no error, and leaves in the ten dicts for files the entries that were
-- there, updated with one file for each object of the trees, members included, in the order of
-- the trees, in the dict that the table `slot_of` names for its class. The MAC address of every
-- interface has to be known.
pub data_of-add_objects :
    (macs : Str → Option Str) (objs : List Object) (p : Provider)
    → AreKnown macs
    → (q : Provider) × (add_objects macs objs p ≡ some q)
      × ((slot : Slot)
          → data_of q.config slot ≡ update (data_of p.config slot) (all_files macs slot objs))
data_of-add_objects macs objs p known = elim (Option-cases (add_objects macs objs p)) [
  | inl failed ↦ absurd (
      let e : is_some (add_objects macs objs p) ≡ false = ap is_some failed in
      cc (e, add_objects-some macs known objs p))
  | inr (q, e) ↦ (
    q,
    e,
    λ slot.
        subst (Leaves slot p (all_files macs slot objs)) e (add_objects-Leaves macs slot objs p),
  )
]
