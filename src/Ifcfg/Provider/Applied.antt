-- ===== src/Ifcfg/Provider/Applied.antt =====
-- From objects to files: what `apply` of os_net_config/impl_ifcfg.py writes for the objects that were
-- added to a new provider.
use os_net_config.Base.{
  ℕ, ◌≡◌, refl, sym, ap, ◌∙◌, subst, ◌⊎◌, inl, inr, true, false, Option, none, some, List, [], ◌∷◌,
  ◌++◌, arith, Bool-cases, ◌==◌, beq→eq, beq→ne, nat_eq, str_eq, option_str_eq, contains, NodupB,
}
use os_net_config.Base.Str.{Str}
use os_net_config.Base.Dict.{
  Dict, get, has, update, has-update, get-update, last_of, UniqueKeys, append-UniqueKeys,
  update-UniqueKeys, has-append,
}
use os_net_config.Objects.{Object}
use os_net_config.Ifcfg.Parse.{Files, get_file_data}
use os_net_config.Ifcfg.Apply.{NetConfig, Plan, interface_path}
use os_net_config.Ifcfg.Apply.Decide.{decide, decide_first, decide_last}
use os_net_config.Ifcfg.Apply.Settled.{decide-some}
use os_net_config.Ifcfg.Apply.Updates.{files_of, wanted, Entry, Entry-left, Entry-right}
use os_net_config.Ifcfg.Apply.Quiet.{IsConsistent, write_files, decide-settles}
use os_net_config.Ifcfg.Apply.Names.{all_data, wanted-all_data, unique-IsConsistent}
use os_net_config.Ifcfg.Provider.{
  Provider, Slot, data_of, new_provider, add_objects, interfaces, ivsinterfaces,
  nfvswitch_intifaces, vlans, ib_childs, ib_interfaces, bridges, linuxbridges, linuxbonds,
  linuxteams,
}
use os_net_config.Ifcfg.Provider.Files.{slot_number}
use os_net_config.Ifcfg.Provider.Tree.{all_files}
use os_net_config.Ifcfg.Provider.Result.{AreKnown, data_of-add_objects}
use os_net_config.Ifcfg.Provider.Names.{all_places, names_at, one_dict}

new_provider-empty :
    (root_dir : Str) (slot : Slot) → data_of (new_provider root_dir).config slot ≡ []
unfolding data_of
new_provider-empty root_dir interfaces = refl
new_provider-empty root_dir slot = refl

slot-injective : (s t : Slot) → slot_number s ≡ slot_number t → s ≡ t
slot-injective interfaces interfaces h = refl
slot-injective ivsinterfaces ivsinterfaces h = refl
slot-injective nfvswitch_intifaces nfvswitch_intifaces h = refl
slot-injective vlans vlans h = refl
slot-injective ib_childs ib_childs h = refl
slot-injective ib_interfaces ib_interfaces h = refl
slot-injective bridges bridges h = refl
slot-injective linuxbridges linuxbridges h = refl
slot-injective linuxbonds linuxbonds h = refl
slot-injective linuxteams linuxteams h = refl
slot-injective s t h = absurd (omega arith)

-- The dicts that hold the files, but for those of Linux bridges, in the order of `apply`
abbrev file_slots : List Slot
file_slots =
    interfaces ∷ ivsinterfaces ∷ nfvswitch_intifaces ∷ bridges ∷ linuxteams ∷ linuxbonds
    ∷ ib_interfaces ∷ vlans ∷ ib_childs ∷ []

abbrev numbers : List Slot → List ℕ
numbers [] = []
numbers (s ∷ slots) = slot_number s ∷ numbers slots

abbrev joined : NetConfig → List Slot → Dict Str Str
joined c [] = []
joined c (s ∷ []) = data_of c s
joined c (s ∷ t ∷ slots) = data_of c s ++ joined c (t ∷ slots)

all_data-joined : (c : NetConfig) → all_data c ≡ joined c file_slots
unfolding data_of
all_data-joined c = refl

file_slots-NodupB : NodupB (numbers file_slots)
unfolding contains
file_slots-NodupB = (refl, (refl, (refl, (refl, (refl, (refl, (refl, (refl, (refl, tt)))))))))

last_of-new : (xs : Dict Str Str) (n : Str) → last_of xs n (get [] n) ≡ last_of xs n none
unfolding get
last_of-new xs n = refl

update-new : (d : Dict Str Str) → update d [] ≡ d
unfolding update
update-new d = refl

no_file : {text : Str} → some text ≡ none → ⊥
no_file h = cc

-- A configuration where the dicts have no repeated names, and no name is in two of them
module _ (c : NetConfig) (each : (s : Slot) → UniqueKeys (data_of c s))
    (apart : (s t : Slot) (n : Str)
      → has (data_of c s) n ≡ true
      → has (data_of c t) n ≡ true
      → slot_number s ≡ slot_number t) where
  apart_two :
      (s t : Slot) (n : Str)
      → (slot_number t == slot_number s) ≡ false
      → has (data_of c s) n ≡ true
      → has (data_of c t) n ≡ false
  apart_two s t n differ h = elim (Bool-cases (has (data_of c t) n)) [
    | inr no_entry ↦ no_entry
    | inl entry ↦ absurd (beq→ne _ _ differ (sym (apart s t n h entry)))
  ]

  apart_joined :
      (s : Slot) (slots : List Slot) (n : Str)
      → contains (numbers slots) (slot_number s) ≡ false
      → has (data_of c s) n ≡ true
      → has (joined c slots) n ≡ false
  unfolding contains
  apart_joined s [] n other h = unfold has in refl
  apart_joined s (t ∷ []) n other h = apart_two s t n (ground arith) h
  apart_joined s (t ∷ u ∷ slots) n other h =
      has-append (data_of c t) (joined c (u ∷ slots)) n
      ∙ ground
          (arith, apart_two s t n (ground arith) h, apart_joined s (u ∷ slots) n (ground arith) h)

  joined-UniqueKeys : (slots : List Slot) → NodupB (numbers slots) → UniqueKeys (joined c slots)
  joined-UniqueKeys [] h = tt
  joined-UniqueKeys (s ∷ []) h = each s
  joined-UniqueKeys (s ∷ t ∷ slots) (fresh, h) =
      append-UniqueKeys (data_of c s) (joined c (t ∷ slots)) (each s)
        (joined-UniqueKeys (t ∷ slots) h) (λ n m. apart_joined s (t ∷ slots) n fresh m)

  all_data-UniqueKeys : UniqueKeys (all_data c)
  all_data-UniqueKeys =
      subst UniqueKeys (sym (all_data-joined c)) (joined-UniqueKeys file_slots file_slots-NodupB)

get-Entry : (d : Dict Str Str) (n text : Str) → get d n ≡ some text → Entry d n text
unfolding get
get-Entry [] n text h = cc
get-Entry ((k, v) ∷ d) n text h = elim (Bool-cases (k == n)) [
  | inl here ↦ inl (beq→eq k n here, ground arith)
  | inr there ↦ inr (get-Entry d n text (ground arith))
]

module _ (c : NetConfig) where
  Entry-joined :
      (s : Slot) (slots : List Slot) (n text : Str)
      → contains (numbers slots) (slot_number s) ≡ true
      → Entry (data_of c s) n text
      → Entry (joined c slots) n text
  unfolding contains
  Entry-joined s [] n text h e = absurd (ground arith)
  Entry-joined s (t ∷ []) n text h e =
      subst (λ u. Entry (data_of c u) n text) (sym (slot-injective t s (beq→eq _ _ (ground arith))))
        e
  Entry-joined s (t ∷ u ∷ slots) n text h e = elim (Bool-cases (slot_number t == slot_number s)) [
    | inl here ↦
        Entry-left (data_of c t) (joined c (u ∷ slots)) n text
          (subst (λ v. Entry (data_of c v) n text) (sym (slot-injective t s (beq→eq _ _ here))) e)
    | inr later ↦
        Entry-right (data_of c t) (joined c (u ∷ slots)) n text
          (Entry-joined s (u ∷ slots) n text (ground arith) e)
  ]

  Entry-files_of :
      (d : Dict Str Str) (n text : Str)
      → Entry d n text
      → Entry (files_of c d) (interface_path c n) text
  unfolding files_of
  Entry-files_of [] n text h = absurd h
  Entry-files_of ((k, v) ∷ d) n text (inl (same, e)) = inl (ap (interface_path c) same, e)
  Entry-files_of ((k, v) ∷ d) n text (inr h) = inr (inr (inr (inr (Entry-files_of d n text h))))

listed_slot :
    (s : Slot) → (contains (numbers file_slots) (slot_number s) ≡ true) ⊎ (s ≡ linuxbridges)
unfolding contains
listed_slot linuxbridges = inr refl
listed_slot interfaces = inl refl
listed_slot ivsinterfaces = inl refl
listed_slot nfvswitch_intifaces = inl refl
listed_slot vlans = inl refl
listed_slot ib_childs = inl refl
listed_slot ib_interfaces = inl refl
listed_slot bridges = inl refl
listed_slot linuxbonds = inl refl
listed_slot linuxteams = inl refl

module _ (macs : Str → Option Str) (objs : List Object) (root_dir : Str) (q : Provider)
    (holds : (slot : Slot)
      → data_of q.config slot
        ≡ update (data_of (new_provider root_dir).config slot) (all_files macs slot objs)) where
  files_held : (slot : Slot) → data_of q.config slot ≡ update [] (all_files macs slot objs)
  files_held slot =
      holds slot ∙ ap (λ d. update d (all_files macs slot objs)) (new_provider-empty root_dir slot)

  has-held : (s : Slot) (n : Str) → has (data_of q.config s) n ≡ has (all_files macs s objs) n
  has-held s n =
      ap (λ d. has d n) (files_held s)
      ∙ has-update [] (all_files macs s objs) n
      ∙ (unfold has in refl)

  held-IsConsistent : NodupB (names_at (all_places objs)) → IsConsistent q.config
  held-IsConsistent u = unique-IsConsistent q.config (
      all_data-UniqueKeys q.config
        (λ s.
          subst UniqueKeys (sym (files_held s)) (update-UniqueKeys [] (all_files macs s objs) tt))
        (λ s t n h k. one_dict macs objs s t n u (sym (has-held s n) ∙ h) (sym (has-held t n) ∙ k)))

  held-get :
      (slot : Slot) (n text : Str)
      → last_of (all_files macs slot objs) n none ≡ some text
      → get (data_of q.config slot) n ≡ some text
  held-get slot n text h =
      ap (λ d. get d n) (files_held slot)
      ∙ get-update (all_files macs slot objs) [] n
      ∙ (last_of-new (all_files macs slot objs) n ∙ h)

  held-wanted :
      (slot : Slot) (n text : Str)
      → all_files macs linuxbridges objs ≡ []
      → last_of (all_files macs slot objs) n none ≡ some text
      → Entry (wanted q.config) (interface_path q.config n) text
  held-wanted slot n text no_bridge h = elim (listed_slot slot) [
    | inl listed ↦
        subst (λ l. Entry l (interface_path q.config n) text) (sym (wanted-all_data q.config))
          (Entry-files_of q.config (all_data q.config) n text (
            subst (λ d. Entry d n text) (sym (all_data-joined q.config))
              (Entry-joined q.config slot file_slots n text listed
                (get-Entry (data_of q.config slot) n text (held-get slot n text h)))))
    | inr bridge ↦ absurd (
        no_file (
          sym h
          ∙ ap (λ s. last_of (all_files macs s objs) n none) bridge
          ∙ ap (λ l. last_of l n none) no_bridge))
  ]

module _ (macs : Str → Option Str) (objs : List Object) (root_dir : Str) (q : Provider) where
  no_linuxbridges :
      (data_of q.config linuxbridges
        ≡ update
            (data_of (new_provider root_dir).config linuxbridges)
            (all_files macs linuxbridges objs))
      → all_files macs linuxbridges objs ≡ []
      → q.config.linuxbridge_data ≡ []
  unfolding data_of
  no_linuxbridges holds no_bridge = holds ∙ ap (update []) no_bridge ∙ update-new []

-- Objects with different names, none of them a Linux bridge, are added to a new provider without
-- an error, `apply` comes to its decisions without an error, and once its files are written, the
-- ifcfg file of each object of the trees, members included, has the text that `_add_common` made
-- for the object. The MAC address of every interface has to be known.
pub decide-add_objects :
    (macs : Str → Option Str) (objs : List Object) (root_dir : Str) (fuel : ℕ) (fs : Files)
    → AreKnown macs
    → NodupB (names_at (all_places objs))
    → all_files macs linuxbridges objs ≡ []
    → (q : Provider) × (plan : Plan) × (add_objects macs objs (new_provider root_dir) ≡ some q)
      × (decide fuel q.config fs ≡ some plan)
      × ((slot : Slot) (n text : Str)
          → last_of (all_files macs slot objs) n none ≡ some text
          → get_file_data (write_files plan.update_files fs) (interface_path q.config n) ≡ text)
decide-add_objects macs objs root_dir fuel fs known u no_bridge =
    let (q, added, holds) = data_of-add_objects macs objs (new_provider root_dir) known in
    let none_there : q.config.linuxbridge_data ≡ [] =
      no_linuxbridges macs objs root_dir q (holds linuxbridges) no_bridge in
    let plan : Plan = decide_last fuel q.config fs (decide_first fuel q.config fs) in
    let decided = decide-some fuel q.config fs none_there in
    (
      q,
      plan,
      added,
      decided,
      λ slot n text h.
          decide-settles fuel q.config fs plan none_there
            (held-IsConsistent macs objs root_dir q holds u) decided (interface_path q.config n)
            text (held-wanted macs objs root_dir q holds slot n text no_bridge h),
    )
