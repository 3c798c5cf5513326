-- ===== src/Ifcfg/Provider/Names.antt =====
-- Objects with different names: no name is in two of the dicts that `add_object` of
-- os_net_config/__init__.py fills.
use os_net_config.Base.{
  ℕ, ◌≡◌, refl, sym, ap, ◌∙◌, Bool, true, false, ◌&&◌, ◌||◌, Option, none, some, List, [], ◌∷◌,
  ◌++◌, arith, if◌then◌else◌, ◌==◌, beq→eq, nat_eq, str_eq, option_str_eq, any, any-append,
  contains, NodupB,
}
use os_net_config.Base.Str.{Str}
use os_net_config.Objects.{
  BaseOpts, Kind, Object, Members, node, route_table, nil, cons, names_of, has_members,
}
use os_net_config.Base.Dict.{Dict, has, has-append}
use os_net_config.Ifcfg.Provider.{Slot}
use os_net_config.Ifcfg.Provider.Files.{
  slot_of, slot_number, is_slot, own_file, files_in, files_of_members,
}
use os_net_config.Ifcfg.Provider.Tree.{all_files}

-- The dict and the name of each object that has a file
abbrev pub Place : Type 0
Place = ℕ × Str

abbrev own_place : BaseOpts → Option Slot → List Place
own_place b none = []
own_place b (some slot) = (slot_number slot, b.name) ∷ []

unfoldable mutual
  pub places : Object → List Place
  places (node b k ms) =
      own_place b (slot_of k) ++ (if has_members k then places_of_members ms else [])
  places (route_table n i) = []

  pub places_of_members : Members → List Place
  places_of_members nil = []
  places_of_members (cons o ms) = places o ++ places_of_members ms

abbrev pub all_places : List Object → List Place
all_places [] = []
all_places (o ∷ objs) = places o ++ all_places objs

abbrev pub is_at : Slot → Str → Place → Bool
is_at slot name (number, n) = (slot_number slot == number) && (n == name)

module _ (macs : Str → Option Str) (slot : Slot) (name : Str) where
  own_file-place :
      (b : BaseOpts) (k : Kind) (members : List Str)
      → has (own_file macs slot b k members) name ≡ any (is_at slot name) (own_place b (slot_of k))
  unfolding has any
  own_file-place b k members = by_slot (slot_of k) _
    where
      by_slot :
          (o : Option Slot) (text : Str)
          → has (if is_slot slot o then (b.name, text) ∷ [] else []) name
            ≡ any (is_at slot name) (own_place b o)
      by_slot none text = refl
      by_slot (some t) text = ground arith

any_if :
    (macs : Str → Option Str) (slot : Slot) (name : Str) (test : Bool) (xs : Dict Str Str)
    (ps : List Place)
    → has xs name ≡ any (is_at slot name) ps
    → has (if test then xs else []) name ≡ any (is_at slot name) (if test then ps else [])
any_if macs slot name true xs ps h = h
any_if macs slot name false xs ps h = unfold has any in refl

has_both :
    (slot : Slot) (name : Str) (xs ys : Dict Str Str) (ps qs : List Place)
    → has xs name ≡ any (is_at slot name) ps
    → has ys name ≡ any (is_at slot name) qs
    → has (xs ++ ys) name ≡ any (is_at slot name) (ps ++ qs)
has_both slot name xs ys ps qs h k =
    has-append xs ys name
    ∙ ap (λ b. b || has ys name) h
    ∙ ap (λ b. any (is_at slot name) ps || b) k
    ∙ sym (any-append (is_at slot name) ps qs)

has_nothing : (slot : Slot) (name : Str) → has {V = Str} [] name ≡ any (is_at slot name) []
unfolding has any
has_nothing slot name = refl

mutual
  unfolding files_in places

  has-files_in :
      (macs : Str → Option Str) (slot : Slot) (name : Str) (o : Object)
      → has (files_in macs slot o) name ≡ any (is_at slot name) (places o)
  has-files_in macs slot name (node b k ms) =
      has_both slot name (own_file macs slot b k (names_of ms))
        (if has_members k then files_of_members macs slot ms else []) (own_place b (slot_of k))
        (if has_members k then places_of_members ms else [])
        (own_file-place macs slot name b k (names_of ms))
        (any_if macs slot name (has_members k) (files_of_members macs slot ms)
          (places_of_members ms) (has-files_of_members macs slot name ms))
  has-files_in macs slot name (route_table n i) = has_nothing slot name

  has-files_of_members :
      (macs : Str → Option Str) (slot : Slot) (name : Str) (ms : Members)
      → has (files_of_members macs slot ms) name ≡ any (is_at slot name) (places_of_members ms)
  has-files_of_members macs slot name nil = has_nothing slot name
  has-files_of_members macs slot name (cons o ms) =
      has_both slot name (files_in macs slot o) (files_of_members macs slot ms) (places o)
        (places_of_members ms) (has-files_in macs slot name o)
        (has-files_of_members macs slot name ms)

has-all_files :
    (macs : Str → Option Str) (slot : Slot) (name : Str) (objs : List Object)
    → has (all_files macs slot objs) name ≡ any (is_at slot name) (all_places objs)
has-all_files macs slot name [] = has_nothing slot name
has-all_files macs slot name (o ∷ objs) =
    has_both slot name (files_in macs slot o) (all_files macs slot objs) (places o)
      (all_places objs) (has-files_in macs slot name o) (has-all_files macs slot name objs)

abbrev pub names_at : List Place → List Str
names_at [] = []
names_at ((number, n) ∷ ps) = n ∷ names_at ps

is_at-contains :
    (slot : Slot) (name : Str) (ps : List Place)
    → any (is_at slot name) ps ≡ true
    → contains (names_at ps) name ≡ true
unfolding any contains
is_at-contains slot name [] h = h
is_at-contains slot name ((number, n) ∷ ps) h = ground (arith, is_at-contains slot name ps)

one_place :
    (s t : Slot) (name : Str) (ps : List Place)
    → NodupB (names_at ps)
    → any (is_at s name) ps ≡ true
    → any (is_at t name) ps ≡ true
    → slot_number s ≡ slot_number t
unfolding any
one_place s t name [] u h k = cc
one_place s t name ((number, n) ∷ ps) (fresh, u) h k = ground (
  arith,
  is_at-contains s name ps,
  is_at-contains t name ps,
  beq→eq n name,
  one_place s t name ps u,
)

-- Where all names are different, no name has files in two dicts.
pub one_dict :
    (macs : Str → Option Str) (objs : List Object) (s t : Slot) (name : Str)
    → NodupB (names_at (all_places objs))
    → has (all_files macs s objs) name ≡ true
    → has (all_files macs t objs) name ≡ true
    → slot_number s ≡ slot_number t
one_dict macs objs s t name u h k =
    one_place s t name (all_places objs) u (sym (has-all_files macs s name objs) ∙ h)
      (sym (has-all_files macs t name objs) ∙ k)
