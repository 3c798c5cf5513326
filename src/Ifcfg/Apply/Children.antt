-- ===== src/Ifcfg/Apply/Children.antt =====
-- `IfcfgNetConfig.child_members` of os_net_config/impl_ifcfg.py.
use os_net_config.Base.{
  ℕ, zero, suc, ◌<◌, ◌≡◌, true, List, [], ◌∷◌, ◌++◌, arith, if◌then◌else◌, or_default, beq_refl,
  nat_eq, str_eq, option_str_eq, contains, inl, inr, ◌∙◌, ◌↔◌, ◌||◌, ◌==◌, Bool-cases, Bool, false,
  subst, sym, beq→eq, contains-append,
}
use os_net_config.Base.Str.{Str}
use os_net_config.Base.Dict.{Dict, get}

-- `children.add(member)`
abbrev pub add_child : List Str → Str → List Str
add_child children member = if contains children member then children else children ++ (member ∷ [])

-- `children.update(more)`
unfoldable pub add_all : List Str → List Str → List Str
add_all children [] = children
add_all children (member ∷ more) = add_all (add_child children member) more

-- The loop over the members, given what the recursive calls return. The set is a list with no
-- repetition.
unfoldable pub children_of : (Str → List Str) → List Str → List Str → List Str
children_of rec [] children = children
children_of rec (member ∷ members) children =
    children_of rec members (add_all (add_child children member) (rec member))

-- The fuel bounds the depth of the recursion.
unfoldable pub child_members : ℕ → Dict Str (List Str) → Str → List Str
unfolding add_all children_of
child_members zero member_names name = []
child_members (suc fuel) member_names name =
    children_of (child_members fuel member_names) (or_default (get member_names name) []) []

-- The members of an object stand lower than the object.
abbrev pub Descends : (Str → ℕ) → Dict Str (List Str) → Type 0
Descends rank member_names =
    (name member : Str)
    → contains (or_default (get member_names name) []) member ≡ true
    → rank member < rank name

-- What the members of an object are, and what theirs are
abbrev pub members_of : Dict Str (List Str) → Str → List Str
members_of member_names name = or_default (get member_names name) []

-- An object is a member of another one, or of a member of it.
pub data IsBelow (member_names : Dict Str (List Str)) : Str → Str → Type 0 where
  direct :
      {name member : Str}
      → contains (members_of member_names name) member ≡ true
      → IsBelow member_names name member
  through :
      {name member child : Str}
      → contains (members_of member_names name) member ≡ true
      → IsBelow member_names member child
      → IsBelow member_names name child

contains-add_child :
    (children : List Str) (member x : Str)
    → contains (add_child children member) x ≡ (contains children x || (member == x))
contains-add_child children member x = elim (Bool-cases (contains children member)) [
  | inl there ↦ rw there (elim (Bool-cases (member == x)) [
    | inl same ↦
        let present : contains children x ≡ true =
          subst (λ m. contains children m ≡ true) (beq→eq member x same) there in
        ground arith
    | inr other ↦ ground arith
  ])
  | inr fresh ↦
      rw fresh (contains-append children (member ∷ []) x ∙ (unfold contains in ground arith))
]

contains-add_all :
    (more children : List Str) (x : Str)
    → contains (add_all children more) x ≡ (contains children x || contains more x)
unfolding add_all contains
contains-add_all [] children x = ground arith
contains-add_all (member ∷ more) children x =
    contains-add_all more (add_child children member) x
    ∙ rw (contains-add_child children member x) (ground arith)

-- Some member is the object or has it among its children.
unfoldable leads_to : (Str → List Str) → List Str → Str → Bool
leads_to rec [] x = false
leads_to rec (member ∷ members) x =
    ((member == x) || contains (rec member) x) || leads_to rec members x

contains-children_of :
    (rec : Str → List Str) (members children : List Str) (x : Str)
    → contains (children_of rec members children) x
      ≡ (contains children x || leads_to rec members x)
unfolding children_of leads_to
contains-children_of rec [] children x = ground arith
contains-children_of rec (member ∷ members) children x =
    contains-children_of rec members (add_all (add_child children member) (rec member)) x
    ∙ rw
        (
          contains-add_all (rec member) (add_child children member) x,
          contains-add_child children member x,
        )
        (ground arith)

leads_to-some :
    (rec : Str → List Str) (members : List Str) (x : Str)
    → leads_to rec members x ≡ true
    → (member : Str) × (contains members member ≡ true)
      × (((member == x) || contains (rec member) x) ≡ true)
unfolding leads_to contains
leads_to-some rec [] x h = absurd (ground arith)
leads_to-some rec (member ∷ members) x h =
    elim (Bool-cases ((member == x) || contains (rec member) x)) [
      | inl here ↦ (member, ground (arith, beq_refl member), here)
      | inr there ↦
          let (m, k, found) = leads_to-some rec members x (rw there at h) in
          (m, ground arith, found)
    ]

some-leads_to :
    (rec : Str → List Str) (members : List Str) (member x : Str)
    → contains members member ≡ true
    → ((member == x) || contains (rec member) x) ≡ true
    → leads_to rec members x ≡ true
unfolding leads_to contains
some-leads_to rec [] member x h k = absurd (ground arith)
some-leads_to rec (first ∷ members) member x h k = elim (Bool-cases (first == member)) [
  | inl here ↦
      let same : ((first == x) || contains (rec first) x) ≡ true =
        subst (λ m. ((m == x) || contains (rec m) x) ≡ true) (sym (beq→eq first member here)) k in
      ground arith
  | inr there ↦ ground (arith, some-leads_to rec members member x)
]

module _ (member_names : Dict Str (List Str)) where
  child_members-IsBelow :
      (fuel : ℕ) (name child : Str)
      → contains (child_members fuel member_names name) child ≡ true
      → IsBelow member_names name child
  unfolding child_members contains
  child_members-IsBelow zero name child h = absurd (ground arith)
  child_members-IsBelow (suc fuel) name child h =
      let (member, k, found) =
        leads_to-some (child_members fuel member_names) (members_of member_names name) child (
          ground (
            arith,
            contains-children_of (child_members fuel member_names) (members_of member_names name) []
                child,
          )) in
      elim (Bool-cases (member == child)) [
        | inl same ↦ direct (
            subst (λ m. contains (members_of member_names name) m ≡ true) (beq→eq member child same)
              k)
        | inr other ↦ through k (child_members-IsBelow fuel member child (ground arith))
      ]

  IsBelow-child_members :
      (rank : Str → ℕ) (fuel : ℕ) (name child : Str)
      → Descends rank member_names
      → rank name < fuel
      → IsBelow member_names name child
      → contains (child_members fuel member_names name) child ≡ true
  unfolding child_members contains
  IsBelow-child_members rank zero name child d f b = absurd (omega arith)
  IsBelow-child_members rank (suc fuel) name child d f (direct h) =
      contains-children_of (child_members fuel member_names) (members_of member_names name) [] child
      ∙ some-leads_to (child_members fuel member_names) (members_of member_names name) child child h
          (ground (arith, beq_refl child))
  IsBelow-child_members rank (suc fuel) name child d f (through {member = m} h b) =
      let below = d name m h in
      contains-children_of (child_members fuel member_names) (members_of member_names name) [] child
      ∙ some-leads_to (child_members fuel member_names) (members_of member_names name) m child h
          (ground (arith, IsBelow-child_members rank fuel m child d (omega arith) b))

  -- The recursion finds exactly the members of an object, their members, and so on, if no object is
  -- its own member, directly or through others, and the depth is above the rank of the object.
  pub child_members_iff :
      (rank : Str → ℕ) (fuel : ℕ) (name child : Str)
      → Descends rank member_names
      → rank name < fuel
      → (contains (child_members fuel member_names name) child ≡ true)
        ↔ IsBelow member_names name child
  child_members_iff rank fuel name child d f =
      (child_members-IsBelow fuel name child, IsBelow-child_members rank fuel name child d f)
