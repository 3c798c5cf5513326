-- ===== src/Nics/Numbered.antt =====
-- The numbered aliases of `mapped_nics`: they do not depend on the order of the set of the active
-- interfaces that the mapping leaves.
use os_net_config.Base.{
  ◌+◌, ◌≡◌, sym, ap, ◌∙◌, subst, inl, inr, Bool, true, false, Option, none, some, List, [], ◌∷◌,
  ◌++◌, arith, if◌then◌else◌, Bool-cases, Option-cases, ◌==◌, beq_refl, beq→eq, nat_eq, str_eq,
  option_str_eq, contains, find, find-test,
}
use os_net_config.Base.Str.{Str, str}
use os_net_config.Base.Str.Laws.{decimal-injective}
use os_net_config.Base.Dict.{Dict, get, has, put, get-put, has-put, has-eq-is_some}
use os_net_config.Nics.Mapped.{index, numbered, add_numbered, NicEnv, IsRest}

index-injective :
    (nics : List Str) (a b : Str)
    → contains nics a ≡ true
    → contains nics b ≡ true
    → index nics a ≡ index nics b
    → a ≡ b
unfolding index contains
index-injective [] a b h k e = absurd (ground arith)
index-injective (first ∷ nics) a b h k e = elim (Bool-cases (first == a)) [
  | inl here ↦ elim (Bool-cases (first == b)) [
    | inl too ↦ sym (beq→eq first a here) ∙ beq→eq first b too
    | inr not_b ↦ absurd (ground arith)
  ]
  | inr not_a ↦ elim (Bool-cases (first == b)) [
    | inl too ↦ absurd (ground arith)
    | inr not_b ↦ index-injective nics a b (ground arith) (ground arith) (ground arith)
  ]
]

prefix-injective : (p a b : Str) → p ++ a ≡ p ++ b → a ≡ b
prefix-injective [] a b h = h
prefix-injective (c ∷ p) a b h = prefix-injective p a b (ground arith)

module _ (env : NicEnv) where
  numbered-injective :
      (a b : Str)
      → contains env.active_nics a ≡ true
      → contains env.active_nics b ≡ true
      → numbered env a ≡ numbered env b
      → a ≡ b
  unfolding numbered
  numbered-injective a b h k e = index-injective env.active_nics a b h k (
      omega (
        arith,
        decimal-injective (index env.active_nics a + 1) (index env.active_nics b + 1)
            (prefix-injective (str "nic") _ _ e),
      ))

  -- Who gets an alias.
  abbrev owner : Str → List Str → Option Str
  owner k rest = find (λ nic. numbered env nic == k) rest

  get-add_numbered :
      (rest : List Str) (mapped : Dict Str Str) (k : Str)
      → get (add_numbered env rest mapped) k ≡ (if has mapped k then get mapped k else owner k rest)
  unfolding add_numbered find
  get-add_numbered [] mapped k = ground (arith, has-eq-is_some mapped k)
  get-add_numbered (nic ∷ rest) mapped k = elim (Bool-cases (has mapped (numbered env nic))) [
    | inl taken ↦
        rw taken (get-add_numbered rest mapped k ∙ ground (arith, beq→eq (numbered env nic) k))
    | inr free ↦ rw free (
        get-add_numbered rest (put mapped (numbered env nic) nic) k
        ∙ ground (
          arith,
          has-put mapped (numbered env nic) nic k,
          get-put mapped (numbered env nic) nic k,
          beq→eq (numbered env nic) k,
        ))
  ]

find-contains :
    (test : Str → Bool) (xs : List Str) (x : Str) → find test xs ≡ some x → contains xs x ≡ true
unfolding find contains
find-contains test [] x h = absurd (ground arith)
find-contains test (y ∷ ys) x h = ground (arith, find-contains test ys x, beq_refl y)

find-none :
    (test : Str → Bool) (xs : List Str) (x : Str)
    → find test xs ≡ none
    → contains xs x ≡ true
    → test x ≡ false
unfolding find contains
find-none test [] x h k = absurd (ground arith)
find-none test (y ∷ ys) x h k = elim (Bool-cases (y == x)) [
  | inl here ↦ subst (λ z. test z ≡ false) (beq→eq y x here) (ground arith)
  | inr there ↦ find-none test ys x (ground arith) (ground arith)
]

-- Two lists with the same elements, of which at most one meets the test.
find-same :
    (test : Str → Bool) (xs ys : List Str)
    → ((a : Str) → contains xs a ≡ contains ys a)
    → ((a b : Str)
        → contains xs a ≡ true
        → contains xs b ≡ true
        → test a ≡ true
        → test b ≡ true
        → a ≡ b)
    → find test xs ≡ find test ys
find-same test xs ys same one = elim (Option-cases (find test xs)) [
  | inl none_x ↦ elim (Option-cases (find test ys)) [
    | inl none_y ↦ none_x ∙ sym none_y
    | inr (y, found) ↦ absurd (
        ground (
          arith,
          find-test test ys y found,
          find-none test xs y none_x (same y ∙ find-contains test ys y found),
        ))
  ]
  | inr (x, found_x) ↦ elim (Option-cases (find test ys)) [
    | inl none_y ↦ absurd (
        ground (
          arith,
          find-test test xs x found_x,
          find-none test ys x none_y (sym (same x) ∙ find-contains test xs x found_x),
        ))
    | inr (y, found_y) ↦
        found_x
        ∙ ap some (
            one x y (find-contains test xs x found_x) (same y ∙ find-contains test ys y found_y)
              (find-test test xs x found_x) (find-test test ys y found_y))
        ∙ sym found_y
  ]
]

module _ (env : NicEnv) where
  -- The alias of an interface does not depend on the order of the set of the active interfaces
  -- that the mapping leaves.
  pub get-add_numbered_order :
      (mapped : Dict Str Str) (rest other : List Str) (k : Str)
      → IsRest env mapped rest
      → IsRest env mapped other
      → get (add_numbered env rest mapped) k ≡ get (add_numbered env other mapped) k
  get-add_numbered_order mapped rest other k r o =
      get-add_numbered env rest mapped k
      ∙ ap (λ f. if has mapped k then get mapped k else f)
          (find-same (λ nic. numbered env nic == k) rest other
            (λ a. r.members a ∙ sym (o.members a))
            (λ a b h g p q.
              numbered-injective env a b (ground (arith, r.members a)) (ground (arith, r.members b))
                (beq→eq (numbered env a) k p ∙ sym (beq→eq (numbered env b) k q))))
      ∙ sym (get-add_numbered env other mapped k)
