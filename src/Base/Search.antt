-- ===== src/Base/Search.antt =====
-- Loops that look for the first item of a list.
use mathlib.Core.Path.{◌≡◌, subst}
use mathlib.Core.Bool.{Bool, true, false}
use mathlib.Core.Option.{Option, none, some}
use mathlib.Core.List.{List, [], ◌∷◌}
use native.Mathlib.Omega.{arith}
use os_net_config.Base.Lists.{All}
use mathlib.Core.Logic.{inl, inr}
use os_net_config.Base.Tests.{Bool-cases, if◌then◌else◌}

module _ {ℓ} {A : Type ℓ} where
  -- `for item in items: if test(item): return item`
  unfoldable pub find : (A → Bool) → List A → Option A
  find test [] = none
  find test (x ∷ xs) = let rest = find test xs in if test x then some x else rest

  -- `for item in items: if test(item): ...; break` with `else: items.append(new)`
  unfoldable pub change_first : (A → Bool) → (A → A) → A → List A → List A
  change_first test change new [] = new ∷ []
  change_first test change new (x ∷ xs) =
      let rest = change_first test change new xs in if test x then change x ∷ xs else x ∷ rest

  -- The search for the item that was changed or appended.
  pub find-change_first :
      (test : A → Bool) (change : A → A) (new : A) (xs : List A)
      → test new ≡ true
      → ((x : A) → test x ≡ true → test (change x) ≡ true)
      → find test (change_first test change new xs)
        ≡ some (elim (find test xs) [ none ↦ new | some x ↦ change x ])
  unfolding find change_first
  find-change_first test change new [] h k = ground arith
  find-change_first test change new (x ∷ xs) h k =
      ground (arith, k x, find-change_first test change new xs h k)

  -- The search for another item.
  pub find-change_first_other :
      (test other : A → Bool) (change : A → A) (new : A) (xs : List A)
      → other new ≡ false
      → ((x : A) → test x ≡ true → other x ≡ false)
      → ((x : A) → test x ≡ true → other (change x) ≡ false)
      → find other (change_first test change new xs) ≡ find other xs
  unfolding find change_first
  find-change_first_other test other change new [] h k l = ground arith
  find-change_first_other test other change new (x ∷ xs) h k l =
      ground (arith, k x, l x, find-change_first_other test other change new xs h k l)

  -- What is found meets the test.
  pub find-test : (test : A → Bool) (xs : List A) (x : A) → find test xs ≡ some x → test x ≡ true
  unfolding find
  find-test test [] x h = absurd (ground arith)
  find-test test (y ∷ ys) x h = ground (arith, find-test test ys x)

  -- The same where the change keeps the tests only for the items of the list.
  pub find-change_first_on :
      (test : A → Bool) (change : A → A) (new : A) (xs : List A)
      → test new ≡ true
      → All (λ x. test (change x) ≡ test x) xs
      → find test (change_first test change new xs)
        ≡ some (elim (find test xs) [ none ↦ new | some x ↦ change x ])
  unfolding find change_first
  find-change_first_on test change new [] h k = ground arith
  find-change_first_on test change new (x ∷ xs) h (same, k) =
      ground (arith, find-change_first_on test change new xs h k)

  pub find-change_first_on_other :
      (test other : A → Bool) (change : A → A) (new : A) (xs : List A)
      → other new ≡ false
      → All (λ x. (other (change x) ≡ other x) × (test x ≡ true → other x ≡ false)) xs
      → find other (change_first test change new xs) ≡ find other xs
  unfolding find change_first
  find-change_first_on_other test other change new [] h k = ground arith
  find-change_first_on_other test other change new (x ∷ xs) h ((same, apart), k) =
      ground (arith, find-change_first_on_other test other change new xs h k)

  pub All-map {κ μ} :
      {P : A → Type κ} {Q : A → Type μ} (f : (x : A) → P x → Q x) (xs : List A)
      → All P xs
      → All Q xs
  All-map f [] h = tt
  All-map f (x ∷ xs) (p, h) = (f x p, All-map f xs h)

  pub find-All {κ} :
      (P : A → Type κ) (test : A → Bool) (xs : List A) (x : A)
      → All P xs
      → find test xs ≡ some x
      → P x
  unfolding find
  find-All P test [] x h e = absurd (ground arith)
  find-All P test (y ∷ ys) x (p, h) e = elim (Bool-cases (test y)) [
    | inl here ↦ subst P (ground arith) p
    | inr there ↦ find-All P test ys x h (ground arith)
  ]
