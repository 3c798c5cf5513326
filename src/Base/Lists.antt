-- ===== src/Base/Lists.antt =====
-- Lists as Python uses them: `in`, membership as a proposition, and lists with no repetition.
use Prim.Native.Nat.{ℕ, zero, suc, ◌+◌}
use mathlib.Core.Path.{◌≡◌, refl}
use mathlib.Core.Logic.{◌↔◌, inl, inr}
use mathlib.Core.Bool.{Bool, true, false, ◌&&◌, ◌||◌}
use mathlib.Core.Option.{Option, none, some}
use mathlib.Core.List.{List, [], ◌∷◌, ◌++◌}
use native.Mathlib.Omega.{arith}
use os_net_config.Base.Tests.{if◌then◌else◌, Bool-cases}
use os_net_config.Base.Equality.{Eq, ◌==◌, beq_refl}

module _ {ℓ} {A : Type ℓ} where
  abbrev pub length : List A → ℕ
  length [] = 0
  length (x ∷ xs) = suc (length xs)

  pub length-append : (xs ys : List A) → length (xs ++ ys) ≡ length xs + length ys
  length-append [] ys = omega arith
  length-append (x ∷ xs) ys = omega (arith, length-append xs ys)

  abbrev pub get_elem? : List A → ℕ → Option A
  get_elem? [] i = none
  get_elem? (x ∷ xs) zero = some x
  get_elem? (x ∷ xs) (suc i) = get_elem? xs i

  -- `xs[:n]`
  unfoldable pub take : ℕ → List A → List A
  take zero xs = []
  take (suc n) [] = []
  take (suc n) (x ∷ xs) = x ∷ take n xs

  -- `[x for x in xs if keep(x)]`
  unfoldable pub select : (A → Bool) → List A → List A
  select keep [] = []
  select keep (x ∷ xs) = let rest = select keep xs in if keep x then x ∷ rest else rest

  -- `any(test(x) for x in xs)`
  unfoldable pub any : (A → Bool) → List A → Bool
  any test [] = false
  any test (x ∷ xs) = test x || any test xs

  -- `all(test(x) for x in xs)`
  unfoldable pub all : (A → Bool) → List A → Bool
  all test [] = true
  all test (x ∷ xs) = test x && all test xs

  pub any-append :
      (test : A → Bool) (xs ys : List A) → any test (xs ++ ys) ≡ (any test xs || any test ys)
  unfolding any
  any-append test [] ys = refl
  any-append test (x ∷ xs) ys = ground (arith, any-append test xs ys)

  pub all-append :
      (test : A → Bool) (xs ys : List A) → all test (xs ++ ys) ≡ (all test xs && all test ys)
  unfolding all
  all-append test [] ys = refl
  all-append test (x ∷ xs) ys = ground (arith, all-append test xs ys)

  pub all-weaken :
      (test other : A → Bool) (xs : List A)
      → ((x : A) → test x ≡ true → other x ≡ true)
      → all test xs ≡ true
      → all other xs ≡ true
  unfolding all
  all-weaken test other [] h p = refl
  all-weaken test other (x ∷ xs) h p = ground (arith, h x, all-weaken test other xs h)

  abbrev pub All {κ} : (A → Type κ) → List A → Type κ
  All P [] = Unit
  All P (x ∷ xs) = P x × All P xs

module _ {ℓ} {A : Type ℓ} ⦃e : Eq A⦄ where
  -- `a in xs`
  unfoldable pub contains : List A → A → Bool
  contains [] a = false
  contains (x ∷ xs) a = (x == a) || contains xs a

  pub contains-append :
      (xs ys : List A) (a : A) → contains (xs ++ ys) a ≡ (contains xs a || contains ys a)
  unfolding contains
  contains-append [] ys a = refl
  contains-append (x ∷ xs) ys a = ground (arith, contains-append xs ys a)

  pub contains-select :
      (keep : A → Bool) (xs : List A) (a : A)
      → contains (select keep xs) a ≡ (contains xs a && keep a)
  unfolding contains select
  contains-select keep [] a = refl
  contains-select keep (x ∷ xs) a = ground (arith, contains-select keep xs a, e.beq_iff x a)

  pub any_iff :
      (test : A → Bool) (xs : List A)
      → (any test xs ≡ true) ↔ ((x : A) × (contains xs x ≡ true) × (test x ≡ true))
  unfolding any contains
  any_iff test [] = (λ h. cc, λ (x, m, t). cc)
  any_iff test (y ∷ ys) = (
    λ h. elim (Bool-cases (test y)) [
      | inl here ↦ (y, ground (arith, beq_refl y), here)
      | inr there ↦ let (x, m, t) = (any_iff test ys).0 (ground arith) in (x, ground arith, t)
    ],
    λ (x, m, t). elim (Bool-cases (y == x)) [
      | inl same ↦ ground (arith, e.beq_iff y x)
      | inr differ ↦ ground (arith, (any_iff test ys).1 (x, ground arith, t))
    ],
  )

  -- No element is listed twice.
  abbrev pub NodupB : List A → Type 0
  NodupB [] = Unit {0}
  NodupB (x ∷ xs) = (contains xs x ≡ false) × NodupB xs
