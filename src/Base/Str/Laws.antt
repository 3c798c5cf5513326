-- ===== src/Base/Str/Laws.antt =====
-- Laws of the text operations.
use Prim.Native.Nat.{ℕ, zero, suc, ◌+◌, ◌/◌, ◌%◌, ◌≤◌}
use mathlib.Core.Path.{◌≡◌, refl, ◌∙◌, ap, sym}
use mathlib.Core.Logic.{inl, inr}
use mathlib.Core.Bool.{true, false}
use mathlib.Core.Option.{some}
use mathlib.Core.List.{[], ◌∷◌, ◌++◌, append-nil}
use native.Mathlib.Omega.{arith}
use os_net_config.Base.Tests.{ltb, Bool-cases, nat_beq_iff}
use os_net_config.Base.Equality.{nat_eq}
use os_net_config.Base.Lists.{contains}
use os_net_config.Base.Str.{
  Str, starts_with, contains_str, split, partition, int, int_onto, digits_onto, decimal, is_digit,
}

-- `int(str(n)) == n`, with text behind the digits.
int_onto-digits_onto :
    (f n : ℕ) (rest : Str) → n ≤ f → int_onto 0 (digits_onto f n rest) ≡ int_onto n rest
unfolding int_onto digits_onto
int_onto-digits_onto zero n rest h = ap (λ (a : ℕ). int_onto a rest) (omega arith)
int_onto-digits_onto (suc f) n rest h = elim (Bool-cases (ltb n 10)) [
  | inl small ↦ rw small (ap (λ (a : ℕ). int_onto a rest) (omega arith))
  | inr big ↦ rw big (
      int_onto-digits_onto f (n / 10) ((b'0' + n % 10) ∷ rest) (ground arith)
      ∙ ap (λ (a : ℕ). int_onto a rest) (omega arith))
]

pub int-decimal : (n : ℕ) → int (decimal n) ≡ n
unfolding int decimal
int-decimal n = int_onto-digits_onto n n [] (omega arith) ∙ (unfold int_onto in refl)

pub decimal-injective : (m n : ℕ) → decimal m ≡ decimal n → m ≡ n
decimal-injective m n h = sym (int-decimal m) ∙ ap int h ∙ int-decimal n

-- Only digits are written.
contains-digits_onto :
    (f n : ℕ) (rest : Str) (c : ℕ)
    → is_digit c ≡ false
    → contains (digits_onto f n rest) c ≡ contains rest c
unfolding contains digits_onto is_digit
contains-digits_onto zero n rest c h = ground arith
contains-digits_onto (suc f) n rest c h = elim (Bool-cases (ltb n 10)) [
  | inl small ↦ rw small (ground arith)
  | inr big ↦ rw big (contains-digits_onto f (n / 10) ((b'0' + n % 10) ∷ rest) c h ∙ (ground arith))
]

pub contains-decimal : (n c : ℕ) → is_digit c ≡ false → contains (decimal n) c ≡ false
unfolding decimal
contains-decimal n c h = contains-digits_onto n n [] c h ∙ (unfold contains in refl)

-- The text of a number is not empty.
digits_onto-cons : (f n : ℕ) (rest : Str) → (c : ℕ) × (s : Str) × (digits_onto f n rest ≡ c ∷ s)
unfolding digits_onto
digits_onto-cons zero n rest = (b'0' + n % 10, rest, refl)
digits_onto-cons (suc f) n rest = elim (Bool-cases (ltb n 10)) [
  | inl small ↦ (b'0' + n, rest, rw small)
  | inr big ↦
      let (c, s, e) = digits_onto-cons f (n / 10) ((b'0' + n % 10) ∷ rest) in (c, s, rw big e)
]

pub decimal-cons : (n : ℕ) → (c : ℕ) × (s : Str) × (decimal n ≡ c ∷ s)
unfolding decimal
decimal-cons n = digits_onto-cons n n []

pub starts_with-append : (p s : Str) → starts_with (p ++ s) p ≡ true
unfolding starts_with
starts_with-append [] s = ground arith
starts_with-append (c ∷ p) s = ground (arith, starts_with-append p s)

pub contains_str-append : (a p b : Str) → contains_str (a ++ (p ++ b)) p ≡ true
unfolding contains_str
contains_str-append [] [] [] = refl
contains_str-append [] [] (c ∷ b) = refl
contains_str-append [] (c ∷ p) b = ground (arith, starts_with-append (c ∷ p) b)
contains_str-append (c ∷ a) p b = ground (arith, contains_str-append a p b)

pub contains_str_self : (p : Str) → contains_str p p ≡ true
contains_str_self p = rw append-nil at (contains_str-append [] p [])

-- The piece before the first separator.
pub split-append :
    (sep : ℕ) (line rest : Str)
    → contains line sep ≡ false
    → split sep (line ++ (sep ∷ rest)) ≡ line ∷ split sep rest
unfolding split contains
split-append sep [] rest h = ground (arith, nat_beq_iff sep sep)
split-append sep (c ∷ line) rest h = ground (arith, split-append sep line rest)

pub split_whole : (sep : ℕ) (line : Str) → contains line sep ≡ false → split sep line ≡ line ∷ []
unfolding split contains
split_whole sep [] h = refl
split_whole sep (c ∷ line) h = ground (arith, split_whole sep line)

pub partition-append :
    (sep : ℕ) (k v : Str) → contains k sep ≡ false → partition sep (k ++ (sep ∷ v)) ≡ some (k, v)
unfolding partition contains
partition-append sep [] v h = ground (arith, nat_beq_iff sep sep)
partition-append sep (c ∷ k) v h = ground (arith, partition-append sep k v)
