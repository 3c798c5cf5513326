-- ===== src/Base/Str/Digits.antt =====
-- The text of a number under the text operations.
use Prim.Native.Nat.{ℕ, zero, suc, ◌+◌, ◌/◌, ◌%◌}
use mathlib.Core.Path.{◌≡◌, refl}
use mathlib.Core.Logic.{inl, inr}
use mathlib.Core.Bool.{Bool, true, false}
use mathlib.Core.List.{[], ◌∷◌, reverse, reverse-cons, reverse-reverse}
use native.Mathlib.Omega.{arith}
use os_net_config.Base.Tests.{ltb, Bool-cases}
use os_net_config.Base.Lists.{all, all-append}
use os_net_config.Base.Str.{Str, lstrip, strip, is_digit, upper, digits_onto, decimal, isdigit}
use os_net_config.Base.Str.Laws.{decimal-cons}
use os_net_config.Base.{ap, ◌∙◌, sym}

digits_onto-all :
    (f n : ℕ) (rest : Str) → all is_digit rest ≡ true → all is_digit (digits_onto f n rest) ≡ true
unfolding all digits_onto is_digit
digits_onto-all zero n rest h = ground arith
digits_onto-all (suc f) n rest h = elim (Bool-cases (ltb n 10)) [
  | inl small ↦ rw small (ground arith)
  | inr big ↦ rw big (digits_onto-all f (n / 10) ((b'0' + n % 10) ∷ rest) (ground arith))
]

pub decimal-all : (n : ℕ) → all is_digit (decimal n) ≡ true
unfolding decimal
decimal-all n = digits_onto-all n n [] (unfold all in refl)

upper-digits : (s : Str) → all is_digit s ≡ true → upper s ≡ s
unfolding upper all is_digit
upper-digits [] h = refl
upper-digits (c ∷ s) h = ground (arith, upper-digits s)

-- `str(n).upper()`
pub upper-decimal : (n : ℕ) → upper (decimal n) ≡ decimal n
upper-decimal n = upper-digits (decimal n) (decimal-all n)

all-reverse : (s : Str) → all is_digit s ≡ true → all is_digit (reverse s) ≡ true
unfolding all
all-reverse [] h = h
all-reverse (c ∷ s) h =
    rw (reverse-cons c s, all-append is_digit (reverse s) (c ∷ [])) (ground (arith, all-reverse s))

module _ (test : ℕ → Bool) (no_digit : (c : ℕ) → is_digit c ≡ true → test c ≡ false) where
  lstrip-digits : (s : Str) → all is_digit s ≡ true → lstrip test s ≡ s
  unfolding lstrip all
  lstrip-digits [] h = refl
  lstrip-digits (c ∷ s) h = ground (arith, no_digit c)

  -- `str(n).strip(chars)`, where no digit is to be stripped
  pub strip-decimal : (n : ℕ) → strip test (decimal n) ≡ decimal n
  unfolding strip
  strip-decimal n =
      rw
        (
          lstrip-digits (decimal n) (decimal-all n),
          lstrip-digits (reverse (decimal n)) (all-reverse (decimal n) (decimal-all n)),
        )
        (reverse-reverse (decimal n))

pub isdigit-decimal : (n : ℕ) → isdigit (decimal n) ≡ true
unfolding isdigit
isdigit-decimal n =
    let (c, s, e) = decimal-cons n in ap isdigit e ∙ ap (all is_digit) (sym e) ∙ decimal-all n
