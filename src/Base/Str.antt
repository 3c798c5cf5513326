-- ===== src/Base/Str.antt =====
-- Python's `str` as the list of its code points, with the methods that the program calls.
pub mod Laws
pub mod Digits
use Prim.Native.Nat.{ℕ, zero, suc, ◌+◌, ◌-◌, ◌*◌, ◌/◌, ◌%◌}
use Prim.Native.Char.{code}
use Prim.Native.String.{String}
use mathlib.Core.Bool.{Bool, true, false, ◌&&◌, ◌||◌, not}
use mathlib.Core.Option.{Option, none, some}
use mathlib.Core.List.{List, [], ◌∷◌, ◌++◌, map, reverse}
use os_net_config.Base.Tests.{if◌then◌else◌, ltb, leb}
use os_net_config.Base.Equality.{◌==◌, nat_eq, str_eq}
use os_net_config.Base.Lists.{all}

abbrev pub Str : Type 0
Str = List ℕ

-- The text of a literal.
unfoldable pub str : String → Str
str String.[] = []
str (String.◌∷◌ c s) = code c ∷ str s

abbrev pub newline : ℕ
newline = 10

-- `s.startswith(prefix)`
unfoldable pub starts_with : Str → Str → Bool
starts_with s [] = true
starts_with [] (p ∷ ps) = false
starts_with (c ∷ s) (p ∷ ps) = (c == p) && starts_with s ps

-- `pattern in s`
unfoldable pub contains_str : Str → Str → Bool
unfolding starts_with
contains_str [] pattern = starts_with [] pattern
contains_str (c ∷ s) pattern = starts_with (c ∷ s) pattern || contains_str s pattern

-- A first piece before a list of pieces: a character goes to the front of the first piece.
abbrev pub push_first : ℕ → List Str → List Str
push_first c [] = (c ∷ []) ∷ []
push_first c (piece ∷ pieces) = (c ∷ piece) ∷ pieces

-- `s.split(sep)` for one character; the result has one piece more than `s` has separators.
unfoldable pub split : ℕ → Str → List Str
split sep [] = [] ∷ []
split sep (c ∷ s) =
    let pieces = split sep s in if c == sep then [] ∷ pieces else push_first c pieces

-- `s.split(sep, 1)` where `s` holds the separator: what stands before it and what stands behind.
unfoldable pub partition : ℕ → Str → Option (Str × Str)
partition sep [] = none
partition sep (c ∷ s) =
    if c == sep
    then some ([], s)
    else elim (partition sep s) [ none ↦ none | some (k, v) ↦ some (c ∷ k, v) ]

-- `s.lstrip(chars)` and `s.strip(chars)`, the characters given by a test.
unfoldable pub lstrip : (ℕ → Bool) → Str → Str
lstrip test [] = []
lstrip test (c ∷ s) = let rest = lstrip test s in if test c then rest else c ∷ s

unfoldable pub strip : (ℕ → Bool) → Str → Str
unfolding lstrip
strip test s = reverse (lstrip test (reverse (lstrip test s)))

-- White space of the ASCII range.
unfoldable pub is_space : ℕ → Bool
is_space c = (c == 32) || (leb 9 c && leb c 13) || (leb 28 c && leb c 31)

unfoldable pub is_digit : ℕ → Bool
is_digit c = leb b'0' c && leb c b'9'

-- `s.isdigit()` on ASCII text
unfoldable pub isdigit : Str → Bool
unfolding is_digit
isdigit [] = false
isdigit (c ∷ s) = all is_digit (c ∷ s)

-- `s.upper()` on ASCII text
unfoldable pub upper : Str → Str
upper = map (λ c. if leb b'a' c && leb c b'z' then c - 32 else c)

-- `sep.join(pieces)`
unfoldable pub join : Str → List Str → Str
join sep [] = []
join sep (p ∷ []) = p
join sep (p ∷ q ∷ ps) = p ++ (sep ++ join sep (q ∷ ps))

-- `int(s)` of a text of digits, most significant digit first.
unfoldable pub int_onto : ℕ → Str → ℕ
int_onto acc [] = acc
int_onto acc (c ∷ s) = int_onto (acc * 10 + (c - b'0')) s

unfoldable pub int : Str → ℕ
unfolding int_onto
int = int_onto 0

-- `str(n)` of a number: its digits onto what follows. The fuel is the number itself.
unfoldable pub digits_onto : ℕ → ℕ → Str → Str
digits_onto zero n rest = (b'0' + n % 10) ∷ rest
digits_onto (suc f) n rest =
    let more = digits_onto f (n / 10) ((b'0' + n % 10) ∷ rest) in
    if ltb n 10 then (b'0' + n) ∷ rest else more

unfoldable pub decimal : ℕ → Str
unfolding digits_onto
decimal n = digits_onto n n []
