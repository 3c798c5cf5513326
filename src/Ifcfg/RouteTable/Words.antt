-- ===== src/Ifcfg/RouteTable/Words.antt =====
-- The words of a line of the routing tables of os_net_config/impl_ifcfg.py, and how a line reads back.
use os_net_config.Base.{
  ℕ, ◌≡◌, refl, ap, ◌∙◌, ◌≢◌, inl, inr, Bool, true, false, Option, none, some, List, [], ◌∷◌, ◌++◌,
  arith, if◌then◌else◌, Bool-cases, nat_eq, str_eq, option_str_eq, any, contains, any_iff,
}
use os_net_config.Base.Str.{Str, str, starts_with, is_space, is_digit, decimal}
use os_net_config.Ifcfg.RouteTable.{word_pieces, split_words, managed_line}
use os_net_config.Ifcfg.RouteTable.Lines.{managed_line-no_comment}
use os_net_config.Base.Str.Laws.{contains-decimal, decimal-cons}
use os_net_config.Base.Dict.{Dict, get}

-- The number and the name that a line of the file gives a table, as its readers take it
abbrev pub first_two : List Str → Option (Str × Str)
first_two [] = none
first_two (id ∷ []) = none
first_two (id ∷ name ∷ more) = some (id, name)

abbrev pub read_entry : Str → Option (Str × Str)
read_entry line = if starts_with line (str "#") then none else first_two (split_words line)

-- The names of the tables are words: not empty and without white space.
abbrev pub IsWord : Str → Type 0
IsWord name = (name ≢ []) × (any is_space name ≡ false)

abbrev pub AreWords : Dict ℕ Str → Type 0
AreWords route_tables = (id : ℕ) (name : Str) → get route_tables id ≡ some name → IsWord name

word_pieces-append :
    (word : Str) (c : ℕ) (s : Str)
    → any is_space word ≡ false
    → is_space c ≡ true
    → word_pieces (word ++ (c ∷ s)) ≡ (word, split_words s)
unfolding word_pieces split_words any
word_pieces-append [] c s h space = rw space refl
word_pieces-append (x ∷ word) c s h space =
    let x_none : is_space x ≡ false = ground arith in
    let rest : any is_space word ≡ false = ground arith in
    rw (x_none, word_pieces-append word c s rest space) refl

split_words-append :
    (word : Str) (c : ℕ) (s : Str)
    → IsWord word
    → is_space c ≡ true
    → split_words (word ++ (c ∷ s)) ≡ word ∷ split_words s
unfolding split_words
split_words-append [] c s (h, _) space = absurd (h refl)
split_words-append (x ∷ word) c s (_, h) space = rw (word_pieces-append (x ∷ word) c s h space) refl

any-none :
    (p : ℕ → Bool) (s : Str) → ((c : ℕ) → p c ≡ true → contains s c ≡ false) → any p s ≡ false
any-none p s none_of = elim (Bool-cases (any p s)) [
  | inl found ↦ let (c, inside, holds) = (any_iff p s).0 found in absurd (absent c holds inside)
  | inr missing ↦ missing
]
  where
    absent : (c : ℕ) → p c ≡ true → contains s c ≡ true → ⊥
    absent c holds inside = let other = none_of c holds in cc

space-no_digit : (c : ℕ) → is_space c ≡ true → is_digit c ≡ false
unfolding is_space is_digit
space-no_digit c h = ground arith

decimal-IsWord : (id : ℕ) → IsWord (decimal id)
decimal-IsWord id = (
  λ e. let (c, s, h) = decimal-cons id in cc,
  any-none is_space (decimal id) (λ c h. contains-decimal id c (space-no_digit c h)),
)

split_words-managed_line :
    (id : ℕ) (name : Str)
    → IsWord name
    → (rest : List Str) × (split_words (managed_line id name) ≡ decimal id ∷ name ∷ rest)
unfolding managed_line str is_space
split_words-managed_line id name h = (
  _,
  split_words-append (decimal id) 9 _ (decimal-IsWord id) refl
      ∙ ap (λ l. decimal id ∷ l) (split_words-append name 32 _ h refl),
)

-- A new line gives its table.
pub read_entry-managed_line :
    (id : ℕ) (name : Str)
    → IsWord name
    → read_entry (managed_line id name) ≡ some (decimal id, name)
read_entry-managed_line id name h =
    let (rest, e) = split_words-managed_line id name h in
    rw (managed_line-no_comment id name, e) refl
