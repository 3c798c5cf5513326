-- ===== src/Sriov/Lines.antt =====
-- Files of lines, as `splitlines` reads them and as a loop of `f.write(line + "\n")` writes them.
use mathlib.Core.List.{append_assoc}
use os_net_config.Base.{
  ℕ, ◌≡◌, refl, sym, ap, ◌∙◌, subst, inl, inr, true, false, List, [], ◌∷◌, ◌++◌, arith, nat_beq_iff,
  Bool-cases, ◌==◌, beq→eq, nat_eq, str_eq, option_str_eq, any, All, contains,
}
use os_net_config.Base.Str.{Str, newline, starts_with, contains_str, push_first, split}
use os_net_config.Base.Str.Laws.{split-append}

-- Drops the empty piece that `split` leaves behind a final newline.
abbrev drop_last_empty : List Str → List Str
drop_last_empty [] = []
drop_last_empty ([] ∷ []) = []
drop_last_empty ((c ∷ line) ∷ []) = (c ∷ line) ∷ []
drop_last_empty (line ∷ next ∷ lines) = line ∷ drop_last_empty (next ∷ lines)

-- `s.splitlines()` of a text whose only line ends are newlines.
unfoldable pub splitlines : Str → List Str
splitlines s = drop_last_empty (split newline s)

unfoldable pub write_lines : List Str → Str
write_lines [] = []
write_lines (line ∷ lines) = line ++ (newline ∷ write_lines lines)

abbrev pub IsLine : Str → Type 0
IsLine line = contains line newline ≡ false

pub split-cons : (s : Str) → (p : Str) × (ps : List Str) × (split newline s ≡ p ∷ ps)
unfolding split
split-cons [] = ([], [], refl)
split-cons (c ∷ s) =
    let (p, ps, e) = split-cons s in
    elim (Bool-cases (c == newline)) [
      | inl ends ↦ ([], split newline s, rw ends refl)
      | inr goes ↦ (c ∷ p, ps, rw (goes, e) refl)
    ]

drop_last_empty-cons :
    (line : Str) (l : List Str)
    → ((p : Str) × (ps : List Str) × (l ≡ p ∷ ps))
    → drop_last_empty (line ∷ l) ≡ line ∷ drop_last_empty l
drop_last_empty-cons line l (p, ps, e) = rw e refl

splitlines-append :
    (line s : Str) → IsLine line → splitlines (line ++ (newline ∷ s)) ≡ line ∷ splitlines s
unfolding splitlines
splitlines-append line s h =
    ap drop_last_empty (split-append newline line s h)
    ∙ drop_last_empty-cons line (split newline s) (split-cons s)

-- Reading what was written.
pub splitlines-write_lines :
    (lines : List Str) → All IsLine lines → splitlines (write_lines lines) ≡ lines
unfolding write_lines
splitlines-write_lines [] h = unfold splitlines split in refl
splitlines-write_lines (line ∷ lines) (h, k) =
    splitlines-append line (write_lines lines) h
    ∙ ap (λ l. line ∷ l) (splitlines-write_lines lines k)

pub write_lines-append : (k l : List Str) → write_lines (k ++ l) ≡ write_lines k ++ write_lines l
unfolding write_lines
write_lines-append [] l = refl
write_lines-append (line ∷ k) l =
    ap (λ t. line ++ (newline ∷ t)) (write_lines-append k l)
    ∙ sym (append_assoc line (newline ∷ write_lines k) (write_lines l))

pub pieces-IsLine : (s : Str) → All IsLine (split newline s)
unfolding split contains
pieces-IsLine [] = (refl, tt)
pieces-IsLine (c ∷ s) = elim (Bool-cases (c == newline)) [
  | inl ends ↦ rw ends (refl, pieces-IsLine s)
  | inr goes ↦ rw goes (push (split newline s) (pieces-IsLine s) goes)
]
  where
    push : (l : List Str) → All IsLine l → (c == newline) ≡ false → All IsLine (push_first c l)
    push [] h goes = (ground arith, tt)
    push (p ∷ ps) (h, k) goes = (ground arith, k)

drop-IsLine : (l : List Str) → All IsLine l → All IsLine (drop_last_empty l)
drop-IsLine [] h = tt
drop-IsLine ([] ∷ []) h = tt
drop-IsLine ((c ∷ line) ∷ []) h = h
drop-IsLine ([] ∷ next ∷ lines) (h, k) = (h, drop-IsLine (next ∷ lines) k)
drop-IsLine ((c ∷ line) ∷ next ∷ lines) (h, k) = (h, drop-IsLine (next ∷ lines) k)

pub splitlines-IsLine : (s : Str) → All IsLine (splitlines s)
unfolding splitlines
splitlines-IsLine s = drop-IsLine (split newline s) (pieces-IsLine s)

-- A text without newline that stands in a file stands in one of its lines.

starts_with-push :
    (s p : Str)
    → IsLine p
    → starts_with s p ≡ true
    → (q : Str) × (qs : List Str) × (split newline s ≡ q ∷ qs) × (starts_with q p ≡ true)
unfolding starts_with split contains
starts_with-push s [] h k = let (q, qs, e) = split-cons s in (q, qs, e, refl)
starts_with-push [] (c ∷ p) h k = absurd (ground arith)
starts_with-push (b ∷ s) (c ∷ p) h k =
    let (q, qs, e, m) = starts_with-push s p (ground arith) (ground arith) in
    elim (Bool-cases (b == newline)) [
      | inl ends ↦
          absurd (ground (arith, nat_beq_iff b c, nat_beq_iff b newline, nat_beq_iff c newline))
      | inr goes ↦ (b ∷ q, qs, rw (goes, e) refl, ground arith)
    ]

starts→contains : (q p : Str) → starts_with q p ≡ true → contains_str q p ≡ true
unfolding contains_str
starts→contains [] p h = h
starts→contains (c ∷ q) p h = ground arith

any-push :
    (c : ℕ) (l : List Str) (p : Str)
    → any (λ line. contains_str line p) l ≡ true
    → any (λ line. contains_str line p) (push_first c l) ≡ true
unfolding any contains_str
any-push c [] p h = absurd (ground arith)
any-push c (q ∷ qs) p h = ground arith

any-split :
    (s p : Str)
    → IsLine p
    → contains_str s p ≡ true
    → any (λ line. contains_str line p) (split newline s) ≡ true
unfolding split any contains_str
any-split [] p h k = ground arith
any-split (c ∷ s) p h k = elim (Bool-cases (starts_with (c ∷ s) p)) [
  | inl here ↦
      let (q, qs, e, m) = starts_with-push (c ∷ s) p h here in
      ap (any (λ line. contains_str line p)) e ∙ ground (arith, starts→contains q p m)
  | inr there ↦ elim (Bool-cases (c == newline)) [
    | inl ends ↦ rw ends (ground (arith, any-split s p h))
    | inr goes ↦ rw goes (any-push c (split newline s) p (any-split s p h (ground arith)))
  ]
]

any-drop :
    (l : List Str) (c : ℕ) (p : Str)
    → any (λ line. contains_str line (c ∷ p)) l ≡ true
    → any (λ line. contains_str line (c ∷ p)) (drop_last_empty l) ≡ true
unfolding any contains_str starts_with
any-drop [] c p h = h
any-drop ([] ∷ []) c p h = h
any-drop ((b ∷ line) ∷ []) c p h = h
any-drop ([] ∷ next ∷ lines) c p h = ground (arith, any-drop (next ∷ lines) c p)
any-drop ((b ∷ line) ∷ next ∷ lines) c p h = ground (arith, any-drop (next ∷ lines) c p)

pub any-splitlines :
    (s : Str) (c : ℕ) (p : Str)
    → IsLine (c ∷ p)
    → contains_str s (c ∷ p) ≡ true
    → any (λ line. contains_str line (c ∷ p)) (splitlines s) ≡ true
unfolding splitlines
any-splitlines s c p h k = any-drop (split newline s) c p (any-split s (c ∷ p) h k)

pub contains_str-prefix : (s t p : Str) → contains_str t p ≡ true → contains_str (s ++ t) p ≡ true
unfolding contains_str
contains_str-prefix [] t p h = h
contains_str-prefix (c ∷ s) t p h = ground (arith, contains_str-prefix s t p h)

starts_with-more : (s t p : Str) → starts_with s p ≡ true → starts_with (s ++ t) p ≡ true
unfolding starts_with
starts_with-more s t [] h = refl
starts_with-more [] t (c ∷ p) h = absurd (ground arith)
starts_with-more (b ∷ s) t (c ∷ p) h = ground (arith, starts_with-more s t p)

contains_str-suffix : (s t p : Str) → contains_str s p ≡ true → contains_str (s ++ t) p ≡ true
unfolding contains_str
contains_str-suffix [] [] p h = h
contains_str-suffix [] (c ∷ t) p h = ground (arith, starts_with-more [] (c ∷ t) p)
contains_str-suffix (c ∷ s) t p h =
    ground (arith, starts_with-more (c ∷ s) t p, contains_str-suffix s t p)

-- A text in a line stands in the file.
pub contains_str-write_lines :
    (lines : List Str) (line p : Str)
    → contains lines line ≡ true
    → contains_str line p ≡ true
    → contains_str (write_lines lines) p ≡ true
unfolding write_lines contains
contains_str-write_lines [] line p h k = absurd (ground arith)
contains_str-write_lines (first ∷ lines) line p h k = elim (Bool-cases (first == line)) [
  | inl here ↦
      contains_str-suffix first (newline ∷ write_lines lines) p
        (subst (λ l. contains_str l p ≡ true) (sym (beq→eq first line here)) k)
  | inr there ↦ contains_str-prefix first (newline ∷ write_lines lines) p (
      contains_str-prefix (newline ∷ []) (write_lines lines) p
        (contains_str-write_lines lines line p (ground arith) k))
]

pub IsLine-append : (k l : List Str) → All IsLine k → All IsLine l → All IsLine (k ++ l)
IsLine-append [] l h m = m
IsLine-append (x ∷ k) l (p, h) m = (p, IsLine-append k l h m)
