-- ===== src/Ifcfg/RouteTable/Lines.antt =====
-- The lines of the file of routing tables, as os_net_config/impl_ifcfg.py writes and reads them.
use os_net_config.Base.{
  ℕ, ◌≡◌, refl, sym, ap, ◌∙◌, subst, inl, inr, Bool, true, false, ◌&&◌, ◌||◌, none, some, List, [],
  ◌∷◌, ◌++◌, arith, Bool-cases, ◌==◌, beq→eq, list_beq, nat_eq, str_eq, option_str_eq, All,
  contains, contains-append, bind_inv,
}
use os_net_config.Base.Str.{Str, str, newline, starts_with, contains_str, split, is_digit, decimal}
use os_net_config.Base.Dict.{Dict, get}
use os_net_config.Base.Str.Laws.{split-append, contains-decimal, decimal-cons, contains_str_self}
use os_net_config.Sriov.Lines.{
  IsLine, write_lines, write_lines-append, IsLine-append, contains_str-prefix,
}
use os_net_config.Ifcfg.RouteTable.{
  route_table_default, rt_defaults, res_ids, res_names, managed_mark, keeps, with_line, kept,
  managed_line, managed,
}
use mathlib.Core.Option.{some-injective}
use mathlib.Core.List.{append_assoc}

pub split-write_lines :
    (lines : List Str) → All IsLine lines → split newline (write_lines lines) ≡ lines ++ ([] ∷ [])
unfolding write_lines split
split-write_lines [] h = refl
split-write_lines (line ∷ lines) (h, k) =
    split-append newline line (write_lines lines) h ∙ ap (λ l. line ∷ l) (split-write_lines lines k)

abbrev pub default_lines : List Str
default_lines =
    str "# reserved values"
    ∷ str "#"
    ∷ str "255\tlocal"
    ∷ str "254\tmain"
    ∷ str "253\tdefault"
    ∷ str "0\tunspec"
    ∷ str "#"
    ∷ str "# local"
    ∷ str "#"
    ∷ str "#1\tinr.ruhep"
    ∷ []

pub default-write_lines : route_table_default ≡ write_lines default_lines
unfolding write_lines str
default-write_lines = refl

pub default-IsLine : All IsLine default_lines
unfolding contains str
default-IsLine = (refl, (refl, (refl, (refl, (refl, (refl, (refl, (refl, (refl, (refl, tt))))))))))

abbrev pub AreDefaults : List Str → Type 0
AreDefaults = All (λ line. contains rt_defaults line ≡ true)

pub default-AreDefaults : AreDefaults default_lines
unfolding rt_defaults split contains str list_beq
default-AreDefaults =
    (refl, (refl, (refl, (refl, (refl, (refl, (refl, (refl, (refl, (refl, tt))))))))))

empty-default : contains rt_defaults [] ≡ true
unfolding rt_defaults split contains str list_beq
empty-default = refl

module _ (route_tables : Dict ℕ Str) where
  pub kept-defaults :
      (xs ys : List Str) → AreDefaults xs → kept route_tables (xs ++ ys) ≡ kept route_tables ys
  unfolding kept
  kept-defaults [] ys h = refl
  kept-defaults (line ∷ xs) ys (h, k) = rw h (kept-defaults xs ys k)

  abbrev pub AreKept : List Str → Type 0
  AreKept =
      All (λ line. (contains rt_defaults line ≡ false) × (keeps route_tables line ≡ some true))

  -- Lines that stay are no defaults, and stay again.
  pub kept-AreKept : (lines ks : List Str) → kept route_tables lines ≡ some ks → AreKept ks
  unfolding kept
  kept-AreKept [] ks h = subst AreKept (some-injective _ _ h) tt
  kept-AreKept (line ∷ lines) ks h = elim (Bool-cases (contains rt_defaults line)) [
    | inl default ↦ kept-AreKept lines ks (rw default at h)
    | inr other ↦
        let (stays, h_stays, k) = bind_inv (keeps route_tables line) _ ks (rw other at h) in
        let (rest, h_rest, made) = bind_inv (kept route_tables lines) _ ks k in
        subst AreKept (some-injective _ _ made)
          (with_line-AreKept stays line rest other h_stays (kept-AreKept lines rest h_rest))
  ]
    where
      with_line-AreKept :
          (stays : Bool) (line : Str) (rest : List Str)
          → contains rt_defaults line ≡ false
          → keeps route_tables line ≡ some stays
          → AreKept rest
          → AreKept (with_line stays line rest)
      with_line-AreKept true line rest other h k = ((other, h), k)
      with_line-AreKept false line rest other h k = k

  pub kept_again :
      (ks ys : List Str)
      → AreKept ks
      → kept route_tables ys ≡ some []
      → kept route_tables (ks ++ ys) ≡ some ks
  unfolding kept
  kept_again [] ys h none_left = none_left
  kept_again (line ∷ ks) ys ((other, stays), h) none_left =
      rw (other, stays, kept_again ks ys h none_left) refl

  abbrev pub AreManaged : List Str → Type 0
  AreManaged =
      All (λ line. (starts_with line (str "#") ≡ false) × (contains_str line managed_mark ≡ true))

  pub kept-managed : (ms : List Str) → AreManaged ms → kept route_tables (ms ++ ([] ∷ [])) ≡ some []
  unfolding kept keeps
  kept-managed [] h = rw empty-default refl
  kept-managed (line ∷ ms) ((no_comment, marked), h) =
      elim (Bool-cases (contains rt_defaults line)) [
        | inl default ↦ rw default (kept-managed ms h)
        | inr other ↦ rw (other, no_comment, marked, kept-managed ms h) refl
      ]

pub kept-IsLine :
    (route_tables : Dict ℕ Str) (lines ks : List Str)
    → All IsLine lines
    → kept route_tables lines ≡ some ks
    → All IsLine ks
unfolding kept
kept-IsLine route_tables [] ks h made = subst (All IsLine) (some-injective _ _ made) tt
kept-IsLine route_tables (line ∷ lines) ks (one, h) made =
    elim (Bool-cases (contains rt_defaults line)) [
      | inl default ↦ kept-IsLine route_tables lines ks h (rw default at made)
      | inr other ↦
          let (stays, h_stays, k) = bind_inv (keeps route_tables line) _ ks (rw other at made) in
          let (rest, h_rest, m) = bind_inv (kept route_tables lines) _ ks k in
          subst (All IsLine) (some-injective _ _ m)
            (with_line-IsLine stays rest (kept-IsLine route_tables lines rest h h_rest))
    ]
  where
    with_line-IsLine :
        (stays : Bool) (rest : List Str) → All IsLine rest → All IsLine (with_line stays line rest)
    with_line-IsLine true rest k = (one, k)
    with_line-IsLine false rest k = k

-- The names of the tables have no newline.
abbrev pub AreOneLine : Dict ℕ Str → Type 0
AreOneLine route_tables =
    (id : ℕ) (name : Str) → get route_tables id ≡ some name → contains name newline ≡ false

-- What holds of each entry holds of each table.
pub get-All :
    (P : ℕ → Str → Type 0) (d : Dict ℕ Str)
    → All (λ (id, name). P id name) d
    → (id : ℕ) (name : Str) → get d id ≡ some name
    → P id name
unfolding get
get-All P [] h id name found = absurd cc
get-All P ((k, v) ∷ d) (one, h) id name found = elim (Bool-cases (k == id)) [
  | inl here ↦
      subst (λ n. P id n) (some-injective _ _ (rw here at found))
        (subst (λ i. P i v) (beq→eq k id here) one)
  | inr there ↦ get-All P d h id name (rw there at found)
]

managed_line-marked :
    (id : ℕ) (name : Str) → contains_str (managed_line id name) managed_mark ≡ true
unfolding managed_line
managed_line-marked id name = contains_str-prefix (decimal id) _ managed_mark (
    contains_str-prefix (str "\t") _ managed_mark (
      contains_str-prefix name _ managed_mark (
        contains_str-prefix (str "    ") managed_mark managed_mark
          (contains_str_self managed_mark))))

pub managed_line-no_comment :
    (id : ℕ) (name : Str) → starts_with (managed_line id name) (str "#") ≡ false
unfolding managed_line starts_with contains str is_digit
managed_line-no_comment id name =
    let (c, s, e) = decimal-cons id in
    let no_sharp = contains-decimal id b'#' refl in rw e (first_differs c s (rw e at no_sharp))
  where
    first_differs :
        (c : ℕ) (s : Str) → contains (c ∷ s) b'#' ≡ false → ((c == b'#') && true) ≡ false
    first_differs c s h = ground arith

no_digit : is_digit newline ≡ false
unfolding is_digit
no_digit = refl

mark-IsLine :
    (contains (str "    " ++ managed_mark) newline ≡ false) × (contains (str "\t") newline ≡ false)
unfolding contains str
mark-IsLine = (refl, refl)

managed_line-IsLine :
    (id : ℕ) (name : Str) → contains name newline ≡ false → IsLine (managed_line id name)
unfolding managed_line
managed_line-IsLine id name h =
    contains-append (decimal id) _ newline
    ∙ ground (
      arith,
      contains-decimal id newline no_digit,
      contains-append (str "\t") (name ++ (str "    " ++ managed_mark)) newline,
      contains-append name (str "    " ++ managed_mark) newline,
      mark-IsLine,
    )

pub managed-AreManaged :
    (route_tables : Dict ℕ Str) (ids : List ℕ) (ms : List Str)
    → AreOneLine route_tables
    → managed route_tables ids ≡ some ms
    → AreManaged route_tables ms × All IsLine ms
unfolding managed
managed-AreManaged route_tables [] ms names h =
    subst (λ l. AreManaged route_tables l × All IsLine l) (some-injective _ _ h) (tt, tt)
managed-AreManaged route_tables (id ∷ ids) ms names h =
    let (name, found, k) = bind_inv (get route_tables id) _ ms h in
    elim (Bool-cases (contains res_ids (decimal id) || contains res_names name)) [
      | inl reserved ↦ absurd (no_lines (rw reserved at k))
      | inr free ↦
          let (rest, h_rest, m) = bind_inv (managed route_tables ids) _ ms (rw free at k) in
          let (marked, one_line) = managed-AreManaged route_tables ids rest names h_rest in
          subst (λ l. AreManaged route_tables l × All IsLine l) (some-injective _ _ m)
            (
              ((managed_line-no_comment id name, managed_line-marked id name), marked),
              (managed_line-IsLine id name (names id name found), one_line),
            )
    ]
  where
    no_lines : none ≡ some ms → ⊥
    no_lines e = cc

-- The lines of the whole text
pub split-data :
    (old new : List Str)
    → All IsLine old
    → All IsLine new
    → split newline ((route_table_default ++ write_lines old) ++ write_lines new)
      ≡ default_lines ++ (old ++ (new ++ ([] ∷ [])))
split-data old new one_line new_lines =
    ap (λ d. split newline ((d ++ write_lines old) ++ write_lines new)) default-write_lines
    ∙ ap (split newline) (
        append_assoc (write_lines default_lines) (write_lines old) (write_lines new)
        ∙ ap (λ l. write_lines default_lines ++ l) (sym (write_lines-append old new))
        ∙ sym (write_lines-append default_lines (old ++ new)))
    ∙ split-write_lines (default_lines ++ (old ++ new)) (
        IsLine-append default_lines (old ++ new) default-IsLine
          (IsLine-append old new one_line new_lines))
    ∙ append_assoc default_lines (old ++ new) ([] ∷ [])
    ∙ ap (λ l. default_lines ++ l) (append_assoc old new ([] ∷ []))
