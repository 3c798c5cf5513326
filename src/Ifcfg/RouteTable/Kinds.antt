-- ===== src/Ifcfg/RouteTable/Kinds.antt =====
-- The kinds of lines in the routing tables that `generate_route_table_config` of
-- os_net_config/impl_ifcfg.py writes, and why it drops a line.
use os_net_config.Base.{
  ℕ, ◌≡◌, refl, sym, ap, ◌∙◌, ◌⊎◌, inl, inr, Bool, true, false, ◌&&◌, ◌||◌, Option, none, some,
  List, [], ◌∷◌, arith, Bool-cases, beq→eq, nat_eq, str_eq, option_str_eq, any, All, contains,
  any_iff,
}
use os_net_config.Base.Str.{
  Str, str, starts_with, contains_str, strip, is_space, isdigit, int, decimal,
}
use os_net_config.Ifcfg.RouteTable.{
  rt_defaults, res_ids, res_names, split_words, managed_mark, is_custom, keeps, managed_line,
}
use os_net_config.Ifcfg.RouteTable.Content.{is_true, is_named_line, is_table_line}
use os_net_config.Base.Dict.{Dict, keys, values, get, has}
use mathlib.Core.Option.{some-injective}
use os_net_config.Ifcfg.RouteTable.Words.{read_entry, AreWords, read_entry-managed_line}

module _ (route_tables : Dict ℕ Str) (config : List Str) where
  -- What a line of the new file is: a default, a comment of the old file, the line of a wanted table,
  -- or the line of a table of the old file that neither the program wrote nor a reserved or wanted
  -- table goes against.
  pub data LineOf : Str → Type 0 where
    default_line : (line : Str) → contains rt_defaults line ≡ true → LineOf line
    comment :
        (line : Str) → starts_with line (str "#") ≡ true → contains config line ≡ true → LineOf line
    wanted_table :
        (line : Str) (id : ℕ) (name : Str)
        → get route_tables id ≡ some name
        → read_entry line ≡ some (decimal id, name)
        → LineOf line
    foreign_table :
        (line id name : Str)
        → contains config line ≡ true
        → contains_str line managed_mark ≡ false
        → read_entry line ≡ some (id, name)
        → isdigit id ≡ true
        → (contains res_ids id || contains res_names name) ≡ false
        → (has route_tables (int id) || contains (values route_tables) name) ≡ false
        → LineOf line

  -- Why a line of the old file may go: it is marked, it is a comment of the defaults with white space
  -- around it, it gives no table, or its table goes against a reserved or a wanted one.
  pub data Dropped : Str → Type 0 where
    marked : (line : Str) → contains_str line managed_mark ≡ true → Dropped line
    spaced :
        (line : Str)
        → starts_with line (str "#") ≡ true
        → contains rt_defaults (strip is_space line) ≡ true
        → Dropped line
    no_table : (line : Str) → read_entry line ≡ none → Dropped line
    no_number :
        (line id name : Str) → read_entry line ≡ some (id, name) → isdigit id ≡ false → Dropped line
    conflict :
        (line id name : Str)
        → read_entry line ≡ some (id, name)
        → (contains res_ids id
            || contains res_names name
            || has route_tables (int id)
            || contains (values route_tables) name)
          ≡ true
        → Dropped line

  -- The lines of the new file are of these kinds, every wanted table has one, and a line of the old
  -- file stays unless there is a reason.
  pub record IsMerged (lines : List Str) : Type 0 where
    pub known : All LineOf lines
    pub listed :
        All
          (λ id.
            (name : Str) × (line : Str) × (get route_tables id ≡ some name)
            × (contains lines line ≡ true)
            × (read_entry line ≡ some (decimal id, name)))
          (keys route_tables)
    pub stay : All (λ line. (contains lines line ≡ true) ⊎ Dropped line) config

  foreign_line :
      (line : Str) (words : List Str)
      → contains config line ≡ true
      → starts_with line (str "#") ≡ false
      → contains_str line managed_mark ≡ false
      → split_words line ≡ words
      → elim words [ [] ↦ none | id ∷ rest ↦ some (is_custom route_tables id rest) ] ≡ some true
      → LineOf line
  unfolding is_custom
  foreign_line line [] inside plain unmarked e h = absurd cc
  foreign_line line (id ∷ []) inside plain unmarked e h =
      let custom : false ≡ true = some-injective _ _ h in absurd cc
  foreign_line line (id ∷ name ∷ more) inside plain unmarked e h =
      let custom = some-injective _ _ h in
      foreign_table line id name inside unmarked (rw (plain, e) refl) (ground (arith, custom))
        (ground (arith, custom)) (ground (arith, custom))

  pub kept_line :
      (line : Str) → contains config line ≡ true → keeps route_tables line ≡ some true → LineOf line
  unfolding keeps
  kept_line line inside h = elim (Bool-cases (starts_with line (str "#"))) [
    | inl sharp ↦ comment line sharp inside
    | inr plain ↦ elim (Bool-cases (contains_str line managed_mark)) [
      | inl mark ↦ absurd (not_kept (rw (plain, mark) at h))
      | inr unmarked ↦
          foreign_line line (split_words line) inside plain unmarked refl
            (rw (plain, unmarked) at h)
    ]
  ]
    where
      not_kept : some false ≡ some true → ⊥
      not_kept e = let b : false ≡ true = some-injective _ _ e in cc

  dropped_words :
      (line : Str) (words : List Str)
      → starts_with line (str "#") ≡ false
      → split_words line ≡ words
      → is_true (elim words [ [] ↦ none | id ∷ rest ↦ some (is_custom route_tables id rest) ])
        ≡ false
      → Dropped line
  unfolding is_custom
  dropped_words line [] plain e h = no_table line (rw (plain, e) refl)
  dropped_words line (id ∷ []) plain e h = no_table line (rw (plain, e) refl)
  dropped_words line (id ∷ name ∷ more) plain e h = elim (Bool-cases (isdigit id)) [
    | inl digits ↦ conflict line id name (rw (plain, e) refl) (ground arith)
    | inr other ↦ no_number line id name (rw (plain, e) refl) other
  ]

  pub dropped_line : (line : Str) → is_true (keeps route_tables line) ≡ false → Dropped line
  unfolding keeps
  dropped_line line h = elim (Bool-cases (starts_with line (str "#"))) [
    | inl sharp ↦ elim (Bool-cases (contains rt_defaults (strip is_space line))) [
      | inl default ↦ spaced line sharp default
      | inr other ↦ absurd (kept_comment (rw (sharp, other) at h))
    ]
    | inr plain ↦ elim (Bool-cases (contains_str line managed_mark)) [
      | inl mark ↦ marked line mark
      | inr unmarked ↦ dropped_words line (split_words line) plain refl (rw (plain, unmarked) at h)
    ]
  ]
    where
      kept_comment : true ≡ false → ⊥
      kept_comment e = cc

  module _ (words : AreWords route_tables) where
    table_line-kind :
        (line : Str) (id : ℕ) (o : Option Str)
        → get route_tables id ≡ o
        → is_named_line line id o ≡ true
        → LineOf line
    table_line-kind line id none found h = absurd cc
    table_line-kind line id (some name) found h = wanted_table line id name found (
        ap read_entry (sym (beq→eq (managed_line id name) line h))
        ∙ read_entry-managed_line id name (words id name found))

    pub line-kind :
        (line : Str)
        → (contains rt_defaults line
            || ((contains config line && is_true (keeps route_tables line))
                || any (is_table_line route_tables line) (keys route_tables)))
          ≡ true
        → LineOf line
    line-kind line h = elim (Bool-cases (contains rt_defaults line)) [
      | inl default ↦ default_line line default
      | inr other ↦ elim (Bool-cases (contains config line && is_true (keeps route_tables line))) [
        | inl both ↦
            kept_line line (ground (arith, both))
              (stays (keeps route_tables line) (ground (arith, both)))
        | inr neither ↦
            let (id, inside, t) =
              (any_iff (is_table_line route_tables line) (keys route_tables)).0
                (ground (arith, other, neither)) in
            table_line-kind line id (get route_tables id) refl t
      ]
    ]
      where
        stays : (o : Option Bool) → is_true o ≡ true → o ≡ some true
        stays none h = absurd cc
        stays (some b) h = ap some h
