-- ===== src/Ifcfg/RouteTable/Content.antt =====
-- Which lines stand in what `generate_route_table_config` of os_net_config/impl_ifcfg.py gives.
use os_net_config.Base.{
  ℕ, ◌≡◌, refl, sym, ap, ◌∙◌, inl, inr, Bool, true, false, ◌&&◌, ◌||◌, not, Option, none, some,
  List, [], ◌∷◌, ◌++◌, arith, Bool-cases, ◌==◌, beq→eq, nat_eq, str_eq, option_str_eq, any,
  contains, contains-append, bind_inv,
}
use os_net_config.Base.Str.{Str, newline, split, decimal}
use os_net_config.Base.Dict.{Dict, keys, get}
use os_net_config.Sriov.Lines.{pieces-IsLine}
use os_net_config.Ifcfg.Parse.{Files, get_file_data}
use os_net_config.Ifcfg.RouteTable.{
  route_table_config_path, rt_defaults, res_ids, res_names, keeps, with_line, kept, insert_id,
  sorted_ids, managed_line, managed, generate_route_table_config,
}
use os_net_config.Ifcfg.RouteTable.Lines.{
  split-write_lines, default-write_lines, default-IsLine, managed-AreManaged, kept-IsLine,
  default_lines, split-data, AreOneLine,
}
use mathlib.Core.Option.{some-injective}

-- Whether a line of the old file that is no default stays
abbrev pub is_true : Option Bool → Bool
is_true none = false
is_true (some b) = b

abbrev pub is_named_line : Str → ℕ → Option Str → Bool
is_named_line line id none = false
is_named_line line id (some name) = managed_line id name == line

-- Whether a line is the one of the table with a number
abbrev pub is_table_line : Dict ℕ Str → Str → ℕ → Bool
is_table_line route_tables line id = is_named_line line id (get route_tables id)

any-insert_id :
    (p : ℕ → Bool) (id : ℕ) (ids : List ℕ) → any p (insert_id id ids) ≡ (p id || any p ids)
unfolding any insert_id
any-insert_id p id [] = refl
any-insert_id p id (first ∷ ids) = ground (arith, any-insert_id p id ids)

any-sorted_ids : (p : ℕ → Bool) (ids : List ℕ) → any p (sorted_ids ids) ≡ any p ids
unfolding any sorted_ids
any-sorted_ids p [] = refl
any-sorted_ids p (id ∷ ids) =
    any-insert_id p id (sorted_ids ids) ∙ ap (λ b. p id || b) (any-sorted_ids p ids)

rt_defaults-lines : rt_defaults ≡ default_lines ++ ([] ∷ [])
unfolding rt_defaults
rt_defaults-lines =
    ap (split newline) default-write_lines ∙ split-write_lines default_lines default-IsLine

module _ (route_tables : Dict ℕ Str) (line : Str) where
  contains-with_line :
      (stays : Bool) (first : Str) (rest : List Str)
      → contains (with_line stays first rest) line
        ≡ (((first == line) && stays) || contains rest line)
  unfolding contains
  contains-with_line true first rest = ground arith
  contains-with_line false first rest = ground arith

  abbrev stays_again : Bool
  stays_again = not (contains rt_defaults line) && is_true (keeps route_tables line)

  same_line :
      (first : Str) (stays : Bool)
      → contains rt_defaults first ≡ false
      → keeps route_tables first ≡ some stays
      → ((first == line) && stays) ≡ ((first == line) && stays_again)
  same_line first stays other h = elim (Bool-cases (first == line)) [
    | inl same ↦ rw (same, sym (beq→eq first line same)) (rw (other, h) refl)
    | inr differ ↦ rw differ refl
  ]

  default_line :
      (first : Str) → contains rt_defaults first ≡ true → ((first == line) && stays_again) ≡ false
  default_line first default = elim (Bool-cases (first == line)) [
    | inl same ↦ rw (same, sym (beq→eq first line same)) (rw default refl)
    | inr differ ↦ rw differ refl
  ]

  contains-kept :
      (config ks : List Str)
      → kept route_tables config ≡ some ks
      → contains ks line ≡ (contains config line && stays_again)
  unfolding kept contains
  contains-kept [] ks h = ap (λ l. contains l line) (sym (some-injective _ _ h))
  contains-kept (first ∷ config) ks h = elim (Bool-cases (contains rt_defaults first)) [
    | inl default ↦
        contains-kept config ks (rw default at h) ∙ ground (arith, default_line first default)
    | inr other ↦
        let (stays, h_stays, k) = bind_inv (keeps route_tables first) _ ks (rw other at h) in
        let (rest, h_rest, m) = bind_inv (kept route_tables config) _ ks k in
        ap (λ l. contains l line) (sym (some-injective _ _ m))
        ∙ contains-with_line stays first rest
        ∙ ground (arith, same_line first stays other h_stays, contains-kept config rest h_rest)
  ]

  table_line :
      (id : ℕ) (name : Str)
      → get route_tables id ≡ some name
      → is_table_line route_tables line id ≡ (managed_line id name == line)
  table_line id name found = ap (is_named_line line id) found

  contains-managed :
      (ids : List ℕ) (ms : List Str)
      → managed route_tables ids ≡ some ms
      → contains ms line ≡ any (is_table_line route_tables line) ids
  unfolding managed contains any
  contains-managed [] ms h = ap (λ l. contains l line) (sym (some-injective _ _ h))
  contains-managed (id ∷ ids) ms h =
      let (name, found, k) = bind_inv (get route_tables id) _ ms h in
      elim (Bool-cases (contains res_ids (decimal id) || contains res_names name)) [
        | inl reserved ↦ absurd (no_lines (rw reserved at k))
        | inr free ↦
            let (rest, h_rest, m) = bind_inv (managed route_tables ids) _ ms (rw free at k) in
            ap (λ l. contains l line) (sym (some-injective _ _ m))
            ∙ ap (λ b. (managed_line id name == line) || b) (contains-managed ids rest h_rest)
            ∙ ap (λ b. b || any (is_table_line route_tables line) ids)
                (sym (table_line id name found))
      ]
    where
      no_lines : none ≡ some ms → ⊥
      no_lines e = cc

  -- The lines of the generated file are the defaults, the lines of the old file that pass the tests
  -- of the loop and the lines of the new tables, for names of tables without newlines.
  pub contains-generate :
      (fs : Files) (text : Str)
      → AreOneLine route_tables
      → generate_route_table_config route_tables fs ≡ some text
      → contains (split newline text) line ≡ (
          contains rt_defaults line
          || ((contains (split newline (get_file_data fs route_table_config_path)) line
                && is_true (keeps route_tables line))
              || any (is_table_line route_tables line) (keys route_tables)))
  unfolding generate_route_table_config
  contains-generate fs text names made =
      let config = split newline (get_file_data fs route_table_config_path) in
      let (old, h_old, k) = bind_inv (kept route_tables config) _ text made in
      let (new, h_new, m) =
        bind_inv (managed route_tables (sorted_ids (keys route_tables))) _ text k in
      let (marked, new_lines) = managed-AreManaged route_tables _ new names h_new in
      let old_lines = kept-IsLine route_tables config old (pieces-IsLine _) h_old in
      let last : contains rt_defaults line
          ≡ (contains default_lines line || contains ([] ∷ []) line) =
        ap (λ l. contains l line) rt_defaults-lines
        ∙ contains-append default_lines ([] ∷ []) line in
      let olds = contains-kept config old h_old in
      let news : contains new line ≡ any (is_table_line route_tables line) (keys route_tables) =
        contains-managed (sorted_ids (keys route_tables)) new h_new
        ∙ any-sorted_ids (is_table_line route_tables line) (keys route_tables) in
      ap (λ t. contains (split newline t) line) (sym (some-injective _ _ m))
      ∙ ap (λ l. contains l line) (split-data old new old_lines new_lines)
      ∙ contains-append default_lines (old ++ (new ++ ([] ∷ []))) line
      ∙ ap (λ b. contains default_lines line || b)
          (contains-append old (new ++ ([] ∷ [])) line
            ∙ ap (λ b. contains old line || b) (contains-append new ([] ∷ []) line))
      ∙ ground (arith, last, olds, news)
