-- ===== src/Ifcfg/RouteTable/Merged.antt =====
-- `generate_route_table_config` of os_net_config/impl_ifcfg.py as a merge of the wanted tables into the
-- old file.
use os_net_config.Base.{
  ℕ, ◌≡◌, refl, sym, ap, ◌∙◌, ◌≢◌, ◌⊎◌, inl, inr, Bool, true, false, ◌&&◌, ◌||◌, not, Option, none,
  some, List, [], ◌∷◌, ◌++◌, arith, Bool-cases, is_some, ◌==◌, beq_refl, nat_eq, str_eq,
  option_str_eq, any, All, contains, any_iff,
}
use os_net_config.Base.Str.{
  Str, str, newline, starts_with, contains_str, split, strip, is_space, decimal,
}
use os_net_config.Ifcfg.RouteTable.{
  with_line, route_table_config_path, route_table_default, rt_defaults, res_ids, res_names,
  split_words, managed_mark, is_custom, keeps, kept, insert_id, sorted_ids, managed_line, managed,
  generate_route_table_config,
}
use os_net_config.Ifcfg.RouteTable.Lines.{AreOneLine}
use os_net_config.Ifcfg.RouteTable.Content.{
  is_true, is_named_line, is_table_line, contains-generate,
}
use os_net_config.Base.Dict.{Dict, keys, get, contains-keys, has-eq-is_some}
use os_net_config.Sriov.Lines.{write_lines}
use os_net_config.Ifcfg.Parse.{Files, get_file_data}
use os_net_config.Ifcfg.RouteTable.Words.{AreWords, read_entry-managed_line}
use os_net_config.Ifcfg.RouteTable.Kinds.{IsMerged, dropped_line, line-kind}

-- The names of the tables are not reserved, and neither are their numbers.
abbrev pub AreFree : Dict ℕ Str → Type 0
AreFree route_tables =
    (id : ℕ) (name : Str)
    → get route_tables id ≡ some name
    → (contains res_ids (decimal id) || contains res_names name) ≡ false

-- No line of the old file is of white space only, but the defaults.
abbrev pub HaveWords : List Str → Type 0
HaveWords = All (λ line. (contains rt_defaults line ≡ true) ⊎ (split_words line ≢ []))

-- All elements meet what each element of the list meets.
All-contains :
    {P : Str → Type 0} (xs : List Str) → ((x : Str) → contains xs x ≡ true → P x) → All P xs
unfolding contains
All-contains [] h = tt
All-contains (x ∷ xs) h =
    (h x (ground (arith, beq_refl x)), All-contains xs (λ y inside. h y (ground arith)))

ids-contains :
    {P : ℕ → Type 0} (ids : List ℕ) → ((id : ℕ) → contains ids id ≡ true → P id) → All P ids
unfolding contains
ids-contains [] h = tt
ids-contains (x ∷ ids) h =
    (h x (ground (arith, beq_refl x)), ids-contains ids (λ y inside. h y (ground arith)))

contains-insert_id :
    (id : ℕ) (ids : List ℕ) (j : ℕ) → contains (insert_id id ids) j ≡ ((id == j) || contains ids j)
unfolding contains insert_id
contains-insert_id id [] j = refl
contains-insert_id id (first ∷ ids) j = ground (arith, contains-insert_id id ids j)

contains-sorted_ids : (ids : List ℕ) (j : ℕ) → contains (sorted_ids ids) j ≡ contains ids j
unfolding contains sorted_ids
contains-sorted_ids [] j = refl
contains-sorted_ids (id ∷ ids) j =
    contains-insert_id id (sorted_ids ids) j ∙ ap (λ b. (id == j) || b) (contains-sorted_ids ids j)

module _ (route_tables : Dict ℕ Str) where
  -- A key has a value.
  value_of :
      (id : ℕ)
      → contains (keys route_tables) id ≡ true
      → (name : Str) × (get route_tables id ≡ some name)
  value_of id inside =
      of (get route_tables id) refl
        (sym (has-eq-is_some route_tables id) ∙ sym (contains-keys route_tables id) ∙ inside)
    where
      of :
          (o : Option Str)
          → get route_tables id ≡ o
          → is_some o ≡ true
          → (name : Str) × (get route_tables id ≡ some name)
      of none e h = absurd cc
      of (some name) e h = (name, e)

  managed_total :
      (ids : List ℕ)
      → AreFree route_tables
      → All (λ id. (name : Str) × (get route_tables id ≡ some name)) ids
      → (ms : List Str) × (managed route_tables ids ≡ some ms)
  unfolding managed
  managed_total [] free all_named = ([], refl)
  managed_total (id ∷ ids) free ((name, found), all_named) =
      let (ms, e) = managed_total ids free all_named in
      (managed_line id name ∷ ms, rw (found, free id name found, e) refl)

  keeps_total :
      (line : Str) → split_words line ≢ [] → (b : Bool) × (keeps route_tables line ≡ some b)
  unfolding keeps
  keeps_total line h =
      elim (Bool-cases
        (starts_with line (str "#") && not (contains rt_defaults (strip is_space line)))) [
          | inl sharp ↦ (true, rw sharp refl)
          | inr plain ↦ elim (Bool-cases (contains_str line managed_mark)) [
            | inl mark ↦ (false, rw (plain, mark) refl)
            | inr unmarked ↦ let (b, e) = of (split_words line) h in (b, rw (plain, unmarked) e)
          ]
        ]
    where
      of :
          (words : List Str)
          → words ≢ []
          → (b : Bool) × (elim words [
            | [] ↦ none
            | id ∷ rest ↦ some (is_custom route_tables id rest)
          ]
              ≡ some b)
      of [] h = absurd (h refl)
      of (id ∷ rest) h = (is_custom route_tables id rest, refl)

  kept_total :
      (config : List Str)
      → HaveWords config
      → (ks : List Str) × (kept route_tables config ≡ some ks)
  unfolding kept
  kept_total [] h = ([], refl)
  kept_total (line ∷ config) (inl default, h) =
      let (ks, e) = kept_total config h in (ks, rw (default, e) refl)
  kept_total (line ∷ config) (inr words, h) =
      let (ks, e) = kept_total config h in
      elim (Bool-cases (contains rt_defaults line)) [
        | inl default ↦ (ks, rw (default, e) refl)
        | inr other ↦
            let (stays, k) = keeps_total line words in
            (with_line stays line ks, rw (other, k, e) refl)
      ]

  newline-is_space : is_space newline ≡ true
  unfolding is_space
  newline-is_space = refl

  AreWords-AreOneLine : AreWords route_tables → AreOneLine route_tables
  AreWords-AreOneLine words id name found =
      let (_, none_of) = words id name found in
      elim (Bool-cases (contains name newline)) [
        | inl inside ↦ absurd (spaced_name name none_of inside)
        | inr missing ↦ missing
      ]
    where
      spaced_name : (s : Str) → any is_space s ≡ false → contains s newline ≡ true → ⊥
      spaced_name s none_of inside =
          let found = (any_iff is_space s).1 (newline, inside, newline-is_space) in cc

  -- Any new file merges the tables.
  text-IsMerged :
      (fs : Files)
      → AreWords route_tables
      → (text : Str) → generate_route_table_config route_tables fs ≡ some text
      → IsMerged route_tables
          (split newline (get_file_data fs route_table_config_path))
          (split newline text)
  text-IsMerged fs words text made =
      let config = split newline (get_file_data fs route_table_config_path) in
      let lines_of = λ (line : Str).
        contains-generate route_tables line fs text (AreWords-AreOneLine words) made in
      record {
        known = All-contains (split newline text) (λ line inside.
            line-kind route_tables config words line (sym (lines_of line) ∙ inside));
        listed = ids-contains (keys route_tables) (λ id inside.
            let (name, found) = value_of id inside in
            let own =
              (any_iff (is_table_line route_tables (managed_line id name)) (keys route_tables)).1 (
                id,
                inside,
                ap (is_named_line (managed_line id name) id) found
                    ∙ beq_refl (managed_line id name),
              ) in
            (
              name,
              managed_line id name,
              found,
              lines_of (managed_line id name) ∙ ground (arith, own),
              read_entry-managed_line id name (words id name found),
            ));
        stay = All-contains config (λ line inside.
            elim (Bool-cases (is_true (keeps route_tables line))) [
              | inl stays ↦ inl (lines_of line ∙ ground (arith, stays, inside))
              | inr goes ↦ inr (dropped_line route_tables config line goes)
            ]);
      }

  -- Unless a line of the old file that is no default is of white space only, or a wanted table has a
  -- reserved number or name, a new file is generated, which merges the wanted tables into the old
  -- file. Its lines are the defaults, comments of the old file, the lines of wanted tables, and lines
  -- of the old file for tables that the program did not write and that share no number or name with a
  -- reserved or a wanted one. Every wanted table has a line, which reads back as its number and name.
  -- A line of the old file stays, unless it is marked as the program's, is a comment of the defaults
  -- with white space around it, gives no number and name, or shares one with a reserved or a wanted
  -- table. The names of the wanted tables are words.
  pub generate-IsMerged :
      (fs : Files)
      → AreWords route_tables
      → AreFree route_tables
      → HaveWords (split newline (get_file_data fs route_table_config_path))
      → (text : Str) × (generate_route_table_config route_tables fs ≡ some text)
        × IsMerged route_tables
            (split newline (get_file_data fs route_table_config_path))
            (split newline text)
  unfolding generate_route_table_config
  generate-IsMerged fs words free old_words =
      let config = split newline (get_file_data fs route_table_config_path) in
      let (old, h_old) = kept_total config old_words in
      let (new, h_new) = managed_total (sorted_ids (keys route_tables)) free (
        ids-contains (sorted_ids (keys route_tables))
          (λ id inside. value_of id (sym (contains-sorted_ids (keys route_tables) id) ∙ inside))) in
      let made : generate_route_table_config route_tables fs
          ≡ some ((route_table_default ++ write_lines old) ++ write_lines new) =
        rw (h_old, h_new) refl in
      (_, made, text-IsMerged fs words _ made)
