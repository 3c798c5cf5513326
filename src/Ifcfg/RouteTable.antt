-- ===== src/Ifcfg/RouteTable.antt =====
-- `generate_route_table_config` of os_net_config/impl_ifcfg.py: the names of the routing tables.
pub mod Lines
pub mod Twice
pub mod Content
pub mod Words
pub mod Kinds
pub mod Merged
use os_net_config.Base.{
  ℕ, zero, suc, ◌+◌, ◌-◌, ◌*◌, ◌/◌, ◌%◌, ◌≤◌, ◌<◌, String, ◌≡◌, refl, sym, ap, ◌∙◌, subst, ◌≢◌, ◌↔◌,
  ◌⊎◌, inl, inr, Bool, true, false, ◌&&◌, ◌||◌, not, Option, none, some, List, [], ◌∷◌, ◌++◌, map,
  arith, if◌then◌else◌, ltb, leb, nat_beq, nat_beq_iff, leb→le, Bool-cases, Option-cases, is_some,
  or_default, Bool-ext, ◌==◌, beq_refl, beq→eq, ne→beq, beq→ne, beq_sym, list_beq, list_beq_iff,
  option_beq, option_beq_iff, nat_eq, str_eq, option_str_eq, Eq, length, length-append, get_elem?,
  take, select, any, all, All, contains, contains-append, contains-select, any_iff, NodupB, find,
  change_first, find-change_first, find-change_first_other, find-test, find-change_first_on,
  find-change_first_on_other, All-map, find-All, bind,
}
use os_net_config.Base.Str.{
  Str, str, newline, starts_with, contains_str, push_first, split, partition, lstrip, strip,
  is_space, is_digit, isdigit, upper, join, int_onto, int, digits_onto, decimal,
}
use os_net_config.Base.Dict.{Dict, keys, values, get, has}
use os_net_config.Sriov.Lines.{write_lines}
use os_net_config.Ifcfg.Parse.{Files, get_file_data}

abbrev pub route_table_default : Str
route_table_default =
    str
      "# reserved values\n#\n255\tlocal\n254\tmain\n253\tdefault\n0\tunspec\n#\n# local\n#\n#1\tinr.ruhep\n"

abbrev pub route_table_config_path : Str
route_table_config_path = str "/etc/iproute2/rt_tables"

-- `_ROUTE_TABLE_DEFAULT.split("\n")`
unfoldable pub rt_defaults : List Str
rt_defaults = split newline route_table_default

unfoldable pub res_ids : List Str
res_ids = str "0" ∷ str "253" ∷ str "254" ∷ str "255" ∷ []

unfoldable pub res_names : List Str
res_names = str "unspec" ∷ str "default" ∷ str "main" ∷ str "local" ∷ []

abbrev flush : Str → List Str → List Str
flush [] words = words
flush (c ∷ word) words = (c ∷ word) ∷ words

-- The word that a text starts with, and the words behind it
unfoldable pub word_pieces : Str → Str × List Str
word_pieces [] = ([], [])
word_pieces (c ∷ s) =
    let (word, words) = word_pieces s in
    if is_space c then ([], flush word words) else (c ∷ word, words)

-- `s.split()`
unfoldable pub split_words : Str → List Str
unfolding word_pieces
split_words s = let (word, words) = word_pieces s in flush word words

abbrev pub managed_mark : Str
managed_mark = str "# os-net-config managed table"

-- The tests on `id_name`, which is not empty
unfoldable pub is_custom : Dict ℕ Str → Str → List Str → Bool
is_custom route_tables id [] = false
is_custom route_tables id (name ∷ more) =
    isdigit id
    && not (contains res_ids id)
    && not (contains res_names name)
    && not (has route_tables (int id))
    && not (contains (values route_tables) name)

-- Whether a line that is not among the defaults stays. A line of white space raises IndexError.
unfoldable pub keeps : Dict ℕ Str → Str → Option Bool
unfolding is_custom
keeps route_tables line =
    if starts_with line (str "#") && not (contains rt_defaults (strip is_space line))
    then some true
    else if contains_str line managed_mark
    then some false
    else elim (split_words line) [ [] ↦ none | id ∷ rest ↦ some (is_custom route_tables id rest) ]

abbrev pub with_line : Bool → Str → List Str → List Str
with_line stays line lines = if stays then line ∷ lines else lines

-- The lines of the old file that stay
unfoldable pub kept : Dict ℕ Str → List Str → Option (List Str)
unfolding keeps
kept route_tables [] = some []
kept route_tables (line ∷ rt_config) =
    let rest = kept route_tables rt_config in
    if contains rt_defaults line
    then rest
    else bind (keeps route_tables line)
        (λ stays. bind rest (λ lines. some (with_line stays line lines)))

unfoldable pub insert_id : ℕ → List ℕ → List ℕ
insert_id id [] = id ∷ []
insert_id id (first ∷ ids) =
    let rest = insert_id id ids in if leb id first then id ∷ first ∷ ids else first ∷ rest

-- `sorted(route_tables)`
unfoldable pub sorted_ids : List ℕ → List ℕ
unfolding insert_id
sorted_ids [] = []
sorted_ids (id ∷ ids) = insert_id id (sorted_ids ids)

unfoldable pub managed_line : ℕ → Str → Str
managed_line id name = decimal id ++ (str "\t" ++ (name ++ (str "    " ++ managed_mark)))

-- The lines of the new tables; a reserved number or name is an error.
unfoldable pub managed : Dict ℕ Str → List ℕ → Option (List Str)
unfolding managed_line
managed route_tables [] = some []
managed route_tables (id ∷ ids) =
    let rest = managed route_tables ids in
    bind (get route_tables id) (λ name.
      if contains res_ids (decimal id) || contains res_names name
      then none
      else bind rest (λ lines. some (managed_line id name ∷ lines)))

unfoldable pub generate_route_table_config : Dict ℕ Str → Files → Option Str
unfolding kept managed sorted_ids
generate_route_table_config route_tables fs =
    bind (kept route_tables (split newline (get_file_data fs route_table_config_path))) (λ old.
      bind (managed route_tables (sorted_ids (keys route_tables)))
        (λ new. some ((route_table_default ++ write_lines old) ++ write_lines new)))
