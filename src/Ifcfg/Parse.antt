-- ===== src/Ifcfg/Parse.antt =====
-- `parse_ifcfg` of os_net_config/impl_ifcfg.py, and `get_file_data` of os_net_config/common.py.
pub mod Print
use os_net_config.Base.{
  ℕ, zero, suc, ◌+◌, ◌-◌, ◌*◌, ◌/◌, ◌%◌, ◌≤◌, ◌<◌, String, ◌≡◌, refl, sym, ap, ◌∙◌, subst, ◌≢◌, ◌↔◌,
  ◌⊎◌, inl, inr, Bool, true, false, ◌&&◌, ◌||◌, not, Option, none, some, List, [], ◌∷◌, ◌++◌, map,
  arith, if◌then◌else◌, ltb, leb, nat_beq, nat_beq_iff, leb→le, Bool-cases, Option-cases, is_some,
  or_default, Bool-ext, ◌==◌, beq_refl, beq→eq, ne→beq, beq→ne, beq_sym, list_beq, list_beq_iff,
  option_beq, option_beq_iff, nat_eq, str_eq, option_str_eq, Eq, length, length-append, get_elem?,
  select, any, all, All, contains, contains-append, contains-select, NodupB,
}
use os_net_config.Base.Str.{
  Str, str, newline, starts_with, contains_str, push_first, split, partition, lstrip, strip,
  is_space, is_digit, isdigit, upper, join, int_onto, int, digits_onto, decimal,
}
use os_net_config.Base.Dict.{
  Dict, keys, values, get, has, put, get-put, has-put, has-eq-is_some, contains-keys, dict_laws,
}

-- The files that the provider reads, by path. A file that is missing or cannot be read is not
-- in the dict.
abbrev pub Files : Type 0
Files = Dict Str Str

-- `common.get_file_data`
unfoldable pub get_file_data : Files → Str → Str
get_file_data fs filename = or_default (get fs filename) []

pub get_file_data-put : (f : Files) (n text : Str) → get_file_data (put f n text) n ≡ text
unfolding get_file_data
get_file_data-put f n text = rw (get-put, beq_refl n) refl

abbrev pub is_quote : ℕ → Bool
is_quote c = (c == 34) || (c == 39)

-- `line.find('=') > 0`: a separator that does not stand first.
abbrev pub key_value : Option (Str × Str) → Option (Str × Str)
key_value none = none
key_value (some ([], v)) = none
key_value (some (c ∷ k, v)) = some (c ∷ k, strip is_quote v)

-- One turn of the loop: the key and the value that the line adds, if any.
unfoldable pub parse_line : Str → Option (Str × Str)
parse_line line = if starts_with line (b'#' ∷ []) then none else key_value (partition b'=' line)

abbrev pub enter : Dict Str Str → Option (Str × Str) → Dict Str Str
enter d none = d
enter d (some (k, v)) = put d k v

unfoldable pub parse_lines : List Str → Dict Str Str → Dict Str Str
parse_lines [] d = d
parse_lines (line ∷ lines) d = parse_lines lines (enter d (parse_line line))

unfoldable pub parse_ifcfg : Str → Dict Str Str
unfolding parse_line parse_lines
parse_ifcfg ifcfg_data = parse_lines (split newline ifcfg_data) []
