-- ===== src/Ifcfg/Parse/Print.antt =====
-- `parse_ifcfg` reads back what is written as KEY=VALUE lines.
use os_net_config.Base.{
  ◌≡◌, refl, ap, ◌∙◌, false, none, some, [], ◌∷◌, ◌++◌, arith, ◌==◌, nat_eq, str_eq, option_str_eq,
  contains, contains-append,
}
use os_net_config.Base.Str.{Str, newline, starts_with, split, partition, strip}
use os_net_config.Base.Str.Laws.{split-append, partition-append}
use os_net_config.Base.Dict.{Dict, get, put, update, last_of, get-update}
use os_net_config.Ifcfg.Parse.{is_quote, parse_line, parse_lines, parse_ifcfg}

-- One KEY=VALUE line, as `_add_common` writes them.
unfoldable pub print_line : Str → Str → Str
print_line k v = k ++ (b'=' ∷ v)

-- A comment line, then a line for each entry, each ended by a newline.
unfoldable pub print_ifcfg : Dict Str Str → Str
unfolding print_line
print_ifcfg [] = []
print_ifcfg ((k, v) ∷ d) = print_line k v ++ (newline ∷ print_ifcfg d)

-- A key that a line can carry: not empty, no comment mark in front, no `=` and no newline in it.
abbrev pub IsKey : Str → Type 0
IsKey [] = ⊥
IsKey (c ∷ k) =
    ((c == b'#') ≡ false) × (contains (c ∷ k) b'=' ≡ false) × (contains (c ∷ k) newline ≡ false)

-- A value that a line can carry: no newline, and no quotes at its ends.
abbrev pub IsValue : Str → Type 0
IsValue v = (contains v newline ≡ false) × (strip is_quote v ≡ v)

abbrev pub IsPrintable : Dict Str Str → Type 0
IsPrintable [] = Unit
IsPrintable ((k, v) ∷ d) = IsKey k × IsValue v × IsPrintable d

-- The quotes at the ends of a value are lost.
pub parse_line-print_line :
    (k v : Str) → IsKey k → parse_line (print_line k v) ≡ some (k, strip is_quote v)
unfolding parse_line print_line
parse_line-print_line [] v hk = absurd hk
parse_line-print_line (c ∷ k) v hk =
    rw (partition-append b'=' (c ∷ k) v hk.1) (unfold starts_with in ground arith)

pub no_newline-print_line :
    (k v : Str) → IsKey k → contains v newline ≡ false → contains (print_line k v) newline ≡ false
unfolding print_line
no_newline-print_line [] v hk hv = absurd hk
no_newline-print_line (c ∷ k) v hk hv =
    contains-append (c ∷ k) (b'=' ∷ v) newline ∙ (unfold contains in ground arith)

parse_lines-print :
    (d acc : Dict Str Str)
    → IsPrintable d
    → parse_lines (split newline (print_ifcfg d)) acc ≡ update acc d
unfolding update parse_lines print_ifcfg
parse_lines-print [] acc p = unfold split parse_line partition starts_with in refl
parse_lines-print ((k, v) ∷ d) acc (hk, hv, p) =
    rw (split-append newline (print_line k v) (print_ifcfg d) (no_newline-print_line k v hk hv.0)) (
      rw (parse_line-print_line k v hk ∙ ap (λ s. some (k, s)) hv.1, parse_lines)
        (parse_lines-print d (put acc k v) p))

-- Parsing printed lines gives each key the value of its last line, and no other key.
pub get-parse_ifcfg-print_ifcfg :
    (d : Dict Str Str) (k : Str)
    → IsPrintable d
    → get (parse_ifcfg (print_ifcfg d)) k ≡ last_of d k none
unfolding parse_ifcfg
get-parse_ifcfg-print_ifcfg d k p =
    ap (λ e. get e k) (parse_lines-print d [] p) ∙ get-update d [] k ∙ (unfold get in refl)
