-- ===== src/Ifcfg/Common/Values.antt =====
-- What `parse_ifcfg` of os_net_config/impl_ifcfg.py reads from written lines.
use os_net_config.Base.{
  ◌≡◌, refl, ap, ◌∙◌, inl, inr, Bool, true, false, ◌&&◌, Option, none, some, List, [], ◌∷◌, ◌++◌,
  arith, if◌then◌else◌, Bool-cases, ◌==◌, nat_eq, str_eq, option_str_eq, All, contains,
}
use os_net_config.Base.Str.{Str, str, newline, starts_with, split, partition, strip}
use os_net_config.Base.Dict.{Dict, get, put, get-put}
use os_net_config.Ifcfg.Common.{Line, written}
use os_net_config.Ifcfg.Common.Text.{ifcfg_text}
use os_net_config.Ifcfg.Routes.{ended}
use os_net_config.Ifcfg.Parse.{is_quote, parse_line, parse_lines, parse_ifcfg}
use os_net_config.Ifcfg.Parse.Print.{
  print_line, print_ifcfg, IsKey, parse_line-print_line, no_newline-print_line,
}
use os_net_config.Base.Str.Laws.{split-append}
use mathlib.Core.List.{append_assoc}

-- The value without quotes at its ends
abbrev pub unquoted : Str → Str
unquoted = strip is_quote

-- The value of the last line with a key that is written; `found` if there is none.
unfoldable pub value_of : List Line → Str → Option Str → Option Str
value_of [] key found = found
value_of ((test, k, v) ∷ lines) key found =
    value_of lines key (if (k == key) && test then some (unquoted v) else found)

unfoldable pub keys_of : List Line → List Str
keys_of [] = []
keys_of ((test, k, v) ∷ lines) = k ∷ keys_of lines

pub value_of-append :
    (xs ys : List Line) (key : Str) (found : Option Str)
    → value_of (xs ++ ys) key found ≡ value_of ys key (value_of xs key found)
unfolding value_of
value_of-append [] ys key found = refl
value_of-append ((test, k, v) ∷ xs) ys key found =
    value_of-append xs ys key (if (k == key) && test then some (unquoted v) else found)

pub keys_of-append : (xs ys : List Line) → keys_of (xs ++ ys) ≡ keys_of xs ++ keys_of ys
unfolding keys_of
keys_of-append [] ys = refl
keys_of-append ((test, k, v) ∷ xs) ys = ap (λ l. k ∷ l) (keys_of-append xs ys)

-- Lines with other keys do not count.
pub value_of_absent :
    (xs : List Line) (key : Str) (found : Option Str)
    → contains (keys_of xs) key ≡ false
    → value_of xs key found ≡ found
unfolding value_of keys_of contains
value_of_absent [] key found h = refl
value_of_absent ((test, k, v) ∷ xs) key found h = elim (Bool-cases (k == key)) [
  | inl same ↦ absurd (ground arith)
  | inr other ↦ rw other (value_of_absent xs key found (ground arith))
]

-- A line that can be read back: no newline in its value.
abbrev pub IsOneLine : Line → Type 0
IsOneLine (test, k, v) = IsKey k × (contains v newline ≡ false)

abbrev pub AreOneLine : List Line → Type 0
AreOneLine = All IsOneLine

get-parse_lines :
    (lines : List Line) (d : Dict Str Str) (key : Str)
    → AreOneLine lines
    → get (parse_lines (split newline (print_ifcfg (written lines))) d) key
      ≡ value_of lines key (get d key)
unfolding written value_of parse_lines print_ifcfg
get-parse_lines [] d key h = unfold split parse_line partition starts_with in refl
get-parse_lines ((false, k, v) ∷ lines) d key (one, h) =
    get-parse_lines lines d key h ∙ ap (value_of lines key) (skipped (k == key))
  where
    skipped : (same : Bool) → get d key ≡ (if same && false then some (unquoted v) else get d key)
    skipped true = refl
    skipped false = refl
get-parse_lines ((true, k, v) ∷ lines) d key ((hk, hv), h) =
    rw
      (split-append newline (print_line k v) (print_ifcfg (written lines))
        (no_newline-print_line k v hk hv))
      (rw (parse_line-print_line k v hk, parse_lines)
        (get-parse_lines lines (put d k (unquoted v)) key h
          ∙ ap (value_of lines key) (get-put d k (unquoted v) key ∙ entered (k == key))))
  where
    entered :
        (same : Bool)
        → (if same then some (unquoted v) else get d key)
          ≡ (if same && true then some (unquoted v) else get d key)
    entered true = refl
    entered false = refl

abbrev mark : Str
mark = str "# This file is autogenerated by os-net-config"

no_newline-mark : contains mark newline ≡ false
unfolding contains str
no_newline-mark = refl

parse_lines-mark : (lines : List Str) → parse_lines (mark ∷ lines) [] ≡ parse_lines lines []
unfolding parse_lines parse_line starts_with str
parse_lines-mark lines = refl

parse_lines-header :
    (rest : Str)
    → parse_lines (split newline (ended mark ++ rest)) [] ≡ parse_lines (split newline rest) []
parse_lines-header rest =
    rw (append_assoc mark (newline ∷ []) rest, split-append newline mark rest no_newline-mark)
      (parse_lines-mark (split newline rest))

-- What is read back for a key is what the last line with it says.
pub get-parse_ifcfg-ifcfg_text :
    (lines : List Line) (key : Str)
    → AreOneLine lines
    → get (parse_ifcfg (ifcfg_text lines)) key ≡ value_of lines key none
unfolding parse_ifcfg ifcfg_text
get-parse_ifcfg-ifcfg_text lines key h =
    ap (λ d. get d key) (parse_lines-header (print_ifcfg (written lines)))
    ∙ get-parse_lines lines [] key h
    ∙ (unfold get in refl)
