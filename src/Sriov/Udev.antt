-- ===== src/Sriov/Udev.antt =====
-- `add_udev_rule` and `add_udev_rule_for_legacy_sriov_pf` of os_net_config/sriov_config.py.
use os_net_config.Base.{
  ℕ, ◌≡◌, refl, sym, ap, ◌∙◌, subst, inl, inr, Bool, true, false, ◌&&◌, not, Option, none, some,
  List, [], ◌∷◌, ◌++◌, map, arith, if◌then◌else◌, Bool-cases, beq_refl, beq→eq, nat_eq, str_eq,
  option_str_eq, any, All, contains, contains-append,
}
use os_net_config.Base.Str.{Str, str, newline, contains_str, strip, is_space, decimal}
use os_net_config.Sriov.Lines.{
  splitlines, write_lines, IsLine, splitlines-write_lines, write_lines-append, splitlines-IsLine,
  any-splitlines, contains_str-write_lines, IsLine-append,
}

abbrev pub autogenerated : Str
autogenerated = str "# This file is autogenerated by os-net-config"

-- The loop that writes the rule over each line that holds the pattern.
unfoldable pub replace_lines : Str → Str → List Str → List Str
replace_lines udev_data pattern =
    map (λ line. if contains_str line pattern then udev_data else line)

-- `if not pattern: pattern = udev_data`
abbrev pub or_data : Option Str → Str → Str
or_data none udev_data = udev_data
or_data (some []) udev_data = udev_data
or_data (some (c ∷ pattern)) udev_data = c ∷ pattern

-- `add_udev_rule` once the rule is stripped and the pattern is known: the file, `none` if there
-- is none, gives the new file and whether the rules are to be triggered.
unfoldable pub add_rule : Str → Str → Option Str → Str × Bool
unfolding replace_lines
add_rule udev_data pattern none = (write_lines (autogenerated ∷ udev_data ∷ []), true)
add_rule udev_data pattern (some file_data) =
    let udev_lines = splitlines file_data in
    if contains_str file_data pattern
    then if contains udev_lines udev_data
      then (file_data, false)
      else (write_lines (replace_lines udev_data pattern udev_lines), true)
    else (file_data ++ (udev_data ++ (newline ∷ [])), true)

unfoldable pub add_udev_rule : Str → Option Str → Option Str → Str × Bool
unfolding add_rule
add_udev_rule udev_data pattern file =
    let stripped = strip is_space udev_data in add_rule stripped (or_data pattern stripped) file

-- `add_udev_rule_for_legacy_sriov_pf`
unfoldable pub add_udev_rule_for_legacy_sriov_pf : Str → ℕ → Option Str → Str × Bool
unfolding add_udev_rule
add_udev_rule_for_legacy_sriov_pf pf_name numvfs =
    let pattern = str "KERNEL==\"" ++ (pf_name ++ str "\", RUN+=\"/bin/os-net-config-sriov -n") in
    add_udev_rule (pattern ++ (str " %k:" ++ (decimal numvfs ++ str "\""))) (some pattern)

-- The lines of the file; a new file starts with its comment.
abbrev pub lines_of : Option Str → List Str
lines_of none = autogenerated ∷ []
lines_of (some file_data) = splitlines file_data

-- Every line of the file is ended by a newline.
abbrev pub IsEnded : Option Str → Type 0
IsEnded none = Unit {0}
IsEnded (some file_data) = write_lines (splitlines file_data) ≡ file_data

-- The rule is one line that holds the pattern.
abbrev pub IsRule : Str → Str → Type 0
IsRule udev_data [] = ⊥
IsRule udev_data (c ∷ pattern) =
    IsLine udev_data × IsLine (c ∷ pattern) × (contains_str udev_data (c ∷ pattern) ≡ true)

-- A file with the rule: some line is the rule, and the lines without the pattern are the old ones.
pub record HasRule (udev_data pattern : Str) (old : List Str) (file : Str) : Type 0 where
  pub lines : List Str
  pub written : file ≡ write_lines lines
  pub are_lines : All IsLine lines
  pub has_rule : contains lines udev_data ≡ true
  pub others :
      (line : Str)
      → (contains lines line && not (contains_str line pattern))
        ≡ (contains old line && not (contains_str line pattern))

contains-replace_lines :
    (udev_data pattern : Str) (lines : List Str)
    → any (λ line. contains_str line pattern) lines ≡ true
    → contains (replace_lines udev_data pattern lines) udev_data ≡ true
unfolding replace_lines contains any
contains-replace_lines udev_data pattern [] h = absurd (ground arith)
contains-replace_lines udev_data pattern (line ∷ lines) h =
    elim (Bool-cases (contains_str line pattern)) [
      | inl here ↦ rw here (ground (arith, beq_refl udev_data))
      | inr there ↦ rw there (ground (arith, contains-replace_lines udev_data pattern lines))
    ]

others-replace_lines :
    (udev_data pattern : Str) (lines : List Str) (line : Str)
    → contains_str udev_data pattern ≡ true
    → (contains (replace_lines udev_data pattern lines) line && not (contains_str line pattern))
      ≡ (contains lines line && not (contains_str line pattern))
unfolding replace_lines contains
others-replace_lines udev_data pattern [] line h = refl
others-replace_lines udev_data pattern (first ∷ lines) line h =
    elim (Bool-cases (contains_str first pattern)) [
      | inl here ↦ rw here (
          ground (
            arith,
            others-replace_lines udev_data pattern lines line h,
            beq→eq udev_data line,
            beq→eq first line,
          ))
      | inr there ↦ rw there (ground (arith, others-replace_lines udev_data pattern lines line h))
    ]

replace_lines-IsLine :
    (udev_data pattern : Str) (lines : List Str)
    → IsLine udev_data
    → All IsLine lines
    → All IsLine (replace_lines udev_data pattern lines)
unfolding replace_lines
replace_lines-IsLine udev_data pattern [] h k = tt
replace_lines-IsLine udev_data pattern (line ∷ lines) h (l, k) =
    elim (Bool-cases (contains_str line pattern)) [
      | inl here ↦ rw here (h, replace_lines-IsLine udev_data pattern lines h k)
      | inr there ↦ rw there (l, replace_lines-IsLine udev_data pattern lines h k)
    ]

add_rule-HasRule :
    (udev_data pattern : Str) (file : Option Str)
    → IsRule udev_data pattern
    → IsEnded file
    → HasRule udev_data pattern (lines_of file) (add_rule udev_data pattern file).0
unfolding add_rule write_lines
add_rule-HasRule udev_data [] file r h = absurd r
add_rule-HasRule udev_data (c ∷ pattern) none (line, p, holds) h = record {
  lines = autogenerated ∷ udev_data ∷ [];
  written = refl;
  are_lines = (unfold contains str in refl, (line, tt));
  has_rule = unfold contains in ground (arith, beq_refl udev_data);
  others = λ l. unfold contains in ground (arith, beq→eq udev_data l);
}
add_rule-HasRule udev_data (c ∷ pattern) (some file_data) (line, p, holds) h =
    elim (Bool-cases (contains_str file_data (c ∷ pattern))) [
      | inl there ↦ elim (Bool-cases (contains (splitlines file_data) udev_data)) [
        | inl already ↦
            rw (there, already)
              record {
                lines = splitlines file_data;
                written = sym h;
                are_lines = splitlines-IsLine file_data;
                has_rule = already;
                others = λ l. refl;
              }
        | inr missing ↦
            rw (there, missing)
              record {
                lines = replace_lines udev_data (c ∷ pattern) (splitlines file_data);
                written = refl;
                are_lines =
                    replace_lines-IsLine udev_data (c ∷ pattern) _ line
                      (splitlines-IsLine file_data);
                has_rule =
                    contains-replace_lines udev_data (c ∷ pattern) _
                      (any-splitlines file_data c pattern p there);
                others = λ l. others-replace_lines udev_data (c ∷ pattern) _ l holds;
              }
      ]
      | inr gone ↦ rw gone record {
        lines = splitlines file_data ++ (udev_data ∷ []);
        written =
            ap (λ t. t ++ (udev_data ++ (newline ∷ []))) (sym h)
            ∙ sym (write_lines-append (splitlines file_data) (udev_data ∷ []));
        are_lines =
            IsLine-append (splitlines file_data) (udev_data ∷ []) (splitlines-IsLine file_data)
              (line, tt);
        has_rule =
            contains-append (splitlines file_data) (udev_data ∷ []) udev_data
            ∙ (unfold contains in ground (arith, beq_refl udev_data));
        others = λ l.
            rw (contains-append (splitlines file_data) (udev_data ∷ []) l)
              (unfold contains in ground (arith, beq→eq udev_data l));
      }
    ]

-- What a second call finds.
add_rule-again :
    (udev_data pattern : Str) (old : List Str) (file : Str)
    → IsRule udev_data pattern
    → HasRule udev_data pattern old file
    → add_rule udev_data pattern (some file) ≡ (file, false)
unfolding add_rule
add_rule-again udev_data [] old file r h = absurd r
add_rule-again udev_data (c ∷ pattern) old file (line, p, holds) h = rw (stands, listed) refl
  where
    stands : contains_str file (c ∷ pattern) ≡ true
    stands =
        subst (λ f. contains_str f (c ∷ pattern) ≡ true) (sym h.written)
          (contains_str-write_lines h.lines udev_data (c ∷ pattern) h.has_rule holds)

    listed : contains (splitlines file) udev_data ≡ true
    listed =
        subst (λ f. contains (splitlines f) udev_data ≡ true) (sym h.written)
          (ap (λ l. contains l udev_data) (splitlines-write_lines h.lines h.are_lines) ∙ h.has_rule)

module _ (udev_data : Str) (pattern file : Option Str) where
  abbrev pub stripped : Str
  stripped = strip is_space udev_data

  abbrev pub added : Str × Bool
  added = add_udev_rule udev_data pattern file

  -- After the call the rule is a line of the file, and the lines without the pattern are as
  -- before. The rule must be one line that holds the pattern, and the lines of the file must be
  -- ended by newlines.
  pub add_udev_rule-HasRule :
      IsRule stripped (or_data pattern stripped)
      → IsEnded file
      → HasRule stripped (or_data pattern stripped) (lines_of file) added.0
  unfolding add_udev_rule
  add_udev_rule-HasRule = add_rule-HasRule stripped (or_data pattern stripped) file

  -- A second call leaves the file as it is and asks for no trigger, under the same conditions.
  pub add_udev_rule_twice :
      IsRule stripped (or_data pattern stripped)
      → IsEnded file
      → add_udev_rule udev_data pattern (some added.0) ≡ (added.0, false)
  unfolding add_udev_rule
  add_udev_rule_twice r h =
      add_rule-again stripped (or_data pattern stripped) (lines_of file) added.0 r
        (add_rule-HasRule stripped (or_data pattern stripped) file r h)
