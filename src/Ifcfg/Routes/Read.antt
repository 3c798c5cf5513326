-- ===== src/Ifcfg/Routes/Read.antt =====
-- `parse_ifcfg_routes` and `parse_ifcfg_rules` read what `_add_routes` and `_add_rules` wrote.
use mathlib.Core.List.{append_assoc, append-nil}
use os_net_config.Base.{
  ◌≡◌, refl, sym, ap, ◌∙◌, inl, inr, Bool, true, false, ◌&&◌, not, List, [], ◌∷◌, ◌++◌, arith,
  if◌then◌else◌, Bool-cases, nat_eq, str_eq, option_str_eq, select, All, contains,
}
use os_net_config.Base.Str.{Str, str, newline, starts_with, split}
use os_net_config.Base.Str.Laws.{split-append}
use os_net_config.Ifcfg.Commands.{parse_ifcfg_routes}
use os_net_config.Ifcfg.Routes.{
  is_empty, route_line, is_ipv4, ended, add_route, add_routes_loop, add_routes, rule_lines,
  add_rules, Route, RouteTexts, RouteRule,
}
use os_net_config.Sriov.Lines.{write_lines, IsLine, write_lines-append}

-- A line that is read back: one line, and no comment.
abbrev pub IsEntry : Str → Type 0
IsEntry line = IsLine line × (starts_with line (str "#") ≡ false)

split-write_lines :
    (lines : List Str) → All IsEntry lines → split newline (write_lines lines) ≡ lines ++ ([] ∷ [])
unfolding write_lines
split-write_lines [] h = unfold split in refl
split-write_lines (line ∷ lines) ((one, _), h) =
    split-append newline line (write_lines lines) one
    ∙ ap (λ l. line ∷ l) (split-write_lines lines h)

keeps-entries :
    (lines : List Str)
    → All IsEntry lines
    → select (λ line. not (starts_with line (str "#"))) (lines ++ ([] ∷ [])) ≡ lines ++ ([] ∷ [])
unfolding select
keeps-entries [] h = unfold starts_with str in refl
keeps-entries (line ∷ lines) ((_, entry), h) = rw entry (ap (λ l. line ∷ l) (keeps-entries lines h))

parse-write_lines :
    (lines : List Str)
    → All IsEntry lines
    → parse_ifcfg_routes (write_lines lines) ≡ lines ++ ([] ∷ [])
unfolding parse_ifcfg_routes
parse-write_lines lines h =
    ap (select (λ line. not (starts_with line (str "#")))) (split-write_lines lines h)
    ∙ keeps-entries lines h

-- Of the routes that meet the test, the last default one, and the others in their order.
unfoldable pub last_default : Str → (Route → Bool) → List Route → List Str → List Str
last_default dev test [] found = found
last_default dev test (r ∷ routes) found =
    last_default dev test routes (if test r && r.default then route_line dev r ∷ [] else found)

unfoldable pub plain_routes : Str → (Route → Bool) → List Route → List Str
plain_routes dev test [] = []
plain_routes dev test (r ∷ routes) =
    let rest = plain_routes dev test routes in
    if test r && not r.default then route_line dev r ∷ rest else rest

write_lines-one : (line : Str) → write_lines (line ∷ []) ≡ ended line
unfolding write_lines
write_lines-one line = refl

module _ (dev : Str) where
  first_line-loop :
      (routes : List Route) (t : RouteTexts) (found : List Str)
      → t.first_line ≡ write_lines found
      → (add_routes_loop dev routes t).first_line
        ≡ write_lines (last_default dev is_ipv4 routes found)
  unfolding add_routes_loop last_default
  first_line-loop [] t found h = h
  first_line-loop (r ∷ routes) t found h =
      first_line-loop routes (add_route dev r t) _
        (unfold add_route in ground (arith, h, write_lines-one (route_line dev r)))

  first_line6-loop :
      (routes : List Route) (t : RouteTexts) (found : List Str)
      → t.first_line6 ≡ write_lines found
      → (add_routes_loop dev routes t).first_line6
        ≡ write_lines (last_default dev (λ r. not (is_ipv4 r)) routes found)
  unfolding add_routes_loop last_default
  first_line6-loop [] t found h = h
  first_line6-loop (r ∷ routes) t found h =
      first_line6-loop routes (add_route dev r t) _
        (unfold add_route in ground (arith, h, write_lines-one (route_line dev r)))

  -- One more line behind the lines of a text.
  grows :
      (d line : Str) (lines : List Str)
      → (d ++ ended line) ++ write_lines lines ≡ d ++ write_lines (line ∷ lines)
  unfolding write_lines
  grows d line lines =
      append_assoc d (ended line) (write_lines lines)
      ∙ ap (λ s. d ++ s) (append_assoc line (newline ∷ []) (write_lines lines))

  data_lines-loop :
      (routes : List Route) (t : RouteTexts)
      → (add_routes_loop dev routes t).data_lines
        ≡ t.data_lines ++ write_lines (plain_routes dev is_ipv4 routes)
  unfolding add_routes_loop plain_routes
  data_lines-loop [] t = unfold write_lines in sym (append-nil _)
  data_lines-loop (r ∷ routes) t =
      data_lines-loop routes (add_route dev r t)
      ∙ (unfold add_route in
          ground (arith, grows t.data_lines (route_line dev r) (plain_routes dev is_ipv4 routes)))

  data_lines6-loop :
      (routes : List Route) (t : RouteTexts)
      → (add_routes_loop dev routes t).data_lines6
        ≡ t.data_lines6 ++ write_lines (plain_routes dev (λ r. not (is_ipv4 r)) routes)
  unfolding add_routes_loop plain_routes
  data_lines6-loop [] t = unfold write_lines in sym (append-nil _)
  data_lines6-loop (r ∷ routes) t =
      data_lines6-loop routes (add_route dev r t)
      ∙ (unfold add_route in
          ground (
            arith,
            grows t.data_lines6 (route_line dev r) (plain_routes dev (λ r. not (is_ipv4 r)) routes),
          ))

  -- The routes of one family, as they are written.
  abbrev pub written_routes : (Route → Bool) → List Route → List Str
  written_routes test routes = last_default dev test routes [] ++ plain_routes dev test routes

  -- From the text that is written for the routes of an interface, `parse_ifcfg_routes` reads the
  -- last default route and all other routes in their order, for each of the two families, and an
  -- empty line at the end. The lines of the routes must be lines and no comments.
  pub parse_ifcfg_routes-add_routes :
      (routes : List Route)
      → All IsEntry (written_routes is_ipv4 routes)
      → All IsEntry (written_routes (λ r. not (is_ipv4 r)) routes)
      → (parse_ifcfg_routes (add_routes dev routes).0 ≡ written_routes is_ipv4 routes ++ ([] ∷ []))
        × (parse_ifcfg_routes (add_routes dev routes).1
            ≡ written_routes (λ r. not (is_ipv4 r)) routes ++ ([] ∷ []))
  unfolding add_routes
  parse_ifcfg_routes-add_routes routes h k = (
    ap parse_ifcfg_routes (
          rw (first_line-loop routes empty [] nothing, data_lines-loop routes empty)
            (sym (write_lines-append (last_default dev is_ipv4 routes []) _)))
        ∙ parse-write_lines (written_routes is_ipv4 routes) h,
    ap parse_ifcfg_routes (
          rw (first_line6-loop routes empty [] nothing, data_lines6-loop routes empty)
            (sym (write_lines-append (last_default dev (λ r. not (is_ipv4 r)) routes []) _)))
        ∙ parse-write_lines (written_routes (λ r. not (is_ipv4 r)) routes) k,
  )
    where
      empty : RouteTexts
      empty = record { first_line = []; data_lines = []; first_line6 = []; data_lines6 = [] }

      nothing : [] ≡ write_lines []
      nothing = unfold write_lines in refl

-- The rules of a rule file, with a comment line before each that has a comment.
unfoldable pub rules_of : List RouteRule → List Str
rules_of [] = []
rules_of (r ∷ rules) = r.rule ∷ rules_of rules

-- A rule is a line and no comment, and its comment is one line.
abbrev pub IsRuleEntry : RouteRule → Type 0
IsRuleEntry r = IsEntry r.rule × IsLine r.comment

parse-comment :
    (line rest : Str)
    → IsLine line
    → starts_with line (str "#") ≡ true
    → parse_ifcfg_routes (line ++ (newline ∷ rest)) ≡ parse_ifcfg_routes rest
unfolding parse_ifcfg_routes
parse-comment line rest one comment =
    ap (select (λ l. not (starts_with l (str "#")))) (split-append newline line rest one)
    ∙ (unfold select in rw comment refl)

parse-entry :
    (line rest : Str)
    → IsEntry line
    → parse_ifcfg_routes (line ++ (newline ∷ rest)) ≡ line ∷ parse_ifcfg_routes rest
unfolding parse_ifcfg_routes
parse-entry line rest (one, entry) =
    ap (select (λ l. not (starts_with l (str "#")))) (split-append newline line rest one)
    ∙ (unfold select in rw entry refl)

ended-append : (line rest : Str) → ended line ++ rest ≡ line ++ (newline ∷ rest)
ended-append line rest = append_assoc line (newline ∷ []) rest

parse-rule_lines :
    (rules : List RouteRule)
    → All IsRuleEntry rules
    → parse_ifcfg_routes (rule_lines rules) ≡ rules_of rules ++ ([] ∷ [])
unfolding rule_lines rules_of
parse-rule_lines [] h = unfold parse_ifcfg_routes split select starts_with str in refl
parse-rule_lines (r ∷ rules) ((entry, comment), h) =
    let rest =
      ap parse_ifcfg_routes (ended-append r.rule (rule_lines rules))
      ∙ parse-entry r.rule (rule_lines rules) entry
      ∙ ap (λ l. r.rule ∷ l) (parse-rule_lines rules h) in
    elim (Bool-cases (is_empty r.comment)) [
      | inl no_comment ↦ rw no_comment rest
      | inr with_comment ↦ rw with_comment (
          ap parse_ifcfg_routes (ended-append (str "# " ++ r.comment) _)
          ∙ parse-comment (str "# " ++ r.comment) (ended r.rule ++ rule_lines rules)
              (unfold contains str in comment) (unfold starts_with str in refl)
          ∙ rest)
    ]

-- From the text that is written for the rules of an interface, `parse_ifcfg_rules` reads the rules
-- in their order and an empty line at the end, and no comment. The rules must be lines and no
-- comments, and their comments lines.
parse_ifcfg_rules-add_rules :
    (rules : List RouteRule)
    → All IsRuleEntry rules
    → parse_ifcfg_routes (add_rules rules) ≡ rules_of rules ++ ([] ∷ [])
unfolding add_rules
parse_ifcfg_rules-add_rules rules h =
    ap parse_ifcfg_routes (ended-append (str "# This file is autogenerated by os-net-config") _)
    ∙ parse-comment (str "# This file is autogenerated by os-net-config") (rule_lines rules)
        (unfold contains str in refl) (unfold starts_with str in refl)
    ∙ parse-rule_lines rules h
