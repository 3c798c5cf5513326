-- ===== src/Eni/Read/Whole.antt =====
-- The whole text that os_net_config/impl_eni.py writes for an object, as it is read back.
use os_net_config.Base.{
  ℕ, ◌≡◌, refl, sym, ap, ◌∙◌, ◌⊎◌, inl, inr, Bool, true, false, Option, none, some, List, [], ◌∷◌,
  ◌++◌, map, if◌then◌else◌, beq_refl, nat_eq, str_eq, option_str_eq, All, contains, bind, bind_inv,
}
use os_net_config.Base.Str.{Str, str}
use os_net_config.Base.Dict.{get, put, get-put}
use os_net_config.Sriov.Lines.{IsLine, write_lines, splitlines-write_lines}
use os_net_config.Ifcfg.Common.{has_items}
use os_net_config.Ifcfg.Routes.{is_empty}
use os_net_config.Objects.{Address, BaseOpts, Kind, Members, v4_addresses, v6_addresses}
use os_net_config.Eni.{
  iface_name, family_of, method_of, iface_line, start_lines, extra_of, option_lines, stanza,
  stanzas, data_lines, or_stanza,
}
use os_net_config.Eni.Provider.{
  EniNetConfig, Networks, add_eni_routes, add_eni_interface, routes_lines,
}
use os_net_config.Eni.Read.{
  Stanza, shown, wanted_stanza, read_lines, read_interfaces, starts_read, iface_read, options_read,
}
use mathlib.Core.Option.{some-injective}
use mathlib.Core.List.{append_assoc, append-nil}
use os_net_config.Eni.Read.Options.{starts-IsStart, options-IsOption, get-option_lines}

read_interfaces-write_lines :
    (lines : List Str)
    → All IsLine lines
    → read_interfaces (write_lines lines) ≡ (read_lines lines).1
unfolding read_interfaces
read_interfaces-write_lines lines h = ap (λ l. (read_lines l).1) (splitlines-write_lines lines h)

nothing_read : [] ≡ map shown (read_lines []).1
unfolding read_lines
nothing_read = refl

add_eni_routes-interfaces :
    (networks : Networks) (b : BaseOpts) (p q : EniNetConfig)
    → add_eni_routes networks b p ≡ some q
    → q.interfaces ≡ p.interfaces
unfolding add_eni_routes
add_eni_routes-interfaces networks b p q = by_routes (has_items b.routes)
  where
    by_routes :
        (some_routes : Bool)
        → (if some_routes
            then bind
                (routes_lines networks b.routes)
                (λ lines. some (record p { routes = put p.routes b.name (write_lines lines) }))
            else some p)
          ≡ some q
        → q.interfaces ≡ p.interfaces
    by_routes true h =
        let (lines, made, k) = bind_inv (routes_lines networks b.routes) _ q h in
        ap (λ c. c.interfaces) (sym (some-injective _ _ k))
    by_routes false h = ap (λ c. c.interfaces) (sym (some-injective _ _ h))

module _ (macs : Str → Option Str) (b : BaseOpts) (k : Kind) (ms : Members)
    (no_space : contains (iface_name b k) b' ' ≡ false) where
  stanza_inv :
      (ip_version : ℕ) (a : Option Address) (lines : List Str)
      → stanza macs b k ms ip_version a ≡ some lines
      → (extra : List Str) × (lines
          ≡ start_lines b k ++ (iface_line b k a ∷ option_lines b k ms a ip_version extra))
  unfolding stanza
  stanza_inv ip_version a lines = by_tests (is_empty b.hwaddr) (extra_of macs b k ms)
    where
      by_tests :
          (ok : Bool) (e : Option (List Str))
          → (if ok
              then elim e [
                | none ↦ none
                | some extra ↦
                    some (
                      start_lines b k
                      ++ (iface_line b k a ∷ option_lines b k ms a ip_version extra))
              ]
              else none)
            ≡ some lines
          → (extra : List Str) × (lines
              ≡ start_lines b k ++ (iface_line b k a ∷ option_lines b k ms a ip_version extra))
      by_tests true (some extra) h = (extra, sym (some-injective _ _ h))
      by_tests true none h = absurd cc
      by_tests false e h = absurd cc

  stanza_read :
      (ip_version : ℕ) (a : Address) (lines rest : List Str)
      → stanza macs b k ms ip_version (some a) ≡ some lines
      → map shown (read_lines (lines ++ rest)).1
        ≡ wanted_stanza b k ip_version a ∷ map shown (read_lines rest).1
  stanza_read ip_version a lines rest h =
      let (extra, made) = stanza_inv ip_version (some a) lines h in
      let options = option_lines b k ms (some a) ip_version extra in
      let found : Stanza = record {
        name = iface_name b k;
        family = family_of (some a);
        method = method_of b;
        options = (read_lines (options ++ rest)).0;
      } in
      let opened : (read_lines (lines ++ rest)).1 ≡ found ∷ (read_lines rest).1 =
        ap (λ l. (read_lines (l ++ rest)).1) made
        ∙ ap (λ l. (read_lines l).1)
            (append_assoc (start_lines b k) (iface_line b k (some a) ∷ options) rest)
        ∙ starts_read (start_lines b k) (iface_line b k (some a) ∷ (options ++ rest))
            (starts-IsStart b k)
        ∙ iface_read b k (some a) (options ++ rest) no_space
        ∙ ap (λ l. found ∷ l)
            (options_read options rest (options-IsOption b k ms (some a) ip_version extra)) in
      let (address, netmask) = get-option_lines b k ms a ip_version extra rest in
      ap (map shown) opened
      ∙ ap
          (λ ip.
            (
              iface_name b k,
              (family_of (some a), (method_of b, (ip, get found.options (str "netmask")))),
            )
            ∷ map shown (read_lines rest).1)
          address
      ∙ ap
          (λ mask.
            (iface_name b k, (family_of (some a), (method_of b, (some a.ip, mask))))
            ∷ map shown (read_lines rest).1)
          netmask

  stanzas_read :
      (ip_version : ℕ) (addresses : List Address) (lines rest : List Str)
      → stanzas macs b k ms ip_version addresses ≡ some lines
      → map shown (read_lines (lines ++ rest)).1
        ≡ map (wanted_stanza b k ip_version) addresses ++ map shown (read_lines rest).1
  unfolding stanzas
  stanzas_read ip_version [] lines rest h =
      ap (λ l. map shown (read_lines (l ++ rest)).1) (sym (some-injective _ _ h))
  stanzas_read ip_version (a ∷ addresses) lines rest h =
      let (first, h_first, k_first) = bind_inv (stanza macs b k ms ip_version (some a)) _ lines h in
      let (others, h_others, k_others) =
        bind_inv (stanzas macs b k ms ip_version addresses) _ lines k_first in
      ap (λ l. map shown (read_lines (l ++ rest)).1) (sym (some-injective _ _ k_others))
      ∙ ap (λ l. map shown (read_lines l).1) (append_assoc first others rest)
      ∙ stanza_read ip_version a first (others ++ rest) h_first
      ∙ ap (λ l. wanted_stanza b k ip_version a ∷ l)
          (stanzas_read ip_version addresses others rest h_others)

  no_stanza :
      (xs ys : List Address)
      → has_items (xs ++ ys) ≡ true
      → [] ≡ map (wanted_stanza b k 4) xs ++ map (wanted_stanza b k 6) ys
      → ⊥
  no_stanza [] [] h e = cc
  no_stanza [] (y ∷ ys) h e = cc
  no_stanza (x ∷ xs) ys h e = cc

  or_stanza_inv :
      (otherwise : Option (List Str)) (l lines : List Str)
      → or_stanza otherwise l ≡ some lines
      → (l ≡ lines) ⊎ (l ≡ [])
  or_stanza_inv otherwise [] lines h = inr refl
  or_stanza_inv otherwise (line ∷ l) lines h = inl (some-injective _ _ h)

  data_lines_read :
      (lines : List Str)
      → has_items (v4_addresses b ++ v6_addresses b) ≡ true
      → data_lines macs b k ms ≡ some lines
      → map shown (read_lines lines).1
        ≡ map (wanted_stanza b k 4) (v4_addresses b) ++ map (wanted_stanza b k 6) (v6_addresses b)
  unfolding data_lines
  data_lines_read lines some_address h =
      let (v4, h4, k4) = bind_inv (stanzas macs b k ms 4 (v4_addresses b)) _ lines h in
      let (v6, h6, k6) = bind_inv (stanzas macs b k ms 6 (v6_addresses b)) _ lines k4 in
      let no_rest : map shown (read_lines (v6 ++ [])).1
          ≡ map (wanted_stanza b k 6) (v6_addresses b) =
        stanzas_read 6 (v6_addresses b) v6 [] h6 ∙ (unfold read_lines in append-nil _) in
      let both : map shown (read_lines (v4 ++ (v6 ++ []))).1
          ≡ map (wanted_stanza b k 4) (v4_addresses b)
            ++ map (wanted_stanza b k 6) (v6_addresses b) =
        stanzas_read 4 (v4_addresses b) v4 (v6 ++ []) h4
        ∙ ap (λ l. map (wanted_stanza b k 4) (v4_addresses b) ++ l) no_rest in
      let all_read : map shown (read_lines (v4 ++ v6)).1
          ≡ map (wanted_stanza b k 4) (v4_addresses b)
            ++ map (wanted_stanza b k 6) (v6_addresses b) =
        ap (λ l. map shown (read_lines (v4 ++ l)).1) (sym (append-nil v6)) ∙ both in
      elim (or_stanza_inv (stanza macs b k ms 4 none) (v4 ++ v6) lines k6) [
        | inl same ↦ ap (λ l. map shown (read_lines l).1) (sym same) ∙ all_read
        | inr empty ↦ absurd (
            no_stanza (v4_addresses b) (v6_addresses b) some_address
              (nothing_read ∙ ap (λ l. map shown (read_lines l).1) (sym empty) ∙ all_read))
      ]

  -- An interface or VLAN with addresses, without spaces in its name and newlines in its lines, is
  -- added with a text that reads as one stanza for each IPv4 address and, behind them, one for each
  -- IPv6 address, with the name, the family, the method, the address and the netmask, which is the
  -- length of the prefix for IPv6.
  pub read_interfaces-add_eni_interface :
      (networks : Networks) (p q : EniNetConfig)
      → has_items (v4_addresses b ++ v6_addresses b) ≡ true
      → ((lines : List Str) → data_lines macs b k ms ≡ some lines → All IsLine lines)
      → add_eni_interface macs networks b k ms p ≡ some q
      → (text : Str) × (get q.interfaces b.name ≡ some text)
        × (map shown (read_interfaces text)
            ≡ map (wanted_stanza b k 4) (v4_addresses b)
              ++ map (wanted_stanza b k 6) (v6_addresses b))
  unfolding add_eni_interface
  read_interfaces-add_eni_interface networks p q some_address are_lines added =
      let (lines, h, rest) = bind_inv (data_lines macs b k ms) _ q added in
      (
        write_lines lines,
        ap (λ d. get d b.name)
              (add_eni_routes-interfaces networks b
                (record p { interfaces = put p.interfaces b.name (write_lines lines) }) q rest)
            ∙ get-put p.interfaces b.name (write_lines lines) b.name
            ∙ (rw (beq_refl b.name) refl),
        ap (map shown) (read_interfaces-write_lines lines (are_lines lines h))
            ∙ data_lines_read lines some_address h,
      )
