-- ===== src/Eni/Read.antt =====
-- What is read back from the text that os_net_config/impl_eni.py writes.
pub mod Options
pub mod Whole
use os_net_config.Base.{
  ℕ, zero, suc, ◌+◌, ◌-◌, ◌*◌, ◌/◌, ◌%◌, ◌≤◌, ◌<◌, String, ◌≡◌, refl, sym, ap, ◌∙◌, subst, ◌≢◌, ◌↔◌,
  ◌⊎◌, inl, inr, Bool, true, false, ◌&&◌, ◌||◌, not, Option, none, some, List, [], ◌∷◌, ◌++◌, map,
  arith, if◌then◌else◌, ltb, leb, nat_beq, nat_beq_iff, leb→le, Bool-cases, Option-cases, is_some,
  or_default, Bool-ext, ◌==◌, beq_refl, beq→eq, ne→beq, beq→ne, beq_sym, list_beq, list_beq_iff,
  option_beq, option_beq_iff, nat_eq, str_eq, option_str_eq, Eq, length, length-append, get_elem?,
  take, select, any, all, All, contains, contains-append, contains-select, any_iff, NodupB, find,
  change_first, find-change_first, find-change_first_other, find-test, find-change_first_on,
  find-change_first_on_other, All-map, find-All, bind,
}
use os_net_config.Base.Str.{
  Str, str, newline, starts_with, contains_str, push_first, split, partition, lstrip, strip,
  is_space, is_digit, isdigit, upper, join, int_onto, int, digits_onto, decimal,
}
use os_net_config.Base.Dict.{Dict, get, put, get-put}
use os_net_config.Base.Str.Laws.{split-append, split_whole}
use os_net_config.Sriov.Lines.{IsLine, splitlines, write_lines, splitlines-write_lines}
use os_net_config.Ifcfg.Common.{has_items}
use os_net_config.Objects.{
  Address, BaseOpts, Kind, Object, Members, node, route_table, nil, cons, v4_addresses,
  v6_addresses, interface, vlan, ovs_bridge,
}
use os_net_config.Eni.{
  iface_name, family_of, method_of, iface_line, address_data, flush_lines, member_lines,
  start_lines, class_lines, mtu_line, extra_line, option_lines, stanza, stanzas, data_lines,
  or_stanza, extra_of,
}
use os_net_config.Eni.Provider.{
  EniNetConfig, Networks, add_eni_routes, add_eni_interface, routes_lines,
}
use mathlib.Core.Option.{some-injective}
use mathlib.Core.List.{append_assoc, append-nil}
use os_net_config.Ifcfg.Routes.{is_empty}

-- A stanza of interfaces(5) for a logical interface
pub record Stanza : Type 0 where
  pub name : Str
  pub family : Str
  pub method : Str
  pub options : Dict Str Str

-- The options of the stanza that a line stands in, and the stanzas behind it
abbrev pub Reading : Type 0
Reading = Dict Str Str × List Stanza

abbrev iface_words : List Str → Reading → Reading
iface_words (first ∷ name ∷ family ∷ method ∷ []) (options, found) =
    ([], record { name = name; family = family; method = method; options = options } ∷ found)
iface_words words (options, found) = ([], found)

abbrev option_word : Option (Str × Str) → Reading → Reading
option_word none reading = reading
option_word (some entry) (options, found) = (entry ∷ options, found)

abbrev behind_indent : Str → Str
behind_indent (a ∷ b ∷ c ∷ d ∷ s) = s
behind_indent s = []

abbrev is_iface : Str → Bool
is_iface line = starts_with line (str "iface ")

abbrev is_option : Str → Bool
is_option line = starts_with line (str "    ")

unfoldable pub read_line : Str → Reading → Reading
read_line line reading =
    if is_iface line
    then iface_words (split b' ' line) reading
    else if is_option line
    then option_word (partition b' ' (behind_indent line)) reading
    else ([], reading.1)

-- Lines are read from the last to the first.
unfoldable pub read_lines : List Str → Reading
unfolding read_line
read_lines [] = ([], [])
read_lines (line ∷ lines) = read_line line (read_lines lines)

unfoldable pub read_interfaces : Str → List Stanza
read_interfaces text = (read_lines (splitlines text)).1

-- A stanza with the address and the netmask among its options
abbrev pub Shown : Type 0
Shown = Str × (Str × (Str × (Option Str × Option Str)))

abbrev pub shown : Stanza → Shown
shown s =
    (s.name, (s.family, (s.method, (get s.options (str "address"), get s.options (str "netmask")))))

-- What a stanza should say for an address of an interface
abbrev pub wanted_stanza : BaseOpts → Kind → ℕ → Address → Shown
wanted_stanza b k ip_version a = (
  iface_name b k,
  (
    family_of (some a),
    (method_of b, (some a.ip, some (if ip_version == 6 then decimal a.prefixlen else a.netmask))),
  ),
)

abbrev pub IsOption : Str → Type 0
IsOption line = (is_iface line ≡ false) × (is_option line ≡ true)

abbrev pub IsStart : Str → Type 0
IsStart line = (is_iface line ≡ false) × (is_option line ≡ false)

option_word-stanzas : (e : Option (Str × Str)) (r : Reading) → (option_word e r).1 ≡ r.1
option_word-stanzas none r = refl
option_word-stanzas (some e) r = refl

-- Lines with options open no stanza.
pub options_read :
    (lines rest : List Str)
    → All IsOption lines
    → (read_lines (lines ++ rest)).1 ≡ (read_lines rest).1
unfolding read_lines read_line
options_read [] rest h = refl
options_read (line ∷ lines) rest ((no_iface, indented), h) =
    rw (no_iface, indented)
      (option_word-stanzas (partition b' ' (behind_indent line)) (read_lines (lines ++ rest))
        ∙ options_read lines rest h)

pub starts_read :
    (lines rest : List Str)
    → All IsStart lines
    → (read_lines (lines ++ rest)).1 ≡ (read_lines rest).1
unfolding read_lines read_line
starts_read [] rest h = refl
starts_read (line ∷ lines) rest ((no_iface, no_indent), h) =
    rw (no_iface, no_indent) (starts_read lines rest h)

module _ (b : BaseOpts) (k : Kind) where
  no_space_family : (a : Option Address) → contains (family_of a) b' ' ≡ false
  unfolding family_of contains str
  no_space_family none = refl
  no_space_family (some a) = elim (Bool-cases (a.version == 6)) [
    | inl six ↦ rw six refl
    | inr other ↦ rw other refl
  ]

  no_space_method : contains (method_of b) b' ' ≡ false
  unfolding method_of contains str
  no_space_method = by_tests b.use_dhcp (has_items b.addresses)
    where
      by_tests :
          (dhcp fixed : Bool)
          → contains
              (if dhcp then str "dhcp" else if fixed then str "static" else str "manual")
              b' '
            ≡ false
      by_tests true fixed = refl
      by_tests false true = refl
      by_tests false false = refl

  no_space_iface : contains (str "iface") b' ' ≡ false
  unfolding contains str
  no_space_iface = refl

  iface-words :
      (a : Option Address)
      → contains (iface_name b k) b' ' ≡ false
      → split b' ' (iface_line b k a)
        ≡ str "iface" ∷ iface_name b k ∷ family_of a ∷ method_of b ∷ []
  unfolding iface_line str
  iface-words a h =
      split-append b' ' (str "iface")
        (iface_name b k ++ (b' ' ∷ (family_of a ++ (b' ' ∷ method_of b)))) no_space_iface
      ∙ ap (λ l. str "iface" ∷ l)
          (split-append b' ' (iface_name b k) (family_of a ++ (b' ' ∷ method_of b)) h
            ∙ ap (λ l. iface_name b k ∷ l)
                (split-append b' ' (family_of a) (method_of b) (no_space_family a)
                  ∙ ap (λ l. family_of a ∷ l) (split_whole b' ' (method_of b) no_space_method)))

  iface_line-is_iface : (a : Option Address) → is_iface (iface_line b k a) ≡ true
  unfolding iface_line starts_with str
  iface_line-is_iface a = refl

  pub iface_read :
      (a : Option Address) (rest : List Str)
      → contains (iface_name b k) b' ' ≡ false
      → (read_lines (iface_line b k a ∷ rest)).1
        ≡ record {
          name = iface_name b k;
          family = family_of a;
          method = method_of b;
          options = (read_lines rest).0;
        }
          ∷ (read_lines rest).1
  unfolding read_lines read_line
  iface_read a rest h =
      rw (iface_line-is_iface a)
        (ap (λ words. (iface_words words (read_lines rest)).1) (iface-words a h))
