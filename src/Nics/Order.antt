-- ===== src/Nics/Order.antt =====
-- `_natural_sort_key`, `_is_embedded_nic` and `_ordered_nics` of os_net_config/utils.py.
use os_net_config.Base.{
  ℕ, ◌≡◌, refl, ap, ◌∙◌, Bool, true, false, ◌&&◌, ◌||◌, not, List, [], ◌∷◌, ◌++◌, arith,
  if◌then◌else◌, ltb, ◌==◌, beq→eq, nat_eq, str_eq, option_str_eq, select, contains,
  contains-append, contains-select,
}
use os_net_config.Base.Str.{Str, str, starts_with, is_digit, int}
use os_net_config.Mapping.{value_eq, Item}
use os_net_config.Mapping.Dpdk.{DpdkNic}
use os_net_config.Nics.{is_available_nic, is_vf_by_name, Sys}

-- A character in front of the pieces of `re.split('([0-9]+)', s)`: texts and runs of digits take
-- turns, and a text stands first.
abbrev pub push_char : ℕ → List Str → List Str
push_char c [] = (c ∷ []) ∷ []
push_char c (piece ∷ []) = if is_digit c then [] ∷ (c ∷ []) ∷ piece ∷ [] else (c ∷ piece) ∷ []
push_char c ([] ∷ digits ∷ pieces) =
    if is_digit c then [] ∷ (c ∷ digits) ∷ pieces else (c ∷ []) ∷ digits ∷ pieces
push_char c ((d ∷ piece) ∷ digits ∷ pieces) =
    if is_digit c
    then [] ∷ (c ∷ []) ∷ (d ∷ piece) ∷ digits ∷ pieces
    else (c ∷ d ∷ piece) ∷ digits ∷ pieces

-- `_natural_sort_key`, with the runs of digits still as texts
unfoldable pub natural_sort_key : Str → List Str
natural_sort_key [] = [] ∷ []
natural_sort_key (c ∷ s) = push_char c (natural_sort_key s)

-- `a < b` of texts
unfoldable pub text_lt : Str → Str → Bool
text_lt [] [] = false
text_lt [] (d ∷ b) = true
text_lt (c ∷ a) [] = false
text_lt (c ∷ a) (d ∷ b) = ltb c d || ((c == d) && text_lt a b)

-- `a < b` of keys; `digits` says that the first pieces are numbers.
unfoldable pub key_lt : Bool → List Str → List Str → Bool
unfolding text_lt
key_lt digits [] [] = false
key_lt digits [] (q ∷ b) = true
key_lt digits (p ∷ a) [] = false
key_lt digits (p ∷ a) (q ∷ b) =
    let rest = key_lt (not digits) a b in
    if digits
    then ltb (int p) (int q) || ((int p == int q) && rest)
    else text_lt p q || ((p == q) && rest)

-- `sorted(names, key=_natural_sort_key)`, which is stable
unfoldable pub insert_name : Str → List Str → List Str
unfolding natural_sort_key key_lt
insert_name name [] = name ∷ []
insert_name name (first ∷ names) =
    let rest = insert_name name names in
    if key_lt false (natural_sort_key first) (natural_sort_key name)
    then first ∷ rest
    else name ∷ first ∷ names

unfoldable pub sorted : List Str → List Str
unfolding insert_name
sorted [] = []
sorted (name ∷ names) = insert_name name (sorted names)

-- `_is_embedded_nic`
unfoldable pub is_embedded_nic : Str → Bool
is_embedded_nic nic =
    starts_with nic (str "em") || starts_with nic (str "eth") || starts_with nic (str "eno")

-- `if nic not in nics: nics.append(nic)`
abbrev pub append_new : List Str → Str → List Str
append_new nics nic = if contains nics nic then nics else nics ++ (nic ∷ [])

-- The loop over the DPDK mapping, from the embedded interfaces and the others.
unfoldable pub add_dpdk_nics :
    Sys → List Item → List DpdkNic → List Str × List Str → List Str × List Str
unfolding is_embedded_nic
add_dpdk_nics sys sriov_map [] nics = nics
add_dpdk_nics sys sriov_map (item ∷ dpdk_map) (embedded_nics, nics) =
    add_dpdk_nics sys sriov_map dpdk_map (
      if sys.is_vf item.pci_address || is_vf_by_name sys sriov_map item.name
      then (embedded_nics, nics)
      else if is_embedded_nic item.name
      then (append_new embedded_nics item.name, nics)
      else (embedded_nics, append_new nics item.name))

-- `_ordered_nics`
unfoldable pub ordered_nics : Sys → List Item → List DpdkNic → Bool → List Str
unfolding add_dpdk_nics sorted
ordered_nics sys sriov_map dpdk_map check_active =
    let available = select (λ nic. is_available_nic sys nic check_active) sys.names in
    let (embedded_nics, nics) =
      add_dpdk_nics sys sriov_map dpdk_map
        (select is_embedded_nic available, select (λ nic. not (is_embedded_nic nic)) available) in
    sorted embedded_nics ++ sorted nics

-- The DPDK interfaces that are no virtual functions.
unfoldable pub dpdk_names : Sys → List Item → List DpdkNic → List Str
dpdk_names sys sriov_map [] = []
dpdk_names sys sriov_map (item ∷ dpdk_map) =
    let rest = dpdk_names sys sriov_map dpdk_map in
    if sys.is_vf item.pci_address || is_vf_by_name sys sriov_map item.name
    then rest
    else item.name ∷ rest

contains-insert_name :
    (name a : Str) (names : List Str)
    → contains (insert_name name names) a ≡ ((name == a) || contains names a)
unfolding insert_name contains
contains-insert_name name a [] = refl
contains-insert_name name a (first ∷ names) = ground (arith, contains-insert_name name a names)

contains-sorted : (names : List Str) (a : Str) → contains (sorted names) a ≡ contains names a
unfolding sorted contains
contains-sorted [] a = refl
contains-sorted (name ∷ names) a =
    contains-insert_name name a (sorted names)
    ∙ ap (λ b. (name == a) || b) (contains-sorted names a)

contains-one : (nic a : Str) → contains (nic ∷ []) a ≡ (nic == a)
unfolding contains
contains-one nic a = ground arith

contains-append_new :
    (nics : List Str) (nic a : Str)
    → contains (append_new nics nic) a ≡ (contains nics a || (nic == a))
contains-append_new nics nic a =
    ground (arith, contains-append nics (nic ∷ []) a, beq→eq nic a, contains-one nic a)

abbrev either : List Str × List Str → Str → Bool
either (embedded_nics, nics) a = contains embedded_nics a || contains nics a

contains-add_dpdk_nics :
    (sys : Sys) (sriov_map : List Item) (dpdk_map : List DpdkNic) (nics : List Str × List Str)
    (a : Str)
    → either (add_dpdk_nics sys sriov_map dpdk_map nics) a
      ≡ (either nics a || contains (dpdk_names sys sriov_map dpdk_map) a)
unfolding add_dpdk_nics dpdk_names contains
contains-add_dpdk_nics sys sriov_map [] (e, n) a = ground arith
contains-add_dpdk_nics sys sriov_map (item ∷ dpdk_map) (e, n) a =
    contains-add_dpdk_nics sys sriov_map dpdk_map _ a
    ∙ ground (arith, contains-append_new e item.name a, contains-append_new n item.name a)

either-split :
    (available : List Str) (a : Str)
    → either
        (select is_embedded_nic available, select (λ nic. not (is_embedded_nic nic)) available)
        a
      ≡ contains available a
either-split available a = rw (contains-select, contains-select) (ground arith)

either-sorted :
    (p : List Str × List Str) (a : Str) → contains (sorted p.0 ++ sorted p.1) a ≡ either p a
either-sorted (e, n) a =
    contains-append (sorted e) (sorted n) a ∙ rw (contains-sorted e a, contains-sorted n a) refl

module _ (sys : Sys) (sriov_map : List Item) (dpdk_map : List DpdkNic) (check_active : Bool) where
  -- The ordered interfaces are the available ones of the machine, and those of the DPDK mapping
  -- that are no virtual functions.
  contains-ordered_nics :
      (a : Str)
      → contains (ordered_nics sys sriov_map dpdk_map check_active) a ≡ (
          (contains sys.names a && is_available_nic sys a check_active)
          || contains (dpdk_names sys sriov_map dpdk_map) a)
  unfolding ordered_nics
  contains-ordered_nics a =
      either-sorted _ a
      ∙ (contains-add_dpdk_nics sys sriov_map dpdk_map _ a
          ∙ ap (λ b. b || contains (dpdk_names sys sriov_map dpdk_map) a)
              (either-split (select (λ nic. is_available_nic sys nic check_active) sys.names) a
                ∙ contains-select _ sys.names a))
