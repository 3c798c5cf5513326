-- ===== src/Dcb/Map.antt =====
-- The DCB map: `update_dcb_map`, `get_empty_dcb_map` and `add_dcb_entry` of
-- os_net_config/common.py, and the part of `parse_config` of os_net_config/dcb_config.py that
-- builds the new map.
use os_net_config.Base.{
  ◌≡◌, refl, sym, ap, ◌∙◌, subst, inl, inr, Bool, true, false, Option, none, some, List, [], ◌∷◌,
  map, arith, if◌then◌else◌, Bool-cases, ◌==◌, beq_refl, beq→eq, nat_eq, str_eq, option_str_eq,
  find, change_first, find-change_first, find-change_first_other, find-test,
}
use os_net_config.Base.Str.{Str}
use os_net_config.Dcb.{app_eq, DcbApp, DcbEntry}

-- `entry['pci_addr'] == pci_addr`
abbrev pub has_pci : Option Str → DcbEntry → Bool
has_pci pci entry = entry.pci_addr == pci

-- `objects.Dcb`, as far as the map uses it.
pub record Dcb : Type 0 where
  pub device : Str
  pub pci_addr : Option Str
  pub driver : Option Str
  pub dscp2prio : List DcbApp

abbrev pub entry_of : Dcb → DcbEntry
entry_of obj = record {
  device = some obj.device;
  pci_addr = obj.pci_addr;
  driver = obj.driver;
  dscp2prio = obj.dscp2prio;
}

abbrev pub set_entry : Dcb → DcbEntry → DcbEntry
set_entry obj entry = record entry {
  device = some obj.device;
  driver = obj.driver;
  dscp2prio = obj.dscp2prio;
}

-- `add_dcb_entry`
unfoldable pub add_dcb_entry : List DcbEntry → Dcb → List DcbEntry
add_dcb_entry dcb_config_map obj =
    change_first (has_pci obj.pci_addr) (set_entry obj) (entry_of obj) dcb_config_map

-- `update_dcb_map`, as a function on the map that is read and written.
unfoldable pub update_dcb_map :
    Str → Option Str → Option Str → Bool → List DcbApp → List DcbEntry → List DcbEntry
unfolding add_dcb_entry
update_dcb_map device pci_addr driver noop dscp2prio dcb_map =
    if noop
    then dcb_map
    else add_dcb_entry dcb_map
        (record { device = device; pci_addr = pci_addr; driver = driver; dscp2prio = dscp2prio })

-- `get_empty_dcb_map`
abbrev pub clear_entry : DcbEntry → DcbEntry
clear_entry entry = record entry { dscp2prio = [] }

abbrev pub cleared : Option DcbEntry → Option DcbEntry
cleared none = none
cleared (some entry) = some (clear_entry entry)

unfoldable pub get_empty_dcb_map : List DcbEntry → List DcbEntry
get_empty_dcb_map = map clear_entry

-- The loop of `parse_config` over the objects.
unfoldable pub add_dcb_entries : List DcbEntry → List Dcb → List DcbEntry
add_dcb_entries dcb_map [] = dcb_map
add_dcb_entries dcb_map (obj ∷ objs) = add_dcb_entries (add_dcb_entry dcb_map obj) objs

-- The map that `parse_config` writes.
unfoldable pub new_dcb_map : List DcbEntry → List Dcb → List DcbEntry
new_dcb_map old objs = add_dcb_entries (get_empty_dcb_map old) objs

find-add_dcb_entry :
    (m : List DcbEntry) (obj : Dcb) (pci : Option Str)
    → find (has_pci pci) (add_dcb_entry m obj)
      ≡ (if obj.pci_addr == pci then some (entry_of obj) else find (has_pci pci) m)
unfolding add_dcb_entry
find-add_dcb_entry m obj pci = elim (Bool-cases (obj.pci_addr == pci)) [
  | inl same ↦
      let e = beq→eq obj.pci_addr pci same in
      rw same (
        subst (λ q. find (has_pci q) (add_dcb_entry m obj) ≡ some (entry_of obj)) e
          (find-change_first (has_pci obj.pci_addr) (set_entry obj) (entry_of obj) m
              (beq_refl obj.pci_addr) (λ x h. h)
            ∙ ap some (set_found (find (has_pci obj.pci_addr) m) refl)))
  | inr differ ↦ rw differ (
      find-change_first_other (has_pci obj.pci_addr) (has_pci pci) (set_entry obj) (entry_of obj) m
        differ (λ x h. apart x h differ) (λ x h. apart x h differ))
]
  where
    apart :
        (x : DcbEntry)
        → has_pci obj.pci_addr x ≡ true
        → (obj.pci_addr == pci) ≡ false
        → has_pci pci x ≡ false
    apart x h k = subst (λ q. (q == pci) ≡ false) (sym (beq→eq x.pci_addr obj.pci_addr h)) k

    set_found :
        (o : Option DcbEntry)
        → find (has_pci obj.pci_addr) m ≡ o
        → elim o [ none ↦ entry_of obj | some x ↦ set_entry obj x ] ≡ entry_of obj
    set_found none h = refl
    set_found (some x) h =
        let e = beq→eq x.pci_addr obj.pci_addr (find-test (has_pci obj.pci_addr) m x h) in rw e refl

-- The last object with the address; `found` if there is none.
abbrev pub last_object : List Dcb → Option Str → Option DcbEntry → Option DcbEntry
last_object [] pci found = found
last_object (obj ∷ objs) pci found =
    last_object objs pci (if obj.pci_addr == pci then some (entry_of obj) else found)

find-add_dcb_entries :
    (m : List DcbEntry) (objs : List Dcb) (pci : Option Str)
    → find (has_pci pci) (add_dcb_entries m objs) ≡ last_object objs pci (find (has_pci pci) m)
unfolding add_dcb_entries
find-add_dcb_entries m [] pci = refl
find-add_dcb_entries m (obj ∷ objs) pci =
    find-add_dcb_entries (add_dcb_entry m obj) objs pci
    ∙ ap (last_object objs pci) (find-add_dcb_entry m obj pci)

find-get_empty_dcb_map :
    (m : List DcbEntry) (pci : Option Str)
    → find (has_pci pci) (get_empty_dcb_map m) ≡ cleared (find (has_pci pci) m)
unfolding get_empty_dcb_map find
find-get_empty_dcb_map [] pci = refl
find-get_empty_dcb_map (entry ∷ m) pci = ground (arith, find-get_empty_dcb_map m pci)

-- The new map has, for a PCI address, the entry of the last object with that address; an address
-- that no object names keeps its old entry, with no applications left in it.
pub find-new_dcb_map :
    (old : List DcbEntry) (objs : List Dcb) (pci : Option Str)
    → find (has_pci pci) (new_dcb_map old objs)
      ≡ last_object objs pci (cleared (find (has_pci pci) old))
unfolding new_dcb_map
find-new_dcb_map old objs pci =
    find-add_dcb_entries (get_empty_dcb_map old) objs pci
    ∙ ap (last_object objs pci) (find-get_empty_dcb_map old pci)
