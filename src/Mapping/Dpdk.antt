-- ===== src/Mapping/Dpdk.antt =====
-- The DPDK mapping: `_update_dpdk_map`, `get_stored_pci_address` and
-- `translate_ifname_to_pci_address` of os_net_config/utils.py, and `_get_dpdk_mac_address` of
-- os_net_config/common.py.
use os_net_config.Base.{
  ◌≡◌, refl, ap, ◌∙◌, ◌⊎◌, inl, inr, Bool, true, false, Option, none, some, List, [], ◌∷◌, arith,
  if◌then◌else◌, Bool-cases, ◌==◌, beq_refl, beq→eq, nat_eq, str_eq, option_str_eq, find,
  change_first,
}
use os_net_config.Base.Str.{Str}

pub record DpdkNic : Type 0 where
  pub pci_address : Option Str
  pub name : Str
  pub mac_address : Option Str
  pub driver : Option Str

abbrev pub at_pci : Option Str → DpdkNic → Bool
at_pci pci item = item.pci_address == pci

abbrev pub is_named : Str → DpdkNic → Bool
is_named ifname item = item.name == ifname

-- `_update_dpdk_map`, as a function on the map that is read and written.
unfoldable pub update_dpdk_map :
    Str → Option Str → Option Str → Option Str → List DpdkNic → List DpdkNic
update_dpdk_map ifname pci_address mac_address driver =
    change_first (at_pci pci_address)
      (λ item. record item { name = ifname; mac_address = mac_address; driver = driver })
      (record {
        pci_address = pci_address;
        name = ifname;
        mac_address = mac_address;
        driver = driver;
      })

-- `get_stored_pci_address`
unfoldable pub get_stored_pci_address : List DpdkNic → Str → Bool → Option Str
get_stored_pci_address dpdk_map ifname noop =
    if noop
    then none
    else elim (find (is_named ifname) dpdk_map) [ none ↦ none | some item ↦ item.pci_address ]

-- `_get_dpdk_mac_address`
unfoldable pub get_dpdk_mac_address : List DpdkNic → Str → Option Str
get_dpdk_mac_address dpdk_map ifname = elim (find (is_named ifname) dpdk_map) [
  | none ↦ none
  | some item ↦ item.mac_address
]

-- What `translate_ifname_to_pci_address` asks the system: `get_pci_address` and `interface_mac`.
pub record NicTool : Type 0 where
  pub get_pci_address : Str → Option Str
  pub interface_mac : Str → Option Str

-- `translate_ifname_to_pci_address`: the address and the map that is left.
unfoldable pub translate_ifname_to_pci_address :
    NicTool → Str → Bool → List DpdkNic → Option Str × List DpdkNic
unfolding get_stored_pci_address update_dpdk_map
translate_ifname_to_pci_address T ifname noop dpdk_map =
    elim (get_stored_pci_address dpdk_map ifname noop) [
      | some pci_address ↦ (some pci_address, dpdk_map)
      | none ↦
          if noop
          then (none, dpdk_map)
          else let pci_address = T.get_pci_address ifname in
            (pci_address, update_dpdk_map ifname pci_address (T.interface_mac ifname) none dpdk_map)
    ]

-- Before the first entry for `pci` no entry has the name.
abbrev pub NotBefore : Str → Option Str → List DpdkNic → Type 0
NotBefore ifname pci [] = Unit {0}
NotBefore ifname pci (item ∷ items) =
    (at_pci pci item ≡ true) ⊎ ((is_named ifname item ≡ false) × NotBefore ifname pci items)

find-update_dpdk_map :
    (ifname : Str) (pci mac driver : Option Str) (items : List DpdkNic)
    → NotBefore ifname pci items
    → find (is_named ifname) (update_dpdk_map ifname pci mac driver items)
      ≡ some (record { pci_address = pci; name = ifname; mac_address = mac; driver = driver })
unfolding update_dpdk_map find change_first
find-update_dpdk_map ifname pci mac driver [] h = ground (arith, beq_refl ifname)
find-update_dpdk_map ifname pci mac driver (item ∷ items) (inl here) =
    rw here (rw (beq_refl ifname, beq→eq item.pci_address pci here) refl)
find-update_dpdk_map ifname pci mac driver (item ∷ items) (inr (other, h)) =
    elim (Bool-cases (at_pci pci item)) [
      | inl here ↦ rw here (rw (beq_refl ifname, beq→eq item.pci_address pci here) refl)
      | inr there ↦ rw (there, other) (find-update_dpdk_map ifname pci mac driver items h)
    ]

-- The PCI address and the MAC address that a lookup by name gives after an update are the ones
-- that were stored, if no entry of the same name stands before the entry for the PCI address.
pub get_stored_pci_address-update_dpdk_map :
    (ifname : Str) (pci mac driver : Option Str) (dpdk_map : List DpdkNic)
    → NotBefore ifname pci dpdk_map
    → (get_stored_pci_address (update_dpdk_map ifname pci mac driver dpdk_map) ifname false ≡ pci)
      × (get_dpdk_mac_address (update_dpdk_map ifname pci mac driver dpdk_map) ifname ≡ mac)
unfolding get_stored_pci_address get_dpdk_mac_address
get_stored_pci_address-update_dpdk_map ifname pci mac driver dpdk_map h = (
  ap (λ (o : Option DpdkNic). elim o [ none ↦ none | some item ↦ item.pci_address ]) found,
  ap (λ (o : Option DpdkNic). elim o [ none ↦ none | some item ↦ item.mac_address ]) found,
)
  where
    found :
        find (is_named ifname) (update_dpdk_map ifname pci mac driver dpdk_map)
        ≡ some (record { pci_address = pci; name = ifname; mac_address = mac; driver = driver })
    found = find-update_dpdk_map ifname pci mac driver dpdk_map h

find-NotBefore :
    (ifname : Str) (pci : Option Str) (items : List DpdkNic)
    → find (is_named ifname) items ≡ none
    → NotBefore ifname pci items
unfolding find
find-NotBefore ifname pci [] h = tt
find-NotBefore ifname pci (item ∷ items) h =
    inr (ground arith, find-NotBefore ifname pci items (ground arith))

translate-unknown :
    (T : NicTool) (ifname : Str) (dpdk_map : List DpdkNic)
    → get_stored_pci_address dpdk_map ifname false ≡ none
    → translate_ifname_to_pci_address T ifname false dpdk_map ≡ (
      T.get_pci_address ifname,
      update_dpdk_map ifname (T.get_pci_address ifname) (T.interface_mac ifname) none dpdk_map,
    )
unfolding translate_ifname_to_pci_address
translate-unknown T ifname dpdk_map h = rw (h, translate_ifname_to_pci_address) refl

translate-known :
    (T : NicTool) (ifname pci : Str) (dpdk_map : List DpdkNic)
    → get_stored_pci_address dpdk_map ifname false ≡ some pci
    → translate_ifname_to_pci_address T ifname false dpdk_map ≡ (some pci, dpdk_map)
unfolding translate_ifname_to_pci_address
translate-known T ifname pci dpdk_map h = rw (h, translate_ifname_to_pci_address) refl

-- A second translation of a name gives the address of the first one and leaves the map as it is,
-- if the name had no entry before and the system knows its address.
translate_twice :
    (T : NicTool) (ifname pci : Str) (dpdk_map : List DpdkNic)
    → find (is_named ifname) dpdk_map ≡ none
    → T.get_pci_address ifname ≡ some pci
    → translate_ifname_to_pci_address T ifname false
        (translate_ifname_to_pci_address T ifname false dpdk_map).1
      ≡ (some pci, (translate_ifname_to_pci_address T ifname false dpdk_map).1)
translate_twice T ifname pci dpdk_map h k = translate-known T ifname pci _ (
    ap (λ (r : Option Str × List DpdkNic). get_stored_pci_address r.1 ifname false) first
    ∙ (get_stored_pci_address-update_dpdk_map ifname _ _ none dpdk_map
        (find-NotBefore ifname _ dpdk_map h)).0
    ∙ k)
  where
    first : translate_ifname_to_pci_address T ifname false dpdk_map ≡ (
      T.get_pci_address ifname,
      update_dpdk_map ifname (T.get_pci_address ifname) (T.interface_mac ifname) none dpdk_map,
    )
    first = translate-unknown T ifname dpdk_map (
        unfold get_stored_pci_address in
        ap (λ (o : Option DpdkNic). elim o [ none ↦ none | some item ↦ item.pci_address ]) h)
