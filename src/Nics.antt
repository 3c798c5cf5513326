-- ===== src/Nics.antt =====
-- The network interfaces of the machine: `is_real_nic` and `_is_available_nic` of
-- os_net_config/utils.py, `interface_mac` and `is_vf_by_name` of os_net_config/common.py.
use os_net_config.Base.{
  ℕ, zero, suc, ◌+◌, ◌-◌, ◌*◌, ◌/◌, ◌%◌, ◌≤◌, ◌<◌, String, ◌≡◌, refl, sym, ap, ◌∙◌, subst, ◌≢◌, ◌↔◌,
  ◌⊎◌, inl, inr, Bool, true, false, ◌&&◌, ◌||◌, not, Option, none, some, List, [], ◌∷◌, ◌++◌, map,
  arith, if◌then◌else◌, ltb, leb, nat_beq, nat_beq_iff, leb→le, Bool-cases, Option-cases, is_some,
  or_default, Bool-ext, ◌==◌, beq_refl, beq→eq, ne→beq, beq→ne, beq_sym, list_beq, list_beq_iff,
  option_beq, option_beq_iff, nat_eq, str_eq, option_str_eq, Eq, length, length-append, get_elem?,
  take, select, any, all, All, contains, contains-append, contains-select, any_iff, NodupB, find,
  change_first, find-change_first, find-change_first_other, find-test, find-change_first_on,
  find-change_first_on_other, All-map, find-All,
}
use os_net_config.Base.Str.{
  Str, str, newline, starts_with, contains_str, push_first, split, partition, lstrip, strip,
  is_space, is_digit, isdigit, upper, join, int_onto, int, digits_onto, decimal,
}
use os_net_config.Base.Dict.{
  Dict, keys, values, get, has, put, get-put, has-put, has-eq-is_some, contains-keys, dict_laws,
  last_of, update, get-update, keep_values, UniqueKeys, put-UniqueKeys, update-UniqueKeys,
  get-keep_values,
}
use os_net_config.Mapping.{
  value_beq, value_beq_iff, value_eq, Item, value_is, field_is, is_pf, is_vf_of, or_null, optional,
  Value, null, flag, number, text, device,
}
use os_net_config.Mapping.Dpdk.{
  at_pci, is_named, update_dpdk_map, get_stored_pci_address, get_dpdk_mac_address,
  translate_ifname_to_pci_address, NotBefore, get_stored_pci_address-update_dpdk_map, DpdkNic,
  NicTool,
}
pub mod Order
pub mod Mapped
pub mod Distinct
pub mod Numbered

-- What the program reads below /sys, by the name of an interface or a PCI address. A file is read
-- and stripped at its end; `none` is an IOError.
pub record Sys : Type 0 where
  pub names : List Str
  pub has_device_dir : Str → Bool
  pub address : Str → Option Str
  pub perm_hwaddr : Str → Option Str
  pub operstate : Str → Option Str
  pub has_physfn : Str → Bool
  pub is_vf : Option Str → Bool

-- `is_real_nic`
unfoldable pub is_real_nic : Sys → Str → Bool
is_real_nic sys interface_name =
    if interface_name == str "lo" then true else elim (sys.address interface_name) [
      | none ↦ false
      | some [] ↦ false
      | some (c ∷ address) ↦ sys.has_device_dir interface_name
    ]

-- `_is_available_nic`; `lower` of the state is the state, as the kernel writes it.
unfoldable pub is_available_nic : Sys → Str → Bool → Bool
unfolding is_real_nic
is_available_nic sys interface_name check_active =
    if interface_name == str "lo" || not (is_real_nic sys interface_name)
    then false
    else elim (sys.operstate interface_name) [
      | none ↦ false
      | some operstate ↦
          if check_active && not (operstate == str "up")
          then false
          else not (sys.has_physfn interface_name)
    ]

-- `is_active_nic`
unfoldable pub is_active_nic : Sys → Str → Bool
unfolding is_available_nic
is_active_nic sys interface_name = is_available_nic sys interface_name true

-- `interface_mac`; `none` is the IOError that is raised again.
unfoldable pub interface_mac : Sys → List DpdkNic → Str → Option Str
interface_mac sys dpdk_map name = elim (sys.perm_hwaddr name) [
  | some mac ↦ some mac
  | none ↦ elim (sys.address name) [
    | some mac ↦ some mac
    | none ↦ elim (get_dpdk_mac_address dpdk_map name) [ some [] ↦ none | o ↦ o ]
  ]
]

-- `is_vf_by_name(interface_name, True)`
unfoldable pub is_vf_by_name : Sys → List Item → Str → Bool
is_vf_by_name sys sriov_map interface_name =
    sys.has_physfn interface_name
    || any
        (λ item.
          field_is item "name" (text interface_name)
          && field_is item "device_type" (text (str "vf")))
        sriov_map
