-- ===== src/Tests/Nics.antt =====
-- Interfaces of a small machine.
use os_net_config.Base.{
  ◌≡◌, refl, ◌∙◌, inl, inr, Bool, true, false, not, none, some, List, [], ◌∷◌, arith, if◌then◌else◌,
  Bool-cases, ◌==◌, list_beq, option_beq, nat_eq, str_eq, option_str_eq, select, any, contains,
  contains-select, NodupB, find,
}
use os_net_config.Base.Str.{Str, str, starts_with, is_digit, int_onto, int, digits_onto, decimal}
use os_net_config.Base.Dict.{Dict, values, get, has, put, UniqueKeys}
use os_net_config.Mapping.{value_eq}
use os_net_config.Mapping.Dpdk.{DpdkNic}
use os_net_config.Nics.{is_real_nic, is_available_nic, is_vf_by_name, Sys}
use os_net_config.Nics.Order.{
  natural_sort_key, text_lt, key_lt, insert_name, sorted, is_embedded_nic, add_dpdk_nics,
  ordered_nics,
}
use os_net_config.Nics.Mapped.{
  index, resolve, map_entries, numbered, add_numbered, mapped_nics, NicEnv, IsRest,
}
use os_net_config.Nics.Distinct.{mapped_nics-NodupB}
use os_net_config.Nics.Numbered.{get-add_numbered_order}

natural :
    sorted (str "eth10" ∷ str "eth9" ∷ str "eth1" ∷ []) ≡ str "eth1" ∷ str "eth9" ∷ str "eth10" ∷ []
unfolding sorted insert_name natural_sort_key key_lt text_lt is_digit str list_beq int int_onto
natural = refl

abbrev sys : Sys
sys = record {
  names = str "p1p1" ∷ str "em2" ∷ str "em1" ∷ str "lo" ∷ [];
  has_device_dir = λ name. true;
  address = λ name. some (str "aa");
  perm_hwaddr = λ name. none;
  operstate = λ name. some (str "up");
  has_physfn = λ name. false;
  is_vf = λ pci. false;
}

abbrev dpdk_map : List DpdkNic
dpdk_map =
    record {
      pci_address = some (str "0000:81:00.0");
      name = str "p2p1";
      mac_address = none;
      driver = none;
    }
    ∷ []

embedded_first :
    ordered_nics sys [] dpdk_map true ≡ str "em1" ∷ str "em2" ∷ str "p1p1" ∷ str "p2p1" ∷ []
unfolding ordered_nics add_dpdk_nics is_available_nic is_real_nic is_vf_by_name is_embedded_nic
    sorted insert_name natural_sort_key key_lt text_lt is_digit str list_beq int int_onto select any
    starts_with contains
embedded_first = refl

abbrev env : NicEnv
env = record {
  available_nics = str "em1" ∷ str "em2" ∷ [];
  active_nics = str "em1" ∷ str "em2" ∷ [];
  valid_mac = λ s. s == str "bb";
  mac_of = λ nic. if nic == str "em2" then some (str "bb") else none;
  is_active = λ nic. nic == str "em1";
}

abbrev mapping : Dict Str Str
mapping = (str "first", str "bb") ∷ []

-- The interfaces of the list that no alias has, in its order.
abbrev rest : Dict Str Str → List Str
rest mapped = select (λ nic. not (contains (values mapped) nic)) env.active_nics

select-NodupB : (test : Str → Bool) (xs : List Str) → NodupB xs → NodupB (select test xs)
unfolding select
select-NodupB test [] n = tt
select-NodupB test (x ∷ xs) (fresh, n) = elim (Bool-cases (test x)) [
  | inl kept ↦ rw kept (contains-select test xs x ∙ rw fresh refl, select-NodupB test xs n)
  | inr left ↦ rw left (select-NodupB test xs n)
]

rest-IsRest : (mapped : Dict Str Str) → IsRest env mapped (rest mapped)
rest-IsRest mapped = record {
  members = λ nic. contains-select _ env.active_nics nic;
  once =
      select-NodupB (λ nic. not (contains (values mapped) nic)) env.active_nics
        (unfold contains str list_beq in (refl, (refl, tt)));
}

abbrev mapped_result : Dict Str Str
mapped_result = (str "first", str "em2") ∷ (str "nic1", str "em1") ∷ []

by_mac : mapped_nics env mapping rest ≡ some mapped_result
unfolding mapped_nics map_entries resolve add_numbered numbered index find select values put has
    contains str list_beq option_beq decimal digits_onto
by_mac = refl

mapping-UniqueKeys : UniqueKeys mapping
unfolding has
mapping-UniqueKeys = (refl, tt)

mapped_nics-NodupB_example : NodupB (values mapped_result)
mapped_nics-NodupB_example =
    mapped_nics-NodupB env mapping mapped_result rest mapping-UniqueKeys rest-IsRest by_mac

abbrev reversed : List Str
reversed = str "em2" ∷ str "em1" ∷ []

reversed-IsRest : IsRest env [] reversed
reversed-IsRest = record {
  members = λ nic. unfold contains values in ground arith;
  once = unfold contains str list_beq in (refl, (refl, tt));
}

forward-IsRest : IsRest env [] env.active_nics
forward-IsRest = record {
  members = λ nic. unfold contains values in ground arith;
  once = unfold contains str list_beq in (refl, (refl, tt));
}

get-add_numbered_order_example :
    get (add_numbered env env.active_nics []) (str "nic2")
    ≡ get (add_numbered env reversed []) (str "nic2")
get-add_numbered_order_example =
    get-add_numbered_order env [] env.active_nics reversed (str "nic2") forward-IsRest
      reversed-IsRest
