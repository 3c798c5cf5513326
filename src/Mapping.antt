-- ===== src/Mapping.antt =====
-- The mapping files that os-net-config keeps of DPDK and SR-IOV devices: parts of
-- os_net_config/utils.py, os_net_config/common.py and os_net_config/sriov_config.py. This file has
-- the values that the entries of the YAML files hold.
use os_net_config.Base.{
  ℕ, zero, suc, ◌+◌, ◌-◌, ◌*◌, ◌/◌, ◌%◌, ◌≤◌, ◌<◌, String, ◌≡◌, refl, sym, ap, ◌∙◌, subst, ◌≢◌, ◌↔◌,
  ◌⊎◌, inl, inr, Bool, true, false, ◌&&◌, ◌||◌, not, Option, none, some, List, [], ◌∷◌, ◌++◌, map,
  arith, if◌then◌else◌, ltb, leb, nat_beq, nat_beq_iff, leb→le, Bool-cases, Option-cases, is_some,
  or_default, Bool-ext, ◌==◌, beq_refl, beq→eq, ne→beq, beq→ne, beq_sym, list_beq, list_beq_iff,
  option_beq, option_beq_iff, nat_eq, str_eq, option_str_eq, Eq, length, length-append, get_elem?,
  take, select, any, all, All, contains, contains-append, contains-select, any_iff, NodupB, find,
  change_first, find-change_first, find-change_first_other, find-test,
}
use os_net_config.Base.Str.{
  Str, str, newline, starts_with, contains_str, push_first, split, partition, lstrip, strip,
  is_space, is_digit, isdigit, upper, join, int_onto, int, digits_onto, decimal,
}
use os_net_config.Base.Dict.{
  Dict, keys, values, get, has, put, get-put, has-put, has-eq-is_some, contains-keys, dict_laws,
  last_of, update, get-update, keep_values, UniqueKeys, put-UniqueKeys, update-UniqueKeys,
  get-keep_values,
}
pub mod Dpdk
pub mod Pf
pub mod Vf
pub mod Partition

-- A value of an entry. `device` is the dict `{"name": ..., "vfid": ...}`.
pub data Value : Type 0 where
  null : Value
  flag : Bool → Value
  number : ℕ → Value
  text : Str → Value
  device : Str → ℕ → Value

-- `x == y`
unfoldable pub value_beq : Value → Value → Bool
value_beq null null = true
value_beq (flag a) (flag b) = (a && b) || (not a && not b)
value_beq (number a) (number b) = a == b
value_beq (text a) (text b) = a == b
value_beq (device a i) (device b j) = (a == b) && (i == j)
value_beq x y = false

pub value_beq_iff : (x y : Value) → (value_beq x y ≡ true) ↔ (x ≡ y)
unfolding value_beq
value_beq_iff null null = (λ _. refl, λ _. refl)
value_beq_iff null (flag b) = ground arith
value_beq_iff null (number b) = ground arith
value_beq_iff null (text b) = ground arith
value_beq_iff null (device b j) = ground arith
value_beq_iff (flag a) null = ground arith
value_beq_iff (flag a) (flag b) = ground arith
value_beq_iff (flag a) (number b) = ground arith
value_beq_iff (flag a) (text b) = ground arith
value_beq_iff (flag a) (device b j) = ground arith
value_beq_iff (number a) null = ground arith
value_beq_iff (number a) (flag b) = ground arith
value_beq_iff (number a) (number b) = ground arith
value_beq_iff (number a) (text b) = ground arith
value_beq_iff (number a) (device b j) = ground arith
value_beq_iff (text a) null = ground arith
value_beq_iff (text a) (flag b) = ground arith
value_beq_iff (text a) (number b) = ground arith
value_beq_iff (text a) (text b) = ground (arith, list_beq_iff a b)
value_beq_iff (text a) (device b j) = ground arith
value_beq_iff (device a i) null = ground arith
value_beq_iff (device a i) (flag b) = ground arith
value_beq_iff (device a i) (number b) = ground arith
value_beq_iff (device a i) (text b) = ground arith
value_beq_iff (device a i) (device b j) = ground (arith, list_beq_iff a b)

instance abbrev pub value_eq : Eq Value
value_eq = record { beq = value_beq; beq_iff = value_beq_iff }

-- An entry of a mapping file.
abbrev pub Item : Type 0
Item = Dict Str Value

-- `item[key] == value` of the entry that `item[key]` looks up
abbrev pub value_is : Option Value → Value → Bool
value_is none value = false
value_is (some v) value = v == value

abbrev pub field_is : Item → String → Value → Bool
field_is item key value = value_is (get item (str key)) value

-- `item['device_type'] == 'pf' and item['name'] == ifname`
abbrev pub is_pf : Str → Item → Bool
is_pf ifname item =
    field_is item "device_type" (text (str "pf")) && field_is item "name" (text ifname)

-- `item['device_type'] == 'vf'` for the function `vfid` of `pf_name`
abbrev pub is_vf_of : Str → ℕ → Item → Bool
is_vf_of pf_name vfid item =
    field_is item "device_type" (text (str "vf")) && field_is item "device" (device pf_name vfid)

-- `None` or a value
abbrev pub or_null : Option Value → Value
or_null none = null
or_null (some v) = v

abbrev pub optional : Option Str → Option Value
optional none = none
optional (some s) = some (text s)
