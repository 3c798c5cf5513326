-- ===== src/Mapping/Vf.antt =====
-- The entries of the SR-IOV mapping for virtual functions: `_set_vf_fields`, `_clear_empty_values`,
-- `update_sriov_vf_map` and `_get_vf_name_from_map` of os_net_config/utils.py, and
-- `is_partitioned_pf` of os_net_config/sriov_config.py.
pub mod Updates
use os_net_config.Base.{
  ℕ, String, ◌≡◌, refl, sym, ap, ◌∙◌, subst, ◌≢◌, inl, inr, Bool, true, false, ◌&&◌, ◌||◌, not,
  Option, none, some, List, [], ◌∷◌, arith, if◌then◌else◌, Bool-cases, Option-cases, or_default,
  ◌==◌, beq_refl, beq→eq, ne→beq, list_beq, nat_eq, str_eq, option_str_eq, All, find, change_first,
  find-change_first_on_other, find-change_first_on, find-All, All-map, ◌++◌,
}
use os_net_config.Base.Str.{Str, str}
use os_net_config.Base.Dict.{
  get, has, last_of, update, get-update, keep_values, UniqueKeys, update-UniqueKeys,
  get-keep_values,
}
use os_net_config.Mapping.{
  value_beq, value_eq, Item, field_is, is_vf_of, or_null, optional, Value, null, number, text,
  device, value_is,
}

-- The settings that `update_sriov_vf_map` takes besides the names.
pub record VfSettings : Type 0 where
  pub vlan_id : ℕ
  pub qos : ℕ
  pub spoofcheck : Option Value
  pub trust : Option Value
  pub state : Option Str
  pub macaddr : Option Str
  pub promisc : Option Value
  pub pci_address : Option Str
  pub min_tx_rate : ℕ
  pub max_tx_rate : ℕ
  pub driver : Option Str

-- `if driver: vf_configs['driver'] = driver`
abbrev pub driver_field : Option Str → Item
driver_field none = []
driver_field (some []) = []
driver_field (some (c ∷ driver)) = (str "driver", text (c ∷ driver)) ∷ []

-- The fields that are always set.
abbrev pub plain_fields : Str → VfSettings → Item
plain_fields vf_name s =
    (str "name", text vf_name)
    ∷ (str "vlan_id", if s.vlan_id == 0 then null else number s.vlan_id)
    ∷ (str "qos", if s.qos == 0 then null else number s.qos)
    ∷ (str "min_tx_rate", number s.min_tx_rate)
    ∷ (str "max_tx_rate", number s.max_tx_rate)
    ∷ (str "spoofcheck", or_null s.spoofcheck)
    ∷ (str "trust", or_null s.trust)
    ∷ (str "state", or_null (optional s.state))
    ∷ (str "macaddr", or_null (optional s.macaddr))
    ∷ (str "promisc", or_null s.promisc)
    ∷ (str "pci_address", or_null (optional s.pci_address))
    ∷ []

-- `_set_vf_fields`
unfoldable pub set_vf_fields : Str → VfSettings → Item
set_vf_fields vf_name s = plain_fields vf_name s ++ driver_field s.driver

-- `_clear_empty_values`
unfoldable pub clear_empty_values : Item → Item
clear_empty_values = keep_values (λ v. not (v == null))

-- `new_item` before its fields are set
abbrev pub new_vf : Str → ℕ → Item
new_vf pf_name vfid =
    (str "device_type", text (str "vf")) ∷ (str "device", device pf_name vfid) ∷ []

-- `item.update(...)` and `_clear_empty_values(item)`
unfoldable pub set_vf : Item → Item → Item
unfolding clear_empty_values
set_vf fields item = clear_empty_values (update item fields)

-- `update_sriov_vf_map`, as a function on the map that is read and written.
unfoldable pub update_sriov_vf_map : Str → ℕ → Str → VfSettings → List Item → List Item
unfolding set_vf_fields set_vf
update_sriov_vf_map pf_name vfid vf_name s =
    let fields = set_vf_fields vf_name s in
    change_first (is_vf_of pf_name vfid) (set_vf fields) (set_vf fields (new_vf pf_name vfid))

-- `_get_vf_name_from_map`; the value is the entry's `name`.
unfoldable pub get_vf_name_from_map : List Item → Str → ℕ → Option Value
get_vf_name_from_map sriov_map pf_name vfid = elim (find (is_vf_of pf_name vfid) sriov_map) [
  | none ↦ none
  | some item ↦ get item (str "name")
]

-- `config.get('device', {}).get('name')`
abbrev pub pf_of : Option Value → Option Str
pf_of (some (device pf_name vfid)) = some pf_name
pf_of _ = none

-- `is_partitioned_pf`
unfoldable pub is_partitioned_pf : List Item → Str → Bool
is_partitioned_pf [] dev_name = false
is_partitioned_pf (config ∷ sriov_map) dev_name =
    (field_is config "device_type" (text (str "vf"))
      && (pf_of (get config (str "device")) == some dev_name))
    || is_partitioned_pf sriov_map dev_name
