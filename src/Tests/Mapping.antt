-- ===== src/Tests/Mapping.antt =====
-- The mapping files with a few entries.
use os_net_config.Base.{
  ℕ, ◌<◌, ◌≡◌, refl, ◌≢◌, ◌⊎◌, inl, true, false, Option, none, some, List, [], ◌∷◌, list_beq,
  option_beq, nat_eq, str_eq, option_str_eq, All, find, change_first,
}
use os_net_config.Base.Str.{str}
use os_net_config.Base.Dict.{get, has, put, last_of, update, keep_values, UniqueKeys}
use os_net_config.Mapping.{value_beq, value_eq, Item, is_vf_of, Value, number, text, device}
use os_net_config.Mapping.Dpdk.{
  update_dpdk_map, get_stored_pci_address, get_dpdk_mac_address,
  get_stored_pci_address-update_dpdk_map, DpdkNic, NicTool,
}
use os_net_config.Mapping.Pf.{
  update_sriov_pf_map, update_sriov_pf_map_cases, PfSettings, IsPfUpdate,
}
use os_net_config.Mapping.Vf.{
  set_vf_fields, clear_empty_values, set_vf, update_sriov_vf_map, VfSettings,
}
use os_net_config.Mapping.Vf.Updates.{cleared, old_vf, get-update_sriov_vf_map}

abbrev nic : DpdkNic
nic = record {
  pci_address = some (str "0000:81:00.0");
  name = str "p1p1";
  mac_address = some (str "aa");
  driver = none;
}

abbrev nic_tool : NicTool
nic_tool = record {
  get_pci_address = λ ifname. some (str "0000:81:00.1");
  interface_mac = λ ifname. some (str "bb");
}

get_stored_pci_address-update_dpdk_map_example :
    (get_stored_pci_address
        (update_dpdk_map (str "p1p1") (some (str "0000:81:00.0")) (some (str "cc")) none (nic ∷ []))
        (str "p1p1")
        false
      ≡ some (str "0000:81:00.0"))
    × (get_dpdk_mac_address
          (update_dpdk_map
            (str "p1p1")
            (some (str "0000:81:00.0"))
            (some (str "cc"))
            none
            (nic ∷ []))
          (str "p1p1")
        ≡ some (str "cc"))
get_stored_pci_address-update_dpdk_map_example =
    get_stored_pci_address-update_dpdk_map (str "p1p1") (some (str "0000:81:00.0"))
      (some (str "cc")) none (nic ∷ []) (inl (unfold option_beq str list_beq in refl))

abbrev settings : VfSettings
settings = record {
  vlan_id = 7;
  qos = 0;
  spoofcheck = none;
  trust = none;
  state = none;
  macaddr = none;
  promisc = none;
  pci_address = none;
  min_tx_rate = 0;
  max_tx_rate = 0;
  driver = none;
}

abbrev sriov_map : List Item
sriov_map =
    ((str "device_type", text (str "pf"))
      ∷ (str "name", text (str "p1"))
      ∷ (str "numvfs", number 4)
      ∷ (str "promisc", text (str "on"))
      ∷ [])
    ∷ ((str "device_type", text (str "vf"))
        ∷ (str "device", device (str "p1") 2)
        ∷ (str "name", text (str "p1_2"))
        ∷ (str "qos", number 5)
        ∷ [])
    ∷ []

sriov_map-UniqueKeys : All UniqueKeys sriov_map
sriov_map-UniqueKeys =
    unfold has str list_beq in
    ((refl, (refl, (refl, (refl, tt)))), ((refl, (refl, (refl, (refl, tt)))), tt))

abbrev qos_of : Option Item → Option (Option Value)
qos_of none = none
qos_of (some item) = some (get item (str "qos"))

-- The quality of service of the old entry is cleared.
cleared_qos :
    qos_of (
      find
        (is_vf_of (str "p1") 2)
        (update_sriov_vf_map (str "p1") 2 (str "p1_2") settings sriov_map))
    ≡ some none
unfolding find update_sriov_vf_map set_vf set_vf_fields update put get keep_values
    clear_empty_values change_first str list_beq value_beq
cleared_qos = refl

get-update_sriov_vf_map_example :
    (item : Item) × (find
        (is_vf_of (str "p1") 2)
        (update_sriov_vf_map (str "p1") 2 (str "p1_2") settings sriov_map)
      ≡ some item)
    × (get item (str "vlan_id")
        ≡ cleared (
            last_of
              (set_vf_fields (str "p1_2") settings)
              (str "vlan_id")
              (get (old_vf sriov_map (str "p1") 2) (str "vlan_id"))))
get-update_sriov_vf_map_example =
    get-update_sriov_vf_map (str "p1") 2 (str "p1_2") settings sriov_map sriov_map-UniqueKeys
      (str "vlan_id")

abbrev pf_settings : PfSettings
pf_settings = record {
  numvfs = 4;
  promisc = none;
  link_mode = str "legacy";
  vdpa = false;
  steering_mode = none;
  lag_candidate = none;
  drivers_autoprobe = true;
}

abbrev two : ℕ
two = 2

update_sriov_pf_map_cases_example :
    (update_sriov_pf_map (some two) (str "p1") false pf_settings sriov_map ≡ none
      × (false ≡ false)
      × ((some two ≡ none)
          ⊎ ((cur : ℕ) × (some two ≡ some cur) × (0 < cur) × (cur ≢ pf_settings.numvfs))))
    ⊎ ((new : List Item) × (update_sriov_pf_map (some two) (str "p1") false pf_settings sriov_map
          ≡ some new)
        × ((false ≡ true × new ≡ sriov_map)
            ⊎ (false ≡ false
                × ((some two ≡ some 0) ⊎ (some two ≡ some pf_settings.numvfs))
                × IsPfUpdate (str "p1") pf_settings sriov_map new)))
update_sriov_pf_map_cases_example =
    update_sriov_pf_map_cases (some two) (str "p1") false pf_settings sriov_map
