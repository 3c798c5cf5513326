-- ===== src/Nics/Mapped.antt =====
-- `mapped_nics` of os_net_config/objects.py.
use os_net_config.Base.{
  ℕ, suc, ◌+◌, ◌≡◌, Bool, true, false, ◌&&◌, ◌||◌, not, Option, none, some, List, [], ◌∷◌, ◌++◌,
  if◌then◌else◌, ◌==◌, nat_eq, str_eq, option_str_eq, contains, NodupB, find,
}
use os_net_config.Base.Str.{Str, str, decimal}
use os_net_config.Base.Dict.{Dict, values, has, put}
use os_net_config.Mapping.{value_eq, Item}
use os_net_config.Mapping.Dpdk.{DpdkNic}
use os_net_config.Nics.{is_active_nic, interface_mac, Sys}
use os_net_config.Nics.Order.{ordered_nics}

-- What `mapped_nics` asks for: the interfaces in order, whether a text is a MAC address (netaddr),
-- and the MAC address of an interface, where `none` is an IOError.
pub record NicEnv : Type 0 where
  pub available_nics : List Str
  pub active_nics : List Str
  pub valid_mac : Str → Bool
  pub mac_of : Str → Option Str
  pub is_active : Str → Bool

-- `active_nics.index(nic)`, for an interface of the list
unfoldable pub index : List Str → Str → ℕ
index [] nic = 0
index (first ∷ nics) nic = let i = index nics nic in if first == nic then 0 else suc i

-- The machine's own answers.
abbrev pub env_of : Sys → (Str → Bool) → List Item → List DpdkNic → NicEnv
env_of sys valid_mac sriov_map dpdk_map = record {
  available_nics = ordered_nics sys sriov_map dpdk_map false;
  active_nics = ordered_nics sys sriov_map dpdk_map true;
  valid_mac = valid_mac;
  mac_of = interface_mac sys dpdk_map;
  is_active = is_active_nic sys;
}

module _ (env : NicEnv) where
  -- The interface that an entry of the mapping means; `none` where the loop goes on.
  unfoldable pub resolve : Str → Option Str
  resolve nic_mapped =
      if env.valid_mac nic_mapped
      then find (λ nic. env.mac_of nic == some nic_mapped) env.available_nics
      else if contains env.available_nics nic_mapped
      then some nic_mapped
      else none

  -- The loop over the mapping; `none` is the InvalidConfigException.
  unfoldable pub map_entries : Dict Str Str → Dict Str Str → Option (Dict Str Str)
  unfolding resolve
  map_entries [] mapped = some mapped
  map_entries ((nic_alias, nic_mapped) ∷ mapping) mapped = elim (resolve nic_mapped) [
    | none ↦ map_entries mapping mapped
    | some nic ↦
        if contains (values mapped) nic || env.is_active nic_alias
        then none
        else map_entries mapping (put mapped nic_alias nic)
  ]

  -- `"nic%i" % (active_nics.index(nic_mapped) + 1)`
  unfoldable pub numbered : Str → Str
  unfolding index
  numbered nic = str "nic" ++ decimal (index env.active_nics nic + 1)

  -- The loop over the interfaces that are left, in the order in which the set has them.
  unfoldable pub add_numbered : List Str → Dict Str Str → Dict Str Str
  unfolding numbered
  add_numbered [] mapped = mapped
  add_numbered (nic ∷ nics) mapped =
      add_numbered nics
        (if has mapped (numbered nic) then mapped else put mapped (numbered nic) nic)

  -- `mapped_nics` of a mapping, where `rest` is the set of the active interfaces that the mapping
  -- leaves, in some order.
  unfoldable pub mapped_nics : Dict Str Str → (Dict Str Str → List Str) → Option (Dict Str Str)
  unfolding map_entries add_numbered
  mapped_nics mapping rest = elim (map_entries mapping []) [
    | none ↦ none
    | some mapped ↦ some (add_numbered (rest mapped) mapped)
  ]

  -- The order of a set: each active interface that the mapping leaves stands once in the list.
  pub record IsRest (mapped : Dict Str Str) (rest : List Str) : Type 0 where
    pub members :
        (nic : Str)
        → contains rest nic ≡ (contains env.active_nics nic && not (contains (values mapped) nic))
    pub once : NodupB rest
