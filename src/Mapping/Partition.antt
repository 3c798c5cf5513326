-- ===== src/Mapping/Partition.antt =====
-- Which physical functions have virtual functions in use, after `update_sriov_vf_map` of
-- os_net_config/utils.py.
use os_net_config.Base.{
  ℕ, ◌≡◌, refl, ap, ◌∙◌, inl, inr, Bool, true, false, ◌&&◌, ◌||◌, Option, none, some, List, [], ◌∷◌,
  arith, Bool-cases, Option-cases, ◌==◌, beq_refl, beq→eq, option_beq, nat_eq, str_eq,
  option_str_eq, All, change_first,
}
use os_net_config.Base.Str.{Str, str}
use os_net_config.Base.Dict.{get, UniqueKeys}
use os_net_config.Mapping.{
  value_beq, value_eq, Item, field_is, is_vf_of, Value, null, flag, number, text, device,
}
use os_net_config.Mapping.Vf.{
  set_vf_fields, new_vf, set_vf, update_sriov_vf_map, pf_of, is_partitioned_pf, VfSettings,
}
use os_net_config.Mapping.Vf.Updates.{
  cleared, get-set_vf, device_type-IsFixed, device-IsFixed, field_is-set_vf, is_vf_of-set_vf,
  new_vf-UniqueKeys, is_vf_of-new_vf,
}

-- What `is_partitioned_pf` asks of one entry.
abbrev uses : Str → Item → Bool
uses dev_name item =
    field_is item "device_type" (text (str "vf"))
    && (pf_of (get item (str "device")) == some dev_name)

module _ (pf_name : Str) (vfid : ℕ) (vf_name : Str) (s : VfSettings) where
  uses-set_vf :
      (item : Item) (dev_name : Str)
      → UniqueKeys item
      → uses dev_name (set_vf (set_vf_fields vf_name s) item) ≡ uses dev_name item
  uses-set_vf item dev_name u =
      rw
        (field_is-set_vf vf_name s item u "device_type" (text (str "vf")) device_type-IsFixed
          (λ p. cc p))
        (ap (λ o. field_is item "device_type" (text (str "vf")) && (pf_of o == some dev_name))
            (get-set_vf (set_vf_fields vf_name s) item (str "device") u
              ∙ ap cleared (device-IsFixed vf_name s (get item (str "device"))))
          ∙ uncleared (get item (str "device")))
    where
      uncleared :
          (o : Option Value)
          → (field_is item "device_type" (text (str "vf")) && (pf_of (cleared o) == some dev_name))
            ≡ (field_is item "device_type" (text (str "vf")) && (pf_of o == some dev_name))
      uncleared none = refl
      uncleared (some null) = unfold value_beq in refl
      uncleared (some (flag b)) = unfold value_beq in refl
      uncleared (some (number n)) = unfold value_beq in refl
      uncleared (some (text t)) = unfold value_beq in refl
      uncleared (some (device pf i)) = unfold value_beq in refl

  uses-is_vf_of :
      (item : Item) (dev_name : Str)
      → is_vf_of pf_name vfid item ≡ true
      → uses dev_name item ≡ (pf_name == dev_name)
  uses-is_vf_of item dev_name h = elim (Option-cases (get item (str "device"))) [
    | inl gone ↦ absurd (ground arith)
    | inr (v, there) ↦
        let e = beq→eq v (device pf_name vfid) (ground arith) in
        rw (there, e) (unfold option_beq in ground arith)
  ]

  uses-new :
      (dev_name : Str)
      → uses dev_name (set_vf (set_vf_fields vf_name s) (new_vf pf_name vfid))
        ≡ (pf_name == dev_name)
  uses-new dev_name = uses-is_vf_of _ dev_name (
      is_vf_of-set_vf vf_name s (new_vf pf_name vfid) (new_vf-UniqueKeys pf_name vfid) pf_name vfid
      ∙ is_vf_of-new_vf pf_name vfid pf_name vfid
      ∙ rw (beq_refl pf_name, beq_refl vfid) refl)

  -- After an update, a physical function counts as partitioned exactly if the updated virtual
  -- function is one of its own, or if it did before. The entries must be dicts.
  is_partitioned_pf-update_sriov_vf_map :
      (sriov_map : List Item) (dev_name : Str)
      → All UniqueKeys sriov_map
      → is_partitioned_pf (update_sriov_vf_map pf_name vfid vf_name s sriov_map) dev_name
        ≡ ((pf_name == dev_name) || is_partitioned_pf sriov_map dev_name)
  unfolding is_partitioned_pf update_sriov_vf_map change_first
  is_partitioned_pf-update_sriov_vf_map [] dev_name ok = ap (λ b. b || false) (uses-new dev_name)
  is_partitioned_pf-update_sriov_vf_map (item ∷ sriov_map) dev_name (u, ok) =
      elim (Bool-cases (is_vf_of pf_name vfid item)) [
        | inl same ↦ rw same (
            ap (λ b. b || is_partitioned_pf sriov_map dev_name) (uses-set_vf item dev_name u)
            ∙ ground (arith, uses-is_vf_of item dev_name same))
        | inr differ ↦ rw differ (
            ap (λ b. uses dev_name item || b)
              (is_partitioned_pf-update_sriov_vf_map sriov_map dev_name ok)
            ∙ swap (uses dev_name item) _ _)
      ]
    where
      swap : (a b c : Bool) → (a || (b || c)) ≡ (b || (a || c))
      swap a b c = ground arith
