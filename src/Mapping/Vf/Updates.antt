-- ===== src/Mapping/Vf/Updates.antt =====
-- What `update_sriov_vf_map` of os_net_config/utils.py leaves in the SR-IOV mapping.
use os_net_config.Base.{
  ℕ, String, ◌≡◌, refl, sym, ap, ◌∙◌, subst, ◌≢◌, inl, inr, true, false, ◌&&◌, not, Option, none,
  some, List, [], ◌∷◌, arith, if◌then◌else◌, Bool-cases, Option-cases, or_default, ◌==◌, beq_refl,
  beq→eq, ne→beq, list_beq, nat_eq, str_eq, option_str_eq, All, find, find-change_first_on_other,
  find-change_first_on, find-All, All-map,
}
use os_net_config.Base.Str.{Str, str}
use os_net_config.Base.Dict.{
  get, has, last_of, update, get-update, UniqueKeys, update-UniqueKeys, get-keep_values,
}
use os_net_config.Mapping.{
  value_beq, value_eq, Item, field_is, is_vf_of, Value, null, text, device, value_is,
}
use os_net_config.Mapping.Vf.{
  VfSettings, driver_field, set_vf_fields, clear_empty_values, new_vf, set_vf, update_sriov_vf_map,
  get_vf_name_from_map,
}

-- What is left of a value once empty ones are cleared.
abbrev pub cleared : Option Value → Option Value
cleared none = none
cleared (some v) = if v == null then none else some v

pub get-set_vf :
    (fields item : Item) (k : Str)
    → UniqueKeys item
    → get (set_vf fields item) k ≡ cleared (last_of fields k (get item k))
unfolding set_vf clear_empty_values
get-set_vf fields item k u =
    get-keep_values (λ v. not (v == null)) (update item fields) k (update-UniqueKeys item fields u)
    ∙ rw (get-update fields item k) (clear (last_of fields k (get item k)))
  where
    clear :
        (o : Option Value)
        → elim o [ none ↦ none | some v ↦ if not (v == null) then some v else none ] ≡ cleared o
    clear none = refl
    clear (some v) = ground arith

-- The two keys that say which function an entry is about.
abbrev pub IsFixed : String → Type 0
IsFixed key =
    (vf_name : Str) (s : VfSettings) (o : Option Value)
    → last_of (set_vf_fields vf_name s) (str key) o ≡ o

pub last_of-driver_field :
    (driver : Option Str) (k : Str) (o : Option Value)
    → (str "driver" == k) ≡ false
    → last_of (driver_field driver) k o ≡ o
last_of-driver_field none k o h = refl
last_of-driver_field (some []) k o h = refl
last_of-driver_field (some (c ∷ d)) k o h = rw h refl

pub device_type-IsFixed : IsFixed "device_type"
unfolding set_vf_fields
device_type-IsFixed vf_name s o =
    unfold str list_beq in last_of-driver_field s.driver (str "device_type") o refl

pub device-IsFixed : IsFixed "device"
unfolding set_vf_fields
device-IsFixed vf_name s o =
    unfold str list_beq in last_of-driver_field s.driver (str "device") o refl

last_of-name :
    (vf_name : Str) (s : VfSettings) (o : Option Value)
    → last_of (set_vf_fields vf_name s) (str "name") o ≡ some (text vf_name)
unfolding set_vf_fields
last_of-name vf_name s o = unfold str list_beq in last_of-driver_field s.driver (str "name") _ refl

value_is-cleared : (o : Option Value) (w : Value) → w ≢ null → value_is (cleared o) w ≡ value_is o w
value_is-cleared none w h = refl
value_is-cleared (some v) w h = elim (Bool-cases (v == null)) [
  | inl empty ↦ rw empty (
      sym (
        subst (λ x. (x == w) ≡ false) (sym (beq→eq v null empty)) (ne→beq null w (λ p. h (sym p)))))
  | inr full ↦ rw full refl
]

module _ (vf_name : Str) (s : VfSettings) (item : Item) (u : UniqueKeys item) where
  pub field_is-set_vf :
      (key : String) (w : Value)
      → IsFixed key
      → w ≢ null
      → field_is (set_vf (set_vf_fields vf_name s) item) key w ≡ field_is item key w
  field_is-set_vf key w fixed h =
      ap (λ o. value_is o w) (get-set_vf (set_vf_fields vf_name s) item (str key) u)
      ∙ value_is-cleared _ w h
      ∙ ap (λ o. value_is o w) (fixed vf_name s (get item (str key)))

  pub is_vf_of-set_vf :
      (pf : Str) (i : ℕ)
      → is_vf_of pf i (set_vf (set_vf_fields vf_name s) item) ≡ is_vf_of pf i item
  is_vf_of-set_vf pf i =
      rw
        (
          field_is-set_vf "device_type" (text (str "vf")) device_type-IsFixed (λ p. cc p),
          field_is-set_vf "device" (device pf i) device-IsFixed (λ p. cc p),
        )
        refl

-- The entry that `update_sriov_vf_map` starts from.
abbrev pub old_vf : List Item → Str → ℕ → Item
old_vf sriov_map pf_name vfid =
    or_default (find (is_vf_of pf_name vfid) sriov_map) (new_vf pf_name vfid)

pub new_vf-UniqueKeys : (pf_name : Str) (vfid : ℕ) → UniqueKeys (new_vf pf_name vfid)
new_vf-UniqueKeys pf_name vfid = unfold has str list_beq in (refl, (refl, tt))

pub is_vf_of-new_vf :
    (pf : Str) (i : ℕ) (pf_name : Str) (vfid : ℕ)
    → is_vf_of pf i (new_vf pf_name vfid) ≡ ((pf_name == pf) && (vfid == i))
is_vf_of-new_vf pf i pf_name vfid = unfold get str list_beq value_beq in refl

module _ (pf_name : Str) (vfid : ℕ) (vf_name : Str) (s : VfSettings) (sriov_map : List Item)
    (ok : All UniqueKeys sriov_map) where
  abbrev pub updated : List Item
  updated = update_sriov_vf_map pf_name vfid vf_name s sriov_map

  old_vf-UniqueKeys : UniqueKeys (old_vf sriov_map pf_name vfid)
  old_vf-UniqueKeys = unique (find (is_vf_of pf_name vfid) sriov_map) refl
    where
      unique :
          (o : Option Item)
          → find (is_vf_of pf_name vfid) sriov_map ≡ o
          → UniqueKeys (or_default o (new_vf pf_name vfid))
      unique none e = new_vf-UniqueKeys pf_name vfid
      unique (some item) e = find-All UniqueKeys (is_vf_of pf_name vfid) sriov_map item ok e

  is_new : is_vf_of pf_name vfid (set_vf (set_vf_fields vf_name s) (new_vf pf_name vfid)) ≡ true
  is_new =
      is_vf_of-set_vf vf_name s (new_vf pf_name vfid) (new_vf-UniqueKeys pf_name vfid) pf_name vfid
      ∙ is_vf_of-new_vf pf_name vfid pf_name vfid
      ∙ rw (beq_refl pf_name, beq_refl vfid) refl

  find-updated :
      find (is_vf_of pf_name vfid) updated
      ≡ some (set_vf (set_vf_fields vf_name s) (old_vf sriov_map pf_name vfid))
  unfolding update_sriov_vf_map
  find-updated =
      find-change_first_on (is_vf_of pf_name vfid) (set_vf (set_vf_fields vf_name s)) _ sriov_map
        is_new (All-map (λ item u. is_vf_of-set_vf vf_name s item u pf_name vfid) sriov_map ok)
      ∙ ap some (either (find (is_vf_of pf_name vfid) sriov_map))
    where
      either :
          (o : Option Item)
          → elim o [
            | none ↦ set_vf (set_vf_fields vf_name s) (new_vf pf_name vfid)
            | some x ↦ set_vf (set_vf_fields vf_name s) x
          ]
            ≡ set_vf (set_vf_fields vf_name s) (or_default o (new_vf pf_name vfid))
      either none = refl
      either (some x) = refl

  -- After an update, the entry of the virtual function has, for each key, the new setting, or its
  -- old value if the call sets none, and no empty value. The entries must be dicts.
  pub get-update_sriov_vf_map :
      (k : Str)
      → (item : Item) × (find (is_vf_of pf_name vfid) updated ≡ some item)
        × (get item k
            ≡ cleared (last_of (set_vf_fields vf_name s) k (get (old_vf sriov_map pf_name vfid) k)))
  get-update_sriov_vf_map k = (
    set_vf (set_vf_fields vf_name s) (old_vf sriov_map pf_name vfid),
    find-updated,
    get-set_vf (set_vf_fields vf_name s) (old_vf sriov_map pf_name vfid) k old_vf-UniqueKeys,
  )

  -- The name that is looked up for a virtual function is the one that was stored last.
  get_vf_name_from_map-update_sriov_vf_map :
      get_vf_name_from_map updated pf_name vfid ≡ some (text vf_name)
  unfolding get_vf_name_from_map
  get_vf_name_from_map-update_sriov_vf_map =
      ap (λ (o : Option Item). elim o [ none ↦ none | some item ↦ get item (str "name") ])
        find-updated
      ∙ get-set_vf (set_vf_fields vf_name s) (old_vf sriov_map pf_name vfid) (str "name")
          old_vf-UniqueKeys
      ∙ ap cleared (last_of-name vf_name s (get (old_vf sriov_map pf_name vfid) (str "name")))
      ∙ (unfold value_beq in refl)

  -- No other virtual function is touched.
  find-update_sriov_vf_map :
      (pf : Str) (i : ℕ)
      → ((pf_name == pf) && (vfid == i)) ≡ false
      → find (is_vf_of pf i) updated ≡ find (is_vf_of pf i) sriov_map
  unfolding update_sriov_vf_map
  find-update_sriov_vf_map pf i h =
      find-change_first_on_other (is_vf_of pf_name vfid) (is_vf_of pf i)
        (set_vf (set_vf_fields vf_name s)) _ sriov_map
        (is_vf_of-set_vf vf_name s (new_vf pf_name vfid) (new_vf-UniqueKeys pf_name vfid) pf i
          ∙ is_vf_of-new_vf pf i pf_name vfid
          ∙ h)
        (All-map (λ item u. (is_vf_of-set_vf vf_name s item u pf i, other_vf pf i h item)) sriov_map
          ok)
    where
      apart :
          (pf : Str) (i : ℕ)
          → ((pf_name == pf) && (vfid == i)) ≡ false
          → (v : Value) → (v == device pf_name vfid) ≡ true
          → (v == device pf i) ≡ false
      apart pf i h v e =
          subst (λ w. (w == device pf i) ≡ false) (sym (beq→eq v (device pf_name vfid) e))
            (unfold value_beq in h)

      other_vf :
          (pf : Str) (i : ℕ)
          → ((pf_name == pf) && (vfid == i)) ≡ false
          → (item : Item) → is_vf_of pf_name vfid item ≡ true
          → is_vf_of pf i item ≡ false
      other_vf pf i h item e = elim (Option-cases (get item (str "device"))) [
        | inl gone ↦ absurd (ground (arith, e))
        | inr (v, there) ↦ ground (arith, apart pf i h v)
      ]
