-- ===== src/Mapping/Pf.antt =====
-- The entries of the SR-IOV mapping for physical functions: `update_sriov_pf_map` of
-- os_net_config/utils.py.
use os_net_config.Base.{
  ℕ, ◌<◌, String, ◌≡◌, refl, sym, ap, ◌∙◌, subst, ◌≢◌, ◌⊎◌, inl, inr, Bool, true, false, ◌&&◌, not,
  Option, none, some, List, [], ◌∷◌, ◌++◌, arith, if◌then◌else◌, ltb, Bool-cases, or_default, ◌==◌,
  beq_refl, beq→eq, list_beq, nat_eq, str_eq, option_str_eq, All, contains, find, change_first,
  find-change_first_on, find-change_first_on_other, bind,
}
use os_net_config.Base.Str.{Str, str}
use os_net_config.Base.Dict.{get, last_of, update, get-update}
use os_net_config.Mapping.{
  value_beq, value_eq, Item, field_is, is_pf, is_vf_of, optional, Value, flag, number, text, device,
  value_is,
}

-- The settings that `update_sriov_pf_map` takes besides the name.
pub record PfSettings : Type 0 where
  pub numvfs : ℕ
  pub promisc : Option Value
  pub link_mode : Str
  pub vdpa : Bool
  pub steering_mode : Option Str
  pub lag_candidate : Option Bool
  pub drivers_autoprobe : Bool

-- `if value is not None: item[key] = value`
abbrev pub if_given : String → Option Value → Item
if_given key none = []
if_given key (some v) = (str key, v) ∷ []

abbrev pub optional_flag : Option Bool → Option Value
optional_flag none = none
optional_flag (some b) = some (flag b)

-- The assignments to an entry, in their order.
unfoldable pub pf_fields : PfSettings → Item
pf_fields s =
    (str "numvfs", number s.numvfs)
    ∷ (str "drivers_autoprobe", flag s.drivers_autoprobe)
    ∷ (str "vdpa", flag s.vdpa)
    ∷ (if_given "promisc" s.promisc
        ++ ((str "link_mode", text s.link_mode)
            ∷ (if_given "steering_mode" (optional s.steering_mode)
                ++ if_given "lag_candidate" (optional_flag s.lag_candidate))))

-- `new_item` before its fields are set
abbrev pub new_pf : Str → Item
new_pf ifname = (str "device_type", text (str "pf")) ∷ (str "name", text ifname) ∷ []

unfoldable pub set_pf : PfSettings → Item → Item
unfolding pf_fields
set_pf s item = update item (pf_fields s)

-- `update_sriov_pf_map`, as a function on the map that is read and written; `cur_numvfs` is what
-- `get_numvfs` gives, where `none` is the SRIOVNumvfsException that it raises. The same exception
-- of the call is `none`.
unfoldable pub update_sriov_pf_map :
    Option ℕ → Str → Bool → PfSettings → List Item → Option (List Item)
unfolding set_pf
update_sriov_pf_map cur_numvfs ifname noop s sriov_map =
    if noop
    then some sriov_map
    else bind cur_numvfs (λ cur.
      if ltb 0 cur && not (cur == s.numvfs)
      then none
      else some (change_first (is_pf ifname) (set_pf s) (set_pf s (new_pf ifname)) sriov_map))

-- The entry that `update_sriov_pf_map` starts from.
abbrev pub old_pf : List Item → Str → Item
old_pf sriov_map ifname = or_default (find (is_pf ifname) sriov_map) (new_pf ifname)

-- A key that no assignment is for.
abbrev IsFixed : String → Type 0
IsFixed key = (s : PfSettings) (o : Option Value) → last_of (pf_fields s) (str key) o ≡ o

-- No entry is for the key.
abbrev Misses : Str → Item → Type 0
Misses k [] = Unit {0}
Misses k ((j, v) ∷ d) = ((j == k) ≡ false) × Misses k d

Misses-append : (k : Str) (d e : Item) → Misses k d → Misses k e → Misses k (d ++ e)
Misses-append k [] e m n = n
Misses-append k ((j, v) ∷ d) e (h, m) n = (h, Misses-append k d e m n)

Misses-if_given :
    (key : String) (k : Str) (v : Option Value) → (str key == k) ≡ false → Misses k (if_given key v)
Misses-if_given key k none h = tt
Misses-if_given key k (some v) h = (h, tt)

last_of-Misses : (k : Str) (d : Item) (o : Option Value) → Misses k d → last_of d k o ≡ o
last_of-Misses k [] o m = refl
last_of-Misses k ((j, v) ∷ d) o (h, m) = rw h (last_of-Misses k d o m)

pf_fields-Misses :
    (s : PfSettings) (key : String)
    → contains
        (str "numvfs"
          ∷ str "drivers_autoprobe"
          ∷ str "vdpa"
          ∷ str "promisc"
          ∷ str "link_mode"
          ∷ str "steering_mode"
          ∷ str "lag_candidate"
          ∷ [])
        (str key)
      ≡ false
    → Misses (str key) (pf_fields s)
unfolding pf_fields contains
pf_fields-Misses s key h = (
  ground arith,
  (
    ground arith,
    (
      ground arith,
      Misses-append _ (if_given "promisc" s.promisc) _
          (Misses-if_given "promisc" _ s.promisc (ground arith))
          (
            ground arith,
            Misses-append _ (if_given "steering_mode" (optional s.steering_mode)) _
                (Misses-if_given "steering_mode" _ _ (ground arith))
                (Misses-if_given "lag_candidate" _ _ (ground arith)),
          ),
    ),
  ),
)

module _ (s : PfSettings) (item : Item) where
  get-set_pf : (k : Str) → get (set_pf s item) k ≡ last_of (pf_fields s) k (get item k)
  unfolding set_pf
  get-set_pf k = get-update (pf_fields s) item k

  get-set_pf-device_type : get (set_pf s item) (str "device_type") ≡ get item (str "device_type")
  get-set_pf-device_type =
      get-set_pf (str "device_type")
      ∙ last_of-Misses (str "device_type") (pf_fields s) _
          (pf_fields-Misses s "device_type" (unfold contains str list_beq in refl))

  get-set_pf-name : get (set_pf s item) (str "name") ≡ get item (str "name")
  get-set_pf-name =
      get-set_pf (str "name")
      ∙ last_of-Misses (str "name") (pf_fields s) _
          (pf_fields-Misses s "name" (unfold contains str list_beq in refl))

  get-set_pf-device : get (set_pf s item) (str "device") ≡ get item (str "device")
  get-set_pf-device =
      get-set_pf (str "device")
      ∙ last_of-Misses (str "device") (pf_fields s) _
          (pf_fields-Misses s "device" (unfold contains str list_beq in refl))

  is_pf-set_pf : (name : Str) → is_pf name (set_pf s item) ≡ is_pf name item
  is_pf-set_pf name =
      ap (λ o. value_is o (text (str "pf")) && field_is (set_pf s item) "name" (text name))
        get-set_pf-device_type
      ∙ ap (λ o. field_is item "device_type" (text (str "pf")) && value_is o (text name))
          get-set_pf-name

  is_vf_of-set_pf : (pf : Str) (i : ℕ) → is_vf_of pf i (set_pf s item) ≡ is_vf_of pf i item
  is_vf_of-set_pf pf i =
      ap (λ o. value_is o (text (str "vf")) && field_is (set_pf s item) "device" (device pf i))
        get-set_pf-device_type
      ∙ ap (λ o. field_is item "device_type" (text (str "vf")) && value_is o (device pf i))
          get-set_pf-device

is_pf-new_pf : (name ifname : Str) → is_pf name (new_pf ifname) ≡ (ifname == name)
is_pf-new_pf name ifname = unfold get str list_beq value_beq in refl

is_vf_of-new_pf : (pf ifname : Str) (i : ℕ) → is_vf_of pf i (new_pf ifname) ≡ false
is_vf_of-new_pf pf ifname i = unfold get str list_beq value_beq in refl

All-always {ℓ κ} : {A : Type ℓ} (P : A → Type κ) (h : (x : A) → P x) (xs : List A) → All P xs
All-always P h [] = tt
All-always P h (x ∷ xs) = (h x, All-always P h xs)

-- One entry is not of two physical functions, nor of a physical and a virtual one.
value_is-apart :
    (o : Option Value) (v w : Value) → (v == w) ≡ false → value_is o v ≡ true → value_is o w ≡ false
value_is-apart (some u) v w h e = subst (λ x. (x == w) ≡ false) (sym (beq→eq u v e)) h
value_is-apart none v w h e = refl

apart_pf :
    (ifname name : Str)
    → (ifname == name) ≡ false
    → (item : Item) → is_pf ifname item ≡ true
    → is_pf name item ≡ false
apart_pf ifname name h item e = ground (
  arith,
  value_is-apart (get item (str "name")) (text ifname) (text name) (unfold value_beq in h),
)

apart_vf :
    (ifname pf : Str) (i : ℕ) (item : Item) → is_pf ifname item ≡ true → is_vf_of pf i item ≡ false
apart_vf ifname pf i item e = ground (
  arith,
  value_is-apart (get item (str "device_type")) (text (str "pf")) (text (str "vf"))
      (unfold value_beq str list_beq in refl),
)

-- What `update_sriov_pf_map` has to leave: the entry of the physical function has the new
-- settings, and for what the call sets nothing its old ones; no other entry is touched.
pub record IsPfUpdate (ifname : Str) (s : PfSettings) (old new : List Item) : Type 0 where
  pub entry :
      (k : Str)
      → (item : Item) × (find (is_pf ifname) new ≡ some item)
        × (get item k ≡ last_of (pf_fields s) k (get (old_pf old ifname) k))
  pub other_pf :
      (name : Str)
      → find (is_pf name) new
        ≡ (if ifname == name then find (is_pf name) new else find (is_pf name) old)
  pub any_vf : (pf : Str) (i : ℕ) → find (is_vf_of pf i) new ≡ find (is_vf_of pf i) old

module _ (ifname : Str) (s : PfSettings) (sriov_map : List Item) where
  abbrev changed : List Item
  changed = change_first (is_pf ifname) (set_pf s) (set_pf s (new_pf ifname)) sriov_map

  find-changed : find (is_pf ifname) changed ≡ some (set_pf s (old_pf sriov_map ifname))
  find-changed =
      find-change_first_on (is_pf ifname) (set_pf s) _ sriov_map
        (is_pf-set_pf s (new_pf ifname) ifname ∙ is_pf-new_pf ifname ifname ∙ beq_refl ifname)
        (All-always _ (λ item. is_pf-set_pf s item ifname) sriov_map)
      ∙ ap some (either (find (is_pf ifname) sriov_map))
    where
      either :
          (o : Option Item)
          → elim o [ none ↦ set_pf s (new_pf ifname) | some x ↦ set_pf s x ]
            ≡ set_pf s (or_default o (new_pf ifname))
      either none = refl
      either (some x) = refl

  untouched :
      (name : Str)
      → (ifname == name) ≡ false
      → find (is_pf name) changed ≡ find (is_pf name) sriov_map
  untouched name h =
      find-change_first_on_other (is_pf ifname) (is_pf name) (set_pf s) _ sriov_map
        (is_pf-set_pf s (new_pf ifname) name ∙ is_pf-new_pf name ifname ∙ h)
        (All-always _ (λ item. (is_pf-set_pf s item name, apart_pf ifname name h item)) sriov_map)

  changed-IsPfUpdate : IsPfUpdate ifname s sriov_map changed
  changed-IsPfUpdate = record {
    entry = λ k. (set_pf s (old_pf sriov_map ifname), find-changed, get-set_pf s _ k);
    other_pf = λ name. elim (Bool-cases (ifname == name)) [
      | inl same ↦ rw same refl
      | inr differ ↦ rw differ (untouched name differ)
    ];
    any_vf = λ pf i.
        find-change_first_on_other (is_pf ifname) (is_vf_of pf i) (set_pf s) _ sriov_map
          (is_vf_of-set_pf s (new_pf ifname) pf i ∙ is_vf_of-new_pf pf ifname i)
          (All-always _ (λ item. (is_vf_of-set_pf s item pf i, apart_vf ifname pf i item))
            sriov_map);
  }

-- The call fails exactly if the number of virtual functions cannot be read, or is not zero and
-- another than the one asked for; otherwise the map is updated, except in a dry run, which reads no
-- number and leaves the map.
pub update_sriov_pf_map_cases :
    (cur_numvfs : Option ℕ) (ifname : Str) (noop : Bool) (s : PfSettings) (old : List Item)
    → (update_sriov_pf_map cur_numvfs ifname noop s old ≡ none
        × (noop ≡ false)
        × ((cur_numvfs ≡ none)
            ⊎ ((cur : ℕ) × (cur_numvfs ≡ some cur) × (0 < cur) × (cur ≢ s.numvfs))))
      ⊎ ((new : List Item) × (update_sriov_pf_map cur_numvfs ifname noop s old ≡ some new)
          × ((noop ≡ true × new ≡ old)
              ⊎ (noop ≡ false
                  × ((cur_numvfs ≡ some 0) ⊎ (cur_numvfs ≡ some s.numvfs))
                  × IsPfUpdate ifname s old new)))
unfolding update_sriov_pf_map
update_sriov_pf_map_cases cur_numvfs ifname true s old = inr (old, refl, inl (refl, refl))
update_sriov_pf_map_cases none ifname false s old = inl (refl, refl, inl refl)
update_sriov_pf_map_cases (some cur) ifname false s old =
    elim (Bool-cases (ltb 0 cur && not (cur == s.numvfs))) [
      | inl fails ↦ inl (rw fails refl, refl, inr (cur, refl, ground arith, ground arith))
      | inr works ↦ inr (
        changed ifname s old,
        rw works refl,
        inr (refl, number works, changed-IsPfUpdate ifname s old),
      )
    ]
  where
    number :
        (ltb 0 cur && not (cur == s.numvfs)) ≡ false
        → (some cur ≡ some 0) ⊎ (some cur ≡ some s.numvfs)
    number works = elim (Bool-cases (cur == s.numvfs)) [
      | inl same ↦ inr (ap some (beq→eq cur s.numvfs same))
      | inr differ ↦ inl (ap some (ground arith))
    ]
