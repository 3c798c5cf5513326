-- ===== src/Sriov/Bind.antt =====
-- os_net_config/sriov_bind_config.py: `update_sriov_bind_pcis_map` and `bind_vfs`.
use os_net_config.Base.{
  ◌≡◌, refl, ap, ◌∙◌, subst, ◌≢◌, inl, inr, Bool, true, false, ◌&&◌, ◌||◌, not, Option, none, some,
  List, [], ◌∷◌, arith, if◌then◌else◌, Bool-cases, Option-cases, or_default, Bool-ext, ◌==◌, beq→eq,
  nat_eq, str_eq, option_str_eq, all, contains,
}
use os_net_config.Base.Str.{Str}
use os_net_config.Base.Dict.{Dict, keys, get, has, has-eq-is_some, contains-keys}

-- The addresses of the functions to bind, by their driver.
abbrev pub PcisMap : Type 0
PcisMap = Dict Str (List Str)

-- `set(a) == set(b)` of two lists
unfoldable pub same_set : List Str → List Str → Bool
same_set a b = all (contains b) a && all (contains a) b

-- `set(old[key]) == set(new[key])` for each key of `old`
unfoldable pub same_values : PcisMap → PcisMap → Bool
unfolding same_set
same_values [] new = true
same_values ((driver, pcis) ∷ old) new =
    same_set pcis (or_default (get new driver) []) && same_values old new

abbrev pub is_empty : PcisMap → Bool
is_empty [] = true
is_empty (e ∷ d) = false

-- `update_sriov_bind_pcis_map`: the stored map, `none` where reading it failed, and the map that
-- is stored afterwards.
unfoldable pub update_sriov_bind_pcis_map : Option PcisMap → PcisMap → PcisMap
unfolding same_values same_set
update_sriov_bind_pcis_map stored sriov_bind_pcis_map =
    let config = or_default stored [] in
    if is_empty config
      || not (same_set (keys config) (keys sriov_bind_pcis_map))
      || not (same_values config sriov_bind_pcis_map)
    then sriov_bind_pcis_map
    else config

-- Whether the map binds the function to the driver.
abbrev pub binds : PcisMap → Str → Str → Bool
binds m driver pci = contains (or_default (get m driver) []) pci

all-contains :
    (a b : List Str) (x : Str)
    → all (contains b) a ≡ true
    → contains a x ≡ true
    → contains b x ≡ true
unfolding all contains
all-contains [] b x h k = absurd (ground arith)
all-contains (y ∷ a) b x h k = elim (Bool-cases (y == x)) [
  | inl here ↦ subst (λ z. contains b z ≡ true) (beq→eq y x here) (ground arith)
  | inr there ↦ all-contains a b x (ground arith) (ground arith)
]

same_set-contains : (a b : List Str) (x : Str) → same_set a b ≡ true → contains a x ≡ contains b x
unfolding same_set
same_set-contains a b x h =
    Bool-ext (contains a x) (contains b x) (all-contains a b x (ground arith))
      (all-contains b a x (ground arith))

same_values-get :
    (old new : PcisMap) (driver pci : Str)
    → same_values old new ≡ true
    → has old driver ≡ true
    → binds old driver pci ≡ binds new driver pci
unfolding same_values get has
same_values-get [] new driver pci h k = absurd (ground arith)
same_values-get ((d, pcis) ∷ old) new driver pci h k = elim (Bool-cases (d == driver)) [
  | inl here ↦ rw here (
      same_set-contains pcis (or_default (get new d) []) pci (ground arith)
      ∙ ap (λ e. binds new e pci) (beq→eq d driver here))
  | inr there ↦ rw there (same_values-get old new driver pci (ground arith) (ground arith))
]

binds-missing :
    (old new : PcisMap) (driver pci : Str)
    → contains (keys old) driver ≡ contains (keys new) driver
    → has old driver ≡ false
    → binds old driver pci ≡ binds new driver pci
binds-missing old new driver pci same gone = ground (
  arith,
  contains-keys old driver,
  contains-keys new driver,
  has-eq-is_some old driver,
  has-eq-is_some new driver,
  same,
  gone,
)

-- The stored map binds the same functions to the same drivers as the new one, whether it was
-- written again or left as it was.
pub binds-update_sriov_bind_pcis_map :
    (stored : Option PcisMap) (new : PcisMap) (driver pci : Str)
    → binds (update_sriov_bind_pcis_map stored new) driver pci ≡ binds new driver pci
unfolding update_sriov_bind_pcis_map
binds-update_sriov_bind_pcis_map stored new driver pci =
    elim (Bool-cases (
      is_empty config || not (same_set (keys config) (keys new)) || not (same_values config new))) [
        | inl writes ↦ rw writes refl
        | inr keeps ↦ rw keeps (elim (Bool-cases (has config driver)) [
          | inl there ↦ same_values-get config new driver pci (ground arith) there
          | inr gone ↦
              binds-missing config new driver pci
                (same_set-contains (keys config) (keys new) driver (ground arith)) gone
        ])
      ]
  where
    config : PcisMap
    config = or_default stored []

-- What the kernel does: whether a device has a driver, and the write of an address to the `bind`
-- file of a driver, where `none` is an IOError. A write gives the device a driver, and a device
-- that has one keeps it.
pub record BindTool : Type 1 where
  pub State : Type 0
  pub has_driver : State → Str → Bool
  pub bind : State → Str → Str → Option State
  pub bind_binds :
      (s t : State) (driver pci : Str) → bind s driver pci ≡ some t → has_driver t pci ≡ true
  pub bind_keeps :
      (s t : State) (driver pci other : Str)
      → bind s driver pci ≡ some t
      → has_driver s other ≡ true
      → has_driver t other ≡ true

module _ (T : BindTool) where
  -- The body of the inner loop; an IOError is logged.
  unfoldable pub bind_one : Str → Str → T.State → T.State
  bind_one driver vf_pci s =
      if T.has_driver s vf_pci then s else or_default (T.bind s driver vf_pci) s

  unfoldable pub bind_list : Str → List Str → T.State → T.State
  unfolding bind_one
  bind_list driver [] s = s
  bind_list driver (vf_pci ∷ pcis_list) s = bind_list driver pcis_list (bind_one driver vf_pci s)

  -- `bind_vfs` of a map that is not empty
  unfoldable pub bind_vfs : PcisMap → T.State → T.State
  unfolding bind_list
  bind_vfs [] s = s
  bind_vfs ((driver, pcis_list) ∷ m) s = bind_vfs m (bind_list driver pcis_list s)

  bind_one-keeps :
      (driver pci other : Str) (s : T.State)
      → T.has_driver s other ≡ true
      → T.has_driver (bind_one driver pci s) other ≡ true
  unfolding bind_one
  bind_one-keeps driver pci other s h = elim (Option-cases (T.bind s driver pci)) [
    | inl failed ↦ ground (arith, failed)
    | inr (t, done) ↦ ground (arith, T.bind_keeps s t driver pci other done h)
  ]

  bind_list-keeps :
      (driver : Str) (pcis : List Str) (other : Str) (s : T.State)
      → T.has_driver s other ≡ true
      → T.has_driver (bind_list driver pcis s) other ≡ true
  unfolding bind_list
  bind_list-keeps driver [] other s h = h
  bind_list-keeps driver (pci ∷ pcis) other s h =
      bind_list-keeps driver pcis other _ (bind_one-keeps driver pci other s h)

  bind_vfs-keeps :
      (m : PcisMap) (other : Str) (s : T.State)
      → T.has_driver s other ≡ true
      → T.has_driver (bind_vfs m s) other ≡ true
  unfolding bind_vfs
  bind_vfs-keeps [] other s h = h
  bind_vfs-keeps ((driver, pcis) ∷ m) other s h =
      bind_vfs-keeps m other _ (bind_list-keeps driver pcis other s h)

  module _ (always : (s : T.State) (driver pci : Str) → T.bind s driver pci ≢ none) where
    bind_one-binds :
        (driver pci : Str) (s : T.State) → T.has_driver (bind_one driver pci s) pci ≡ true
    unfolding bind_one
    bind_one-binds driver pci s = elim (Option-cases (T.bind s driver pci)) [
      | inl failed ↦ absurd (always s driver pci failed)
      | inr (t, done) ↦ ground (arith, T.bind_binds s t driver pci done)
    ]

    bind_list-binds :
        (driver : Str) (pcis : List Str) (pci : Str) (s : T.State)
        → contains pcis pci ≡ true
        → T.has_driver (bind_list driver pcis s) pci ≡ true
    unfolding bind_list contains
    bind_list-binds driver [] pci s h = absurd (ground arith)
    bind_list-binds driver (first ∷ pcis) pci s h = elim (Bool-cases (first == pci)) [
      | inl here ↦ bind_list-keeps driver pcis pci _ (
          subst (λ p. T.has_driver (bind_one driver first s) p ≡ true) (beq→eq first pci here)
            (bind_one-binds driver first s))
      | inr there ↦ bind_list-binds driver pcis pci _ (ground arith)
    ]

    -- Every function that the map names has a driver afterwards, if no write to a `bind` file fails.
    bind_vfs-has_driver :
        (m : PcisMap) (driver pci : Str) (s : T.State)
        → binds m driver pci ≡ true
        → T.has_driver (bind_vfs m s) pci ≡ true
    unfolding bind_vfs get contains
    bind_vfs-has_driver [] driver pci s h = absurd (ground arith)
    bind_vfs-has_driver ((d, pcis) ∷ m) driver pci s h = elim (Bool-cases (d == driver)) [
      | inl here ↦ bind_vfs-keeps m pci _ (bind_list-binds d pcis pci s (ground arith))
      | inr there ↦ bind_vfs-has_driver m driver pci _ (ground arith)
    ]
