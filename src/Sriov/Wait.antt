-- ===== src/Sriov/Wait.antt =====
-- `_wait_for_vf_creation` of os_net_config/sriov_config.py.
use os_net_config.Base.{
  ℕ, zero, suc, ◌+◌, ◌<◌, ◌≡◌, ◌⊎◌, Bool, true, false, ◌&&◌, not, Option, none, some, List, [], ◌∷◌,
  if◌then◌else◌, is_some, ◌==◌, nat_eq, str_eq, option_str_eq, length, contains,
}
use os_net_config.Base.Str.{Str, split}
use os_net_config.Base.Dict.{Dict, get, has, put}

-- The last piece of a list of pieces.
abbrev last_piece : Str → List Str → Str
last_piece piece [] = piece
last_piece piece (next ∷ pieces) = last_piece next pieces

-- `os.path.basename`
unfoldable pub basename : Str → Str
basename path = last_piece [] (split b'/' path)

-- `vf_to_pf`: the device and the physical function of a virtual function.
abbrev pub VfToPf : Type 0
VfToPf = Dict Str (Str × Str)

-- The physical function of an entry.
abbrev pub pf_in : Option (Str × Str) → Option Str
pf_in none = none
pf_in (some (device, pf)) = some pf

-- `pf_nics` is what `_get_pf_path` and `os.listdir` find for the device of an event: the network
-- devices beside it, or `none` if no physical function is found.
module _ (pf_nics : Str → Option (List Str)) (pf_name : Str) where
  -- Whether the event counts.
  unfoldable pub is_created : VfToPf → Str → Bool
  is_created vf_to_pf device = elim (pf_nics device) [
    | none ↦ false
    | some pf_nic ↦ not (has vf_to_pf (basename device)) && contains pf_nic pf_name
  ]

  -- The loop with `missing` functions still to come, over the events in their order; at the end of
  -- the events the wait for the next one times out. The second component says that all came.
  unfoldable pub wait_for_vfs : ℕ → List Str → VfToPf → VfToPf × Bool
  unfolding is_created
  wait_for_vfs zero events vf_to_pf = (vf_to_pf, true)
  wait_for_vfs (suc missing) [] vf_to_pf = (vf_to_pf, false)
  wait_for_vfs (suc missing) (device ∷ events) vf_to_pf = elim (is_created vf_to_pf device) [
    | true ↦ wait_for_vfs missing events (put vf_to_pf (basename device) (device, pf_name))
    | false ↦ wait_for_vfs (suc missing) events vf_to_pf
  ]

  -- What the wait does to the table.
  pub record IsWaited (missing : ℕ) (old new : VfToPf) (finished : Bool) : Type 0 where
    pub kept : (vf : Str) → get new vf ≡ (if has old vf then get old vf else get new vf)
    pub owner :
        (vf : Str)
        → (is_some (get new vf) && not (has old vf))
          ≡ (is_some (get new vf) && not (has old vf) && (pf_in (get new vf) == some pf_name))
    pub count :
        (finished ≡ true × length new ≡ length old + missing)
        ⊎ (finished ≡ false × length new < length old + missing)
