-- ===== src/Ifcfg/Changes/Restart.antt =====
-- When `ifcfg_requires_restart` answers yes.
use os_net_config.Base.{
  ◌≡◌, refl, sym, ap, ◌∙◌, ◌≢◌, ◌↔◌, ◌⊎◌, inl, inr, true, false, Option, none, some, arith,
  Bool-cases, is_some, beq_refl, beq→eq, nat_eq, str_eq, option_str_eq, contains, any_iff,
}
use os_net_config.Base.Str.{Str, str, upper}
use os_net_config.Base.Dict.{keys, get, has-eq-is_some, contains-keys}
use os_net_config.Ifcfg.Parse.{Files, get_file_data, parse_ifcfg}
use os_net_config.Ifcfg.Changes.{
  enumerate_ifcfg_changes, permitted_changes, boot_protocols, moves_to_dhcp, forces_restart,
  ifcfg_requires_restart,
}
use os_net_config.Ifcfg.Changes.Laws.{change_of, get-enumerate_ifcfg_changes}

-- The key differs between the two files, apart from upper and lower case.
abbrev pub Differs : Str → Str → Str → Type 0
Differs old new k = change_of (get (parse_ifcfg old) k) (get (parse_ifcfg new) k) ≢ none

-- The value of the key in the new file is DHCP, in any case.
abbrev pub IsDhcp : Str → Str → Type 0
IsDhcp new k = (v : Str) × (get (parse_ifcfg new) k ≡ some v) × (upper v ≡ str "DHCP")

-- A key that forces a restart: it differs, it is none of the keys that can be changed in place,
-- and if it is a boot protocol then the new one is DHCP.
abbrev pub ForcesRestart : Str → Str → Str → Type 0
ForcesRestart old new k =
    Differs old new k
    × (contains permitted_changes k ≡ false)
    × ((contains boot_protocols k ≡ false) ⊎ IsDhcp new k)

is_change :
    (old new k : Str)
    → contains (keys (enumerate_ifcfg_changes (parse_ifcfg old) (parse_ifcfg new))) k
      ≡ is_some (change_of (get (parse_ifcfg old) k) (get (parse_ifcfg new) k))
is_change old new k =
    contains-keys _ k ∙ has-eq-is_some _ k ∙ ap is_some (get-enumerate_ifcfg_changes old new k)

is_some→ne {ℓ} : {A : Type ℓ} (o : Option A) → is_some o ≡ true → o ≢ none
is_some→ne o h p = ground arith

ne→is_some {ℓ} : {A : Type ℓ} (o : Option A) → o ≢ none → is_some o ≡ true
ne→is_some none h = absurd (h refl)
ne→is_some (some a) h = refl

moves_to_dhcp_iff :
    (o : Option Str)
    → (moves_to_dhcp o ≡ true) ↔ ((v : Str) × (o ≡ some v) × (upper v ≡ str "DHCP"))
unfolding moves_to_dhcp
moves_to_dhcp_iff none = (λ h. cc, λ (v, p, q). cc)
moves_to_dhcp_iff (some w) = (
  λ h. (w, refl, beq→eq (upper w) (str "DHCP") h),
  λ (v, p, q). ground (arith, beq_refl (str "DHCP")),
)

forces_restart_iff :
    (new : Str) (k : Str)
    → (forces_restart (parse_ifcfg new) k ≡ true) ↔ (
        (contains permitted_changes k ≡ false)
        × ((contains boot_protocols k ≡ false) ⊎ IsDhcp new k))
forces_restart_iff new k = (
  λ h.
      unfold forces_restart in
      elim (Bool-cases (contains boot_protocols k)) [
        | inl boot ↦
            (ground arith, inr ((moves_to_dhcp_iff (get (parse_ifcfg new) k)).0 (ground arith)))
        | inr other ↦ (ground arith, inl other)
      ],
  λ (free, boot). elim boot [
    | inl other ↦ unfold forces_restart in ground arith
    | inr dhcp ↦
        let moves = (moves_to_dhcp_iff (get (parse_ifcfg new) k)).1 dhcp in
        unfold forces_restart in ground arith
  ],
)

-- A restart is required exactly if some key forces it, whatever the two files hold.
pub ifcfg_requires_restart_iff :
    (fs : Files) (filename new_data : Str)
    → (ifcfg_requires_restart fs filename new_data ≡ true)
      ↔ ((k : Str) × ForcesRestart (get_file_data fs filename) new_data k)
unfolding ifcfg_requires_restart
ifcfg_requires_restart_iff fs filename new_data = (
  λ h.
      let (k, listed, forces) = (any_iff _ _).0 h in
      (
        k,
        (
          is_some→ne _ (sym (is_change _ new_data k) ∙ listed),
          ((forces_restart_iff new_data k).0 forces).0,
          ((forces_restart_iff new_data k).0 forces).1,
        ),
      ),
  λ (k, w).
      (any_iff _ _).1 (
        k,
        is_change _ new_data k ∙ ne→is_some _ w.0,
        (forces_restart_iff new_data k).1 (w.1, w.2),
      ),
)
