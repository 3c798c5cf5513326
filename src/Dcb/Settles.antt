-- ===== src/Dcb/Settles.antt =====
-- What `DcbApplyConfig.apply` of os_net_config/dcb_config.py leaves in the kernel.
use os_net_config.Base.{
  ◌≡◌, ◌≢◌, Bool, false, ◌&&◌, ◌||◌, not, Option, none, some, List, [], ◌∷◌, if◌then◌else◌, ◌==◌,
  nat_eq, str_eq, option_str_eq, contains,
}
use os_net_config.Base.Str.{Str}
use os_net_config.Dcb.{app_sel_dscp, app_eq, DcbApp, DcbEntry, is_mlx}

-- What the DCB map asks for on a device; `none` if no entry names the device.
unfoldable pub user_of : List DcbEntry → Str → Option (List DcbApp)
user_of [] d = none
user_of (cfg ∷ cfgs) d =
    let rest = user_of cfgs d in if cfg.device == some d then some cfg.dscp2prio else rest

-- No device has two entries, and each device has a driver.
abbrev pub IsReady : List DcbEntry → Type 0
IsReady [] = Unit {0}
IsReady (cfg ∷ cfgs) =
    (cfg.device ≢ none → cfg.driver ≢ none)
    × ((d : Str) → cfg.device ≡ some d → user_of cfgs d ≡ none)
    × IsReady cfgs

-- No device with an entry has a Mellanox driver, so that no firmware is reset.
abbrev pub AreLeftAlone : List DcbEntry → Type 0
AreLeftAlone [] = Unit {0}
AreLeftAlone (cfg ∷ cfgs) =
    ((driver : Str) → cfg.driver ≡ some driver → is_mlx driver ≡ false) × AreLeftAlone cfgs

-- Behind the entry of a device, no entry has a Mellanox driver.
unfoldable pub AreLeftAfter : List DcbEntry → Str → Type 0
AreLeftAfter [] d = Unit {0}
AreLeftAfter (cfg ∷ cfgs) d = (cfg.device ≡ some d → AreLeftAlone cfgs) × AreLeftAfter cfgs d

-- Whether a device with table `before` has the application once it is configured.
abbrev pub asked : Option (List DcbApp) → List DcbApp → DcbApp → Bool
asked none before a = contains before a
asked (some user) before a =
    contains user a || (contains before a && not (a.selector == app_sel_dscp))

-- An entry alone.
abbrev entry_user : DcbEntry → Str → Option (List DcbApp)
entry_user cfg d = if cfg.device == some d then some cfg.dscp2prio else none
