-- ===== src/Tests/Dcb.antt =====
-- The DCB configuration on a small machine.
use os_net_config.Base.{
  ℕ, ◌≡◌, refl, ◌∙◌, ◌≢◌, inl, inr, not, some, List, [], ◌∷◌, arith, if◌then◌else◌, Bool-cases,
  ◌==◌, beq_refl, ne→beq, list_beq, option_beq, nat_eq, str_eq, option_str_eq, select, contains,
  contains-select, NodupB, find, true,
}
use os_net_config.Base.Str.{Str, str, starts_with, contains_str}
use os_net_config.Base.Dict.{values}
use os_net_config.Dcb.{
  is_equal_iff, app_eq, table_of, compare_tables, set_values, del_app_entry, table_commands,
  run_all, reset_firmware, apply_table, apply_entry, apply, DcbApp, DcbCommand, mstconfig,
  mstfwreset, set_dcbx, set_ieee_app, del_ieee_app, DcbEntry, DcbTool, is_message,
}
use os_net_config.Dcb.Netlink.{send_and_receive, send_and_receive-foreign, NetlinkMessage, received}
use os_net_config.Dcb.Map.{has_pci, entry_of, new_dcb_map, find-new_dcb_map, Dcb}

-- A kernel whose tables are lists, read without repetitions.

unfoldable dedup : List DcbApp → List DcbApp
dedup [] = []
dedup (x ∷ xs) = let rest = dedup xs in if contains xs x then rest else x ∷ rest

contains-dedup : (xs : List DcbApp) (a : DcbApp) → contains (dedup xs) a ≡ contains xs a
unfolding dedup contains
contains-dedup [] a = refl
contains-dedup (x ∷ xs) a = ground (arith, contains-dedup xs a, is_equal_iff x a)

dedup-NodupB : (xs : List DcbApp) → NodupB (dedup xs)
unfolding dedup
dedup-NodupB [] = tt
dedup-NodupB (x ∷ xs) = elim (Bool-cases (contains xs x)) [
  | inl again ↦ rw again (dedup-NodupB xs)
  | inr first ↦ rw first (contains-dedup xs x ∙ first, dedup-NodupB xs)
]

abbrev changed : DcbCommand → List DcbApp → List DcbApp
changed (set_ieee_app app) apps = app ∷ apps
changed (del_ieee_app app) apps = select (λ other. not (app == other)) apps
changed (mstconfig pci) apps = apps
changed (mstfwreset pci) apps = []
changed (set_dcbx mode) apps = apps

abbrev Tables : Type 0
Tables = Str → List DcbApp

-- A program for the firmware empties all tables.
abbrev run_command : Str → Tables → DcbCommand → Tables
run_command device s c other =
    if is_message c then if device == other then changed c (s other) else s other else []

here :
    (device : Str) (s : Tables) (c : DcbCommand)
    → is_message c ≡ true
    → run_command device s c device ≡ changed c (s device)
here device s c m = rw (m, beq_refl device) refl

elsewhere :
    (device other : Str) (s : Tables) (c : DcbCommand)
    → is_message c ≡ true
    → device ≢ other
    → run_command device s c other ≡ s other
elsewhere device other s c m h = rw (m, ne→beq device other h) refl

abbrev kernel : DcbTool
kernel = record {
  State = Tables;
  run = run_command;
  get_dcbx = λ s device. 1;
  app_list = λ s device. dedup (s device);
  app_list-NodupB = λ s device. dedup-NodupB (s device);
  run_set = λ s device app other.
      rw (here device s (set_ieee_app app) refl, contains-dedup, contains-dedup)
        (unfold contains in refl);
  run_del = λ s device app other.
      rw (here device s (del_ieee_app app) refl, contains-dedup, contains-dedup)
        (contains-select (λ b. not (app == b)) (s device) other);
  run_dcbx = λ s device mode other. rw (here device s (set_dcbx mode) refl) refl;
  run_elsewhere = λ s device other c m h. rw (elsewhere device other s c m h) refl;
}

abbrev app1 : DcbApp
app1 = record { selector = 5; priority = 1; protocol = 8 }

abbrev app2 : DcbApp
app2 = record { selector = 5; priority = 2; protocol = 16 }

abbrev app3 : DcbApp
app3 = record { selector = 1; priority = 2; protocol = 16 }

abbrev dcb1 : Dcb
dcb1 = record {
  device = str "p1";
  pci_addr = some (str "0000:81:00.0");
  driver = some (str "mlx5_core");
  dscp2prio = app1 ∷ [];
}

abbrev dcb_map : List DcbEntry
dcb_map = entry_of dcb1 ∷ []

abbrev before : Tables
before device = if device == str "p1" then app2 ∷ app3 ∷ [] else []

-- A card whose firmware is left alone
abbrev entry2 : DcbEntry
entry2 = record {
  device = some (str "p2");
  pci_addr = some (str "0000:82:00.0");
  driver = some (str "bnxt_en");
  dscp2prio = app2 ∷ [];
}

abbrev left_alone : List DcbEntry
left_alone = record entry2 { device = some (str "p1"); dscp2prio = app1 ∷ [] } ∷ []

-- The entry that is not asked for goes, the one under another selector stays.
set_alone : (apply kernel left_alone before).0 (str "p1") ≡ app1 ∷ app3 ∷ []
unfolding apply apply_entry apply_table reset_firmware run_all table_commands table_of
    compare_tables del_app_entry set_values values dedup contains select contains_str starts_with
    str list_beq
set_alone = refl

find-new_dcb_map_example :
    find (has_pci (some (str "0000:81:00.0"))) (new_dcb_map dcb_map [])
    ≡ some (record {
      device = some (str "p1");
      pci_addr = some (str "0000:81:00.0");
      driver = some (str "mlx5_core");
      dscp2prio = [];
    })
unfolding find str list_beq option_beq
find-new_dcb_map_example = find-new_dcb_map dcb_map [] (some (str "0000:81:00.0"))

abbrev message : ℕ → ℕ → NetlinkMessage ℕ
message seq kind = record { sequence_number = seq; msg_type = kind; payload = 7 }

send_and_receive-foreign_example :
    send_and_receive 4 (message 1 78 ∷ message 2 78 ∷ message 3 78 ∷ message 4 78 ∷ [])
    ≡ received (message 3 78)
send_and_receive-foreign_example =
    send_and_receive-foreign 4 (message 1 78) (message 2 78) (message 3 78) (message 4 78 ∷ []) refl
      refl refl
