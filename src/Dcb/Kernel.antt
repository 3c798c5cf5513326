-- ===== src/Dcb/Kernel.antt =====
-- What the messages for one device, in `apply` of os_net_config/dcb_config.py, leave in the tables of
-- the kernel.
use os_net_config.Base.{
  ℕ, ◌≡◌, refl, sym, ap, ◌∙◌, subst, ◌≢◌, false, ◌&&◌, ◌||◌, not, Option, List, [], ◌∷◌, ◌++◌, map,
  arith, ◌==◌, nat_eq, str_eq, option_str_eq, contains, contains-select, NodupB, All, true, select,
}
use os_net_config.Base.Str.{Str}
use os_net_config.Base.Dict.{values}
use os_net_config.Dcb.{
  app_sel_dscp, app_eq, table_of, set_values, del_app_entry, table_commands, run_all,
  reset_firmware, apply_table, DcbApp, DcbCommand, set_dcbx, set_ieee_app, del_ieee_app, DcbTool,
  is_mlx, DcbAppTable, is_message, compare_tables,
}
use os_net_config.Dcb.Tables.{values-table_of, compare_tables-Compared}

abbrev AreMessages : List DcbCommand → Type 0
AreMessages = All (λ c. is_message c ≡ true)

messages-append :
    (cs ds : List DcbCommand) → AreMessages cs → AreMessages ds → AreMessages (cs ++ ds)
messages-append [] ds m n = n
messages-append (c ∷ cs) ds (m, ms) n = (m, messages-append cs ds ms n)

deletions-messages : (apps : List DcbApp) → AreMessages (map del_ieee_app apps)
deletions-messages [] = tt
deletions-messages (app ∷ apps) = (refl, deletions-messages apps)

additions-messages : (apps : List DcbApp) → AreMessages (map set_ieee_app apps)
additions-messages [] = tt
additions-messages (app ∷ apps) = (refl, additions-messages apps)

table_commands-messages :
    (user : List DcbApp) (current : DcbAppTable) → AreMessages (table_commands user current)
unfolding table_commands del_app_entry set_values
table_commands-messages user current =
    let (rest, new_table) = compare_tables user 0 current [] in
    messages-append (map del_ieee_app (select (λ app. app.selector == app_sel_dscp) (values rest)))
      (map set_ieee_app (values new_table))
      (deletions-messages (select (λ app. app.selector == app_sel_dscp) (values rest)))
      (additions-messages (values new_table))

module _ (T : DcbTool) (device : Str) where
  pub run_all-append :
      (s : T.State) (cs ds : List DcbCommand)
      → run_all T device s (cs ++ ds) ≡ run_all T device (run_all T device s cs) ds
  unfolding run_all
  run_all-append s [] ds = refl
  run_all-append s (c ∷ cs) ds = run_all-append (T.run device s c) cs ds

  contains-deletions :
      (s : T.State) (apps : List DcbApp) (a : DcbApp)
      → contains (T.app_list (run_all T device s (map del_ieee_app apps)) device) a
        ≡ (contains (T.app_list s device) a && not (contains apps a))
  unfolding run_all contains
  contains-deletions s [] a = ground arith
  contains-deletions s (app ∷ apps) a =
      contains-deletions (T.run device s (del_ieee_app app)) apps a
      ∙ rw (T.run_del s device app a) (ground arith)

  contains-additions :
      (s : T.State) (apps : List DcbApp) (a : DcbApp)
      → contains (T.app_list (run_all T device s (map set_ieee_app apps)) device) a
        ≡ (contains (T.app_list s device) a || contains apps a)
  unfolding run_all contains
  contains-additions s [] a = ground arith
  contains-additions s (app ∷ apps) a =
      contains-additions (T.run device s (set_ieee_app app)) apps a
      ∙ rw (T.run_set s device app a) (ground arith)

  -- The table of a device after its commands: what the user asks for, and what was there before
  -- under another selector than DSCP.
  contains-table_commands :
      (s : T.State) (user : List DcbApp) (a : DcbApp)
      → contains
          (T.app_list
            (run_all T device s (table_commands user (table_of 0 (T.app_list s device))))
            device)
          a
        ≡ (contains user a
            || (contains (T.app_list s device) a && not (a.selector == app_sel_dscp)))
  unfolding table_commands del_app_entry set_values
  contains-table_commands s user a =
      let table = T.app_list s device in
      let same = values-table_of 0 table in
      let q =
        compare_tables-Compared user 0 (table_of 0 table) []
          (subst NodupB (sym same) (T.app_list-NodupB s device)) in
      rw (run_all-append, contains-additions, contains-deletions, contains-select)
        (ground (arith, q.kept a, q.sound a, q.complete a, ap (λ l. contains l a) same, empty a))
    where
      empty : (a : DcbApp) → contains (values {K = ℕ} {V = DcbApp} []) a ≡ false
      empty a = unfold contains values in refl

  pub contains-apply_table :
      (s : T.State) (user : List DcbApp) (a : DcbApp)
      → contains (T.app_list (apply_table T device user s) device) a ≡ (
          contains user a || (contains (T.app_list s device) a && not (a.selector == app_sel_dscp)))
  unfolding apply_table
  contains-apply_table s user a =
      contains-table_commands (T.run device s (set_dcbx 0)) user a
      ∙ rw (T.run_dcbx s device 0 a) refl

  -- Without a Mellanox driver the firmware is left alone.
  pub reset_firmware-other :
      (pci : Option Str) (driver : Str) (s : T.State)
      → is_mlx driver ≡ false
      → reset_firmware T device pci driver s ≡ s
  unfolding reset_firmware
  reset_firmware-other pci driver s h = rw h refl

  module _ (other : Str) (h : device ≢ other) where
    elsewhere-run_all :
        (s : T.State) (cs : List DcbCommand)
        → All (λ c. is_message c ≡ true) cs
        → T.app_list (run_all T device s cs) other ≡ T.app_list s other
    unfolding run_all
    elsewhere-run_all s [] m = refl
    elsewhere-run_all s (c ∷ cs) (m, ms) =
        elsewhere-run_all (T.run device s c) cs ms ∙ T.run_elsewhere s device other c m h

    pub elsewhere-apply_table :
        (s : T.State) (user : List DcbApp)
        → T.app_list (apply_table T device user s) other ≡ T.app_list s other
    unfolding apply_table
    elsewhere-apply_table s user =
        elsewhere-run_all (T.run device s (set_dcbx 0)) _ (
          table_commands-messages user
            (table_of 0 (T.app_list (T.run device s (set_dcbx 0)) device)))
        ∙ T.run_elsewhere s device other (set_dcbx 0) refl h
