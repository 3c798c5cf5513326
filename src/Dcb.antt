-- ===== src/Dcb.antt =====
-- `DcbApplyConfig.apply` and the table of applications, of os_net_config/dcb_config.py.
use os_net_config.Base.{
  ℕ, zero, suc, ◌+◌, ◌-◌, ◌*◌, ◌/◌, ◌%◌, ◌≤◌, ◌<◌, String, ◌≡◌, refl, sym, ap, ◌∙◌, subst, ◌≢◌, ◌↔◌,
  ◌⊎◌, inl, inr, Bool, true, false, ◌&&◌, ◌||◌, not, Option, none, some, List, [], ◌∷◌, ◌++◌, map,
  arith, if◌then◌else◌, ltb, leb, nat_beq, nat_beq_iff, leb→le, Bool-cases, Option-cases, is_some,
  or_default, Bool-ext, ◌==◌, beq_refl, beq→eq, ne→beq, beq→ne, beq_sym, list_beq, list_beq_iff,
  option_beq, option_beq_iff, nat_eq, str_eq, option_str_eq, Eq, length, length-append, get_elem?,
  select, any, all, All, contains, contains-append, contains-select, any_iff, NodupB,
}
use os_net_config.Base.Str.{
  Str, str, newline, starts_with, contains_str, push_first, split, partition, lstrip, strip,
  is_space, is_digit, isdigit, upper, join, int_onto, int, digits_onto, decimal,
}
use os_net_config.Base.Dict.{
  Dict, keys, values, get, has, put, get-put, has-put, has-eq-is_some, contains-keys, dict_laws,
}
pub mod Netlink
pub mod Map
pub mod Tables
pub mod Settles
pub mod Kernel

-- `DcbApp`
pub record DcbApp : Type 0 where
  pub selector : ℕ
  pub priority : ℕ
  pub protocol : ℕ

-- `IEEE_8021QAZ_APP_SEL_DSCP`
abbrev pub app_sel_dscp : ℕ
app_sel_dscp = 5

-- `DcbApp.is_equal`
abbrev pub is_equal : DcbApp → DcbApp → Bool
is_equal a b =
    (a.selector == b.selector) && (a.priority == b.priority) && (a.protocol == b.protocol)

pub is_equal_iff : (a b : DcbApp) → (is_equal a b ≡ true) ↔ (a ≡ b)
is_equal_iff a b = ground arith

instance abbrev pub app_eq : Eq DcbApp
app_eq = record { beq = is_equal; beq_iff = is_equal_iff }

-- `DcbAppTable`: the applications by their index.
abbrev pub DcbAppTable : Type 0
DcbAppTable = Dict ℕ DcbApp

-- The table that `get_ieee_app_table` makes of a reply, from index `i` on.
unfoldable pub table_of : ℕ → List DcbApp → DcbAppTable
table_of i [] = []
table_of i (app ∷ apps) = (i, app) ∷ table_of (suc i) apps

-- The inner loop of `apply`: the first equal entry is popped; `none` is the branch `else`.
unfoldable pub pop_equal : DcbApp → DcbAppTable → Option DcbAppTable
pop_equal app [] = none
pop_equal app ((key, entry) ∷ table) =
    if is_equal app entry
    then some table
    else elim (pop_equal app table) [ none ↦ none | some rest ↦ some ((key, entry) ∷ rest) ]

-- The outer loop: the entries that the user asks for are popped from the current table or go to
-- the table of additions, at index `i`.
unfoldable pub compare_tables :
    List DcbApp → ℕ → DcbAppTable → DcbAppTable → DcbAppTable × DcbAppTable
unfolding pop_equal
compare_tables [] i current additions = (current, additions)
compare_tables (app ∷ user) i current additions = elim (pop_equal app current) [
  | none ↦ compare_tables user (suc i) current (additions ++ ((i, app) ∷ []))
  | some rest ↦ compare_tables user i rest additions
]

-- What `apply` does to a device.
pub data DcbCommand : Type 0 where
  mstconfig : Option Str → DcbCommand
  mstfwreset : Option Str → DcbCommand
  set_dcbx : ℕ → DcbCommand
  set_ieee_app : DcbApp → DcbCommand
  del_ieee_app : DcbApp → DcbCommand

-- `DcbAppTable.set_values`
unfoldable pub set_values : DcbAppTable → List DcbCommand
set_values table = map set_ieee_app (values table)

-- `DcbAppTable.del_app_entry`
unfoldable pub del_app_entry : DcbAppTable → ℕ → List DcbCommand
del_app_entry table selector =
    map del_ieee_app (select (λ app. app.selector == selector) (values table))

-- `DcbAppTable.count_app_selector`
unfoldable pub count_app_selector : DcbAppTable → ℕ → ℕ
count_app_selector [] selector = 0
count_app_selector ((key, app) ∷ table) selector =
    let count = count_app_selector table selector in
    if app.selector == selector then suc count else count

-- The commands that bring the table of a device to what the user asks for.
unfoldable pub table_commands : List DcbApp → DcbAppTable → List DcbCommand
table_commands user current =
    let (rest, additions) = compare_tables user 0 current [] in
    del_app_entry rest app_sel_dscp ++ set_values additions

-- An entry of the DCB map. `device` is `none` where the key is missing.
pub record DcbEntry : Type 0 where
  pub device : Option Str
  pub pci_addr : Option Str
  pub driver : Option Str
  pub dscp2prio : List DcbApp

-- Whether a command is a netlink message. The others are programs for the firmware.
abbrev pub is_message : DcbCommand → Bool
is_message (mstconfig pci) = false
is_message (mstfwreset pci) = false
is_message c = true

-- `'mlx' in driver`
abbrev pub is_mlx : Str → Bool
is_mlx driver = contains_str driver (str "mlx")

-- What the program relies on of the kernel: the IEEE_SET message adds an application to the table
-- of the device, IEEE_DEL takes it out, the message with the mode changes no table, and no message
-- touches another device. A read gives each entry once. Of the programs that configure and reset the
-- firmware, nothing is known: any table may be another one behind them.
pub record DcbTool : Type 1 where
  pub State : Type 0
  pub run : Str → State → DcbCommand → State
  pub get_dcbx : State → Str → ℕ
  pub app_list : State → Str → List DcbApp
  pub app_list-NodupB : (s : State) (device : Str) → NodupB (app_list s device)
  pub run_set :
      (s : State) (device : Str) (app other : DcbApp)
      → contains (app_list (run device s (set_ieee_app app)) device) other
        ≡ ((app == other) || contains (app_list s device) other)
  pub run_del :
      (s : State) (device : Str) (app other : DcbApp)
      → contains (app_list (run device s (del_ieee_app app)) device) other
        ≡ (contains (app_list s device) other && not (app == other))
  pub run_dcbx :
      (s : State) (device : Str) (mode : ℕ) (other : DcbApp)
      → contains (app_list (run device s (set_dcbx mode)) device) other
        ≡ contains (app_list s device) other
  pub run_elsewhere :
      (s : State) (device other : Str) (c : DcbCommand)
      → is_message c ≡ true
      → device ≢ other
      → app_list (run device s c) other ≡ app_list s other

module _ (T : DcbTool) where
  unfoldable pub run_all : Str → T.State → List DcbCommand → T.State
  run_all device s [] = s
  run_all device s (c ∷ cs) = run_all device (T.run device s c) cs

  -- `if 'mlx' in cfg['driver'] and dcbx_mode != 0` of a driver that is known.
  unfoldable pub reset_firmware : Str → Option Str → Str → T.State → T.State
  reset_firmware device pci driver s =
      if is_mlx driver && not (T.get_dcbx s device % 2 == 0)
      then T.run device (T.run device s (mstconfig pci)) (mstfwreset pci)
      else s

  -- The rest of the loop's body, from `set_dcbx` on.
  unfoldable pub apply_table : Str → List DcbApp → T.State → T.State
  apply_table device user s =
      let t = T.run device s (set_dcbx 0) in
      run_all device t (table_commands user (table_of 0 (T.app_list t device)))

  -- The body of the loop of `apply`. The second component says that the `in` of an unknown driver
  -- raised a TypeError.
  unfoldable pub apply_entry : DcbEntry → T.State → T.State × Bool
  apply_entry cfg s = elim cfg.device [
    | none ↦ (s, false)
    | some device ↦ elim cfg.driver [
      | none ↦ (s, true)
      | some driver ↦
          (apply_table device cfg.dscp2prio (reset_firmware device cfg.pci_addr driver s), false)
    ]
  ]

  -- `DcbApplyConfig.apply`
  unfoldable pub apply : List DcbEntry → T.State → T.State × Bool
  apply [] s = (s, false)
  apply (cfg ∷ cfgs) s =
      let (t, raised) = apply_entry cfg s in
      let rest = apply cfgs t in if raised then (t, true) else rest
