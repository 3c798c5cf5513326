-- ===== src/Ifcfg/Common/Mtu/Command.antt =====
-- The command for a change of the MTU alone: `iproute2_apply_commands` of
-- os_net_config/impl_ifcfg.py between two files that `_add_common` writes.
use os_net_config.Base.{
  ℕ, ◌<◌, ◌≡◌, refl, ap, ◌∙◌, ◌≢◌, true, false, none, some, List, [], ◌∷◌, arith, if◌then◌else◌,
  ◌==◌, ne→beq, list_beq, nat_eq, str_eq, option_str_eq,
}
use os_net_config.Base.Str.{Str, str, is_digit, upper, decimal}
use os_net_config.Base.Str.Digits.{upper-decimal, strip-decimal}
use os_net_config.Base.Str.Laws.{decimal-injective}
use os_net_config.Base.Dict.{get}
use os_net_config.Objects.{BaseOpts, Kind}
use os_net_config.Ifcfg.Parse.{is_quote, parse_ifcfg, Files, get_file_data}
use os_net_config.Ifcfg.Commands.{link_mtu, address_commands, mtu_commands, iproute2_apply}
use os_net_config.Ifcfg.Changes.{modified, ifcfg_requires_restart}
use os_net_config.Ifcfg.Changes.Laws.{change_of, get-enumerate_ifcfg_changes}
use os_net_config.Ifcfg.Common.Tail.{has_v6, has_mtu}
use os_net_config.Ifcfg.Common.Text.{lines_of, ifcfg_text}
use os_net_config.Ifcfg.Common.Values.{unquoted}
use os_net_config.Ifcfg.Common.Read.{AreOneLineValues, mtu_value, parse_mtu}
use os_net_config.Ifcfg.Common.Mtu.{with_mtu, no_other_change, with_mtu-no_restart}

digit_no_quote : (c : ℕ) → is_digit c ≡ true → is_quote c ≡ false
unfolding is_digit
digit_no_quote c h = ground arith

unquoted-decimal : (n : ℕ) → unquoted (decimal n) ≡ decimal n
unquoted-decimal n = strip-decimal is_quote digit_no_quote n

mtu_value_pos : (b : BaseOpts) → 0 < b.mtu → mtu_value b ≡ some (decimal b.mtu)
mtu_value_pos b h =
    ap (λ v. if has_mtu b then some v else none) (unquoted-decimal b.mtu) ∙ ground arith

decimal-ne : (m n : ℕ) → m ≢ n → (upper (decimal m) == upper (decimal n)) ≡ false
decimal-ne m n h =
    rw (upper-decimal m, upper-decimal n)
      (ne→beq (decimal m) (decimal n) (λ e. h (decimal-injective m n e)))

-- The commands between two files with the same address, where the MTU is changed.
mtu_only :
    (netmask_bits : Str → ℕ) (fs : Files) (filename dev_name new_data v : Str)
    → change_of
        (get (parse_ifcfg (get_file_data fs filename)) (str "IPADDR"))
        (get (parse_ifcfg new_data) (str "IPADDR"))
      ≡ none
    → change_of
        (get (parse_ifcfg (get_file_data fs filename)) (str "MTU"))
        (get (parse_ifcfg new_data) (str "MTU"))
      ≡ some modified
    → get (parse_ifcfg new_data) (str "MTU") ≡ some v
    → iproute2_apply netmask_bits fs dev_name filename new_data ≡ link_mtu dev_name v ∷ []
unfolding iproute2_apply address_commands mtu_commands
mtu_only netmask_bits fs filename dev_name new_data v address mtu value = rw (
  get-enumerate_ifcfg_changes (get_file_data fs filename) new_data (str "IPADDR") ∙ address,
  get-enumerate_ifcfg_changes (get_file_data fs filename) new_data (str "MTU") ∙ mtu,
  value,
)

mtu-ne-address : (str "MTU" == str "IPADDR") ≡ false
unfolding str list_beq
mtu-ne-address = refl

module _ (b : BaseOpts) (m : ℕ) (k : Kind) (members : List Str) (mac : Str)
    (v4_only : has_v6 b ≡ false) (old : 0 < b.mtu) (new : 0 < m) (differ : b.mtu ≢ m) where
  mtu_change : change_of (mtu_value b) (mtu_value (with_mtu b m)) ≡ some modified
  mtu_change =
      ap (λ o. change_of o (mtu_value (with_mtu b m))) (mtu_value_pos b old)
      ∙ ap (change_of (some (decimal b.mtu))) (mtu_value_pos (with_mtu b m) new)
      ∙ rw (decimal-ne b.mtu m differ)

  -- Where the file of an object is in place and the object is given another MTU, no restart is
  -- required, whatever the class of the object, and the one command is the one that sets the new
  -- MTU. Both MTUs are not 0, the object has no IPv6 (its MTU would be written to a second key),
  -- and no value holds a newline.
  pub with_mtu-in_place :
      (netmask_bits : Str → ℕ) (fs : Files) (filename dev_name : Str)
      → get_file_data fs filename ≡ ifcfg_text (lines_of b k members mac)
      → AreOneLineValues (lines_of b k members mac)
      → AreOneLineValues (lines_of (with_mtu b m) k members mac)
      → (ifcfg_requires_restart fs filename (ifcfg_text (lines_of (with_mtu b m) k members mac))
          ≡ false)
        × (iproute2_apply netmask_bits fs dev_name filename
              (ifcfg_text (lines_of (with_mtu b m) k members mac))
            ≡ link_mtu dev_name (decimal m) ∷ [])
  with_mtu-in_place netmask_bits fs filename dev_name there one one' = (
    with_mtu-no_restart b m k members mac v4_only fs filename there one one',
    mtu_only netmask_bits fs filename dev_name (ifcfg_text (lines_of (with_mtu b m) k members mac))
        (decimal m)
        (rw there
          (no_other_change b m k members mac v4_only (str "IPADDR") one one' mtu-ne-address))
        (rw there (
          rw (parse_mtu b k members mac one, parse_mtu (with_mtu b m) k members mac one')
            mtu_change))
        (parse_mtu (with_mtu b m) k members mac one' ∙ mtu_value_pos (with_mtu b m) new),
  )
