-- ===== src/Ifcfg/Common/Mtu.antt =====
-- A change of the MTU alone, between two files that `_add_common` of
-- os_net_config/impl_ifcfg.py writes.
pub mod Command
use os_net_config.Base.{
  ℕ, zero, suc, ◌+◌, ◌-◌, ◌*◌, ◌/◌, ◌%◌, ◌≤◌, ◌<◌, String, ◌≡◌, refl, sym, ap, ◌∙◌, subst, ◌≢◌, ◌↔◌,
  ◌⊎◌, inl, inr, Bool, true, false, ◌&&◌, ◌||◌, not, Option, none, some, List, [], ◌∷◌, ◌++◌, map,
  arith, if◌then◌else◌, ltb, leb, nat_beq, nat_beq_iff, leb→le, Bool-cases, Option-cases, is_some,
  or_default, Bool-ext, ◌==◌, beq_refl, beq→eq, ne→beq, beq→ne, beq_sym, list_beq, list_beq_iff,
  option_beq, option_beq_iff, nat_eq, str_eq, option_str_eq, Eq, length, length-append, get_elem?,
  take, select, any, all, all-append, all-weaken, All, contains, contains-append, contains-select,
  any_iff, NodupB, find, change_first, find-change_first, find-change_first_other, find-test,
  find-change_first_on, find-change_first_on_other, All-map, find-All,
}
use os_net_config.Base.Str.{
  Str, str, newline, starts_with, contains_str, push_first, split, partition, lstrip, strip,
  is_space, is_digit, isdigit, upper, join, int_onto, int, digits_onto, decimal,
}
use os_net_config.Base.Dict.{Dict, get}
use os_net_config.Objects.{
  Address, BaseOpts, Kind, Domain, domain_text, domain_list, v4_addresses, v6_addresses, interface,
  vlan, ivs_interface, ovs_interface, nfvswitch_internal, ovs_bridge, ovs_user_bridge, linux_bridge,
  ivs_bridge, nfvswitch_bridge, linux_team, linux_bond, ovs_bond, ovs_tunnel, ovs_patch_port,
  ib_interface, ib_child_interface, sriov_vf, sriov_pf, linux_tap,
}
use os_net_config.Ifcfg.Parse.Print.{print_ifcfg}
use os_net_config.Ifcfg.Common.{
  Line, written, given, has_items, yes_no, quoted, is_hotplug, first_lines, kind_lines,
  master_lines, port_lines,
}
use os_net_config.Ifcfg.Parse.{parse_ifcfg, Files, get_file_data}
use os_net_config.Ifcfg.Changes.{permitted_changes, ifcfg_requires_restart}
use os_net_config.Ifcfg.Changes.Laws.{change_of}
use os_net_config.Ifcfg.Changes.Restart.{Differs, ForcesRestart, ifcfg_requires_restart_iff}
use os_net_config.Ifcfg.Common.Types.{type_lines, ovs_extra_of}
use os_net_config.Ifcfg.Common.Tail.{has_mtu, has_v6, mtu_lines, static_lines, last_lines}
use os_net_config.Ifcfg.Common.Text.{head_lines, tail_lines, lines_of, ifcfg_text}
use os_net_config.Ifcfg.Common.Values.{
  value_of, value_of-append, AreOneLine, get-parse_ifcfg-ifcfg_text,
}
use os_net_config.Ifcfg.Common.Keys.{lines_of-keys}
use os_net_config.Ifcfg.Common.Read.{AreOneLineValues, one_line_keys}

-- The object with another MTU
abbrev pub with_mtu : BaseOpts → ℕ → BaseOpts
with_mtu b m = record b { mtu = m }

module _ (b : BaseOpts) (m : ℕ) where
  kind_lines-with_mtu : (k : Kind) → kind_lines (with_mtu b m) k ≡ kind_lines b k
  unfolding kind_lines
  kind_lines-with_mtu (vlan vlan_id device ovs_options ovs_extra) = refl
  kind_lines-with_mtu k = refl

  port_lines-with_mtu : (k : Kind) → port_lines (with_mtu b m) k ≡ port_lines b k
  unfolding port_lines
  port_lines-with_mtu (vlan vlan_id device ovs_options ovs_extra) = refl
  port_lines-with_mtu k = refl

  type_lines-with_mtu :
      (k : Kind) (members : List Str) (mac : Str)
      → type_lines (with_mtu b m) k members mac ≡ type_lines b k members mac
  unfolding type_lines
  type_lines-with_mtu (ovs_bridge ovs_options ovs_extra) members mac = refl
  type_lines-with_mtu k members mac = refl

  ovs_extra_of-with_mtu :
      (k : Kind) (mac : Str) → ovs_extra_of (with_mtu b m) k mac ≡ ovs_extra_of b k mac
  unfolding ovs_extra_of
  ovs_extra_of-with_mtu (vlan vlan_id device ovs_options ovs_extra) mac = refl
  ovs_extra_of-with_mtu k mac = refl

  head_lines-with_mtu :
      (k : Kind) (members : List Str) (mac : Str)
      → head_lines (with_mtu b m) k members mac ≡ head_lines b k members mac
  unfolding head_lines first_lines master_lines
  head_lines-with_mtu k members mac =
      rw (kind_lines-with_mtu k, port_lines-with_mtu k, type_lines-with_mtu k members mac)

  tail_lines-with_mtu :
      (k : Kind) (mac : Str) → tail_lines (with_mtu b m) k mac ≡ tail_lines b k mac
  unfolding tail_lines static_lines last_lines v4_addresses v6_addresses
  tail_lines-with_mtu k mac = rw (ovs_extra_of-with_mtu k mac)

-- Without IPv6 only the line of the MTU depends on it.
mtu_lines-other :
    (b : BaseOpts) (key : Str) (found : Option Str)
    → has_v6 b ≡ false
    → (str "MTU" == key) ≡ false
    → value_of (mtu_lines b) key found ≡ found
unfolding mtu_lines value_of
mtu_lines-other b key found v6 h = rw h (ground arith)

mtu_permitted : contains permitted_changes (str "MTU") ≡ true
unfolding contains permitted_changes list_beq str
mtu_permitted = refl

pub change_of_self : (o : Option Str) → change_of o o ≡ none
change_of_self none = refl
change_of_self (some v) = rw (beq_refl (upper v))

module _ (b : BaseOpts) (m : ℕ) (k : Kind) (members : List Str) (mac : Str)
    (v4_only : has_v6 b ≡ false) where
  v4_only-with_mtu : has_v6 (with_mtu b m) ≡ false
  v4_only-with_mtu = unfold v6_addresses in v4_only

  value_of-with_mtu :
      (key : Str)
      → (str "MTU" == key) ≡ false
      → value_of (lines_of (with_mtu b m) k members mac) key none
        ≡ value_of (lines_of b k members mac) key none
  unfolding lines_of
  value_of-with_mtu key h =
      around (with_mtu b m) v4_only-with_mtu
      ∙ ap (λ l. value_of (tail_lines (with_mtu b m) k mac) key (value_of l key none))
          (head_lines-with_mtu b m k members mac)
      ∙ ap (λ l. value_of l key (value_of (head_lines b k members mac) key none))
          (tail_lines-with_mtu b m k mac)
      ∙ sym (around b v4_only)
    where
      around :
          (c : BaseOpts)
          → has_v6 c ≡ false
          → value_of (head_lines c k members mac ++ (mtu_lines c ++ tail_lines c k mac)) key none
            ≡ value_of (tail_lines c k mac) key (value_of (head_lines c k members mac) key none)
      around c v6 =
          value_of-append (head_lines c k members mac) (mtu_lines c ++ tail_lines c k mac) key none
          ∙ value_of-append (mtu_lines c) (tail_lines c k mac) key
              (value_of (head_lines c k members mac) key none)
          ∙ ap (value_of (tail_lines c k mac) key)
              (mtu_lines-other c key (value_of (head_lines c k members mac) key none) v6 h)

  pub no_other_change :
      (key : Str)
      → AreOneLineValues (lines_of b k members mac)
      → AreOneLineValues (lines_of (with_mtu b m) k members mac)
      → (str "MTU" == key) ≡ false
      → change_of
          (get (parse_ifcfg (ifcfg_text (lines_of b k members mac))) key)
          (get (parse_ifcfg (ifcfg_text (lines_of (with_mtu b m) k members mac))) key)
        ≡ none
  no_other_change key one one' h =
      ap (change_of (get (parse_ifcfg (ifcfg_text (lines_of b k members mac))) key)) (
        get-parse_ifcfg-ifcfg_text (lines_of (with_mtu b m) k members mac) key
          (one_line_keys _ (lines_of-keys (with_mtu b m) k members mac) one')
        ∙ value_of-with_mtu key h
        ∙ sym (
            get-parse_ifcfg-ifcfg_text (lines_of b k members mac) key
              (one_line_keys _ (lines_of-keys b k members mac) one)))
      ∙ change_of_self (get (parse_ifcfg (ifcfg_text (lines_of b k members mac))) key)

  pub with_mtu-no_restart :
      (fs : Files) (filename : Str)
      → get_file_data fs filename ≡ ifcfg_text (lines_of b k members mac)
      → AreOneLineValues (lines_of b k members mac)
      → AreOneLineValues (lines_of (with_mtu b m) k members mac)
      → ifcfg_requires_restart fs filename (ifcfg_text (lines_of (with_mtu b m) k members mac))
        ≡ false
  with_mtu-no_restart fs filename there one one' =
      elim (Bool-cases
        (ifcfg_requires_restart fs filename (ifcfg_text (lines_of (with_mtu b m) k members mac)))) [
          | inr quiet ↦ quiet
          | inl restarts ↦
              let (key, (differs, forbidden, boot)) =
                (ifcfg_requires_restart_iff fs filename _).0 restarts in
              absurd (elim (Bool-cases (str "MTU" == key)) [
                | inl mtu ↦ cc (
                  mtu_permitted,
                  forbidden,
                  ap (contains permitted_changes) (beq→eq (str "MTU") key mtu),
                )
                | inr other ↦ differs (rw there (no_other_change key one one' other))
              ])
        ]
