-- ===== src/Ifcfg/Common/Read.antt =====
-- What `parse_ifcfg` reads from the file that `_add_common` of os_net_config/impl_ifcfg.py writes.
use os_net_config.Base.{
  ◌≡◌, refl, ap, ◌∙◌, Bool, true, false, not, Option, none, some, List, [], ◌∷◌, ◌++◌, arith,
  if◌then◌else◌, list_beq, nat_eq, str_eq, option_str_eq, all, All, contains,
}
use os_net_config.Base.Str.{Str, str, newline, starts_with, lstrip, strip, decimal}
use os_net_config.Objects.{BaseOpts, Kind}
use os_net_config.Ifcfg.Common.{Line, yes_no, first_lines}
use os_net_config.Base.Dict.{get}
use os_net_config.Ifcfg.Parse.{parse_ifcfg}
use os_net_config.Ifcfg.Common.Types.{ovs_extra_of}
use os_net_config.Ifcfg.Common.Tail.{has_mtu, mtu_lines, static_lines, last_lines}
use os_net_config.Ifcfg.Common.Text.{
  head_lines, tail_lines, lines_of, ifcfg_text, primary_mac, add_common, add_common_known,
}
use os_net_config.Ifcfg.Common.Values.{
  unquoted, value_of, keys_of, value_of-append, AreOneLine, get-parse_ifcfg-ifcfg_text,
}
use os_net_config.Ifcfg.Common.Keys.{
  is_key, is_key→IsKey, is_other, middle_lines, middle_lines-are_others, last_lines-are_others,
  lines_of-keys,
}
use os_net_config.Ifcfg.Common.Static.{
  value_of-others, is_static, first_address, address_value, value_of-ipaddr, value_of-netmask,
  static_absent,
}

module _ (b : BaseOpts) (k : Kind) (members : List Str) (mac : Str) where
  value_of-lines_of :
      (key : Str)
      → is_other key ≡ false
      → value_of (lines_of b k members mac) key none
        ≡ value_of
            (static_lines b)
            key
            (value_of (mtu_lines b) key (value_of (first_lines b k) key none))
  unfolding lines_of head_lines tail_lines
  value_of-lines_of key h =
      rw
        (
          value_of-append (first_lines b k ++ middle_lines b k members mac)
              (mtu_lines b ++ (static_lines b ++ last_lines b (ovs_extra_of b k mac))) key none,
          value_of-append (first_lines b k) (middle_lines b k members mac) key none,
          value_of-append (mtu_lines b) (static_lines b ++ last_lines b (ovs_extra_of b k mac)) key,
          value_of-append (static_lines b) (last_lines b (ovs_extra_of b k mac)) key,
          value_of-others (middle_lines b k members mac) key (value_of (first_lines b k) key none)
              (middle_lines-are_others b k members mac) h,
        )
        (value_of-others (last_lines b (ovs_extra_of b k mac)) key _
          (last_lines-are_others b (ovs_extra_of b k mac)) h)

-- No value has a newline in it.
abbrev pub AreOneLineValues : List Line → Type 0
AreOneLineValues = All (λ line. contains (line.2) newline ≡ false)

pub are_one_line :
    (lines : List Line)
    → all (λ line. not (contains (line.2) newline)) lines ≡ true
    → AreOneLineValues lines
unfolding all
are_one_line [] h = tt
are_one_line (line ∷ lines) h = (ground arith, are_one_line lines (ground arith))

pub one_line_keys :
    (lines : List Line)
    → all is_key (keys_of lines) ≡ true
    → AreOneLineValues lines
    → AreOneLine lines
unfolding all keys_of
one_line_keys [] h v = tt
one_line_keys ((test, k, value) ∷ lines) h (one, v) =
    ((is_key→IsKey k (ground arith), one), one_line_keys lines (ground arith) v)

-- `ONBOOT` and `MTU`
abbrev pub mtu_value : BaseOpts → Option Str
mtu_value b = if has_mtu b then some (unquoted (decimal b.mtu)) else none

yes_no_value : (test : Bool) → unquoted (yes_no test) ≡ yes_no test
yes_no_value true = unfold strip lstrip str in refl
yes_no_value false = unfold strip lstrip str in refl

onboot_value :
    (b : BaseOpts) (k : Kind)
    → value_of (mtu_lines b) (str "ONBOOT") (value_of (first_lines b k) (str "ONBOOT") none)
      ≡ some (unquoted (yes_no b.onboot))
unfolding value_of mtu_lines first_lines list_beq str
onboot_value b k = refl

module _ (b : BaseOpts) (k : Kind) (members : List Str) (mac : Str)
    (one : AreOneLineValues (lines_of b k members mac)) where
  -- What is read for a key whose lines are the first ones, those of the MTU and of the addresses
  value_read :
      (key : Str)
      → is_other key ≡ false
      → get (parse_ifcfg (ifcfg_text (lines_of b k members mac))) key
        ≡ value_of
            (static_lines b)
            key
            (value_of (mtu_lines b) key (value_of (first_lines b k) key none))
  value_read key h =
      get-parse_ifcfg-ifcfg_text (lines_of b k members mac) key
        (one_line_keys _ (lines_of-keys b k members mac) one)
      ∙ value_of-lines_of b k members mac key h

  early_value :
      (key : Str) (v : Option Str)
      → is_other key ≡ false
      → is_static key ≡ false
      → value_of (mtu_lines b) key (value_of (first_lines b k) key none) ≡ v
      → get (parse_ifcfg (ifcfg_text (lines_of b k members mac))) key ≡ v
  early_value key v h h' e =
      value_read key h
      ∙ static_absent b key (value_of (mtu_lines b) key (value_of (first_lines b k) key none)) h'
      ∙ e

  late_value :
      (key : Str) (v : Option Str)
      → is_other key ≡ false
      → value_of (mtu_lines b) key (value_of (first_lines b k) key none) ≡ none
      → value_of (static_lines b) key none ≡ v
      → get (parse_ifcfg (ifcfg_text (lines_of b k members mac))) key ≡ v
  late_value key v h e e' = value_read key h ∙ ap (value_of (static_lines b) key) e ∙ e'

  pub parse_mtu :
      get (parse_ifcfg (ifcfg_text (lines_of b k members mac))) (str "MTU") ≡ mtu_value b
  parse_mtu =
      early_value (str "MTU") (mtu_value b) (unfold contains str list_beq in refl)
        (unfold contains str list_beq starts_with in refl)
        (unfold value_of mtu_lines first_lines list_beq str in refl)

-- The file of an object of any class is written, and reading it back gives the name of the
-- object, whether it starts on boot, its MTU if it has one, and the address and netmask of its
-- first IPv4 address if it has one and does not use DHCPv6; quotes at the ends of a value are lost.
-- The MAC address of a primary interface has to be known, and no value may hold a newline.
pub parse_ifcfg-add_common :
    (macs : Str → Option Str) (b : BaseOpts) (k : Kind) (members : List Str) (mac : Str)
    → primary_mac macs b k ≡ some mac
    → AreOneLineValues (lines_of b k members mac)
    → (s : Str) × (add_common macs b k members ≡ some s)
      × (get (parse_ifcfg s) (str "DEVICE") ≡ some (unquoted b.name))
      × (get (parse_ifcfg s) (str "ONBOOT") ≡ some (yes_no b.onboot))
      × (get (parse_ifcfg s) (str "MTU") ≡ mtu_value b)
      × (get (parse_ifcfg s) (str "IPADDR") ≡ address_value (λ a. a.ip) (first_address b))
      × (get (parse_ifcfg s) (str "NETMASK") ≡ address_value (λ a. a.netmask) (first_address b))
parse_ifcfg-add_common macs b k members mac known one = (
  ifcfg_text (lines_of b k members mac),
  add_common_known macs b k members mac known,
  early_value b k members mac one (str "DEVICE") _ (unfold contains str list_beq in refl)
      (unfold contains str list_beq starts_with in refl)
      (unfold value_of mtu_lines first_lines list_beq str in refl),
  early_value b k members mac one (str "ONBOOT") _ (unfold contains str list_beq in refl)
      (unfold contains str list_beq starts_with in refl)
      (onboot_value b k ∙ ap some (yes_no_value b.onboot)),
  parse_mtu b k members mac one,
  late_value b k members mac one (str "IPADDR") _ (unfold contains str list_beq in refl)
      (unfold value_of mtu_lines first_lines list_beq str in refl) (value_of-ipaddr b),
  late_value b k members mac one (str "NETMASK") _ (unfold contains str list_beq in refl)
      (unfold value_of mtu_lines first_lines list_beq str in refl) (value_of-netmask b),
)
