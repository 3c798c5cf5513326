-- ===== src/Ifcfg/Common/Keys.antt =====
-- The keys of the lines that `_add_common` of os_net_config/impl_ifcfg.py writes.
use os_net_config.Base.{
  ℕ, zero, suc, ◌≡◌, refl, ap, ◌∙◌, Bool, true, false, ◌&&◌, not, List, [], ◌∷◌, ◌++◌, arith,
  if◌then◌else◌, ◌==◌, list_beq, nat_eq, str_eq, option_str_eq, all, all-append, all-weaken,
  contains,
}
use os_net_config.Base.Str.{Str, str, newline, is_digit}
use os_net_config.Objects.{
  Address, BaseOpts, Kind, Domain, domain_text, domain_list, v4_addresses, v6_addresses, interface,
  vlan, ivs_interface, nfvswitch_internal, ovs_bridge, ib_interface, ib_child_interface,
}
use os_net_config.Ifcfg.Common.{
  Line, given, has_items, quoted, first_lines, kind_lines, master_lines, port_lines,
}
use os_net_config.Ifcfg.Common.Types.{type_lines, ovs_extra_of}
use os_net_config.Ifcfg.Common.Tail.{
  ethtool_opts_of, mtu_lines, static_lines, last_lines, address_lines, v6_lines, num,
}
use os_net_config.Ifcfg.Common.Text.{head_lines, tail_lines, lines_of}
use os_net_config.Ifcfg.Common.Values.{keys_of, keys_of-append}
use os_net_config.Ifcfg.Parse.Print.{IsKey}
use os_net_config.Base.Str.Laws.{contains-decimal}

abbrev pub is_key : Str → Bool
is_key [] = false
is_key (c ∷ k) = not (c == b'#') && (not (contains (c ∷ k) b'=') && not (contains (c ∷ k) newline))

pub is_key→IsKey : (k : Str) → is_key k ≡ true → IsKey k
is_key→IsKey [] h = cc
is_key→IsKey (c ∷ k) h = ground arith

-- The keys that the laws below are about: they have one line each.
abbrev pub read_keys : List Str
read_keys = str "DEVICE" ∷ str "ONBOOT" ∷ str "MTU" ∷ str "IPADDR" ∷ str "NETMASK" ∷ []

-- Keys that can be read, and none of those above.
abbrev pub is_other : Str → Bool
is_other key = is_key key && not (contains read_keys key)

abbrev pub are_others : List Line → Bool
are_others lines = all is_other (keys_of lines)

kind_lines-are_others : (b : BaseOpts) (k : Kind) → are_others (kind_lines b k) ≡ true
unfolding kind_lines keys_of all contains str list_beq
kind_lines-are_others b (vlan vlan_id device ovs_options ovs_extra) = refl
kind_lines-are_others b ivs_interface = refl
kind_lines-are_others b nfvswitch_internal = refl
kind_lines-are_others b (ib_interface ethtool_opts) = refl
kind_lines-are_others b (ib_child_interface parent pkey_id) = refl
kind_lines-are_others b (interface hotplug linkdelay ethtool_opts) = refl
kind_lines-are_others b k = refl

port_lines-are_others : (b : BaseOpts) (k : Kind) → are_others (port_lines b k) ≡ true
unfolding port_lines keys_of all contains str list_beq
port_lines-are_others b (vlan vlan_id device ovs_options ovs_extra) = refl
port_lines-are_others b k = refl

type_lines-are_others :
    (b : BaseOpts) (k : Kind) (members : List Str) (mac : Str)
    → are_others (type_lines b k members mac) ≡ true
unfolding type_lines keys_of all contains str list_beq
type_lines-are_others b (ovs_bridge ovs_options ovs_extra) members mac = refl
type_lines-are_others b k members mac = refl

first_lines-keys :
    (b : BaseOpts) (k : Kind)
    → (all is_key (keys_of (first_lines b k)) ≡ true)
      × (keys_of (first_lines b k)
          ≡ str "DEVICE" ∷ str "ONBOOT" ∷ str "HOTPLUG" ∷ str "NM_CONTROLLED" ∷ str "PEERDNS" ∷ [])
unfolding first_lines keys_of all contains str list_beq
first_lines-keys b k = (refl, refl)

master_lines-are_others : (b : BaseOpts) → are_others (master_lines b) ≡ true
unfolding master_lines keys_of all contains str list_beq
master_lines-are_others b = refl

pub v6_lines-are_others : (addresses : List Address) → are_others (v6_lines addresses) ≡ true
unfolding v6_lines keys_of all contains str list_beq
v6_lines-are_others [] = refl
v6_lines-are_others (first ∷ others) = refl

pub last_lines-are_others :
    (b : BaseOpts) (extra : List Str) → are_others (last_lines b extra) ≡ true
unfolding last_lines keys_of all contains str list_beq
last_lines-are_others b extra = dns b.dns_servers b.domain
  where
    dns :
        (servers : List Str) (domain : Domain)
        → are_others (last_lines (record b { dns_servers = servers; domain = domain }) extra) ≡ true
    dns [] (domain_text d) = refl
    dns [] (domain_list d) = refl
    dns (s ∷ []) (domain_text d) = refl
    dns (s ∷ []) (domain_list d) = refl
    dns (s ∷ r ∷ l) (domain_text d) = refl
    dns (s ∷ r ∷ l) (domain_list d) = refl

mtu_lines-keys : (b : BaseOpts) → all is_key (keys_of (mtu_lines b)) ≡ true
unfolding mtu_lines keys_of all contains str list_beq
mtu_lines-keys b = refl

num-other : (i : ℕ) (c : ℕ) → is_digit c ≡ false → contains (num i) c ≡ false
num-other zero c h = unfold contains in refl
num-other (suc i) c h = contains-decimal (suc i) c h

is_key-num :
    (i : ℕ) → (is_key (str "IPADDR" ++ num i) ≡ true) × (is_key (str "NETMASK" ++ num i) ≡ true)
unfolding contains str
is_key-num i =
    let equals = num-other i b'=' (unfold is_digit in refl) in
    let line_end = num-other i newline (unfold is_digit in refl) in
    (rw (equals, line_end), rw (equals, line_end))

address_lines-keys :
    (i : ℕ) (addresses : List Address) → all is_key (keys_of (address_lines i addresses)) ≡ true
unfolding address_lines keys_of all
address_lines-keys i [] = refl
address_lines-keys i (a ∷ addresses) =
    rw ((is_key-num i).0, (is_key-num i).1) (address_lines-keys (suc i) addresses)

-- A test of the keys of several lines
pub all_keys-append :
    (test : Str → Bool) (xs ys : List Line)
    → all test (keys_of xs) ≡ true
    → all test (keys_of ys) ≡ true
    → all test (keys_of (xs ++ ys)) ≡ true
all_keys-append test xs ys h k =
    ap (all test) (keys_of-append xs ys) ∙ all-append test (keys_of xs) (keys_of ys) ∙ rw (h, k)

others→keys : (lines : List Line) → are_others lines ≡ true → all is_key (keys_of lines) ≡ true
others→keys lines = all-weaken is_other is_key (keys_of lines) (λ k h. ground arith)

-- What stands between the first lines and those of the MTU
abbrev pub middle_lines : BaseOpts → Kind → List Str → Str → List Line
middle_lines b k members mac =
    kind_lines b k
    ++ (master_lines b
        ++ (port_lines b k
            ++ ((given b.linux_bridge_name, str "BRIDGE", b.linux_bridge_name)
                ∷ (type_lines b k members mac
                    ++ ((given (ethtool_opts_of k), str "ETHTOOL_OPTS", quoted (ethtool_opts_of k))
                        ∷ [])))))

one_line-is_other :
    (k : Str) (test : Bool) (v : Str) → is_other k ≡ true → are_others ((test, k, v) ∷ []) ≡ true
unfolding keys_of all
one_line-is_other k test v h = ground arith

pub middle_lines-are_others :
    (b : BaseOpts) (k : Kind) (members : List Str) (mac : Str)
    → are_others (middle_lines b k members mac) ≡ true
middle_lines-are_others b k members mac =
    all_keys-append is_other (kind_lines b k) _ (kind_lines-are_others b k) (
      all_keys-append is_other (master_lines b) _ (master_lines-are_others b) (
        all_keys-append is_other (port_lines b k) _ (port_lines-are_others b k) (
          all_keys-append is_other
            ((given b.linux_bridge_name, str "BRIDGE", b.linux_bridge_name) ∷ []) _
            (one_line-is_other (str "BRIDGE") _ _ (unfold contains str list_beq in refl))
            (all_keys-append is_other (type_lines b k members mac) _
              (type_lines-are_others b k members mac)
              (one_line-is_other (str "ETHTOOL_OPTS") _ _
                (unfold contains str list_beq in refl))))))

static_lines-keys : (b : BaseOpts) → all is_key (keys_of (static_lines b)) ≡ true
unfolding static_lines
static_lines-keys b =
    all_keys-append is_key
      ((b.use_dhcpv6, str "DHCPV6C", str "yes")
        ∷ (not b.use_dhcpv6 && has_items (v4_addresses b), str "BOOTPROTO", str "static")
        ∷ [])
      _ (unfold keys_of all contains str list_beq in refl) (branches b.use_dhcpv6)
  where
    branches :
        (dhcpv6 : Bool)
        → all is_key (
            keys_of (
              if dhcpv6 then [] else address_lines 0 (v4_addresses b) ++ v6_lines (v6_addresses b)))
          ≡ true
    branches true = unfold keys_of all in refl
    branches false =
        all_keys-append is_key (address_lines 0 (v4_addresses b)) _
          (address_lines-keys 0 (v4_addresses b))
          (others→keys _ (v6_lines-are_others (v6_addresses b)))

-- Every key that is written can be read back.
pub lines_of-keys :
    (b : BaseOpts) (k : Kind) (members : List Str) (mac : Str)
    → all is_key (keys_of (lines_of b k members mac)) ≡ true
unfolding lines_of head_lines tail_lines
lines_of-keys b k members mac =
    all_keys-append is_key (first_lines b k ++ middle_lines b k members mac) _
      (all_keys-append is_key (first_lines b k) _ (first_lines-keys b k).0
        (others→keys _ (middle_lines-are_others b k members mac)))
      (all_keys-append is_key (mtu_lines b) _ (mtu_lines-keys b) (
        all_keys-append is_key (static_lines b) _ (static_lines-keys b)
          (others→keys _ (last_lines-are_others b (ovs_extra_of b k mac)))))
