-- ===== src/Ifcfg/Common/Static.antt =====
-- What is read back of the addresses that `_add_common` of os_net_config/impl_ifcfg.py writes.
use os_net_config.Base.{
  ℕ, suc, ◌≡◌, refl, sym, ap, ◌∙◌, inl, inr, Bool, true, false, ◌&&◌, ◌||◌, not, Option, none, some,
  List, [], ◌∷◌, ◌++◌, arith, if◌then◌else◌, Bool-cases, ◌==◌, beq→eq, list_beq, nat_eq, str_eq,
  option_str_eq, all, all-weaken, contains,
}
use os_net_config.Base.Str.{Str, str, starts_with}
use os_net_config.Objects.{Address, BaseOpts, v4_addresses, v6_addresses}
use os_net_config.Ifcfg.Common.{Line, has_items}
use os_net_config.Base.Str.Laws.{decimal-cons}
use os_net_config.Ifcfg.Common.Tail.{static_lines, address_lines, v6_lines}
use os_net_config.Ifcfg.Common.Values.{
  unquoted, value_of, keys_of, value_of-append, value_of_absent,
}
use os_net_config.Ifcfg.Common.Keys.{is_other, are_others, all_keys-append, v6_lines-are_others}

-- A key that a test of all keys excludes
absent_key :
    (test : Str → Bool) (xs : List Str) (key : Str)
    → all test xs ≡ true
    → test key ≡ false
    → contains xs key ≡ false
unfolding all contains
absent_key test [] key h k = refl
absent_key test (x ∷ xs) key h k = elim (Bool-cases (x == key)) [
  | inl same ↦ absurd (let e : test x ≡ test key = ap test (beq→eq x key same) in ground arith)
  | inr other ↦ rw other (absent_key test xs key (ground arith) k)
]

pub value_of-others :
    (lines : List Line) (key : Str) (found : Option Str)
    → are_others lines ≡ true
    → is_other key ≡ false
    → value_of lines key found ≡ found
value_of-others lines key found h k =
    value_of_absent lines key found (absent_key is_other (keys_of lines) key h k)

-- The keys of the lines of static addresses
abbrev pub is_static : Str → Bool
is_static key = starts_with key (str "IPADDR") || starts_with key (str "NETMASK") || is_other key

static_address_lines :
    (i : ℕ) (addresses : List Address) → all is_static (keys_of (address_lines i addresses)) ≡ true
unfolding address_lines keys_of all starts_with str
static_address_lines i [] = refl
static_address_lines i (a ∷ addresses) = static_address_lines (suc i) addresses

-- The addresses behind the first one have keys of their own.
abbrev is_later : Str → Bool
is_later key = not (key == str "IPADDR") && not (key == str "NETMASK")

later_address_lines :
    (i : ℕ) (addresses : List Address)
    → all is_later (keys_of (address_lines (suc i) addresses)) ≡ true
unfolding address_lines keys_of all list_beq str
later_address_lines i [] = refl
later_address_lines i (a ∷ addresses) =
    let (c, s, e) = decimal-cons (suc i) in rw (e) (later_address_lines (suc i) addresses)

static_lines-is_static : (b : BaseOpts) → all is_static (keys_of (static_lines b)) ≡ true
unfolding static_lines
static_lines-is_static b =
    all_keys-append is_static
      ((b.use_dhcpv6, str "DHCPV6C", str "yes")
        ∷ (not b.use_dhcpv6 && has_items (v4_addresses b), str "BOOTPROTO", str "static")
        ∷ [])
      _ (unfold keys_of all contains str list_beq starts_with in refl) (branches b.use_dhcpv6)
  where
    branches :
        (dhcpv6 : Bool)
        → all is_static (
            keys_of (
              if dhcpv6 then [] else address_lines 0 (v4_addresses b) ++ v6_lines (v6_addresses b)))
          ≡ true
    branches true = unfold keys_of all in refl
    branches false =
        all_keys-append is_static (address_lines 0 (v4_addresses b)) _
          (static_address_lines 0 (v4_addresses b))
          (all-weaken is_other is_static _ (λ k h. ground arith)
            (v6_lines-are_others (v6_addresses b)))

-- The first IPv4 address, which is written unless the object uses DHCPv6
abbrev pub first_address : BaseOpts → Option Address
first_address b =
    if b.use_dhcpv6 then none else elim (v4_addresses b) [ [] ↦ none | a ∷ addresses ↦ some a ]

abbrev pub address_value : (Address → Str) → Option Address → Option Str
address_value field none = none
address_value field (some a) = some (unquoted (field a))

-- Neither the later addresses nor those of IPv6 change what the first one says.
later_values :
    (addresses v6 : List Address) (key : Str) (found : Option Str)
    → is_later key ≡ false
    → is_other key ≡ false
    → value_of (address_lines 1 addresses ++ v6_lines v6) key found ≡ found
later_values addresses v6 key found later other =
    value_of-append (address_lines 1 addresses) (v6_lines v6) key found
    ∙ value_of-others (v6_lines v6) key (value_of (address_lines 1 addresses) key found)
        (v6_lines-are_others v6) other
    ∙ value_of_absent (address_lines 1 addresses) key found
        (absent_key is_later _ key (later_address_lines 0 addresses) later)

first_of : List Address → Option Address
first_of [] = none
first_of (a ∷ addresses) = some a

first_value-ipaddr :
    (addresses v6 : List Address)
    → value_of (address_lines 0 addresses ++ v6_lines v6) (str "IPADDR") none
      ≡ address_value (λ a. a.ip) (first_of addresses)
unfolding address_lines value_of list_beq str first_of
first_value-ipaddr [] v6 =
    value_of-others (v6_lines v6) (str "IPADDR") none (v6_lines-are_others v6)
      (unfold contains in refl)
first_value-ipaddr (a ∷ addresses) v6 =
    later_values addresses v6 (str "IPADDR") (some (unquoted a.ip)) refl (unfold contains in refl)

first_value-netmask :
    (addresses v6 : List Address)
    → value_of (address_lines 0 addresses ++ v6_lines v6) (str "NETMASK") none
      ≡ address_value (λ a. a.netmask) (first_of addresses)
unfolding address_lines value_of list_beq str first_of
first_value-netmask [] v6 =
    value_of-others (v6_lines v6) (str "NETMASK") none (v6_lines-are_others v6)
      (unfold contains in refl)
first_value-netmask (a ∷ addresses) v6 =
    later_values addresses v6 (str "NETMASK") (some (unquoted a.netmask)) refl
      (unfold contains in refl)

module _ (b : BaseOpts) where
  first_address-first_of :
      first_address b ≡ (if b.use_dhcpv6 then none else first_of (v4_addresses b))
  first_address-first_of = by_addresses b.use_dhcpv6 (v4_addresses b)
    where
      by_addresses :
          (dhcpv6 : Bool) (addresses : List Address)
          → (if dhcpv6 then none else elim addresses [ [] ↦ none | a ∷ l ↦ some a ])
            ≡ (if dhcpv6 then none else first_of addresses)
      by_addresses true addresses = refl
      by_addresses false [] = unfold first_of in refl
      by_addresses false (a ∷ l) = unfold first_of in refl

  static_value :
      (field : Address → Str) (key : Str)
      → value_of (static_lines b) key none
        ≡ value_of
            (if b.use_dhcpv6
              then []
              else address_lines 0 (v4_addresses b) ++ v6_lines (v6_addresses b))
            key
            none
      → value_of (address_lines 0 (v4_addresses b) ++ v6_lines (v6_addresses b)) key none
        ≡ address_value field (first_of (v4_addresses b))
      → value_of (static_lines b) key none ≡ address_value field (first_address b)
  static_value field key here first =
      here ∙ branches b.use_dhcpv6 ∙ sym (ap (address_value field) first_address-first_of)
    where
      branches :
          (dhcpv6 : Bool)
          → value_of
              (if dhcpv6 then [] else address_lines 0 (v4_addresses b) ++ v6_lines (v6_addresses b))
              key
              none
            ≡ address_value field (if dhcpv6 then none else first_of (v4_addresses b))
      branches true = unfold value_of in refl
      branches false = first

  pub value_of-ipaddr :
      value_of (static_lines b) (str "IPADDR") none ≡ address_value (λ a. a.ip) (first_address b)
  value_of-ipaddr =
      static_value (λ a. a.ip) (str "IPADDR") (unfold static_lines value_of list_beq str in refl)
        (first_value-ipaddr (v4_addresses b) (v6_addresses b))

  pub value_of-netmask :
      value_of (static_lines b) (str "NETMASK") none
      ≡ address_value (λ a. a.netmask) (first_address b)
  value_of-netmask =
      static_value (λ a. a.netmask) (str "NETMASK")
        (unfold static_lines value_of list_beq str in refl)
        (first_value-netmask (v4_addresses b) (v6_addresses b))

  pub static_absent :
      (key : Str) (found : Option Str)
      → is_static key ≡ false
      → value_of (static_lines b) key found ≡ found
  static_absent key found h =
      value_of_absent (static_lines b) key found
        (absent_key is_static _ key (static_lines-is_static b) h)
