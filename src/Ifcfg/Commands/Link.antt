-- ===== src/Ifcfg/Commands/Link.antt =====
-- A link and its addresses, as the `ip` commands of `iproute2_apply_commands` of
-- os_net_config/impl_ifcfg.py change them.
use os_net_config.Base.{
  ℕ, String, ◌≡◌, refl, ap, ◌∙◌, ◌≢◌, inl, inr, Bool, false, ◌&&◌, ◌||◌, not, Option, none, some,
  List, [], ◌∷◌, ◌++◌, arith, Bool-cases, or_default, ◌==◌, beq_refl, beq→eq, ne→beq, beq→ne,
  nat_eq, str_eq, option_str_eq, true, subst,
}
use os_net_config.Base.Str.{Str, str, upper}
use os_net_config.Base.Dict.{get}
use os_net_config.Ifcfg.Parse.{parse_ifcfg}
use os_net_config.Ifcfg.Changes.{Change, modified, removed, added}
use os_net_config.Ifcfg.Changes.Laws.{change_of}
use os_net_config.Ifcfg.Commands.{
  addr_remove, address_commands, mtu_commands, cidr_of, IpCommand, addr_add, addr_del, addr_flush,
  link_mtu,
}

-- What the program relies on of `ip` and the kernel, by the manual page and ip-sysctl, for one link:
-- `addr add` adds an address with its prefix length, `addr flush` takes all away and `link set mtu`
-- sets the MTU. The address that comes first in its subnet is the primary one of the subnet, and the
-- others there are its secondaries. `addr del` takes an address away, and its secondaries with it,
-- unless `promote_secondaries` is set. None of them does anything else to addresses and MTU.
pub record IpTool : Type 1 where
  pub Link : Type 0
  pub run : Link → IpCommand → Link
  pub has_address : Link → Str → ℕ → Bool
  pub mtu : Link → Str
  pub promote_secondaries : Bool
  pub same_subnet : Str → ℕ → Str → ℕ → Bool
  pub is_secondary : Link → Str → ℕ → Str → ℕ → Bool
  pub run_add :
      (l : Link) (ip : Str) (cidr : ℕ) (dev j : Str) (e : ℕ)
      → has_address (run l (addr_add ip cidr dev)) j e
        ≡ (((ip == j) && (cidr == e)) || has_address l j e)
  pub run_del :
      (l : Link) (ip : Str) (cidr : ℕ) (dev j : Str) (e : ℕ)
      → has_address (run l (addr_del ip cidr dev)) j e ≡ (
          has_address l j e
          && not ((ip == j) && (cidr == e))
          && (promote_secondaries || not (is_secondary l ip cidr j e)))
  pub secondary_subnet :
      (l : Link) (ip : Str) (cidr : ℕ) (j : Str) (e : ℕ)
      → same_subnet ip cidr j e ≡ false
      → is_secondary l ip cidr j e ≡ false
  pub secondary_add :
      (l : Link) (ip : Str) (cidr : ℕ) (dev j : Str) (e : ℕ)
      → ((i : Str) (c : ℕ) → has_address l i c ≡ ((ip == i) && (cidr == c)))
      → ((ip == j) && (cidr == e)) ≡ false
      → same_subnet ip cidr j e ≡ true
      → is_secondary (run l (addr_add j e dev)) ip cidr j e ≡ true
  pub run_flush :
      (l : Link) (dev j : Str) (e : ℕ) → has_address (run l (addr_flush dev)) j e ≡ false
  pub run_mtu :
      (l : Link) (dev m j : Str) (e : ℕ)
      → has_address (run l (link_mtu dev m)) j e ≡ has_address l j e
  pub mtu_add :
      (l : Link) (ip : Str) (cidr : ℕ) (dev : Str) → mtu (run l (addr_add ip cidr dev)) ≡ mtu l
  pub mtu_del :
      (l : Link) (ip : Str) (cidr : ℕ) (dev : Str) → mtu (run l (addr_del ip cidr dev)) ≡ mtu l
  pub mtu_flush : (l : Link) (dev : Str) → mtu (run l (addr_flush dev)) ≡ mtu l
  pub mtu_set : (l : Link) (dev m : Str) → mtu (run l (link_mtu dev m)) ≡ m

abbrev pub value : Str → String → Option Str
value ifcfg_data key = get (parse_ifcfg ifcfg_data) (str key)

-- Whether a file with this IPADDR and this prefix length asks for an address.
abbrev pub asks_for : Option Str → ℕ → Str → ℕ → Bool
asks_for none cidr j e = false
asks_for (some ip) cidr j e = (ip == j) && (cidr == e)

module _ (netmask_bits : Str → ℕ) where
  -- The old file gives a prefix length with its address; what the code takes as unchanged, which
  -- is a matter of upper case, is the same text; and the prefix length changes only with the
  -- address.
  pub record IsPlainChange (old new : Str) : Type 0 where
    pub old_mask : value old "IPADDR" ≢ none → cidr_of netmask_bits (parse_ifcfg old) ≢ 0
    pub same_ip :
        change_of (value old "IPADDR") (value new "IPADDR") ≡ none
        → value old "IPADDR" ≡ value new "IPADDR"
    pub same_mtu :
        change_of (value old "MTU") (value new "MTU") ≡ none → value old "MTU" ≡ value new "MTU"
    pub same_mask :
        change_of (value old "IPADDR") (value new "IPADDR") ≡ none
        → cidr_of netmask_bits (parse_ifcfg old) ≡ cidr_of netmask_bits (parse_ifcfg new)

upper_differs : (v w : Str) → (upper v == upper w) ≡ false → v ≢ w
upper_differs v w h p = beq→ne (upper v) (upper w) h (ap upper p)

pub change_of_self : (o : Option Str) → change_of o o ≡ none
change_of_self none = refl
change_of_self (some v) = rw (beq_refl (upper v))

module _ (T : IpTool) where
  open T use {
    Link, run, has_address, mtu, promote_secondaries, same_subnet, is_secondary, run_add, run_del,
    secondary_subnet, secondary_add, run_flush, run_mtu, mtu_add, mtu_del, mtu_flush, mtu_set,
  }

  unfoldable pub run_all : Link → List IpCommand → Link
  run_all l [] = l
  run_all l (c ∷ cs) = run_all (run l c) cs

  -- The link is as a file describes it. An ifcfg file that names no MTU means 1500.
  pub record IsConfigured (netmask_bits : Str → ℕ) (ifcfg_data : Str) (l : Link) : Type 0 where
    pub addresses :
        (j : Str) (e : ℕ)
        → has_address l j e
          ≡ asks_for (value ifcfg_data "IPADDR") (cidr_of netmask_bits (parse_ifcfg ifcfg_data)) j e
    pub link_mtu : mtu l ≡ or_default (value ifcfg_data "MTU") (str "1500")

  pub run_all-append :
      (cs ds : List IpCommand) (l : Link) → run_all l (cs ++ ds) ≡ run_all (run_all l cs) ds
  unfolding run_all
  run_all-append [] ds l = refl
  run_all-append (c ∷ cs) ds l = run_all-append cs ds (run l c)

  module _ (dev : Str) (l : Link) where
    has_address-remove :
        (k : Link) (ip j : Str) (cidr e : ℕ)
        → cidr ≢ 0
        → has_address (run k (addr_remove ip cidr dev)) j e ≡ (
            has_address k j e
            && not ((ip == j) && (cidr == e))
            && (promote_secondaries || not (is_secondary k ip cidr j e)))
    has_address-remove k ip j cidr e h = rw (ne→beq cidr 0 h) (run_del k ip cidr dev j e)

    mtu-remove : (k : Link) (ip : Str) (cidr : ℕ) → mtu (run k (addr_remove ip cidr dev)) ≡ mtu k
    mtu-remove k ip cidr = elim (Bool-cases (cidr == 0)) [
      | inl zero_bits ↦ rw zero_bits (mtu_flush k dev)
      | inr bits ↦ rw bits (mtu_del k ip cidr dev)
    ]

    -- The new address is no secondary of the old one, or outlives it.
    pub stays :
        (v w : Str) (oc nc : ℕ)
        → (promote_secondaries || not (same_subnet v oc w nc)) ≡ true
        → (promote_secondaries || not (is_secondary (run l (addr_add w nc dev)) v oc w nc)) ≡ true
    stays v w oc nc h = elim (Bool-cases (same_subnet v oc w nc)) [
      | inl same ↦ ground arith
      | inr apart ↦ ground (arith, secondary_subnet (run l (addr_add w nc dev)) v oc w nc apart)
    ]

    pub replaced :
        (v w j : Str) (oc nc e : ℕ) (lives : Str → ℕ → Bool)
        → v ≢ w
        → lives w nc ≡ true
        → ((((w == j) && (nc == e)) || ((v == j) && (oc == e)))
            && not ((v == j) && (oc == e))
            && lives j e)
          ≡ ((w == j) && (nc == e))
    replaced v w j oc nc e lives differ alive = elim (Bool-cases ((w == j) && (nc == e))) [
      | inl new ↦
          let alive_here : lives j e ≡ true =
            subst (λ i. lives i e ≡ true) (beq→eq w j (ground arith))
              (subst (λ c. lives w c ≡ true) (beq→eq nc e (ground arith)) alive) in
          ground (arith, alive_here, beq→eq v j, beq→eq w j, differ)
      | inr other ↦ ground arith
    ]

    purged :
        (v w j : Str) (oc nc e : ℕ) (goes : Str → ℕ → Bool)
        → promote_secondaries ≡ false
        → goes w nc ≡ true
        → ((((w == j) && (nc == e)) || ((v == j) && (oc == e)))
            && not ((v == j) && (oc == e))
            && (promote_secondaries || not (goes j e)))
          ≡ false
    purged v w j oc nc e goes off gone = elim (Bool-cases ((w == j) && (nc == e))) [
      | inl new ↦
          let gone_here : goes j e ≡ true =
            subst (λ i. goes i e ≡ true) (beq→eq w j (ground arith))
              (subst (λ c. goes w c ≡ true) (beq→eq nc e (ground arith)) gone) in
          ground (arith, gone_here, off)
      | inr other ↦ ground arith
    ]

    pub has_address-address_commands :
        (o n : Option Str) (oc nc : ℕ)
        → ((j : Str) (e : ℕ) → has_address l j e ≡ asks_for o oc j e)
        → (o ≢ none → oc ≢ 0)
        → (change_of o n ≡ none → o ≡ n)
        → (change_of o n ≡ none → oc ≡ nc)
        → (change_of o n ≡ some modified
            → (promote_secondaries || not (same_subnet (or_default o []) oc (or_default n []) nc))
              ≡ true)
        → (j : Str) (e : ℕ)
        → has_address
            (run_all l
              (address_commands (change_of o n) dev (or_default o []) oc (or_default n []) nc))
            j
            e
          ≡ asks_for n nc j e
    unfolding run_all address_commands
    has_address-address_commands none none oc nc h m p q apart j e = h j e
    has_address-address_commands none (some w) oc nc h m p q apart j e =
        run_add l w nc dev j e ∙ rw (h j e) (ground arith)
    has_address-address_commands (some v) none oc nc h m p q apart j e =
        has_address-remove l v j oc e (m (λ x. cc)) ∙ rw (h j e) (ground arith)
    has_address-address_commands (some v) (some w) oc nc h m p q apart j e =
        elim (Bool-cases (upper v == upper w)) [
          | inl same ↦ rw same (ground (arith, h j e, p (rw same), q (rw same)))
          | inr differ ↦ rw differ (
              has_address-remove (run l (addr_add w nc dev)) v j oc e (m (λ x. cc))
              ∙ rw (run_add l w nc dev j e, h j e)
                  (replaced v w j oc nc e
                    (λ i c.
                      promote_secondaries
                      || not (is_secondary (run l (addr_add w nc dev)) v oc i c))
                    (upper_differs v w differ) (stays v w oc nc (apart (rw differ)))))
        ]

    -- A new address in the subnet of the only old one goes with it.
    pub none_left :
        (o n : Option Str) (oc nc : ℕ)
        → ((j : Str) (e : ℕ) → has_address l j e ≡ asks_for o oc j e)
        → change_of o n ≡ some modified
        → oc ≢ 0
        → promote_secondaries ≡ false
        → same_subnet (or_default o []) oc (or_default n []) nc ≡ true
        → (j : Str) (e : ℕ)
        → has_address
            (run_all l
              (address_commands (some modified) dev (or_default o []) oc (or_default n []) nc))
            j
            e
          ≡ false
    unfolding run_all address_commands
    none_left none none oc nc h m bits off same j e = absurd cc
    none_left none (some w) oc nc h m bits off same j e = absurd cc
    none_left (some v) none oc nc h m bits off same j e = absurd cc
    none_left (some v) (some w) oc nc h m bits off same j e =
        elim (Bool-cases (upper v == upper w)) [
          | inl alike ↦ absurd (not_modified (rw alike at m))
          | inr differ ↦
              has_address-remove (run l (addr_add w nc dev)) v j oc e bits
              ∙ rw (run_add l w nc dev j e, h j e)
                  (purged v w j oc nc e (is_secondary (run l (addr_add w nc dev)) v oc) off (
                    secondary_add l v oc dev w nc h
                      (ground (arith, beq→eq v w, upper_differs v w differ)) same))
        ]
      where
        not_modified : none ≡ some modified → ⊥
        not_modified e = cc

    pub mtu-address_commands :
        (c : Option Change) (ip jp : Str) (oc nc : ℕ)
        → mtu (run_all l (address_commands c dev ip oc jp nc)) ≡ mtu l
    unfolding run_all address_commands
    mtu-address_commands none ip jp oc nc = refl
    mtu-address_commands (some added) ip jp oc nc = mtu_add l jp nc dev
    mtu-address_commands (some removed) ip jp oc nc = mtu-remove l ip oc
    mtu-address_commands (some modified) ip jp oc nc =
        mtu-remove (run l (addr_add jp nc dev)) ip oc ∙ mtu_add l jp nc dev

    pub has_address-mtu_commands :
        (c : Option Change) (m j : Str) (e : ℕ)
        → has_address (run_all l (mtu_commands c dev m)) j e ≡ has_address l j e
    unfolding run_all mtu_commands
    has_address-mtu_commands none m j e = refl
    has_address-mtu_commands (some added) m j e = run_mtu l dev m j e
    has_address-mtu_commands (some removed) m j e = run_mtu l dev (str "1500") j e
    has_address-mtu_commands (some modified) m j e = run_mtu l dev m j e

    pub mtu-mtu_commands :
        (o n : Option Str)
        → mtu l ≡ or_default o (str "1500")
        → (change_of o n ≡ none → o ≡ n)
        → mtu (run_all l (mtu_commands (change_of o n) dev (or_default n [])))
          ≡ or_default n (str "1500")
    unfolding run_all mtu_commands
    mtu-mtu_commands none none h p = h
    mtu-mtu_commands none (some w) h p = mtu_set l dev w
    mtu-mtu_commands (some v) none h p = mtu_set l dev (str "1500")
    mtu-mtu_commands (some v) (some w) h p = elim (Bool-cases (upper v == upper w)) [
      | inl same ↦ rw same (ground (arith, p (rw same)))
      | inr differ ↦ rw differ (mtu_set l dev w)
    ]
