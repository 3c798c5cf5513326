-- ===== src/Ifcfg/Commands/Address.antt =====
-- What the `ip` commands for a changed ifcfg file, by `iproute2_apply_commands` of
-- os_net_config/impl_ifcfg.py, leave on the link.
use os_net_config.Base.{
  ℕ, ◌≡◌, refl, ◌∙◌, ◌≢◌, inl, inr, Bool, false, ◌||◌, not, some, [], Bool-cases, or_default, ◌==◌,
  beq→eq, beq→ne, nat_eq, str_eq, option_str_eq, true, ◌⊎◌,
}
use os_net_config.Base.Str.{Str, str}
use os_net_config.Base.Dict.{get}
use os_net_config.Ifcfg.Parse.{Files, get_file_data, parse_ifcfg}
use os_net_config.Ifcfg.Changes.{modified}
use os_net_config.Ifcfg.Changes.Laws.{change_of, get-enumerate_ifcfg_changes}
use os_net_config.Ifcfg.Commands.{address_commands, mtu_commands, cidr_of, iproute2_apply}
use os_net_config.Ifcfg.Commands.Link.{
  IpTool, value, IsPlainChange, run_all, change_of_self, IsConfigured, run_all-append,
  has_address-mtu_commands, none_left, has_address-address_commands, mtu-mtu_commands,
  mtu-address_commands,
}

module _ (T : IpTool) (netmask_bits : Str → ℕ) (fs : Files) (dev_name filename new_data : Str) where
  -- The link after the commands that `apply` runs for the changed file.
  abbrev pub applied : T.Link → T.Link
  applied l = run_all T l (iproute2_apply netmask_bits fs dev_name filename new_data)

  -- Whether the new address is in the subnet of the old one
  abbrev pub stays_in_subnet : Bool
  stays_in_subnet =
      T.same_subnet (or_default (get (parse_ifcfg (get_file_data fs filename)) (str "IPADDR")) [])
        (cidr_of netmask_bits (parse_ifcfg (get_file_data fs filename)))
        (or_default (get (parse_ifcfg new_data) (str "IPADDR")) [])
        (cidr_of netmask_bits (parse_ifcfg new_data))

  -- The commands take a link that is as the old file describes it to what the new file asks for,
  -- if the old file has a prefix length with its address, if the prefix length changes only
  -- together with the address, if an address or MTU that differs in upper case only is the same, and
  -- if an address is replaced by one in another subnet only, or secondaries are promoted.
  pub iproute2_apply-IsConfigured :
      (l : T.Link)
      → IsPlainChange netmask_bits (get_file_data fs filename) new_data
      → (change_of (value (get_file_data fs filename) "IPADDR") (value new_data "IPADDR")
            ≡ some modified
          → (T.promote_secondaries || not stays_in_subnet) ≡ true)
      → IsConfigured T netmask_bits (get_file_data fs filename) l
      → IsConfigured T netmask_bits new_data (applied l)
  unfolding iproute2_apply
  iproute2_apply-IsConfigured l plain apart c = record {
    addresses = λ j e.
        rw (run_all-append, get-enumerate_ifcfg_changes, get-enumerate_ifcfg_changes)
          (has_address-mtu_commands T dev_name _ _ _ j e
            ∙ has_address-address_commands T dev_name l _ _ _ _ c.addresses plain.old_mask
                plain.same_ip plain.same_mask apart j e);
    link_mtu =
        rw (run_all-append, get-enumerate_ifcfg_changes, get-enumerate_ifcfg_changes)
          (mtu-mtu_commands T dev_name _ _ _
            (mtu-address_commands T dev_name l _ _ _ _ _ ∙ c.link_mtu) plain.same_mtu);
  }

  replaced_in_subnet :
      (l : T.Link) (j : Str) (e : ℕ)
      → change_of (value (get_file_data fs filename) "IPADDR") (value new_data "IPADDR")
        ≡ some modified
      → cidr_of netmask_bits (parse_ifcfg (get_file_data fs filename)) ≢ 0
      → T.promote_secondaries ≡ false
      → stays_in_subnet ≡ true
      → IsConfigured T netmask_bits (get_file_data fs filename) l
      → T.has_address (applied l) j e ≡ false
  unfolding iproute2_apply
  replaced_in_subnet l j e replaced mask off same c =
      rw (run_all-append, get-enumerate_ifcfg_changes, get-enumerate_ifcfg_changes)
        (has_address-mtu_commands T dev_name _ _ _ j e
          ∙ rw replaced (none_left T dev_name l _ _ _ _ c.addresses replaced mask off same j e))

  replaced_without_mask :
      (l : T.Link) (j : Str) (e : ℕ)
      → change_of (value (get_file_data fs filename) "IPADDR") (value new_data "IPADDR")
        ≡ some modified
      → cidr_of netmask_bits (parse_ifcfg (get_file_data fs filename)) ≡ 0
      → T.has_address (applied l) j e ≡ false
  unfolding iproute2_apply
  replaced_without_mask l j e replaced no_mask =
      rw (run_all-append, get-enumerate_ifcfg_changes, get-enumerate_ifcfg_changes)
        (has_address-mtu_commands T dev_name _ _ _ j e
          ∙ rw (replaced, no_mask) (unfold run_all address_commands in T.run_flush _ dev_name j e))

  -- A link is left with no address when its address is replaced in two cases. Either the old file has
  -- no prefix length: the new address is added and all addresses are flushed behind it. Or the link is
  -- as the old file describes it, the new address is in the subnet of the old one, and secondaries are
  -- not promoted: the new address is added as a secondary and goes with the old one.
  pub iproute2_apply-flushes :
      (l : T.Link) (j : Str) (e : ℕ)
      → change_of (value (get_file_data fs filename) "IPADDR") (value new_data "IPADDR")
        ≡ some modified
      → (cidr_of netmask_bits (parse_ifcfg (get_file_data fs filename)) ≡ 0)
        ⊎ ((T.promote_secondaries ≡ false)
            × (stays_in_subnet ≡ true)
            × IsConfigured T netmask_bits (get_file_data fs filename) l)
      → T.has_address (applied l) j e ≡ false
  iproute2_apply-flushes l j e replaced (inl no_mask) = replaced_without_mask l j e replaced no_mask
  iproute2_apply-flushes l j e replaced (inr (off, same, c)) =
      let cidr = cidr_of netmask_bits (parse_ifcfg (get_file_data fs filename)) in
      elim (Bool-cases (cidr == 0)) [
        | inl zero_mask ↦ replaced_without_mask l j e replaced (beq→eq cidr 0 zero_mask)
        | inr mask ↦ replaced_in_subnet l j e replaced (beq→ne cidr 0 mask) off same c
      ]

  -- A new file that changes the netmask and neither the address nor the MTU gives no command, so
  -- the link keeps its old prefix length.
  pub iproute2_apply_mask_only :
      value (get_file_data fs filename) "IPADDR" ≡ value new_data "IPADDR"
      → value (get_file_data fs filename) "MTU" ≡ value new_data "MTU"
      → iproute2_apply netmask_bits fs dev_name filename new_data ≡ []
  unfolding iproute2_apply
  iproute2_apply_mask_only same_ip same_mtu =
      rw (get-enumerate_ifcfg_changes, get-enumerate_ifcfg_changes, same_ip, same_mtu)
        (rw (change_of_self (value new_data "IPADDR"), change_of_self (value new_data "MTU"))
          (unfold address_commands mtu_commands in refl))
