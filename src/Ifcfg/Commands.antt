-- ===== src/Ifcfg/Commands.antt =====
-- The commands that bring a changed configuration into effect in place, without a restart:
-- `iproute2_apply_commands`, `iproute2_route_commands` and `iproute2_rule_commands` of
-- os_net_config/impl_ifcfg.py.
pub mod Address
pub mod Link
pub mod Route
use os_net_config.Base.{
  ℕ, zero, suc, ◌+◌, ◌-◌, ◌*◌, ◌/◌, ◌%◌, ◌≤◌, ◌<◌, String, ◌≡◌, refl, sym, ap, ◌∙◌, subst, ◌≢◌, ◌↔◌,
  ◌⊎◌, inl, inr, Bool, true, false, ◌&&◌, ◌||◌, not, Option, none, some, List, [], ◌∷◌, ◌++◌, map,
  arith, if◌then◌else◌, ltb, leb, nat_beq, nat_beq_iff, leb→le, Bool-cases, Option-cases, is_some,
  or_default, Bool-ext, ◌==◌, beq_refl, beq→eq, ne→beq, beq→ne, beq_sym, list_beq, list_beq_iff,
  option_beq, option_beq_iff, nat_eq, str_eq, option_str_eq, Eq, length, length-append, get_elem?,
  select, any, all, All, contains, contains-append, contains-select, any_iff, NodupB,
}
use os_net_config.Base.Str.{
  Str, str, newline, starts_with, contains_str, push_first, split, partition, lstrip, strip,
  is_space, is_digit, isdigit, upper, join, int_onto, int, digits_onto, decimal,
}
use os_net_config.Base.Dict.{
  Dict, keys, values, get, has, put, get-put, has-put, has-eq-is_some, contains-keys, dict_laws,
}
use os_net_config.Ifcfg.Parse.{
  Files, get_file_data, is_quote, key_value, parse_line, enter, parse_lines, parse_ifcfg,
}
use os_net_config.Ifcfg.Changes.{
  note_old, old_changes, new_changes, enumerate_ifcfg_changes, permitted_changes, boot_protocols,
  moves_to_dhcp, forces_restart, ifcfg_requires_restart, Change, modified, removed, added,
}

-- A command for `ip`, before it is put into words.
pub data IpCommand : Type 0 where
  addr_add : Str → ℕ → Str → IpCommand
  addr_del : Str → ℕ → Str → IpCommand
  addr_flush : Str → IpCommand
  link_mtu : Str → Str → IpCommand

unfoldable pub render : IpCommand → Str
render (addr_add ip cidr dev) =
    str "addr add " ++ (ip ++ (str "/" ++ (decimal cidr ++ (str " dev " ++ dev))))
render (addr_del ip cidr dev) =
    str "addr del " ++ (ip ++ (str "/" ++ (decimal cidr ++ (str " dev " ++ dev))))
render (addr_flush dev) = str "addr flush dev " ++ dev
render (link_mtu dev mtu) = str "link set dev " ++ (dev ++ (str " mtu " ++ mtu))

-- The old address cannot be removed by itself if its prefix length is not known.
abbrev pub addr_remove : Str → ℕ → Str → IpCommand
addr_remove ip cidr dev = if cidr == 0 then addr_flush dev else addr_del ip cidr dev

-- The commands for IPADDR. The new address is inserted at the front of the list.
unfoldable pub address_commands : Option Change → Str → Str → ℕ → Str → ℕ → List IpCommand
address_commands none dev old_ip old_cidr new_ip new_cidr = []
address_commands (some added) dev old_ip old_cidr new_ip new_cidr =
    addr_add new_ip new_cidr dev ∷ []
address_commands (some removed) dev old_ip old_cidr new_ip new_cidr =
    addr_remove old_ip old_cidr dev ∷ []
address_commands (some modified) dev old_ip old_cidr new_ip new_cidr =
    addr_add new_ip new_cidr dev ∷ addr_remove old_ip old_cidr dev ∷ []

-- The commands for MTU.
unfoldable pub mtu_commands : Option Change → Str → Str → List IpCommand
mtu_commands none dev mtu = []
mtu_commands (some removed) dev mtu = link_mtu dev (str "1500") ∷ []
mtu_commands (some _) dev mtu = link_mtu dev mtu ∷ []

-- `netaddr.IPAddress(netmask).netmask_bits()`
module _ (netmask_bits : Str → ℕ) where
  -- The prefix length, 0 where the file has no netmask.
  unfoldable pub cidr_of : Dict Str Str → ℕ
  cidr_of file_values = elim (get file_values (str "NETMASK")) [
    | none ↦ 0
    | some netmask ↦ netmask_bits netmask
  ]

  unfoldable pub iproute2_apply : Files → Str → Str → Str → List IpCommand
  iproute2_apply fs dev_name filename new_data =
      let file_values = parse_ifcfg (get_file_data fs filename) in
      let data_values = parse_ifcfg new_data in
      let changes = enumerate_ifcfg_changes file_values data_values in
      address_commands (get changes (str "IPADDR")) dev_name
        (or_default (get file_values (str "IPADDR")) []) (cidr_of file_values)
        (or_default (get data_values (str "IPADDR")) []) (cidr_of data_values)
      ++ mtu_commands (get changes (str "MTU")) dev_name
          (or_default (get data_values (str "MTU")) [])

  unfoldable pub iproute2_apply_commands : Files → Str → Str → Str → List Str
  unfolding render address_commands mtu_commands cidr_of iproute2_apply
  iproute2_apply_commands fs dev_name filename new_data =
      map render (iproute2_apply fs dev_name filename new_data)

-- The contents that /etc/resolv.conf gets, empty if it is left alone.
unfoldable pub search_line : Dict Str Str → Str → Str
search_line data_values key = elim (get data_values key) [
  | none ↦ []
  | some v ↦ str "search " ++ (v ++ (newline ∷ []))
]

unfoldable pub resolv_conf_update : Files → Str → Str → Str
unfolding search_line
resolv_conf_update fs filename new_data =
    let file_values = parse_ifcfg (get_file_data fs filename) in
    let data_values = parse_ifcfg new_data in
    let changes = enumerate_ifcfg_changes file_values data_values in
    if has changes (str "DOMAIN") || has changes (str "DNS1") || has changes (str "DNS2")
    then search_line data_values (str "DOMAIN")
      ++ (search_line data_values (str "DNS1") ++ search_line data_values (str "DNS2"))
    else []

-- `parse_ifcfg_routes` and `parse_ifcfg_rules`: the lines that are no comments.
unfoldable pub parse_ifcfg_routes : Str → List Str
parse_ifcfg_routes ifcfg_data =
    select (λ line. not (starts_with line (str "#"))) (split newline ifcfg_data)

-- `enumerate_ifcfg_route_changes` and `enumerate_ifcfg_rule_changes`
unfoldable pub enumerate_ifcfg_route_changes : List Str → List Str → List (Str × Change)
enumerate_ifcfg_route_changes old_routes new_routes =
    map (λ route. (route, removed)) (select (λ route. not (contains new_routes route)) old_routes)
    ++ map (λ route. (route, added)) (select (λ route. not (contains old_routes route)) new_routes)

-- One command for each change; `what` is "route" or "rule".
abbrev pub change_commands : Str → List (Str × Change) → List Str
change_commands what [] = []
change_commands what ((route, removed) ∷ changes) =
    (what ++ (str " del " ++ route)) ∷ change_commands what changes
change_commands what ((route, added) ∷ changes) =
    (what ++ (str " add " ++ route)) ∷ change_commands what changes
change_commands what ((route, modified) ∷ changes) = change_commands what changes

unfoldable pub iproute2_route_changes : Files → Str → Str → List (Str × Change)
iproute2_route_changes fs filename new_data =
    enumerate_ifcfg_route_changes (parse_ifcfg_routes (get_file_data fs filename))
      (parse_ifcfg_routes new_data)

unfoldable pub iproute2_route_commands : Files → Str → Str → List Str
unfolding parse_ifcfg_routes enumerate_ifcfg_route_changes iproute2_route_changes
iproute2_route_commands fs filename new_data =
    change_commands (str "route") (iproute2_route_changes fs filename new_data)

unfoldable pub iproute2_rule_commands : Files → Str → Str → List Str
unfolding parse_ifcfg_routes enumerate_ifcfg_route_changes iproute2_route_changes
iproute2_rule_commands fs filename new_data =
    change_commands (str "rule") (iproute2_route_changes fs filename new_data)
