-- ===== src/Ifcfg/Routes.antt =====
-- `_add_routes` and `_add_rules` of os_net_config/impl_ifcfg.py, which write what
-- `parse_ifcfg_routes` and `parse_ifcfg_rules` read.
use os_net_config.Base.{
  ℕ, zero, suc, ◌+◌, ◌-◌, ◌*◌, ◌/◌, ◌%◌, ◌≤◌, ◌<◌, String, ◌≡◌, refl, sym, ap, ◌∙◌, subst, ◌≢◌, ◌↔◌,
  ◌⊎◌, inl, inr, Bool, true, false, ◌&&◌, ◌||◌, not, Option, none, some, List, [], ◌∷◌, ◌++◌, map,
  arith, if◌then◌else◌, ltb, leb, nat_beq, nat_beq_iff, leb→le, Bool-cases, Option-cases, is_some,
  or_default, Bool-ext, ◌==◌, beq_refl, beq→eq, ne→beq, beq→ne, beq_sym, list_beq, list_beq_iff,
  option_beq, option_beq_iff, nat_eq, str_eq, option_str_eq, Eq, length, length-append, get_elem?,
  take, select, any, all, All, contains, contains-append, contains-select, any_iff, NodupB, find,
  change_first, find-change_first, find-change_first_other, find-test, find-change_first_on,
  find-change_first_on_other, All-map, find-All,
}
use os_net_config.Base.Str.{
  Str, str, newline, starts_with, contains_str, push_first, split, partition, lstrip, strip,
  is_space, is_digit, isdigit, upper, join, int_onto, int, digits_onto, decimal,
}
use os_net_config.Base.Str.Laws.{
  int-decimal, decimal-injective, starts_with-append, contains_str-append, contains_str_self,
  split-append, split_whole, partition-append,
}
use os_net_config.Ifcfg.Commands.{
  render, addr_remove, address_commands, mtu_commands, cidr_of, iproute2_apply,
  iproute2_apply_commands, search_line, resolv_conf_update, parse_ifcfg_routes,
  enumerate_ifcfg_route_changes, change_commands, iproute2_route_changes, iproute2_route_commands,
  iproute2_rule_commands, IpCommand, addr_add, addr_del, addr_flush, link_mtu,
}
use os_net_config.Sriov.Lines.{
  splitlines, write_lines, IsLine, split-cons, splitlines-write_lines, write_lines-append,
  splitlines-IsLine, any-splitlines, contains_str-write_lines, IsLine-append,
}
pub mod Read

-- `objects.Route`; a missing table or missing options are the empty text.
pub record Route : Type 0 where
  pub next_hop : Str
  pub ip_netmask : Str
  pub default : Bool
  pub route_options : Str
  pub route_table : Str

abbrev pub is_empty : Str → Bool
is_empty [] = true
is_empty (c ∷ s) = false

-- `options` and `table`
unfoldable pub options_of : Route → Str
options_of route = if is_empty route.route_options then [] else str " " ++ route.route_options

unfoldable pub table_of : Route → Str
table_of route =
    if is_empty route.route_table || contains_str route.route_options (str "table ")
    then []
    else str " table " ++ route.route_table

-- The line of a route, without the newline at its end
unfoldable pub route_line : Str → Route → Str
unfolding options_of table_of
route_line interface_name route =
    (if route.default then str "default" else route.ip_netmask)
    ++ (str " via "
        ++ (route.next_hop
            ++ (str " dev " ++ (interface_name ++ (table_of route ++ options_of route)))))

-- `":" not in route.next_hop`
unfoldable pub is_ipv4 : Route → Bool
is_ipv4 route = not (contains route.next_hop b':')

-- The local variables of the loop
pub record RouteTexts : Type 0 where
  pub first_line : Str
  pub data_lines : Str
  pub first_line6 : Str
  pub data_lines6 : Str

abbrev pub ended : Str → Str
ended line = line ++ (newline ∷ [])

-- The body of the loop
unfoldable pub add_route : Str → Route → RouteTexts → RouteTexts
unfolding route_line is_ipv4
add_route interface_name route t =
    let line = ended (route_line interface_name route) in
    if is_ipv4 route
    then if route.default
      then record t { first_line = line }
      else record t { data_lines = t.data_lines ++ line }
    else if route.default
    then record t { first_line6 = line }
    else record t { data_lines6 = t.data_lines6 ++ line }

unfoldable pub add_routes_loop : Str → List Route → RouteTexts → RouteTexts
unfolding add_route
add_routes_loop interface_name [] t = t
add_routes_loop interface_name (route ∷ routes) t =
    add_routes_loop interface_name routes (add_route interface_name route t)

-- `_add_routes`: the texts for `route_data` and `route6_data`
unfoldable pub add_routes : Str → List Route → Str × Str
unfolding add_routes_loop
add_routes interface_name routes =
    let t =
      add_routes_loop interface_name routes
        (record { first_line = []; data_lines = []; first_line6 = []; data_lines6 = [] }) in
    (t.first_line ++ t.data_lines, t.first_line6 ++ t.data_lines6)

-- `objects.RouteRule`
pub record RouteRule : Type 0 where
  pub rule : Str
  pub comment : Str

unfoldable pub rule_lines : List RouteRule → Str
rule_lines [] = []
rule_lines (r ∷ rules) =
    let rest = ended r.rule ++ rule_lines rules in
    if is_empty r.comment then rest else ended (str "# " ++ r.comment) ++ rest

-- `_add_rules`: the text for `rule_data`
unfoldable pub add_rules : List RouteRule → Str
unfolding rule_lines
add_rules rules = ended (str "# This file is autogenerated by os-net-config") ++ rule_lines rules
