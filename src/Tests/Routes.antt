-- ===== src/Tests/Routes.antt =====
-- Route and rule files of an interface.
use os_net_config.Base.{
  ◌≡◌, refl, true, false, not, List, [], ◌∷◌, ◌++◌, nat_eq, str_eq, option_str_eq, contains,
}
use os_net_config.Base.Str.{Str, str, starts_with, contains_str}
use os_net_config.Ifcfg.Commands.{parse_ifcfg_routes}
use os_net_config.Ifcfg.Routes.{
  options_of, table_of, route_line, is_ipv4, add_route, add_routes, Route, RouteRule,
}
use os_net_config.Ifcfg.Routes.Read.{
  last_default, plain_routes, written_routes, parse_ifcfg_routes-add_routes,
}

abbrev default_route : Str → Route
default_route next_hop = record {
  next_hop = next_hop;
  ip_netmask = [];
  default = true;
  route_options = [];
  route_table = [];
}

abbrev routes : List Route
routes =
    default_route (str "10.0.0.1")
    ∷ record {
      next_hop = str "10.0.0.2";
      ip_netmask = str "10.1.0.0/16";
      default = false;
      route_options = str "metric 10";
      route_table = str "main";
    }
    ∷ default_route (str "10.0.0.3")
    ∷ default_route (str "fd00::1")
    ∷ []

-- Of the two default routes of one family the first one is lost.
last_default_wins : add_routes (str "em1") routes ≡ (
  str "default via 10.0.0.3 dev em1\n10.1.0.0/16 via 10.0.0.2 dev em1 table main metric 10\n",
  str "default via fd00::1 dev em1\n",
)
unfolding add_routes add_route route_line options_of table_of is_ipv4 contains contains_str
    starts_with str
last_default_wins = refl

parse_ifcfg_routes-add_routes_example :
    (parse_ifcfg_routes (add_routes (str "em1") routes).0
      ≡ written_routes (str "em1") is_ipv4 routes ++ ([] ∷ []))
    × (parse_ifcfg_routes (add_routes (str "em1") routes).1
        ≡ written_routes (str "em1") (λ r. not (is_ipv4 r)) routes ++ ([] ∷ []))
unfolding last_default plain_routes route_line options_of table_of is_ipv4 contains contains_str
    starts_with str
parse_ifcfg_routes-add_routes_example =
    parse_ifcfg_routes-add_routes (str "em1") routes ((refl, refl), ((refl, refl), tt))
      ((refl, refl), tt)

abbrev rules : List RouteRule
rules = record { rule = str "from 10.0.0.0/8 table 200"; comment = str "internal" } ∷ []
