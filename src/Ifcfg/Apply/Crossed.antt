-- ===== src/Ifcfg/Apply/Crossed.antt =====
-- The commands for routes that `apply` of os_net_config/impl_ifcfg.py runs, which compare the routes of
-- both families with the IPv4 route file.
use os_net_config.Base.{
  ◌≡◌, refl, ap, ◌∙◌, Bool, true, false, List, [], ◌∷◌, ◌++◌, arith, beq→eq, nat_eq, str_eq,
  option_str_eq, contains,
}
use os_net_config.Base.Str.{Str}
use os_net_config.Ifcfg.Parse.{Files, get_file_data}
use os_net_config.Ifcfg.Changes.{Change}
use os_net_config.Ifcfg.Commands.{parse_ifcfg_routes, iproute2_route_changes}
use os_net_config.Ifcfg.Commands.Route.{RouteTool, run_changes, run_changes-gone}
use os_net_config.Ifcfg.Apply.{
  diff, note_routes, note_rules, note_all, route_path, route6_path_of, rule_path, routes_of,
  routes6_of, rules_of, NetConfig, Plan,
}
use mathlib.Core.List.{append-nil}

-- `for interface in apply_routes`: the changes whose commands are run, all of which succeed.
unfoldable pub route_phase : NetConfig → Files → List (Str × Str) → List (Str × Change)
route_phase c fs [] = []
route_phase c fs ((name, route_data) ∷ apply_routes) =
    iproute2_route_changes fs (route_path c name) route_data ++ route_phase c fs apply_routes

apply_routes-note_rules :
    (fs : Files) (restarts : Bool) (name path rule_data : Str) (p : Plan)
    → (note_rules fs restarts name path rule_data p).apply_routes ≡ p.apply_routes
unfolding note_rules
apply_routes-note_rules fs restarts name path rule_data p = ground arith

module _ (fs : Files) (name path route_data : Str) (p : Plan) where
  note_routes_same :
      diff fs path route_data ≡ false → note_routes fs false name path route_data p ≡ p
  unfolding note_routes
  note_routes_same same = rw same refl

  apply_routes-note_routes :
      diff fs path route_data ≡ true
      → (note_routes fs false name path route_data p).apply_routes
        ≡ p.apply_routes ++ ((name, route_data) ∷ [])
  unfolding note_routes
  apply_routes-note_routes differs = rw differs refl

module _ (T : RouteTool) (c : NetConfig) (fs : Files) (name : Str) (p : Plan)
    (nothing : p.apply_routes ≡ []) (same : diff fs (route_path c name) (routes_of c name) ≡ false)
    (differs : diff fs (route6_path_of c name) (routes6_of c name) ≡ true) where
  only_routes6 : (note_all c fs false name p).apply_routes ≡ (name, routes6_of c name) ∷ []
  only_routes6 =
      apply_routes-note_rules fs false name (rule_path c name) (rules_of c name) _
      ∙ apply_routes-note_routes fs name (route6_path_of c name) (routes6_of c name) _ differs
      ∙ ap (λ q. q.apply_routes ++ ((name, routes6_of c name) ∷ []))
          (note_routes_same fs name (route_path c name) (routes_of c name) p same)
      ∙ ap (λ l. l ++ ((name, routes6_of c name) ∷ [])) nothing

  -- When only the IPv6 routes of an interface that is not restarted have changed, the commands remove
  -- every IPv4 route that the file has and still wants, but one that also stands among the new IPv6
  -- routes: the routes of both families are compared with the IPv4 file. Nothing was noted for other
  -- interfaces.
  pub route_phase-crossed :
      (t : T.Table) (r : Str)
      → contains (parse_ifcfg_routes (routes_of c name)) r ≡ true
      → contains (parse_ifcfg_routes (routes6_of c name)) r ≡ false
      → T.holds (run_changes T t (route_phase c fs (note_all c fs false name p).apply_routes)) r
        ≡ false
  unfolding route_phase diff
  route_phase-crossed t r wants other =
      let unchanged : get_file_data fs (route_path c name) ≡ routes_of c name =
        beq→eq _ _ (ground (arith, same)) in
      ap (λ l. T.holds (run_changes T t (route_phase c fs l)) r) only_routes6
      ∙ ap (λ l. T.holds (run_changes T t l) r)
          (append-nil (iproute2_route_changes fs (route_path c name) (routes6_of c name)))
      ∙ run_changes-gone T fs (route_path c name) (routes6_of c name) t r
          (ap (λ d. contains (parse_ifcfg_routes d) r) unchanged ∙ wants) other
