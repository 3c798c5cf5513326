-- ===== src/Ifcfg/Commands/Route.antt =====
-- What the route commands leave in the routing table.
use os_net_config.Base.{
  ◌≡◌, refl, ◌∙◌, Bool, true, false, ◌&&◌, ◌||◌, not, List, [], ◌∷◌, ◌++◌, map, arith,
  if◌then◌else◌, ◌==◌, nat_eq, str_eq, option_str_eq, contains, contains-select,
}
use os_net_config.Base.Str.{Str}
use os_net_config.Ifcfg.Parse.{Files, get_file_data}
use os_net_config.Ifcfg.Changes.{Change, removed, added}
use os_net_config.Ifcfg.Commands.{
  parse_ifcfg_routes, enumerate_ifcfg_route_changes, iproute2_route_changes,
}

-- What the program relies on of `ip route` and `ip rule`, by their manual pages: `add` puts a
-- route into the table and `del` takes it out, and neither touches another route.
pub record RouteTool : Type 1 where
  pub Table : Type 0
  pub run : Table → Str × Change → Table
  pub holds : Table → Str → Bool
  pub run_added :
      (t : Table) (route r : Str) → holds (run t (route, added)) r ≡ ((route == r) || holds t r)
  pub run_removed :
      (t : Table) (route r : Str)
      → holds (run t (route, removed)) r ≡ (holds t r && not (route == r))

module _ (T : RouteTool) where
  unfoldable pub run_changes : T.Table → List (Str × Change) → T.Table
  run_changes t [] = t
  run_changes t (c ∷ cs) = run_changes (T.run t c) cs

  run_changes-append :
      (cs ds : List (Str × Change)) (t : T.Table)
      → run_changes t (cs ++ ds) ≡ run_changes (run_changes t cs) ds
  unfolding run_changes
  run_changes-append [] ds t = refl
  run_changes-append (c ∷ cs) ds t = run_changes-append cs ds (T.run t c)

  holds-removals :
      (routes : List Str) (t : T.Table) (r : Str)
      → T.holds (run_changes t (map (λ route. (route, removed)) routes)) r
        ≡ (T.holds t r && not (contains routes r))
  unfolding run_changes contains
  holds-removals [] t r = ground arith
  holds-removals (route ∷ routes) t r =
      holds-removals routes _ r ∙ rw (T.run_removed t route r) (ground arith)

  holds-additions :
      (routes : List Str) (t : T.Table) (r : Str)
      → T.holds (run_changes t (map (λ route. (route, added)) routes)) r
        ≡ (T.holds t r || contains routes r)
  unfolding run_changes contains
  holds-additions [] t r = ground arith
  holds-additions (route ∷ routes) t r =
      holds-additions routes _ r ∙ rw (T.run_added t route r) (ground arith)

module _ (T : RouteTool) (fs : Files) (filename new_data : Str) (t : T.Table) (r : Str) where
  -- The table after the commands.
  abbrev pub changed : T.Table
  changed = run_changes T t (iproute2_route_changes fs filename new_data)

  abbrev pub old_has : Bool
  old_has = contains (parse_ifcfg_routes (get_file_data fs filename)) r

  abbrev pub new_has : Bool
  new_has = contains (parse_ifcfg_routes new_data) r

  -- From a table that holds the route if the old file has it, the commands lead to one that holds
  -- it exactly if the new file has it, or if neither file has it and it was there before.
  pub run_changes-iproute2_route_changes :
      (old_has ≡ true → T.holds t r ≡ true)
      → T.holds changed r ≡ (if old_has then new_has else T.holds t r || new_has)
  unfolding iproute2_route_changes enumerate_ifcfg_route_changes
  run_changes-iproute2_route_changes h = rw run_changes-append (
      holds-additions T _ _ r
      ∙ rw (holds-removals T, contains-select, contains-select) (ground arith))

  -- What the old file has and the new contents have not is removed.
  pub run_changes-gone : old_has ≡ true → new_has ≡ false → T.holds changed r ≡ false
  unfolding iproute2_route_changes enumerate_ifcfg_route_changes
  run_changes-gone old gone = rw run_changes-append (
      holds-additions T _ _ r
      ∙ rw (holds-removals T, contains-select, contains-select) (ground arith))
