-- ===== src/Ifcfg/Apply/Stale.antt =====
-- The loop over Linux bridges reads `route6_path`, which only the loops before it set.
use os_net_config.Base.{
  ℕ, ◌≡◌, refl, ap, ◌∙◌, ◌≢◌, Bool, Option, none, some, [], ◌∷◌, arith, nat_eq, str_eq,
  option_str_eq,
}
use os_net_config.Base.Str.{Str}
use os_net_config.Base.Dict.{Dict}
use os_net_config.Ifcfg.Parse.{Files}
use os_net_config.Ifcfg.Apply.{no_changes, note_routes, note_rules, NetConfig, Plan}
use os_net_config.Ifcfg.Apply.Loops.{interface_loop, ivs_loop, nfvswitch_loop}
use os_net_config.Ifcfg.Apply.Bridges.{note_bridge, bridge_loop, linuxbridge_loop}
use os_net_config.Ifcfg.Apply.Decide.{decide_first, decide_last, decide}

module _ (fs : Files) (b : Bool) (name path d : Str) (p : Plan) where
  route6_path-note_routes : (note_routes fs b name path d p).route6_path ≡ p.route6_path
  unfolding note_routes
  route6_path-note_routes = ground arith

  route6_path-note_rules : (note_rules fs b name path d p).route6_path ≡ p.route6_path
  unfolding note_rules
  route6_path-note_rules = ground arith

module _ (fuel : ℕ) (c : NetConfig) (fs : Files) where
  route6_path-note_bridge :
      (name d : Str) (p : Plan) → (note_bridge fuel c fs name d p).route6_path ≡ p.route6_path
  unfolding note_bridge
  route6_path-note_bridge name d p = ground arith

  route6_path-bridge_loop :
      (d : Dict Str Str) (p : Plan) → (bridge_loop fuel c fs d p).route6_path ≡ p.route6_path
  unfolding bridge_loop
  route6_path-bridge_loop [] p = refl
  route6_path-bridge_loop ((name, bridge_data) ∷ d) p =
      route6_path-bridge_loop d _
      ∙ simp (route6_path-note_routes, route6_path-note_rules, route6_path-note_bridge)

  interface_loop-nil : (d : Dict Str Str) (p : Plan) → d ≡ [] → interface_loop c fs d p ≡ p
  unfolding interface_loop
  interface_loop-nil d p e = rw e

  ivs_loop-nil : (d : Dict Str Str) (p : Plan) → d ≡ [] → ivs_loop c fs d p ≡ p
  unfolding ivs_loop
  ivs_loop-nil d p e = rw e

  nfvswitch_loop-nil : (d : Dict Str Str) (p : Plan) → d ≡ [] → nfvswitch_loop c fs d p ≡ p
  unfolding nfvswitch_loop
  nfvswitch_loop-nil d p e = rw e

  linuxbridge_loop-none :
      (d : Dict Str Str) (p : Plan)
      → d ≢ []
      → p.route6_path ≡ none
      → linuxbridge_loop fuel c fs d p ≡ none
  unfolding linuxbridge_loop
  linuxbridge_loop-none [] p h e = absurd (h refl)
  linuxbridge_loop-none ((name, bridge_data) ∷ d) p h e = ground arith

  decide-none :
      linuxbridge_loop fuel c fs c.linuxbridge_data (decide_first fuel c fs) ≡ none
      → decide fuel c fs ≡ none
  unfolding decide
  decide-none =
      ap (λ (o : Option Plan). elim o [ none ↦ none | some p ↦ some (decide_last fuel c fs p) ])

  -- A configuration with a Linux bridge and with no plain, IVS or NFVswitch interface makes `apply`
  -- raise an error, whatever else it has.
  pub decide_stale :
      c.interface_data ≡ []
      → c.ivsinterface_data ≡ []
      → c.nfvswitch_intiface_data ≡ []
      → c.linuxbridge_data ≢ []
      → decide fuel c fs ≡ none
  decide_stale no_plain no_ivs no_nfvswitch bridges =
      decide-none
        (linuxbridge_loop-none c.linuxbridge_data _ bridges (unfold decide_first in unset))
    where
      unset :
          (bridge_loop fuel c fs c.bridge_data (
            nfvswitch_loop c fs c.nfvswitch_intiface_data (
              ivs_loop c fs c.ivsinterface_data
                (interface_loop c fs c.interface_data no_changes)))).route6_path
          ≡ none
      unset =
          route6_path-bridge_loop c.bridge_data _
          ∙ (ap (λ (q : Plan). q.route6_path) (nfvswitch_loop-nil _ _ no_nfvswitch)
              ∙ (ap (λ (q : Plan). q.route6_path) (ivs_loop-nil _ _ no_ivs)
                  ∙ ap (λ (q : Plan). q.route6_path) (interface_loop-nil _ no_changes no_plain)))
