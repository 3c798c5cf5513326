-- ===== src/Ifcfg/Apply/Settled.antt =====
-- After `apply` every file of the configuration has the contents that were asked for.
use os_net_config.Base.{
  ℕ, ◌≡◌, refl, sym, ap, ◌∙◌, subst, inl, inr, Bool, false, Option, none, some, [], ◌∷◌, ◌++◌,
  arith, Bool-cases, nat_eq, str_eq, option_str_eq,
}
use os_net_config.Base.Str.{Str}
use os_net_config.Base.Dict.{Dict}
use os_net_config.Ifcfg.Parse.{Files}
use os_net_config.Ifcfg.Apply.{
  no_changes, verdict, write_if_new, note_routes, note_rules, interface_path, route_path,
  route6_path_of, rule_path, routes_of, routes6_of, rules_of, note_all, NetConfig, Plan,
}
use os_net_config.Ifcfg.Apply.Loops.{
  note_interface, note_services, note_names, interface_loop, ivs_loop, nfvswitch_loop, ib_loop,
}
use os_net_config.Ifcfg.Apply.Bridges.{
  note_bridge, bridge_loop, linuxbridge_loop, note_team, team_loop, note_bond, bond_loop,
}
use os_net_config.Ifcfg.Apply.Vlans.{
  device_restarts, note_vlan, vlan_loop, note_ib_child, ib_child_loop,
}
use os_net_config.Ifcfg.Apply.Decide.{decide_first, decide_last, decide}
use os_net_config.Ifcfg.Apply.Updates.{
  files_of, wanted, Step-refl, Step-append, Step-put, note_file, Step-note_file, note_files,
  Step-note_files, Step,
}
use mathlib.Core.Option.{some-injective}

module _ (fs : Files) (name : Str) where
  update_files-note_interface :
      (path d : Str) (p : Plan)
      → (note_interface fs name path d p).update_files ≡ note_file fs path d p.update_files
  unfolding note_interface verdict note_file
  update_files-note_interface path d p = ground arith

  update_files-note_services :
      (path d : Str) (p : Plan) → (note_services fs name path d p).update_files ≡ p.update_files
  unfolding note_services
  update_files-note_services path d p = ground arith

  update_files-note_routes :
      (restarts : Bool) (path d : Str) (p : Plan)
      → (note_routes fs restarts name path d p).update_files ≡ note_file fs path d p.update_files
  unfolding note_routes note_file
  update_files-note_routes restarts path d p = ground arith

  update_files-note_rules :
      (restarts : Bool) (path d : Str) (p : Plan)
      → (note_rules fs restarts name path d p).update_files ≡ note_file fs path d p.update_files
  unfolding note_rules note_file
  update_files-note_rules restarts path d p = ground arith

update_files-write_if_new :
    (fs : Files) (path d : Str) (p : Plan)
    → (write_if_new fs path d p).update_files ≡ note_file fs path d p.update_files
unfolding write_if_new note_file
update_files-write_if_new fs path d p = ground arith

module _ (fuel : ℕ) (c : NetConfig) (fs : Files) (name d : Str) (p : Plan) where
  update_files-note_bridge :
      (note_bridge fuel c fs name d p).update_files
      ≡ note_file fs (interface_path c name) d p.update_files
  unfolding note_bridge verdict note_file
  update_files-note_bridge = ground arith

  update_files-note_team :
      (note_team fuel c fs name d p).update_files
      ≡ note_file fs (interface_path c name) d p.update_files
  unfolding note_team verdict note_file
  update_files-note_team = ground arith

  update_files-note_bond :
      (note_bond fuel c fs name d p).update_files
      ≡ note_file fs (interface_path c name) d p.update_files
  unfolding note_bond verdict note_file
  update_files-note_bond = ground arith

ruleset update_laws = (
  update_files-write_if_new, update_files-note_interface, update_files-note_services,
  update_files-note_routes, update_files-note_rules, update_files-note_bridge,
  update_files-note_team, update_files-note_bond,
)

module _ (c : NetConfig) (fs : Files) where
  abbrev Updates : Dict Str Str → Plan → Plan → Type 0
  Updates d p q = q.update_files ≡ note_files fs (files_of c d) p.update_files

  interface_loop-Updates : (d : Dict Str Str) (p : Plan) → Updates d p (interface_loop c fs d p)
  unfolding interface_loop files_of note_files note_names
  interface_loop-Updates [] p = refl
  interface_loop-Updates ((name, iface_data) ∷ d) p = interface_loop-Updates d _ ∙ simp update_laws

  ivs_loop-Updates : (d : Dict Str Str) (p : Plan) → Updates d p (ivs_loop c fs d p)
  unfolding ivs_loop files_of note_files
  ivs_loop-Updates [] p = refl
  ivs_loop-Updates ((name, iface_data) ∷ d) p = ivs_loop-Updates d _ ∙ simp update_laws

  nfvswitch_loop-Updates : (d : Dict Str Str) (p : Plan) → Updates d p (nfvswitch_loop c fs d p)
  unfolding nfvswitch_loop files_of note_files
  nfvswitch_loop-Updates [] p = refl
  nfvswitch_loop-Updates ((name, iface_data) ∷ d) p = nfvswitch_loop-Updates d _ ∙ simp update_laws

  ib_loop-Updates : (d : Dict Str Str) (p : Plan) → Updates d p (ib_loop c fs d p)
  unfolding ib_loop files_of note_files
  ib_loop-Updates [] p = refl
  ib_loop-Updates ((name, iface_data) ∷ d) p = ib_loop-Updates d _ ∙ simp update_laws

module _ (fuel : ℕ) (c : NetConfig) (fs : Files) where
  bridge_loop-Updates : (d : Dict Str Str) (p : Plan) → Updates c fs d p (bridge_loop fuel c fs d p)
  unfolding bridge_loop files_of note_files
  bridge_loop-Updates [] p = refl
  bridge_loop-Updates ((name, bridge_data) ∷ d) p = bridge_loop-Updates d _ ∙ simp update_laws

  team_loop-Updates : (d : Dict Str Str) (p : Plan) → Updates c fs d p (team_loop fuel c fs d p)
  unfolding team_loop files_of note_files
  team_loop-Updates [] p = refl
  team_loop-Updates ((name, team_data) ∷ d) p = team_loop-Updates d _ ∙ simp update_laws

  bond_loop-Updates : (d : Dict Str Str) (p : Plan) → Updates c fs d p (bond_loop fuel c fs d p)
  unfolding bond_loop files_of note_files
  bond_loop-Updates [] p = refl
  bond_loop-Updates ((name, bond_data) ∷ d) p = bond_loop-Updates d _ ∙ simp update_laws

module _ (c : NetConfig) (fs : Files) (name d : Str) (p : Plan) where
  abbrev One : Dict Str Str → Type 0
  One v = Step fs ((interface_path c name, d) ∷ []) p.update_files v

  note_vlan-unforced :
      device_restarts d p ≡ false
      → note_file fs (interface_path c name) d p.update_files
        ≡ (note_vlan c fs name d p).update_files
  unfolding note_vlan note_file verdict
  note_vlan-unforced other = ground arith

  note_vlan-Step : One (note_vlan c fs name d p).update_files
  note_vlan-Step = elim (Bool-cases (device_restarts d p)) [
    | inl forced ↦
        unfold note_vlan in rw forced (Step-put fs (interface_path c name) d p.update_files)
    | inr other ↦
        subst One (note_vlan-unforced other)
          (Step-note_file fs (interface_path c name) d p.update_files)
  ]

  note_ib_child-unforced :
      device_restarts d p ≡ false
      → note_file fs (interface_path c name) d p.update_files
        ≡ (note_ib_child c fs name d p).update_files
  unfolding note_ib_child note_file verdict
  note_ib_child-unforced other = ground arith

  note_ib_child-Step : One (note_ib_child c fs name d p).update_files
  note_ib_child-Step = elim (Bool-cases (device_restarts d p)) [
    | inl forced ↦
        unfold note_ib_child in rw forced (Step-put fs (interface_path c name) d p.update_files)
    | inr other ↦
        subst One (note_ib_child-unforced other)
          (Step-note_file fs (interface_path c name) d p.update_files)
  ]

module _ (c : NetConfig) (fs : Files) where
  -- The two route files and the rule file of one object.
  abbrev three : Str → Dict Str Str
  three name =
      (route_path c name, routes_of c name)
      ∷ (route6_path_of c name, routes6_of c name)
      ∷ (rule_path c name, rules_of c name)
      ∷ []

  note_all-Step :
      (restarts : Bool) (name : Str) (p : Plan)
      → Step fs (three name) p.update_files (note_all c fs restarts name p).update_files
  note_all-Step restarts name p =
      simp update_laws (unfold note_files in Step-note_files fs (three name) p.update_files)

  vlan_loop-Step :
      (d : Dict Str Str) (p : Plan)
      → Step fs (files_of c d) p.update_files (vlan_loop c fs d p).update_files
  unfolding vlan_loop files_of
  vlan_loop-Step [] p = Step-refl fs p.update_files
  vlan_loop-Step ((name, vlan_data) ∷ d) p =
      Step-append fs _ _ _ _ _ (note_vlan-Step c fs name vlan_data _)
        (Step-append fs (three name) _ _ _ _ (note_all-Step _ name _) (vlan_loop-Step d _))

  ib_child_loop-Step :
      (d : Dict Str Str) (p : Plan)
      → Step fs (files_of c d) p.update_files (ib_child_loop c fs d p).update_files
  unfolding ib_child_loop files_of
  ib_child_loop-Step [] p = Step-refl fs p.update_files
  ib_child_loop-Step ((name, ib_child_data) ∷ d) p =
      Step-append fs _ _ _ _ _ (note_ib_child-Step c fs name ib_child_data _)
        (Step-append fs (three name) _ _ _ _ (note_all-Step _ name _) (ib_child_loop-Step d _))

  Updates-Step :
      (d : Dict Str Str) (p q : Plan)
      → Updates c fs d p q
      → Step fs (files_of c d) p.update_files q.update_files
  Updates-Step d p q e = rw e (Step-note_files fs (files_of c d) p.update_files)

module _ (fuel : ℕ) (c : NetConfig) (fs : Files) where
  decide_last-Step :
      (p : Plan)
      → Step fs
          (files_of c c.linuxteam_data
            ++ (files_of c c.linuxbond_data
                ++ (files_of c c.ib_interface_data
                    ++ (files_of c c.vlan_data ++ files_of c c.ib_childs_data))))
          p.update_files
          (decide_last fuel c fs p).update_files
  unfolding decide_last
  decide_last-Step p =
      let teams = team_loop fuel c fs c.linuxteam_data p in
      let bonds = bond_loop fuel c fs c.linuxbond_data teams in
      let ibs = ib_loop c fs c.ib_interface_data bonds in
      let vlans = vlan_loop c fs c.vlan_data ibs in
      Step-append fs _ _ _ _ _ (Updates-Step c fs _ p teams (team_loop-Updates fuel c fs _ p)) (
        Step-append fs _ _ _ _ _
          (Updates-Step c fs _ teams bonds (bond_loop-Updates fuel c fs _ teams))
          (Step-append fs _ _ _ _ _ (Updates-Step c fs _ bonds ibs (ib_loop-Updates c fs _ bonds)) (
            Step-append fs _ _ _ _ _ (vlan_loop-Step c fs _ ibs)
              (ib_child_loop-Step c fs _ vlans))))

  decide_first-Step :
      (l w : Dict Str Str)
      → Step fs l (decide_first fuel c fs).update_files w
      → Step fs
          (files_of c c.interface_data
            ++ (files_of c c.ivsinterface_data
                ++ (files_of c c.nfvswitch_intiface_data ++ (files_of c c.bridge_data ++ l))))
          []
          w
  unfolding decide_first
  decide_first-Step l w s =
      let plain = interface_loop c fs c.interface_data no_changes in
      let ivs = ivs_loop c fs c.ivsinterface_data plain in
      let nfvswitch = nfvswitch_loop c fs c.nfvswitch_intiface_data ivs in
      let bridges = bridge_loop fuel c fs c.bridge_data nfvswitch in
      Step-append fs _ _ _ _ _
        (Updates-Step c fs _ no_changes plain (interface_loop-Updates c fs _ no_changes))
        (Step-append fs _ _ _ _ _ (Updates-Step c fs _ plain ivs (ivs_loop-Updates c fs _ plain)) (
          Step-append fs _ _ _ _ _
            (Updates-Step c fs _ ivs nfvswitch (nfvswitch_loop-Updates c fs _ ivs))
            (Step-append fs _ _ _ _ _
              (Updates-Step c fs _ nfvswitch bridges (bridge_loop-Updates fuel c fs _ nfvswitch))
              s)))

  no_linuxbridge : (d : Dict Str Str) (p : Plan) → d ≡ [] → linuxbridge_loop fuel c fs d p ≡ some p
  unfolding linuxbridge_loop
  no_linuxbridge d p e = rw e

  -- With no Linux bridge the loops come to an end.
  pub decide-some :
      c.linuxbridge_data ≡ []
      → decide fuel c fs ≡ some (decide_last fuel c fs (decide_first fuel c fs))
  unfolding decide
  decide-some none_there =
      ap (λ (o : Option Plan). elim o [ none ↦ none | some p ↦ some (decide_last fuel c fs p) ])
        (no_linuxbridge c.linuxbridge_data (decide_first fuel c fs) none_there)

  pub decide-Step :
      (p : Plan)
      → c.linuxbridge_data ≡ []
      → decide fuel c fs ≡ some p
      → Step fs (wanted c) [] p.update_files
  unfolding wanted
  decide-Step p none_there e =
      subst (λ r. Step fs (wanted c) [] r.update_files)
        (some-injective _ p (sym (decide-some none_there) ∙ e))
        (decide_first-Step _ _ (decide_last-Step (decide_first fuel c fs)))
