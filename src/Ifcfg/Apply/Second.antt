-- ===== src/Ifcfg/Apply/Second.antt =====
-- Running `apply` a second time, on the loops over bridges, teams, bonds and VLANs, and as a whole.
use os_net_config.Base.{
  ℕ, ◌≡◌, refl, sym, ◌∙◌, subst, false, Option, none, some, List, [], ◌∷◌, ◌++◌, arith, nat_eq,
  str_eq, option_str_eq, any, contains,
}
use os_net_config.Base.Str.{Str, str}
use os_net_config.Base.Dict.{Dict, get}
use os_net_config.Ifcfg.Parse.{Files, get_file_data, parse_ifcfg}
use os_net_config.Ifcfg.Apply.{no_changes, interface_path, NetConfig, Plan}
use os_net_config.Ifcfg.Apply.Loops.{four_names}
use os_net_config.Ifcfg.Apply.Bridges.{
  children, note_bridge, with_names, bridge_loop, note_team, team_loop, note_bond, with_children,
  bond_loop,
}
use os_net_config.Ifcfg.Apply.Vlans.{
  restarts_of, device_restarts, note_vlan, vlan_loop, note_ib_child, ib_child_loop, device_in,
}
use os_net_config.Ifcfg.Apply.Decide.{decide_first, decide_last, decide}
use os_net_config.Ifcfg.Apply.Updates.{files_of, wanted, Entry}
use os_net_config.Ifcfg.Apply.Quiet.{
  write_files, IsConsistent, decide-settles, AreInPlace, entries-AreInPlace, IsQuiet,
  verdict-unchanged, note_all-same, note_without_rules-same, interface_loop-IsQuiet,
  ivs_loop-IsQuiet, nfvswitch_loop-IsQuiet, ib_loop-IsQuiet,
}
use mathlib.Core.Option.{some-injective}
use os_net_config.Ifcfg.Apply.Settled.{decide-some}

any_nothing : (xs : List Str) → any (λ x. contains {A = Str} [] x) xs ≡ false
unfolding any contains
any_nothing [] = refl
any_nothing (x ∷ xs) = any_nothing xs

device_in-nil : (o : Option Str) (xs : List Str) → xs ≡ [] → device_in o xs ≡ false
unfolding device_in contains
device_in-nil none xs e = refl
device_in-nil (some x) xs e = rw e

restarts_nothing : (p : Plan) → IsQuiet p → restarts_of p ≡ []
restarts_nothing p q = append_nothing _ _ q.0 (append_nothing _ _ q.3 (append_nothing _ _ q.4 q.5))
  where
    append_nothing : (xs ys : List Str) → xs ≡ [] → ys ≡ [] → xs ++ ys ≡ []
    append_nothing xs ys a b = rw (a, b)

module _ (fuel : ℕ) (c : NetConfig) (fs : Files) (name d : Str)
    (same : get_file_data fs (interface_path c name) ≡ d) where
  note_bridge-same : (p : Plan) → note_bridge fuel c fs name d p ≡ p
  unfolding note_bridge
  note_bridge-same p = rw (verdict-unchanged fs _ d same, note_bridge)

  note_team-same : (p : Plan) → note_team fuel c fs name d p ≡ p
  unfolding note_team
  note_team-same p = rw (verdict-unchanged fs _ d same, note_team)

  note_bond-same : (p : Plan) → p.restart_interfaces ≡ [] → note_bond fuel c fs name d p ≡ p
  unfolding note_bond
  note_bond-same p none_there =
      rw (verdict-unchanged fs _ d same, note_bond)
        (ground (arith, members (p.restart_interfaces) none_there))
    where
      members :
          (xs : List Str)
          → xs ≡ []
          → any (λ child. contains xs child) (children fuel c fs name) ≡ false
      members xs e = rw e (any_nothing (children fuel c fs name))

module _ (c : NetConfig) (fs : Files) (name d : Str)
    (same : get_file_data fs (interface_path c name) ≡ d) where
  no_device : (p : Plan) → IsQuiet p → device_restarts d p ≡ false
  unfolding device_restarts
  no_device p q =
      device_in-nil (get (parse_ifcfg d) (str "PHYSDEV")) (restarts_of p) (restarts_nothing p q)

  note_vlan-same : (p : Plan) → IsQuiet p → note_vlan c fs name d p ≡ p
  unfolding note_vlan
  note_vlan-same p q = rw (no_device p q, verdict-unchanged fs _ d same, note_vlan)

  note_ib_child-same : (p : Plan) → IsQuiet p → note_ib_child c fs name d p ≡ p
  unfolding note_ib_child
  note_ib_child-same p q = rw (no_device p q, verdict-unchanged fs _ d same, note_ib_child)

module _ (fuel : ℕ) (c : NetConfig) (fs : Files) where
  bridge_loop-IsQuiet :
      (d : Dict Str Str) (p : Plan)
      → AreInPlace fs (files_of c d)
      → IsQuiet p
      → IsQuiet (bridge_loop fuel c fs d p)
  unfolding bridge_loop files_of
  bridge_loop-IsQuiet [] p h q = q
  bridge_loop-IsQuiet ((name, bridge_data) ∷ d) p (i, (r, (r6, (ru, h)))) q =
      bridge_loop-IsQuiet d _ h (
        subst IsQuiet
          (sym (
            note_all-same fuel c fs name (r, r6, ru) _ _
            ∙ note_bridge-same fuel c fs name bridge_data i (with_names fuel c fs name p)))
          q)

  team_loop-IsQuiet :
      (d : Dict Str Str) (p : Plan)
      → AreInPlace fs (files_of c d)
      → IsQuiet p
      → IsQuiet (team_loop fuel c fs d p)
  unfolding team_loop files_of
  team_loop-IsQuiet [] p h q = q
  team_loop-IsQuiet ((name, team_data) ∷ d) p (i, (r, (r6, (ru, h)))) q = team_loop-IsQuiet d _ h (
      subst IsQuiet
        (sym (
          note_without_rules-same fuel c fs name (r, r6, ru) _ _
          ∙ note_team-same fuel c fs name team_data i (with_names fuel c fs name p)))
        q)

  bond_loop-IsQuiet :
      (d : Dict Str Str) (p : Plan)
      → AreInPlace fs (files_of c d)
      → IsQuiet p
      → IsQuiet (bond_loop fuel c fs d p)
  unfolding bond_loop files_of
  bond_loop-IsQuiet [] p h q = q
  bond_loop-IsQuiet ((name, bond_data) ∷ d) p (i, (r, (r6, (ru, h)))) q = bond_loop-IsQuiet d _ h (
      subst IsQuiet
        (sym (
          note_without_rules-same fuel c fs name (r, r6, ru) _ _
          ∙ note_bond-same fuel c fs name bond_data i
              (with_children fuel c fs name (with_names fuel c fs name p)) q.0))
        q)

module _ (c : NetConfig) (fs : Files) where
  abbrev named : Str → Plan → Plan
  named name p = record p { all_file_names = p.all_file_names ++ four_names c name }

  vlan_loop-IsQuiet :
      (d : Dict Str Str) (p : Plan)
      → AreInPlace fs (files_of c d)
      → IsQuiet p
      → IsQuiet (vlan_loop c fs d p)
  unfolding vlan_loop files_of
  vlan_loop-IsQuiet [] p h q = q
  vlan_loop-IsQuiet ((name, vlan_data) ∷ d) p (i, (r, (r6, (ru, h)))) q = vlan_loop-IsQuiet d _ h (
      subst IsQuiet
        (sym (
          note_all-same 0 c fs name (r, r6, ru) _ _
          ∙ note_vlan-same c fs name vlan_data i (named name p) q))
        q)

  ib_child_loop-IsQuiet :
      (d : Dict Str Str) (p : Plan)
      → AreInPlace fs (files_of c d)
      → IsQuiet p
      → IsQuiet (ib_child_loop c fs d p)
  unfolding ib_child_loop files_of
  ib_child_loop-IsQuiet [] p h q = q
  ib_child_loop-IsQuiet ((name, ib_child_data) ∷ d) p (i, (r, (r6, (ru, h)))) q =
      ib_child_loop-IsQuiet d _ h (
        subst IsQuiet
          (sym (
            note_all-same 0 c fs name (r, r6, ru) _ _
            ∙ note_ib_child-same c fs name ib_child_data i (named name p) q))
          q)

AreInPlace-append :
    (fs : Files) (k l : Dict Str Str) → AreInPlace fs (k ++ l) → AreInPlace fs k × AreInPlace fs l
AreInPlace-append fs [] l h = (tt, h)
AreInPlace-append fs ((p, d) ∷ k) l h =
    let (left, right) = AreInPlace-append fs k l h.1 in ((h.0, left), right)

module _ (fuel : ℕ) (c : NetConfig) (fs : Files) where
  abbrev first_files : Dict Str Str → Dict Str Str
  first_files l =
      files_of c c.interface_data
      ++ (files_of c c.ivsinterface_data
          ++ (files_of c c.nfvswitch_intiface_data ++ (files_of c c.bridge_data ++ l)))

  abbrev last_files : Dict Str Str
  last_files =
      files_of c c.linuxteam_data
      ++ (files_of c c.linuxbond_data
          ++ (files_of c c.ib_interface_data
              ++ (files_of c c.vlan_data ++ files_of c c.ib_childs_data)))

  decide_first-IsQuiet :
      (l : Dict Str Str)
      → AreInPlace fs (first_files l)
      → IsQuiet (decide_first fuel c fs) × AreInPlace fs l
  unfolding decide_first
  decide_first-IsQuiet l h =
      let (plain, h1) = AreInPlace-append fs (files_of c c.interface_data) _ h in
      let (ivs, h2) = AreInPlace-append fs (files_of c c.ivsinterface_data) _ h1 in
      let (nfvswitch, h3) = AreInPlace-append fs (files_of c c.nfvswitch_intiface_data) _ h2 in
      let (bridges, h4) = AreInPlace-append fs (files_of c c.bridge_data) l h3 in
      let quiet : IsQuiet no_changes =
        (refl, refl, refl, refl, refl, refl, refl, refl, refl, refl, refl, refl, refl) in
      (
        bridge_loop-IsQuiet fuel c fs _ _ bridges (
            nfvswitch_loop-IsQuiet c fs _ _ nfvswitch (
              ivs_loop-IsQuiet c fs _ _ ivs
                (interface_loop-IsQuiet c fs _ no_changes plain quiet))),
        h4,
      )

  decide_last-IsQuiet :
      (p : Plan) → AreInPlace fs last_files → IsQuiet p → IsQuiet (decide_last fuel c fs p)
  unfolding decide_last
  decide_last-IsQuiet p h q =
      let (teams, h1) = AreInPlace-append fs (files_of c c.linuxteam_data) _ h in
      let (bonds, h2) = AreInPlace-append fs (files_of c c.linuxbond_data) _ h1 in
      let (ibs, h3) = AreInPlace-append fs (files_of c c.ib_interface_data) _ h2 in
      let (vlans, ib_childs) = AreInPlace-append fs (files_of c c.vlan_data) _ h3 in
      ib_child_loop-IsQuiet c fs _ _ ib_childs (
        vlan_loop-IsQuiet c fs _ _ vlans (
          ib_loop-IsQuiet c fs _ _ ibs
            (bond_loop-IsQuiet fuel c fs _ _ bonds (team_loop-IsQuiet fuel c fs _ p teams q))))

  -- Where all files are as the objects want them, nothing is rewritten, restarted or applied.
  pub decide-IsQuiet :
      (p : Plan)
      → c.linuxbridge_data ≡ []
      → decide fuel c fs ≡ some p
      → ((path d : Str) → Entry (wanted c) path d → get_file_data fs path ≡ d)
      → IsQuiet p
  unfolding wanted
  decide-IsQuiet p none_there e there =
      let (first, h) = decide_first-IsQuiet last_files (entries-AreInPlace fs (wanted c) there) in
      subst IsQuiet (some-injective _ p (sym (decide-some fuel c fs none_there) ∙ e))
        (decide_last-IsQuiet (decide_first fuel c fs) h first)

-- A second run of `apply` finds nothing to rewrite, restart or change in place, if no file is asked
-- for with two contents and there is no Linux bridge.
pub decide_twice :
    (fuel : ℕ) (c : NetConfig) (fs : Files) (p q : Plan)
    → c.linuxbridge_data ≡ []
    → IsConsistent c
    → decide fuel c fs ≡ some p
    → decide fuel c (write_files p.update_files fs) ≡ some q
    → IsQuiet q
decide_twice fuel c fs p q none_there ok first second =
    decide-IsQuiet fuel c (write_files p.update_files fs) q none_there second
      (decide-settles fuel c fs p none_there ok first)
