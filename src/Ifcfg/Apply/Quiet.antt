-- ===== src/Ifcfg/Apply/Quiet.antt =====
-- Running `apply` a second time.
use os_net_config.Base.{
  ℕ, ◌≡◌, refl, sym, ◌∙◌, subst, inl, inr, Bool, false, Option, none, some, [], ◌∷◌, ◌++◌, arith,
  if◌then◌else◌, or_default, beq_refl, beq→eq, nat_eq, str_eq, option_str_eq,
}
use os_net_config.Base.Str.{Str, str, contains_str}
use os_net_config.Base.Dict.{Dict, get, has, put, get-put, has-eq-is_some, UniqueKeys}
use os_net_config.Ifcfg.Parse.{Files, get_file_data}
use os_net_config.Ifcfg.Apply.{
  diff, verdict, write_if_new, note_routes, note_rules, route_path, route6_path_of, rule_path,
  routes_of, routes6_of, rules_of, note_all, NetConfig, Plan, unchanged,
}
use os_net_config.Ifcfg.Apply.Loops.{
  note_interface, note_services, note_names, four_names, interface_loop, ivs_loop, nfvswitch_loop,
  ib_loop,
}
use os_net_config.Ifcfg.Apply.Bridges.{note_without_rules}
use os_net_config.Ifcfg.Apply.Decide.{decide}
use os_net_config.Ifcfg.Apply.Updates.{files_of, wanted, Entry, Step}
use os_net_config.Ifcfg.Apply.Settled.{decide-Step}

-- `for location, data in update_files.items(): self.write_config(location, data)`
unfoldable pub write_files : Dict Str Str → Files → Files
write_files [] fs = fs
write_files ((location, file_data) ∷ rest) fs = write_files rest (put fs location file_data)

get-write_files :
    (u fs : Dict Str Str) (path : Str)
    → UniqueKeys u
    → get (write_files u fs) path ≡ elim (get u path) [ none ↦ get fs path | some d ↦ some d ]
unfolding write_files get has
get-write_files [] fs path h = refl
get-write_files ((l, d) ∷ u) fs path (fresh, h) =
    get-write_files u (put fs l d) path h
    ∙ ground (arith, get-put fs l d path, beq→eq l path, has-eq-is_some u path)

-- No two objects ask for different contents of one file.
abbrev pub IsConsistent : NetConfig → Type 0
IsConsistent c = (path d e : Str) → Entry (wanted c) path d → Entry (wanted c) path e → d ≡ e

module _ (fuel : ℕ) (c : NetConfig) (fs : Files) (p : Plan) where
  settles :
      Step fs (wanted c) [] p.update_files
      → IsConsistent c
      → (path d : Str) → Entry (wanted c) path d
      → get_file_data (write_files p.update_files fs) path ≡ d
  unfolding get_file_data
  settles s ok path d w =
      rw (get-write_files p.update_files fs path (s.unique tt))
        (from (get p.update_files path) refl)
    where
      from :
          (o : Option Str)
          → get p.update_files path ≡ o
          → or_default (elim o [ none ↦ get fs path | some e ↦ some e ]) [] ≡ d
      from none e = elim (s.covers path d w) [
        | inl written ↦ ground (arith, has-eq-is_some p.update_files path)
        | inr there ↦ there
      ]
      from (some v) e = elim (s.sound path v e) [
        | inl old ↦ unfold get in cc old
        | inr listed ↦ ok path v d listed w
      ]

  -- Once `apply` has written its files, each file of the configuration has the contents that were
  -- asked for, if no file is asked for with two contents and there is no Linux bridge.
  pub decide-settles :
      c.linuxbridge_data ≡ []
      → IsConsistent c
      → decide fuel c fs ≡ some p
      → (path d : Str) → Entry (wanted c) path d
      → get_file_data (write_files p.update_files fs) path ≡ d
  decide-settles none_there ok e = settles (decide-Step fuel c fs p none_there e) ok

abbrev pub AreInPlace : Files → Dict Str Str → Type 0
AreInPlace fs [] = Unit {0}
AreInPlace fs ((path, d) ∷ l) = (get_file_data fs path ≡ d) × AreInPlace fs l

pub entries-AreInPlace :
    (fs : Files) (l : Dict Str Str)
    → ((path d : Str) → Entry l path d → get_file_data fs path ≡ d)
    → AreInPlace fs l
entries-AreInPlace fs [] h = tt
entries-AreInPlace fs ((p, e) ∷ l) h =
    (h p e (inl (refl, refl)), entries-AreInPlace fs l (λ path d w. h path d (inr w)))

-- Nothing is rewritten, restarted or changed in place.
abbrev pub IsQuiet : Plan → Type 0
IsQuiet p =
    (p.restart_interfaces ≡ [])
    × (p.restart_vlans ≡ [])
    × (p.restart_ib_childs ≡ [])
    × (p.restart_bridges ≡ [])
    × (p.restart_linux_bonds ≡ [])
    × (p.restart_linux_teams ≡ [])
    × (p.apply_interfaces ≡ [])
    × (p.apply_bridges ≡ [])
    × (p.apply_routes ≡ [])
    × (p.apply_rules ≡ [])
    × (p.update_files ≡ [])
    × (p.stop_dhclient_interfaces ≡ [])
    × (p.ovs_needs_restart ≡ false)

module _ (fs : Files) (path d : Str) (same : get_file_data fs path ≡ d) where
  no_diff : diff fs path d ≡ false
  unfolding diff
  no_diff = rw (same, beq_refl d)

  pub verdict-unchanged : verdict fs path d ≡ unchanged
  unfolding verdict
  verdict-unchanged = rw no_diff

  note_interface-same : (name : Str) (p : Plan) → note_interface fs name path d p ≡ p
  unfolding note_interface
  note_interface-same name p = rw (verdict-unchanged, note_interface)

  note_services-same : (name : Str) (p : Plan) → note_services fs name path d p ≡ p
  unfolding note_services
  note_services-same name p = rw no_diff

  note_routes-same : (b : Bool) (name : Str) (p : Plan) → note_routes fs b name path d p ≡ p
  unfolding note_routes
  note_routes-same b name p = rw no_diff

  note_rules-same : (b : Bool) (name : Str) (p : Plan) → note_rules fs b name path d p ≡ p
  unfolding note_rules
  note_rules-same b name p = rw no_diff

  write_if_new-same : (p : Plan) → write_if_new fs path d p ≡ p
  unfolding write_if_new
  write_if_new-same p = rw no_diff

module _ (fuel : ℕ) (c : NetConfig) (fs : Files) (name : Str) where
  abbrev pub RestInPlace : Type 0
  RestInPlace =
      (get_file_data fs (route_path c name) ≡ routes_of c name)
      × (get_file_data fs (route6_path_of c name) ≡ routes6_of c name)
      × (get_file_data fs (rule_path c name) ≡ rules_of c name)

  pub note_all-same : RestInPlace → (b : Bool) (p : Plan) → note_all c fs b name p ≡ p
  note_all-same (r, r6, ru) b p =
      note_rules-same fs _ _ ru b name _
      ∙ (note_routes-same fs _ _ r6 b name _ ∙ note_routes-same fs _ _ r b name p)

  pub note_without_rules-same :
      RestInPlace → (b : Bool) (p : Plan) → note_without_rules fuel c fs b name p ≡ p
  note_without_rules-same (r, r6, ru) b p =
      write_if_new-same fs _ _ ru _
      ∙ (note_routes-same fs _ _ r6 b name _ ∙ note_routes-same fs _ _ r b name p)

module _ (c : NetConfig) (fs : Files) where
  pub interface_loop-IsQuiet :
      (d : Dict Str Str) (p : Plan)
      → AreInPlace fs (files_of c d)
      → IsQuiet p
      → IsQuiet (interface_loop c fs d p)
  unfolding interface_loop files_of note_names
  interface_loop-IsQuiet [] p h q = q
  interface_loop-IsQuiet ((name, iface_data) ∷ d) p (i, (r, (r6, (ru, h)))) q =
      interface_loop-IsQuiet d _ h (
        subst IsQuiet
          (sym (
            note_all-same 0 c fs name (r, r6, ru) _ _
            ∙ (note_services-same fs _ iface_data i name _
                ∙ note_interface-same fs _ iface_data i name (note_names c name iface_data p))))
          q)

  pub ivs_loop-IsQuiet :
      (d : Dict Str Str) (p : Plan)
      → AreInPlace fs (files_of c d)
      → IsQuiet p
      → IsQuiet (ivs_loop c fs d p)
  unfolding ivs_loop files_of
  ivs_loop-IsQuiet [] p h q = q
  ivs_loop-IsQuiet ((name, iface_data) ∷ d) p (i, (r, (r6, (ru, h)))) q = ivs_loop-IsQuiet d _ h (
      subst IsQuiet
        (sym (
          note_all-same 0 c fs name (r, r6, ru) _ _
          ∙ note_interface-same fs _ iface_data i name (record p {
            all_file_names = p.all_file_names ++ four_names c name;
            route6_path = some (route6_path_of c name);
            ivs_interfaces = p.ivs_interfaces ++ (name ∷ []);
          })))
        q)

  pub nfvswitch_loop-IsQuiet :
      (d : Dict Str Str) (p : Plan)
      → AreInPlace fs (files_of c d)
      → IsQuiet p
      → IsQuiet (nfvswitch_loop c fs d p)
  unfolding nfvswitch_loop files_of
  nfvswitch_loop-IsQuiet [] p h q = q
  nfvswitch_loop-IsQuiet ((name, iface_data) ∷ d) p (i, (r, (r6, (ru, h)))) q =
      nfvswitch_loop-IsQuiet d _ h (
        subst IsQuiet
          (sym (
            note_all-same 0 c fs name (r, r6, ru) _ _
            ∙ note_interface-same fs _ iface_data i name (record p {
              all_file_names = p.all_file_names ++ four_names c name;
              route6_path = some (route6_path_of c name);
              nfvswitch_internal_ifaces = p.nfvswitch_internal_ifaces ++ (name ∷ []);
            })))
          q)

  pub ib_loop-IsQuiet :
      (d : Dict Str Str) (p : Plan)
      → AreInPlace fs (files_of c d)
      → IsQuiet p
      → IsQuiet (ib_loop c fs d p)
  unfolding ib_loop files_of
  ib_loop-IsQuiet [] p h q = q
  ib_loop-IsQuiet ((name, iface_data) ∷ d) p (i, (r, (r6, (ru, h)))) q = ib_loop-IsQuiet d _ h (
      subst IsQuiet
        (sym (
          note_all-same 0 c fs name (r, r6, ru) _ _
          ∙ note_interface-same fs _ iface_data i name (record p {
            all_file_names = p.all_file_names ++ four_names c name;
            route6_path = some (route6_path_of c name);
            ivs_uplinks =
                if contains_str iface_data (str "IVS_BRIDGE")
                then p.ivs_uplinks ++ (name ∷ [])
                else p.ivs_uplinks;
          })))
        q)
