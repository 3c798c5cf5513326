-- ===== src/Eni/Settles.antt =====
-- What `apply` of os_net_config/impl_eni.py leaves behind, and in which order it goes about it.
use os_net_config.Base.{
  ◌≡◌, refl, sym, ap, ◌∙◌, inl, inr, Bool, true, false, ◌||◌, not, List, [], ◌∷◌, ◌++◌, map,
  if◌then◌else◌, Bool-cases, nat_eq, str_eq, option_str_eq, select,
}
use os_net_config.Base.Str.{Str}
use os_net_config.Base.Dict.{keys, put}
use os_net_config.Ifcfg.Common.{has_items}
use os_net_config.Ifcfg.Parse.{Files}
use os_net_config.Ifcfg.Apply.{diff}
use os_net_config.Eni.Provider.{
  EniNetConfig, Command, Run, Links, ifdown, write_config, ifup, ifdown_all, ifup_all, write_run,
  stop_all, start_all, new_config, network_config_path, apply_eni, noted, unless_raised,
}
use mathlib.Core.List.{append-nil, append_assoc}

-- Before `apply`
abbrev pub before : Files → Run
before fs = record { files = fs; commands = []; errors = []; raised = false }

-- The interfaces that do not come up
unfoldable pub failures : EniNetConfig → Links → List Str → List Str
failures p links names = select (λ name. not (p.noop || links.is_up name)) names

module _ (noop : Bool) (links : Links) where
  ifdown_all_lem :
      (names : List Str) (r : Run)
      → ((name : Str) → (noop || links.is_down name) ≡ true)
      → ifdown_all noop links names r ≡ record r { commands = r.commands ++ map ifdown names }
  unfolding ifdown_all
  ifdown_all_lem [] r h = ap (λ l. record r { commands = l }) (sym (append-nil r.commands))
  ifdown_all_lem (name ∷ names) r h = rw (h name) (
      ifdown_all_lem names (noted (ifdown name) r) h
      ∙ ap (λ l. record r { commands = l })
          (append_assoc r.commands (ifdown name ∷ []) (map ifdown names)))

  ifdown_all-files : (names : List Str) (r : Run) → (ifdown_all noop links names r).files ≡ r.files
  unfolding ifdown_all
  ifdown_all-files [] r = refl
  ifdown_all-files (name ∷ names) r = elim (Bool-cases (noop || links.is_down name)) [
    | inl down ↦ rw down (ifdown_all-files names (noted (ifdown name) r))
    | inr fails ↦ rw fails refl
  ]

  ifup_all_lem :
      (names : List Str) (r : Run)
      → ifup_all noop links names r ≡ record r {
        commands = r.commands ++ map ifup names;
        errors = r.errors ++ select (λ name. not (noop || links.is_up name)) names;
      }
  unfolding ifup_all select
  ifup_all_lem [] r =
      ap (λ l. record r { commands = l }) (sym (append-nil r.commands))
      ∙ ap (λ l. record r { commands = r.commands ++ []; errors = l }) (sym (append-nil r.errors))
  ifup_all_lem (name ∷ names) r = elim (Bool-cases (noop || links.is_up name)) [
    | inl up ↦ rw up (
        ifup_all_lem names (noted (ifup name) r)
        ∙ ap
            (λ l. record r {
              commands = l;
              errors = r.errors ++ select (λ n. not (noop || links.is_up n)) names;
            })
            (append_assoc r.commands (ifup name ∷ []) (map ifup names)))
    | inr fails ↦ rw fails (
        ifup_all_lem names (record (noted (ifup name) r) { errors = r.errors ++ (name ∷ []) })
        ∙ ap
            (λ l. record r {
              commands = l;
              errors = (r.errors ++ (name ∷ [])) ++ select (λ n. not (noop || links.is_up n)) names;
            })
            (append_assoc r.commands (ifup name ∷ []) (map ifup names))
        ∙ ap (λ l. record r { commands = r.commands ++ (ifup name ∷ map ifup names); errors = l })
            (append_assoc r.errors (name ∷ []) (select (λ n. not (noop || links.is_up n)) names)))
  ]

abbrev pub run : Files → List Command → List Str → Run
run fs commands errors = record {
  files = fs;
  commands = commands;
  errors = errors;
  raised = has_items errors;
}

abbrev pub path_of : EniNetConfig → Str
path_of p = network_config_path p.root_dir

module _ (p : EniNetConfig) (links : Links) where
  stop_all_lem :
      (fs : Files)
      → ((name : Str) → (p.noop || links.is_down name) ≡ true)
      → stop_all p links (before fs)
        ≡ run fs (map ifdown (keys p.interfaces) ++ map ifdown (keys p.bridges)) []
  unfolding stop_all
  stop_all_lem fs h =
      ap (unless_raised (ifdown_all p.noop links (keys p.bridges)))
        (ifdown_all_lem p.noop links (keys p.interfaces) (before fs) h)
      ∙ ifdown_all_lem p.noop links (keys p.bridges)
          (record (before fs) { commands = map ifdown (keys p.interfaces) }) h

  failures-append :
      (xs ys : List Str) → failures p links xs ++ failures p links ys ≡ failures p links (xs ++ ys)
  unfolding failures select
  failures-append [] ys = refl
  failures-append (x ∷ xs) ys = elim (Bool-cases (not (p.noop || links.is_up x))) [
    | inl fails ↦ rw fails (ap (λ l. x ∷ l) (failures-append xs ys))
    | inr up ↦ rw up (failures-append xs ys)
  ]

  if_raised :
      (r : Run) (fs : Files) (commands : List Command) (errors : List Str)
      → r ≡ record { files = fs; commands = commands; errors = errors; raised = false }
      → (if has_items r.errors then record r { raised = true } else r) ≡ run fs commands errors
  if_raised r fs commands [] h = rw (ap (λ q. has_items q.errors) h) h
  if_raised r fs commands (e ∷ errors) h =
      rw (ap (λ q. has_items q.errors) h) (ap (λ (q : Run). record q { raised = true }) h)

  started :
      (fs : Files) (commands : List Command) (xs ys : List Str)
      → ifup_all p.noop links ys (ifup_all p.noop links xs (run fs commands [])) ≡ record {
        files = fs;
        commands = commands ++ (map ifup xs ++ map ifup ys);
        errors = failures p links (xs ++ ys);
        raised = false;
      }
  unfolding failures
  started fs commands xs ys =
      ap (ifup_all p.noop links ys) (ifup_all_lem p.noop links xs (run fs commands []))
      ∙ ifup_all_lem p.noop links ys (record (run fs commands []) {
        commands = commands ++ map ifup xs;
        errors = failures p links xs;
      })
      ∙ ap
          (λ l. record (run fs commands []) {
            commands = l;
            errors = failures p links xs ++ failures p links ys;
          })
          (append_assoc commands (map ifup xs) (map ifup ys))
      ∙ ap
          (λ l. record (run fs commands []) {
            commands = commands ++ (map ifup xs ++ map ifup ys);
            errors = l;
          })
          (failures-append xs ys)

  start_all_lem :
      (fs : Files) (commands : List Command)
      → start_all p links (run fs commands [])
        ≡ run fs
            (commands ++ (map ifup (keys p.bridges) ++ map ifup (keys p.interfaces)))
            (failures p links (keys p.bridges ++ keys p.interfaces))
  unfolding start_all
  start_all_lem fs commands =
      if_raised
        (ifup_all p.noop links (keys p.interfaces)
          (ifup_all p.noop links (keys p.bridges) (run fs commands [])))
        fs (commands ++ (map ifup (keys p.bridges) ++ map ifup (keys p.interfaces)))
        (failures p links (keys p.bridges ++ keys p.interfaces))
        (started fs commands (keys p.bridges) (keys p.interfaces))

  -- What is in the files behind `write_config`
  abbrev pub files_after : Files → Files
  files_after fs = if p.noop then fs else put fs (path_of p) (new_config p)

  write_run_lem :
      (fs : Files) (commands : List Command)
      → write_run p.noop (path_of p) (new_config p) (run fs commands [])
        ≡ run (files_after fs) (commands ++ (write_config (path_of p) (new_config p) ∷ [])) []
  unfolding write_run
  write_run_lem fs commands = by_noop p.noop
    where
      by_noop :
          (noop : Bool)
          → (if noop
              then noted (write_config (path_of p) (new_config p)) (run fs commands [])
              else record (noted (write_config (path_of p) (new_config p)) (run fs commands [])) {
                files = put fs (path_of p) (new_config p);
              })
            ≡ run
                (if noop then fs else put fs (path_of p) (new_config p))
                (commands ++ (write_config (path_of p) (new_config p) ∷ []))
                []
      by_noop true = refl
      by_noop false = refl

  -- Interfaces are stopped before bridges, and bridges are started before interfaces, with the
  -- file written in between. A failure of `ifup` does not keep the others from being started; the
  -- error is raised behind the last of them.
  pub apply_eni-commands :
      (fs : Files)
      → ((name : Str) → (p.noop || links.is_down name) ≡ true)
      → diff fs (network_config_path p.root_dir) (new_config p) ≡ true
      → apply_eni p links true (before fs) ≡ record {
        files = if p.noop then fs else put fs (network_config_path p.root_dir) (new_config p);
        commands =
            ((map ifdown (keys p.interfaces) ++ map ifdown (keys p.bridges))
              ++ (write_config (network_config_path p.root_dir) (new_config p) ∷ []))
            ++ (map ifup (keys p.bridges) ++ map ifup (keys p.interfaces));
        errors = failures p links (keys p.bridges ++ keys p.interfaces);
        raised = has_items (failures p links (keys p.bridges ++ keys p.interfaces));
      }
  unfolding apply_eni
  apply_eni-commands fs h differ = rw differ (
      ap (unless_raised (λ q. start_all p links (write_run p.noop (path_of p) (new_config p) q)))
        (stop_all_lem fs h)
      ∙ ap (start_all p links)
          (write_run_lem fs (map ifdown (keys p.interfaces) ++ map ifdown (keys p.bridges)))
      ∙ start_all_lem (files_after fs) (
          (map ifdown (keys p.interfaces) ++ map ifdown (keys p.bridges))
          ++ (write_config (path_of p) (new_config p) ∷ [])))

  pub without_activation :
      (fs : Files)
      → diff fs (path_of p) (new_config p) ≡ true
      → apply_eni p links false (before fs)
        ≡ run (files_after fs) (write_config (path_of p) (new_config p) ∷ []) []
  unfolding apply_eni
  without_activation fs differ = rw differ (write_run_lem fs [])
