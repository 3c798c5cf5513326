-- ===== src/Eni/Twice.antt =====
-- What a second `apply` of os_net_config/impl_eni.py does, and what one does in noop mode.
use os_net_config.Base.{
  ◌≡◌, refl, ap, ◌∙◌, inl, inr, Bool, true, false, ◌||◌, not, List, [], ◌∷◌, ◌++◌, arith,
  if◌then◌else◌, Bool-cases, ◌==◌, beq_refl, beq→eq, nat_eq, str_eq, option_str_eq, select,
}
use os_net_config.Base.Str.{Str}
use os_net_config.Base.Dict.{keys, put}
use os_net_config.Ifcfg.Common.{has_items}
use os_net_config.Ifcfg.Parse.{Files, get_file_data, get_file_data-put}
use os_net_config.Ifcfg.Apply.{diff}
use os_net_config.Eni.Provider.{
  EniNetConfig, Run, Links, new_config, network_config_path, apply_eni,
}
use os_net_config.Eni.Settles.{
  before, failures, path_of, files_after, apply_eni-commands, without_activation,
}

no_diff :
    (p : EniNetConfig) (links : Links) (activate : Bool) (r : Run)
    → diff r.files (network_config_path p.root_dir) (new_config p) ≡ false
    → apply_eni p links activate r ≡ r
unfolding apply_eni
no_diff p links activate r same = rw same refl

module _ (p : EniNetConfig) (links : Links) where
  apply_eni-files :
      (fs : Files) (activate : Bool)
      → ((name : Str) → (p.noop || links.is_down name) ≡ true)
      → diff fs (path_of p) (new_config p) ≡ true
      → (apply_eni p links activate (before fs)).files ≡ files_after p links fs
  apply_eni-files fs true h differ = ap (λ r. r.files) (apply_eni-commands p links fs h differ)
  apply_eni-files fs false h differ = ap (λ r. r.files) (without_activation p links fs differ)

  -- When no `ifdown` fails, the file has the configuration behind `apply`, whether or not interfaces
  -- come up, and a second `apply` does nothing and raises no error, also where the first one did.
  pub apply_eni_twice :
      (fs : Files) (activate : Bool)
      → p.noop ≡ false
      → ((name : Str) → links.is_down name ≡ true)
      → (get_file_data
            (apply_eni p links activate (before fs)).files
            (network_config_path p.root_dir)
          ≡ new_config p)
        × ((now : Links) (again : Bool)
            → apply_eni p now again (before (apply_eni p links activate (before fs)).files)
              ≡ before (apply_eni p links activate (before fs)).files)
  unfolding diff
  apply_eni_twice fs activate real down =
      let written : get_file_data (apply_eni p links activate (before fs)).files (path_of p)
          ≡ new_config p =
        elim (Bool-cases (diff fs (path_of p) (new_config p))) [
          | inl differ ↦
              ap (λ f. get_file_data f (path_of p))
                (apply_eni-files fs activate (λ name. ground (arith, down name)) differ)
              ∙ ap
                  (λ b.
                    get_file_data (if b then fs else put fs (path_of p) (new_config p)) (path_of p))
                  real
              ∙ get_file_data-put fs (path_of p) (new_config p)
          | inr same ↦
              ap (λ r. get_file_data r.files (path_of p))
                (no_diff p links activate (before fs) same)
              ∙ beq→eq (get_file_data fs (path_of p)) (new_config p) (ground arith)
        ] in
      (
        written,
        λ now again.
            no_diff p now again (before (apply_eni p links activate (before fs)).files)
              (ap (λ t. not (t == new_config p)) written ∙ ap not (beq_refl (new_config p))),
      )

  no_failures : (xs : List Str) → p.noop ≡ true → failures p links xs ≡ []
  unfolding failures select
  no_failures [] noop = refl
  no_failures (x ∷ xs) noop =
      ap (λ b. if not (b || links.is_up x) then x ∷ failures p links xs else failures p links xs)
        noop
      ∙ no_failures xs noop

  -- In noop mode no file is written and no error is raised.
  pub apply_eni-noop :
      (fs : Files) (activate : Bool)
      → p.noop ≡ true
      → ((apply_eni p links activate (before fs)).files ≡ fs)
        × ((apply_eni p links activate (before fs)).raised ≡ false)
  apply_eni-noop fs activate noop = elim (Bool-cases (diff fs (path_of p) (new_config p))) [
    | inl differ ↦ changed activate differ
    | inr same ↦ (
      ap (λ r. r.files) (no_diff p links activate (before fs) same),
      ap (λ r. r.raised) (no_diff p links activate (before fs) same),
    )
  ]
    where
      changed :
          (activate : Bool)
          → diff fs (path_of p) (new_config p) ≡ true
          → ((apply_eni p links activate (before fs)).files ≡ fs)
            × ((apply_eni p links activate (before fs)).raised ≡ false)
      changed true differ =
          let done = apply_eni-commands p links fs (λ name. ground (arith, noop)) differ in
          (
            ap (λ r. r.files) done
                ∙ ap (λ b. if b then fs else put fs (path_of p) (new_config p)) noop,
            ap (λ r. r.raised) done
                ∙ ap has_items (no_failures (keys p.bridges ++ keys p.interfaces) noop),
          )
      changed false differ =
          let done = without_activation p links fs differ in
          (
            ap (λ r. r.files) done
                ∙ ap (λ b. if b then fs else put fs (path_of p) (new_config p)) noop,
            ap (λ r. r.raised) done,
          )
