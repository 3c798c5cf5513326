-- ===== src/Ifcfg/Apply/Names.antt =====
-- When no file of a configuration is asked for with two contents: no name is in two dicts.
use os_net_config.Base.{
  ℕ, zero, suc, ◌≡◌, refl, sym, ap, ◌∙◌, subst, inl, inr, Bool, false, none, some, [], ◌∷◌, ◌++◌,
  arith, if◌then◌else◌, ◌==◌, beq_refl, beq→eq, nat_eq, str_eq, get_elem?,
}
use os_net_config.Base.Str.{Str, str}
use os_net_config.Base.Dict.{Dict, get, has-eq-is_some, UniqueKeys}
use os_net_config.Ifcfg.Apply.{
  NetConfig, ifcfg_config_path, route_config_path, route6_config_path, route_rule_config_path,
  routes_of, routes6_of, rules_of,
}
use os_net_config.Ifcfg.Apply.Updates.{files_of, wanted, Entry}
use os_net_config.Ifcfg.Apply.Quiet.{IsConsistent}

-- The four files of an object
data FileKind : Type 0 where
  ifcfg_file route_file route6_file rule_file : FileKind

file_path : FileKind → Str → Str
file_path ifcfg_file name = ifcfg_config_path name
file_path route_file name = route_config_path name
file_path route6_file name = route6_config_path name
file_path rule_file name = route_rule_config_path name

abbrev kind_number : FileKind → ℕ
kind_number ifcfg_file = 0
kind_number route_file = 1
kind_number route6_file = 2
kind_number rule_file = 3

abbrev drop : ℕ → Str → Str
drop zero s = s
drop (suc n) [] = []
drop (suc n) (c ∷ s) = drop n s

abbrev char_is : Str → ℕ → ℕ → Bool
char_is s i c = elim (get_elem? s i) [ none ↦ false | some d ↦ d == c ]

-- The kind and the name, from the path
decode : Str → ℕ × Str
decode s =
    if char_is s 31 b'i'
    then (0, drop 37 s)
    else if char_is s 32 b'u'
    then (3, drop 36 s)
    else if char_is s 36 b'-'
    then (1, drop 37 s)
    else (2, drop 38 s)

decode-file_path : (j : FileKind) (name : Str) → decode (file_path j name) ≡ (kind_number j, name)
unfolding decode file_path ifcfg_config_path route_config_path route6_config_path
    route_rule_config_path str
decode-file_path ifcfg_file name = refl
decode-file_path route_file name = refl
decode-file_path route6_file name = refl
decode-file_path rule_file name = refl

drop_root : (root s t : Str) → root ++ s ≡ root ++ t → s ≡ t
drop_root [] s t h = h
drop_root (c ∷ root) s t h = drop_root root s t (cc h)

module _ (c : NetConfig) where
  -- All files of objects
  abbrev pub all_data : Dict Str Str
  all_data =
      c.interface_data
      ++ (c.ivsinterface_data
          ++ (c.nfvswitch_intiface_data
              ++ (c.bridge_data
                  ++ (c.linuxteam_data
                      ++ (c.linuxbond_data
                          ++ (c.ib_interface_data ++ (c.vlan_data ++ c.ib_childs_data)))))))

  -- What is asked for in a file of the kind
  abbrev Asked : Dict Str Str → FileKind → Str → Str → Type 0
  Asked d ifcfg_file name contents = Entry d name contents
  Asked d route_file name contents = routes_of c name ≡ contents
  Asked d route6_file name contents = routes6_of c name ≡ contents
  Asked d rule_file name contents = rules_of c name ≡ contents

  abbrev Found : Dict Str Str → Str → Str → Type 0
  Found d path contents =
      (j : FileKind) × (name : Str) × (c.root_dir ++ file_path j name ≡ path)
      × Asked d j name contents

  Asked-cons :
      (d : Dict Str Str) (n text : Str) (j : FileKind) (name contents : Str)
      → Asked d j name contents
      → Asked ((n, text) ∷ d) j name contents
  Asked-cons d n text ifcfg_file name contents h = inr h
  Asked-cons d n text route_file name contents h = h
  Asked-cons d n text route6_file name contents h = h
  Asked-cons d n text rule_file name contents h = h

  Entry-Found :
      (d : Dict Str Str) (path contents : Str)
      → Entry (files_of c d) path contents
      → Found d path contents
  unfolding files_of file_path
  Entry-Found [] path contents h = absurd h
  Entry-Found ((n, text) ∷ d) path contents (inl (e, f)) = (ifcfg_file, n, e, inl (refl, f))
  Entry-Found ((n, text) ∷ d) path contents (inr (inl (e, f))) = (route_file, n, e, f)
  Entry-Found ((n, text) ∷ d) path contents (inr (inr (inl (e, f)))) = (route6_file, n, e, f)
  Entry-Found ((n, text) ∷ d) path contents (inr (inr (inr (inl (e, f))))) = (rule_file, n, e, f)
  Entry-Found ((n, text) ∷ d) path contents (inr (inr (inr (inr h)))) =
      let (j, name, e, a) = Entry-Found d path contents h in
      (j, name, e, Asked-cons d n text j name contents a)

  files_of-append : (d e : Dict Str Str) → files_of c (d ++ e) ≡ files_of c d ++ files_of c e
  unfolding files_of
  files_of-append [] e = refl
  files_of-append ((n, text) ∷ d) e = rw (files_of-append d e)

  pub wanted-all_data : wanted c ≡ files_of c all_data
  unfolding wanted
  wanted-all_data = sym (simp files_of-append)

Entry-get :
    (d : Dict Str Str) (name text : Str) → UniqueKeys d → Entry d name text → get d name ≡ some text
unfolding get
Entry-get [] name text u h = absurd h
Entry-get ((n, t) ∷ d) name text (fresh, u) (inl (e, f)) = ground (arith, beq_refl n)
Entry-get ((n, t) ∷ d) name text (fresh, u) (inr h) =
    ground (arith, Entry-get d name text u h, has-eq-is_some d n, beq→eq n name)

module _ (c : NetConfig) (unique : UniqueKeys (all_data c)) where
  Asked-unique :
      (j : FileKind) (name d e : Str)
      → Asked c (all_data c) j name d
      → Asked c (all_data c) j name e
      → d ≡ e
  Asked-unique ifcfg_file name d e h k =
      cc (Entry-get (all_data c) name d unique h, Entry-get (all_data c) name e unique k)
  Asked-unique route_file name d e h k = sym h ∙ k
  Asked-unique route6_file name d e h k = sym h ∙ k
  Asked-unique rule_file name d e h k = sym h ∙ k

  same_file :
      (j k : FileKind) (n m : Str)
      → file_path j n ≡ file_path k m
      → (kind_number j ≡ kind_number k) × (n ≡ m)
  same_file j k n m h =
      let e = sym (decode-file_path j n) ∙ (ap decode h ∙ decode-file_path k m) in
      (ap (λ p. p.0) e, ap (λ p. p.1) e)

  kind_of_number : (j k : FileKind) → kind_number j ≡ kind_number k → j ≡ k
  kind_of_number ifcfg_file ifcfg_file h = refl
  kind_of_number route_file route_file h = refl
  kind_of_number route6_file route6_file h = refl
  kind_of_number rule_file rule_file h = refl
  kind_of_number j k h = absurd (omega arith)

  -- If no name has two files, no file is asked for with two contents.
  pub unique-IsConsistent : IsConsistent c
  unique-IsConsistent path d e h k =
      let (i, n, p, a) =
        Entry-Found c (all_data c) path d (subst (λ l. Entry l path d) (wanted-all_data c) h) in
      let (j, m, q, b) =
        Entry-Found c (all_data c) path e (subst (λ l. Entry l path e) (wanted-all_data c) k) in
      let (same_kind, same_name) = same_file i j n m (drop_root c.root_dir _ _ (p ∙ sym q)) in
      Asked-unique j m d e
        (subst (λ x. Asked c (all_data c) x m d) (kind_of_number i j same_kind)
          (subst (λ x. Asked c (all_data c) i x d) same_name a))
        b
