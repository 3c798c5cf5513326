-- ===== src/Ifcfg/Apply/Updates.antt =====
-- The files that `apply` rewrites, loop by loop, apart from all else that the loops fill.
use os_net_config.Base.{
  ◌≡◌, sym, ap, ◌∙◌, ◌⊎◌, inl, inr, true, some, [], ◌∷◌, ◌++◌, arith, if◌then◌else◌, Bool-cases,
  ◌==◌, beq_refl, beq→eq, nat_eq, str_eq, option_str_eq,
}
use os_net_config.Base.Str.{Str}
use os_net_config.Base.Dict.{Dict, get, has, put, get-put, has-put, put-UniqueKeys, UniqueKeys}
use os_net_config.Ifcfg.Parse.{Files, get_file_data}
use os_net_config.Ifcfg.Apply.{
  diff, interface_path, route_path, route6_path_of, rule_path, routes_of, routes6_of, rules_of,
  NetConfig,
}

-- The files of one dict of objects, with the contents that they should have.
unfoldable pub files_of : NetConfig → Dict Str Str → Dict Str Str
files_of c [] = []
files_of c ((name, file_data) ∷ rest) =
    (interface_path c name, file_data)
    ∷ (route_path c name, routes_of c name)
    ∷ (route6_path_of c name, routes6_of c name)
    ∷ (rule_path c name, rules_of c name)
    ∷ files_of c rest

-- All files of a configuration that has no Linux bridge.
unfoldable pub wanted : NetConfig → Dict Str Str
wanted c =
    files_of c c.interface_data
    ++ (files_of c c.ivsinterface_data
        ++ (files_of c c.nfvswitch_intiface_data
            ++ (files_of c c.bridge_data
                ++ (files_of c c.linuxteam_data
                    ++ (files_of c c.linuxbond_data
                        ++ (files_of c c.ib_interface_data
                            ++ (files_of c c.vlan_data ++ files_of c c.ib_childs_data)))))))

-- The pair stands in the list.
abbrev pub Entry : Dict Str Str → Str → Str → Type 0
Entry [] path file_data = ⊥
Entry ((p, d) ∷ l) path file_data = ((p ≡ path) × (d ≡ file_data)) ⊎ Entry l path file_data

pub Entry-append :
    (k l : Dict Str Str) (path d : Str) → Entry (k ++ l) path d → Entry k path d ⊎ Entry l path d
Entry-append [] l path d h = inr h
Entry-append ((p, e) ∷ k) l path d (inl here) = inl (inl here)
Entry-append ((p, e) ∷ k) l path d (inr more) = elim (Entry-append k l path d more) [
  | inl left ↦ inl (inr left)
  | inr right ↦ inr right
]

pub Entry-left : (k l : Dict Str Str) (path d : Str) → Entry k path d → Entry (k ++ l) path d
Entry-left [] l path d h = absurd h
Entry-left ((p, e) ∷ k) l path d (inl here) = inl here
Entry-left ((p, e) ∷ k) l path d (inr more) = inr (Entry-left k l path d more)

pub Entry-right : (k l : Dict Str Str) (path d : Str) → Entry l path d → Entry (k ++ l) path d
Entry-right [] l path d h = h
Entry-right ((p, e) ∷ k) l path d h = inr (Entry-right k l path d h)

module _ (fs : Files) where
  -- What happens to `update_files` on the way from `u` to `v`: what is new is listed, nothing is
  -- lost, and each listed file is updated or has its contents already.
  pub record Step (l u v : Dict Str Str) : Type 0 where
    pub sound : (path d : Str) → get v path ≡ some d → (get u path ≡ some d) ⊎ Entry l path d
    pub unique : UniqueKeys u → UniqueKeys v
    pub keeps : (path : Str) → has u path ≡ true → has v path ≡ true
    pub covers : (path d : Str) → Entry l path d → (has v path ≡ true) ⊎ (get_file_data fs path ≡ d)

  pub Step-refl : (u : Dict Str Str) → Step [] u u
  Step-refl u = record {
    sound = λ path d h. inl h;
    unique = λ h. h;
    keeps = λ path h. h;
    covers = λ path d h. absurd h;
  }

  pub Step-append : (k l u v w : Dict Str Str) → Step k u v → Step l v w → Step (k ++ l) u w
  Step-append k l u v w s t = record {
    sound = λ path d h. elim (t.sound path d h) [
      | inl old ↦ elim (s.sound path d old) [
        | inl older ↦ inl older
        | inr here ↦ inr (Entry-left k l path d here)
      ]
      | inr here ↦ inr (Entry-right k l path d here)
    ];
    unique = λ h. t.unique (s.unique h);
    keeps = λ path h. t.keeps path (s.keeps path h);
    covers = λ path d h. elim (Entry-append k l path d h) [
      | inl left ↦ elim (s.covers path d left) [
        | inl written ↦ inl (t.keeps path written)
        | inr there ↦ inr there
      ]
      | inr right ↦ t.covers path d right
    ];
  }

  pub Step-put : (path d : Str) (u : Dict Str Str) → Step ((path, d) ∷ []) u (put u path d)
  Step-put path d u = record {
    sound = λ q e h. elim (Bool-cases (path == q)) [
      | inl same ↦ inr (inl (beq→eq path q same, ground (arith, get-put u path d q)))
      | inr differ ↦ inl (ground (arith, get-put u path d q))
    ];
    unique = λ h. put-UniqueKeys u path d h;
    keeps = λ q h. has-put u path d q ∙ ground arith;
    covers = λ q e h. elim h [
      | inl here ↦ inl (has-put u path d q ∙ ground (arith, here.0, beq_refl q))
      | inr more ↦ absurd more
    ];
  }

  -- `if utils.diff(path, data): update_files[path] = data`, on the dict alone.
  unfoldable pub note_file : Str → Str → Dict Str Str → Dict Str Str
  note_file path d u = if diff fs path d then put u path d else u

  pub Step-note_file :
      (path d : Str) (u : Dict Str Str) → Step ((path, d) ∷ []) u (note_file path d u)
  unfolding note_file
  Step-note_file path d u = elim (Bool-cases (diff fs path d)) [
    | inl new ↦ rw new (Step-put path d u)
    | inr old ↦ rw old (record {
      sound = λ q e h. inl h;
      unique = λ h. h;
      keeps = λ q h. h;
      covers = λ q e h. elim h [
        | inl here ↦ inr (
            ap (get_file_data fs) (sym here.0)
            ∙ (beq→eq _ d (unfold diff in ground (arith, old)) ∙ here.1))
        | inr more ↦ absurd more
      ];
    })
  ]

  unfoldable pub note_files : Dict Str Str → Dict Str Str → Dict Str Str
  note_files [] u = u
  note_files ((path, d) ∷ l) u = note_files l (note_file path d u)

  pub Step-note_files : (l u : Dict Str Str) → Step l u (note_files l u)
  unfolding note_files
  Step-note_files [] u = Step-refl u
  Step-note_files ((path, d) ∷ l) u =
      Step-append ((path, d) ∷ []) l u (note_file path d u) _ (Step-note_file path d u)
        (Step-note_files l (note_file path d u))
