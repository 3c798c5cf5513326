-- ===== src/Cli/Sriov.antt =====
-- What the search for SR-IOV physical functions of os_net_config/cli.py finds, and which objects
-- the two passes of `main` add.
use os_net_config.Base.{
  ◌≡◌, refl, sym, ap, ◌∙◌, inl, inr, Bool, true, false, ◌&&◌, ◌||◌, not, Option, none, some, List,
  [], ◌∷◌, ◌++◌, map, arith, Bool-cases, nat_eq, str_eq, option_str_eq, select,
}
use os_net_config.Objects.{
  BaseOpts, Kind, Object, Members, node, route_table, nil, cons, has_members, sriov_pf,
}
use mathlib.Core.List.{append-nil, append_assoc}
use os_net_config.Cli.{
  is_sriov_pf, is_sriovpf_obj_found, found_in_members, Passes, before_passes, add_pf, first_pass,
  add_others, second_pass,
}

-- Whether the object is a physical function, or holds one at any depth
unfoldable mutual
  pub holds_pf : Object → Bool
  holds_pf (node b (sriov_pf link_mode ethtool_opts) ms) = true
  holds_pf (node b k ms) = has_members k && holds_pf_in ms
  holds_pf (route_table n i) = false

  pub holds_pf_in : Members → Bool
  holds_pf_in nil = false
  holds_pf_in (cons o ms) = holds_pf o || holds_pf_in ms

-- Whether a member is a physical function itself
unfoldable pub any_pf : Members → Bool
any_pf nil = false
any_pf (cons o ms) = is_sriov_pf o || any_pf ms

-- What the search finds in the last member; `v` if there is none
unfoldable pub last_found : Bool → Members → Bool
last_found v nil = v
last_found v (cons o ms) = last_found (is_sriovpf_obj_found o) ms

found_in_members-any_pf :
    (ms : Members) (v : Bool) → found_in_members v ms ≡ (any_pf ms || last_found v ms)
unfolding found_in_members any_pf last_found
found_in_members-any_pf nil v = refl
found_in_members-any_pf (cons o ms) v = elim (Bool-cases (is_sriov_pf o)) [
  | inl pf ↦ rw pf
  | inr other ↦ rw other (found_in_members-any_pf ms (is_sriovpf_obj_found o))
]

-- The search in an object with members, which is no physical function itself, finds something
-- exactly if a member is a physical function or if the search in the last member finds something:
-- what other members hold is overlooked.
pub is_sriovpf_obj_found-last :
    (b : BaseOpts) (k : Kind) (ms : Members)
    → is_sriov_pf (node b k ms) ≡ false
    → is_sriovpf_obj_found (node b k ms) ≡ (has_members k && (any_pf ms || last_found false ms))
unfolding is_sriovpf_obj_found
is_sriovpf_obj_found-last b (sriov_pf link_mode ethtool_opts) ms h = absurd (ground arith)
is_sriovpf_obj_found-last b k ms h = ap (λ x. has_members k && x) (found_in_members-any_pf ms false)

is_sriov_pf-holds_pf : (o : Object) → is_sriov_pf o ≡ true → holds_pf o ≡ true
unfolding holds_pf
is_sriov_pf-holds_pf (node b (sriov_pf link_mode ethtool_opts) ms) h = refl
is_sriov_pf-holds_pf (node b k ms) h = absurd (ground arith)
is_sriov_pf-holds_pf (route_table n i) h = absurd (ground arith)

mutual
  unfolding is_sriovpf_obj_found holds_pf

  -- What the search finds is there.
  found-holds_pf : (o : Object) → is_sriovpf_obj_found o ≡ true → holds_pf o ≡ true
  found-holds_pf (node b (sriov_pf link_mode ethtool_opts) ms) h = refl
  found-holds_pf (node b k ms) h = ground (arith, found_in_members-holds_pf ms false)
  found-holds_pf (route_table n i) h = h

  found_in_members-holds_pf :
      (ms : Members) (v : Bool) → found_in_members v ms ≡ true → (v || holds_pf_in ms) ≡ true
  found_in_members-holds_pf nil v h = ground arith
  found_in_members-holds_pf (cons o ms) v h = ground (
    arith,
    is_sriov_pf-holds_pf o,
    found-holds_pf o,
    found_in_members-holds_pf ms (is_sriovpf_obj_found o),
  )

-- The objects that are there
unfoldable pub present : List (Option Object) → List Object
present [] = []
present (none ∷ objs) = present objs
present (some o ∷ objs) = o ∷ present objs

abbrev pub other : Object → Bool
other o = not (is_sriovpf_obj_found o)

-- Each object that is not there counts as the one before.
unfoldable pub filled : Object → List (Option Object) → List Object
filled before [] = []
filled before (none ∷ objs) = before ∷ filled before objs
filled before (some o ∷ objs) = o ∷ filled o objs

module _ (o : Object) (objs : List Object) (s : Passes) where
  add_pf-added :
      (add_pf o s).added ++ select is_sriovpf_obj_found objs
      ≡ s.added ++ select is_sriovpf_obj_found (o ∷ objs)
  unfolding add_pf select
  add_pf-added = elim (Bool-cases (is_sriovpf_obj_found o)) [
    | inl found ↦ rw found (append_assoc s.added (o ∷ []) (select is_sriovpf_obj_found objs))
    | inr quiet ↦ rw quiet
  ]

  add_others-added :
      (add_others o s).added ++ select other objs ≡ s.added ++ select other (o ∷ objs)
  unfolding add_others select
  add_others-added = elim (Bool-cases (is_sriovpf_obj_found o)) [
    | inl found ↦ rw found
    | inr quiet ↦ rw quiet (append_assoc s.added (o ∷ []) (select other objs))
  ]

  add_others-obj : (add_others o s).obj ≡ some o
  unfolding add_others
  add_others-obj = elim (Bool-cases (is_sriovpf_obj_found o)) [
    | inl found ↦ rw found
    | inr quiet ↦ rw quiet
  ]

first_pass-added :
    (objs : List (Option Object)) (s : Passes)
    → (first_pass objs s).added ≡ s.added ++ select is_sriovpf_obj_found (present objs)
unfolding first_pass present
first_pass-added [] s = unfold select in sym (append-nil s.added)
first_pass-added (none ∷ objs) s = first_pass-added objs s
first_pass-added (some o ∷ objs) s =
    first_pass-added objs (add_pf o s) ∙ add_pf-added o (present objs) s

-- The pass ends, and has added these objects.
abbrev EndsWith : Option Passes → List Object → Type 0
EndsWith result objs = (s : Passes) × (result ≡ some s) × (s.added ≡ objs)

second_pass_missing :
    (objs : List (Option Object)) (before : Object) (s : Passes)
    → s.obj ≡ some before
    → second_pass true (none ∷ objs) s ≡ second_pass true objs (add_others before s)
unfolding second_pass
second_pass_missing objs before s h =
    ap
      (λ (found : Option Object). elim found [
        | none ↦ none
        | some o ↦ second_pass true objs (add_others o s)
      ])
      h

second_pass_found :
    (noop : Bool) (o : Object) (objs : List (Option Object)) (s : Passes)
    → second_pass noop (some o ∷ objs) s ≡ second_pass noop objs (add_others o s)
unfolding second_pass
second_pass_found noop o objs s = refl

-- A dry run adds, for each object that is not there, the one before it.
second_pass-filled :
    (objs : List (Option Object)) (before : Object) (s : Passes)
    → s.obj ≡ some before
    → EndsWith (second_pass true objs s) (s.added ++ select other (filled before objs))
unfolding filled
second_pass-filled [] before s h =
    (s, unfold second_pass in refl, unfold select in sym (append-nil s.added))
second_pass-filled (none ∷ objs) before s h =
    let (r, e, added) =
      second_pass-filled objs before (add_others before s) (add_others-obj before [] s) in
    (
      r,
      second_pass_missing objs before s h ∙ e,
      added ∙ add_others-added before (filled before objs) s,
    )
second_pass-filled (some o ∷ objs) before s h =
    let (r, e, added) = second_pass-filled objs o (add_others o s) (add_others-obj o [] s) in
    (r, (second_pass_found true o objs s) ∙ e, added ∙ add_others-added o (filled o objs) s)

second_pass-all :
    (noop : Bool) (objs : List Object) (s : Passes)
    → EndsWith (second_pass noop (map some objs) s) (s.added ++ select other objs)
second_pass-all noop [] s =
    (s, unfold second_pass in refl, unfold select in sym (append-nil s.added))
second_pass-all noop (o ∷ objs) s =
    let (r, e, added) = second_pass-all noop objs (add_others o s) in
    (r, (second_pass_found noop o (map some objs) s) ∙ e, added ∙ add_others-added o objs s)

-- If the second pass finds every object, it raises no error, and the provider is given first the
-- objects of the first pass in which physical functions are found, and then all others of the
-- second pass, each in the order of the file.
pub passes-added :
    (noop : Bool) (first : List (Option Object)) (objs : List Object)
    → (s : Passes) × (second_pass noop (map some objs) (first_pass first before_passes) ≡ some s)
      × (s.added ≡ select is_sriovpf_obj_found (present first) ++ select other objs)
passes-added noop first objs =
    let (s, e, added) = second_pass-all noop objs (first_pass first before_passes) in
    (s, e, added ∙ ap (λ l. l ++ select other objs) (first_pass-added first before_passes))
