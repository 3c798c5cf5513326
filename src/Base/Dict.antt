-- ===== src/Base/Dict.antt =====
-- Python's `dict`, in insertion order.
use mathlib.Core.Path.{◌≡◌, refl}
use mathlib.Core.Bool.{Bool, true, false, ◌||◌}
use os_net_config.Base.Equality.{beq_refl, Eq, ◌==◌}
use mathlib.Core.Option.{Option, none, some}
use mathlib.Core.List.{List, [], ◌∷◌, ◌++◌}
use native.Mathlib.Omega.{arith}
use os_net_config.Base.Tests.{if◌then◌else◌, is_some}
use os_net_config.Base.Lists.{contains}
use os_net_config.Base.{◌∙◌, beq→eq, beq_sym, ap}

abbrev pub Dict {ℓ κ} : Type ℓ → Type κ → Type (ℓ ⊔ κ)
Dict K V = List (K × V)

module _ {ℓ κ} {K : Type ℓ} {V : Type κ} where
  -- `d.keys()`
  unfoldable pub keys : Dict K V → List K
  keys [] = []
  keys ((k, v) ∷ d) = k ∷ keys d

  -- `d.values()`
  unfoldable pub values : Dict K V → List V
  values [] = []
  values ((k, v) ∷ d) = v ∷ values d

module _ {ℓ κ} {K : Type ℓ} {V : Type κ} ⦃e : Eq K⦄ where
  -- `d.get(k)`
  unfoldable pub get : Dict K V → K → Option V
  get [] k = none
  get ((j, v) ∷ d) k = if j == k then some v else get d k

  -- `k in d`
  unfoldable pub has : Dict K V → K → Bool
  has [] k = false
  has ((j, v) ∷ d) k = (j == k) || has d k

  -- `d[k] = v`: the entry keeps its place if the key is there.
  unfoldable pub put : Dict K V → K → V → Dict K V
  put [] k v = (k, v) ∷ []
  put ((j, w) ∷ d) k v = if j == k then (j, v) ∷ d else (j, w) ∷ put d k v

  pub get-put :
      (d : Dict K V) (k : K) (v : V) (j : K)
      → get (put d k v) j ≡ (if k == j then some v else get d j)
  unfolding get put
  get-put [] k v j = refl
  get-put ((i, w) ∷ d) k v j =
      ground (arith, get-put d k v j, e.beq_iff i k, e.beq_iff i j, e.beq_iff k j)

  pub has-put : (d : Dict K V) (k : K) (v : V) (j : K) → has (put d k v) j ≡ ((k == j) || has d j)
  unfolding has put
  has-put [] k v j = refl
  has-put ((i, w) ∷ d) k v j =
      ground (arith, has-put d k v j, e.beq_iff i k, e.beq_iff i j, e.beq_iff k j)

  pub has-append : (d e : Dict K V) (k : K) → has (d ++ e) k ≡ (has d k || has e k)
  unfolding has
  has-append [] e k = refl
  has-append ((j, v) ∷ d) e k = ground (arith, has-append d e k)

  pub has-eq-is_some : (d : Dict K V) (k : K) → has d k ≡ is_some (get d k)
  unfolding has get
  has-eq-is_some [] k = refl
  has-eq-is_some ((j, v) ∷ d) k = ground (arith, has-eq-is_some d k)

  pub contains-keys : (d : Dict K V) (k : K) → contains (keys d) k ≡ has d k
  unfolding contains keys has
  contains-keys [] k = refl
  contains-keys ((j, v) ∷ d) k = ground (arith, contains-keys d k)

pub ruleset dict_laws = (get-put, has-put, has-eq-is_some)

-- The value of the last entry for a key; `found` if there is none.
abbrev pub last_of {ℓ κ} : {K : Type ℓ} {V : Type κ} ⦃e : Eq K⦄ → Dict K V → K → Option V → Option V
last_of [] k found = found
last_of ((j, v) ∷ d) k found = last_of d k (if j == k then some v else found)

module _ {ℓ κ} {K : Type ℓ} {V : Type κ} ⦃e : Eq K⦄ where
  -- `d.update(entries)`
  unfoldable pub update : Dict K V → Dict K V → Dict K V
  update d [] = d
  update d ((k, v) ∷ entries) = update (put d k v) entries

  pub get-update :
      (entries d : Dict K V) (k : K) → get (update d entries) k ≡ last_of entries k (get d k)
  unfolding update
  get-update [] d k = refl
  get-update ((j, v) ∷ entries) d k =
      get-update entries (put d j v) k ∙ ap (last_of entries k) (get-put d j v k)

  pub has-update :
      (d entries : Dict K V) (k : K) → has (update d entries) k ≡ (has d k || has entries k)
  unfolding update has
  has-update d [] k = ground arith
  has-update d ((j, v) ∷ entries) k =
      has-update (put d j v) entries k ∙ ground (arith, has-put d j v k)

  -- `del d[k]` of each entry that does not meet the test
  unfoldable pub keep_values : (V → Bool) → Dict K V → Dict K V
  keep_values test [] = []
  keep_values test ((k, v) ∷ d) =
      let rest = keep_values test d in if test v then (k, v) ∷ rest else rest

  -- No key has two entries.
  abbrev pub UniqueKeys : Dict K V → Type 0
  UniqueKeys [] = Unit {0}
  UniqueKeys ((k, v) ∷ d) = (has d k ≡ false) × UniqueKeys d

  first_key : (d : Dict K V) (k : K) (v : V) → has ((k, v) ∷ d) k ≡ true
  unfolding has
  first_key d k v = ground (arith, beq_refl k)

  later_key : (d : Dict K V) (j k : K) (v : V) → has d j ≡ true → has ((k, v) ∷ d) j ≡ true
  unfolding has
  later_key d j k v h = ground arith

  pub append-UniqueKeys :
      (d e : Dict K V)
      → UniqueKeys d
      → UniqueKeys e
      → ((k : K) → has d k ≡ true → has e k ≡ false)
      → UniqueKeys (d ++ e)
  append-UniqueKeys [] e u w h = w
  append-UniqueKeys ((k, v) ∷ d) e (fresh, u) w h = (
    has-append d e k ∙ ground (arith, fresh, h k (first_key d k v)),
    append-UniqueKeys d e u w (λ j m. h j (later_key d j k v m)),
  )

  pub put-UniqueKeys : (d : Dict K V) (k : K) (v : V) → UniqueKeys d → UniqueKeys (put d k v)
  unfolding put
  put-UniqueKeys [] k v u = unfold has in (refl, tt)
  put-UniqueKeys ((j, w) ∷ d) k v u =
      ground (arith, has-put d k v j, beq_sym k j, put-UniqueKeys d k v u.1)

  pub update-UniqueKeys : (d entries : Dict K V) → UniqueKeys d → UniqueKeys (update d entries)
  unfolding update
  update-UniqueKeys d [] u = u
  update-UniqueKeys d ((k, v) ∷ entries) u =
      update-UniqueKeys (put d k v) entries (put-UniqueKeys d k v u)

  pub get-keep_values :
      (test : V → Bool) (d : Dict K V) (k : K)
      → UniqueKeys d
      → get (keep_values test d) k
        ≡ elim (get d k) [ none ↦ none | some v ↦ if test v then some v else none ]
  unfolding get keep_values has
  get-keep_values test [] k u = refl
  get-keep_values test ((j, v) ∷ d) k (fresh, u) =
      ground (arith, get-keep_values test d k u, has-eq-is_some d k, beq→eq j k)
