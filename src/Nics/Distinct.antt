-- ===== src/Nics/Distinct.antt =====
-- The interfaces in the result of `mapped_nics` differ.
use os_net_config.Base.{
  ◌≡◌, refl, sym, ◌∙◌, subst, inl, inr, false, ◌&&◌, ◌||◌, Option, none, some, List, [], ◌∷◌, arith,
  if◌then◌else◌, Bool-cases, Option-cases, ◌==◌, beq_refl, beq→eq, beq_sym, nat_eq, str_eq,
  option_str_eq, contains, NodupB,
}
use os_net_config.Base.Str.{Str}
use os_net_config.Base.Dict.{Dict, values, has, put, has-put, UniqueKeys}
use os_net_config.Nics.Mapped.{
  resolve, map_entries, numbered, add_numbered, mapped_nics, NicEnv, IsRest,
}
use mathlib.Core.Option.{some-injective}

contains-values-put :
    (d : Dict Str Str) (k v a : Str)
    → has d k ≡ false
    → contains (values (put d k v)) a ≡ (contains (values d) a || (v == a))
unfolding values put has contains
contains-values-put [] k v a h = ground arith
contains-values-put ((j, w) ∷ d) k v a h = ground (arith, contains-values-put d k v a)

values-put-NodupB :
    (d : Dict Str Str) (k v : Str)
    → has d k ≡ false
    → contains (values d) v ≡ false
    → NodupB (values d)
    → NodupB (values (put d k v))
unfolding values put has contains
values-put-NodupB [] k v h g u = (refl, tt)
values-put-NodupB ((j, w) ∷ d) k v h g (fresh, u) = elim (Bool-cases (j == k)) [
  | inl same ↦ absurd (ground arith)
  | inr differ ↦ rw differ (
    ground (arith, contains-values-put d k v w, beq_sym w v),
    values-put-NodupB d k v (ground arith) (ground arith) u,
  )
]

-- No alias of the mapping is in use.
abbrev Fresh : Dict Str Str → Dict Str Str → Type 0
Fresh mapped [] = Unit {0}
Fresh mapped ((nic_alias, nic) ∷ mapping) = (has mapped nic_alias ≡ false) × Fresh mapped mapping

Fresh-nil : (mapping : Dict Str Str) → Fresh [] mapping
unfolding has
Fresh-nil [] = tt
Fresh-nil ((a, n) ∷ mapping) = (refl, Fresh-nil mapping)

Fresh-put :
    (mapped mapping : Dict Str Str) (nic_alias nic : Str)
    → has mapping nic_alias ≡ false
    → Fresh mapped mapping
    → Fresh (put mapped nic_alias nic) mapping
unfolding has
Fresh-put mapped [] a n h f = tt
Fresh-put mapped ((b, m) ∷ mapping) a n h (new, f) = (
  ground (arith, has-put mapped a n b, beq_sym a b),
  Fresh-put mapped mapping a n (ground arith) f,
)

module _ (env : NicEnv) where
  -- What one entry does.
  abbrev one_entry : Dict Str Str → Dict Str Str → Str → Option Str → Option (Dict Str Str)
  one_entry mapping mapped nic_alias none = map_entries env mapping mapped
  one_entry mapping mapped nic_alias (some nic) =
      if contains (values mapped) nic || env.is_active nic_alias
      then none
      else map_entries env mapping (put mapped nic_alias nic)

  map_entries-one :
      (nic_alias nic : Str) (mapping mapped : Dict Str Str)
      → map_entries env ((nic_alias, nic) ∷ mapping) mapped
        ≡ one_entry mapping mapped nic_alias (resolve env nic)
  unfolding map_entries
  map_entries-one nic_alias nic mapping mapped = elim (Option-cases (resolve env nic)) [
    | inl gone ↦ rw (gone, map_entries) refl
    | inr (n, found) ↦ rw (found, map_entries) refl
  ]

  map_entries-NodupB :
      (mapping mapped result : Dict Str Str)
      → UniqueKeys mapping
      → Fresh mapped mapping
      → NodupB (values mapped)
      → map_entries env mapping mapped ≡ some result
      → NodupB (values result)
  unfolding map_entries
  map_entries-NodupB [] mapped result u f n h =
      subst (λ m. NodupB (values m)) (some-injective mapped result h) n
  map_entries-NodupB ((nic_alias, nic) ∷ mapping) mapped result (once, u) (new, f) n h =
      entry (λ m. map_entries-NodupB mapping m result u) (resolve env nic)
        (sym (map_entries-one nic_alias nic mapping mapped) ∙ h)
    where
      entry :
          ((m : Dict Str Str)
            → Fresh m mapping
            → NodupB (values m)
            → map_entries env mapping m ≡ some result
            → NodupB (values result))
          → (o : Option Str) → one_entry mapping mapped nic_alias o ≡ some result
          → NodupB (values result)
      entry further none e = further mapped f n e
      entry further (some m) e =
          elim (Bool-cases (contains (values mapped) m || env.is_active nic_alias)) [
            | inl refused ↦ absurd (ground arith)
            | inr fine ↦
                further (put mapped nic_alias m) (Fresh-put mapped mapping nic_alias m once f)
                  (values-put-NodupB mapped nic_alias m new (ground arith) n) (ground arith)
          ]

  add_numbered-NodupB :
      (rest : List Str) (mapped : Dict Str Str)
      → NodupB rest
      → ((nic : Str) → (contains rest nic && contains (values mapped) nic) ≡ false)
      → NodupB (values mapped)
      → NodupB (values (add_numbered env rest mapped))
  unfolding add_numbered contains
  add_numbered-NodupB [] mapped once apart n = n
  add_numbered-NodupB (nic ∷ rest) mapped (fresh, once) apart n =
      elim (Bool-cases (has mapped (numbered env nic))) [
        | inl taken ↦
            rw taken (add_numbered-NodupB rest mapped once (λ a. ground (arith, apart a)) n)
        | inr free ↦ rw free (
            add_numbered-NodupB rest (put mapped (numbered env nic) nic) once
              (λ a. ground (
                arith,
                apart a,
                contains-values-put mapped (numbered env nic) nic a free,
                beq→eq nic a,
              ))
              (values-put-NodupB mapped (numbered env nic) nic free
                (ground (arith, apart nic, beq_refl nic)) n))
      ]

  -- No interface has two aliases: the interfaces of the result differ, whatever order the set of
  -- the active ones that are left has.
  pub mapped_nics-NodupB :
      (mapping result : Dict Str Str) (rest : Dict Str Str → List Str)
      → UniqueKeys mapping
      → ((mapped : Dict Str Str) → IsRest env mapped (rest mapped))
      → mapped_nics env mapping rest ≡ some result
      → NodupB (values result)
  unfolding mapped_nics
  mapped_nics-NodupB mapping result rest u order h =
      elim (Option-cases (map_entries env mapping [])) [
        | inl raised ↦ absurd (ground (arith, h))
        | inr (mapped, ok) ↦
            let same : add_numbered env (rest mapped) mapped ≡ result = ground (arith, h, ok) in
            subst (λ m. NodupB {A = Str} (values m)) same
              (add_numbered-NodupB (rest mapped) mapped (order mapped).once
                (λ a. ground (arith, (order mapped).members a))
                (map_entries-NodupB mapping [] mapped u (Fresh-nil mapping) (unfold values in tt)
                  ok))
      ]
