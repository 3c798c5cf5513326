-- ===== src/Sriov/Numvfs.antt =====
-- `set_numvfs`, `set_drivers_autoprobe` and the numvfs part of `main` of
-- os_net_config/sriov_config.py.
use os_net_config.Base.{
  ℕ, ◌≡◌, refl, sym, ap, ◌∙◌, ◌≢◌, ◌⊎◌, inl, inr, Bool, not, Option, none, some, arith,
  if◌then◌else◌, Bool-cases, Option-cases, ◌==◌, beq_refl, beq→eq, ne→beq, beq→ne, nat_eq, str_eq,
  option_str_eq,
}
use os_net_config.Base.Str.{Str}

-- What /sys and the kernel do: the files `sriov_numvfs` and `sriov_drivers_autoprobe` of an
-- interface are read and written, where `none` is an IOError, and while the program waits for the
-- virtual functions the kernel goes on.
pub record Sysfs : Type 1 where
  pub State : Type 0
  pub read_numvfs : State → Str → Option ℕ
  pub write_numvfs : State → Str → ℕ → Option State
  pub read_autoprobe : State → Str → Option ℕ
  pub write_autoprobe : State → Str → ℕ → Option State
  pub wait_for_vf_creation : State → Str → ℕ → State

module _ (T : Sysfs) where
  -- The state that a call leaves, and its result; `none` is the exception that it raises.
  abbrev pub Outcome : Type 0
  Outcome = T.State × Option ℕ

  -- The end of `set_numvfs`: the number is read again and compared.
  unfoldable pub check_numvfs : Str → ℕ → T.State → Outcome
  check_numvfs ifname numvfs s = elim (T.read_numvfs s ifname) [
    | none ↦ (s, none)
    | some curr_numvfs ↦ if curr_numvfs == numvfs then (s, some curr_numvfs) else (s, none)
  ]

  -- `set_numvfs` of a number
  unfoldable pub set_numvfs : Str → ℕ → Bool → T.State → Outcome
  unfolding check_numvfs
  set_numvfs ifname numvfs autoprobe s = elim (T.read_numvfs s ifname) [
    | none ↦ (s, none)
    | some curr_numvfs ↦
        if numvfs == curr_numvfs
        then (s, some curr_numvfs)
        else if not (curr_numvfs == 0)
        then (s, some curr_numvfs)
        else elim (T.write_numvfs s ifname numvfs) [
          | none ↦ (s, none)
          | some t ↦
              check_numvfs ifname numvfs
                (if autoprobe then T.wait_for_vf_creation t ifname numvfs else t)
        ]
  ]

  -- `set_drivers_autoprobe`; the result is unused.
  unfoldable pub set_drivers_autoprobe : Str → Bool → T.State → Outcome
  set_drivers_autoprobe ifname drivers_autoprobe s =
      let autoprobe = if drivers_autoprobe then 1 else 0 in
      elim (T.read_autoprobe s ifname) [
        | none ↦ (s, none)
        | some curr_autoprobe ↦
            if autoprobe == curr_autoprobe
            then (s, some autoprobe)
            else elim (T.write_autoprobe s ifname autoprobe) [
              | none ↦ (s, none)
              | some t ↦ (t, some autoprobe)
            ]
      ]

  -- `main` with `--numvfs <device>:<numvfs>`: the second call runs only if the first one did not
  -- raise.
  unfoldable pub main_numvfs : Str → ℕ → Bool → T.State → Outcome
  unfolding set_drivers_autoprobe set_numvfs
  main_numvfs device_name numvfs autoprobe s =
      let (t, r) = set_drivers_autoprobe device_name autoprobe s in
      let after = set_numvfs device_name numvfs autoprobe t in
      elim r [ none ↦ (t, none) | some _ ↦ after ]

  check_numvfs-result :
      (ifname : Str) (numvfs n : ℕ) (s t : T.State)
      → check_numvfs ifname numvfs s ≡ (t, some n)
      → (n ≡ numvfs) × (T.read_numvfs t ifname ≡ some n)
  unfolding check_numvfs
  check_numvfs-result ifname numvfs n s t h = elim (Option-cases (T.read_numvfs s ifname)) [
    | inl failed ↦ absurd (ground (arith, h))
    | inr (m, reads) ↦ elim (Bool-cases (m == numvfs)) [
      | inl same ↦ ground (arith, h, beq→eq m numvfs same)
      | inr differ ↦ absurd (ground (arith, h))
    ]
  ]

  -- What stands behind the write of `set_numvfs`.
  abbrev after_write : Str → ℕ → Bool → T.State → Option T.State → Outcome
  after_write ifname numvfs autoprobe s none = (s, none)
  after_write ifname numvfs autoprobe s (some t) =
      check_numvfs ifname numvfs (if autoprobe then T.wait_for_vf_creation t ifname numvfs else t)

  -- What stands behind its first read.
  abbrev after_read : Str → ℕ → Bool → T.State → ℕ → Outcome
  after_read ifname numvfs autoprobe s curr_numvfs =
      if numvfs == curr_numvfs
      then (s, some curr_numvfs)
      else if not (curr_numvfs == 0)
      then (s, some curr_numvfs)
      else after_write ifname numvfs autoprobe s (T.write_numvfs s ifname numvfs)

  set_numvfs-reads :
      (ifname : Str) (numvfs curr : ℕ) (autoprobe : Bool) (s : T.State)
      → T.read_numvfs s ifname ≡ some curr
      → set_numvfs ifname numvfs autoprobe s ≡ after_read ifname numvfs autoprobe s curr
  unfolding set_numvfs
  set_numvfs-reads ifname numvfs curr autoprobe s reads =
      rw (reads, set_numvfs)
        (ap
          (λ o.
            if numvfs == curr
            then (s, some curr)
            else if not (curr == 0)
            then (s, some curr)
            else o)
          (write (T.write_numvfs s ifname numvfs)))
    where
      write :
          (o : Option T.State)
          → elim o [
            | none ↦ (s, none)
            | some t ↦
                check_numvfs ifname numvfs
                  (if autoprobe then T.wait_for_vf_creation t ifname numvfs else t)
          ]
            ≡ after_write ifname numvfs autoprobe s o
      write none = refl
      write (some t) = refl

  set_numvfs-fails :
      (ifname : Str) (numvfs : ℕ) (autoprobe : Bool) (s : T.State)
      → T.read_numvfs s ifname ≡ none
      → set_numvfs ifname numvfs autoprobe s ≡ (s, none)
  unfolding set_numvfs
  set_numvfs-fails ifname numvfs autoprobe s reads = rw (reads, set_numvfs) refl

  written-result :
      (ifname : Str) (numvfs n : ℕ) (autoprobe : Bool) (s t : T.State) (o : Option T.State)
      → after_write ifname numvfs autoprobe s o ≡ (t, some n)
      → (n ≡ numvfs) × (T.read_numvfs t ifname ≡ some n)
  written-result ifname numvfs n autoprobe s t none h = absurd (ground arith)
  written-result ifname numvfs n autoprobe s t (some u) h =
      check_numvfs-result ifname numvfs n _ t h

  -- A call that returns has read the number that it returns as the last one, and this is the number
  -- asked for, or the interface had virtual functions before and nothing was done.
  pub set_numvfs-result :
      (ifname : Str) (numvfs n : ℕ) (autoprobe : Bool) (s t : T.State)
      → set_numvfs ifname numvfs autoprobe s ≡ (t, some n)
      → (T.read_numvfs t ifname ≡ some n)
        × ((n ≡ numvfs) ⊎ ((n ≢ 0) × (T.read_numvfs s ifname ≡ some n) × (t ≡ s)))
  set_numvfs-result ifname numvfs n autoprobe s t h = elim (Option-cases (T.read_numvfs s ifname)) [
    | inl failed ↦ absurd (ground (arith, h, set_numvfs-fails ifname numvfs autoprobe s failed))
    | inr (curr, reads) ↦
        let k = sym (set_numvfs-reads ifname numvfs curr autoprobe s reads) ∙ h in
        elim (Bool-cases (numvfs == curr)) [
          | inl same ↦
              let (last, is, stays) = unchanged curr reads (sym (rw same refl) ∙ k) in
              (last, inl (is ∙ sym (beq→eq numvfs curr same)))
          | inr differ ↦ elim (Bool-cases (curr == 0)) [
            | inl empty ↦
                let (is, last) =
                  written-result ifname numvfs n autoprobe s t (T.write_numvfs s ifname numvfs)
                    (sym (rw (differ, empty) refl) ∙ k) in
                (last, inl is)
            | inr full ↦
                let (last, is, stays) = unchanged curr reads (sym (rw (differ, full) refl) ∙ k) in
                (last, inr (ground (arith, beq→ne curr 0 full), ground arith, stays))
          ]
        ]
  ]
    where
      unchanged :
          (curr : ℕ)
          → T.read_numvfs s ifname ≡ some curr
          → ◌≡◌ {A = Outcome} (s, some curr) (t, some n)
          → (T.read_numvfs t ifname ≡ some n) × (n ≡ curr) × (t ≡ s)
      unchanged curr reads e =
          let p : t ≡ s = sym (ap (λ (r : Outcome). r.0) e) in
          let q : n ≡ curr = ground arith in (rw (p, q) reads, q, p)

  -- A second call after one that returned returns the same and does nothing.
  pub set_numvfs_twice :
      (ifname : Str) (numvfs n : ℕ) (autoprobe : Bool) (s t : T.State)
      → set_numvfs ifname numvfs autoprobe s ≡ (t, some n)
      → set_numvfs ifname numvfs autoprobe t ≡ (t, some n)
  set_numvfs_twice ifname numvfs n autoprobe s t h =
      let (reads, either) = set_numvfs-result ifname numvfs n autoprobe s t h in
      set_numvfs-reads ifname numvfs n autoprobe t reads ∙ elim either [
        | inl is ↦ rw is (rw (beq_refl numvfs) refl)
        | inr (full, _, _) ↦ elim (Bool-cases (numvfs == n)) [
          | inl same ↦ rw same refl
          | inr differ ↦ rw (differ, ne→beq n 0 full) refl
        ]
      ]
