-- ===== src/Dcb/Tables.antt =====
-- The comparison of a device's table with what the user asks for, in `DcbApplyConfig.apply`.
use os_net_config.Base.{
  ℕ, suc, ◌≡◌, refl, ap, ◌∙◌, subst, inl, inr, true, false, ◌&&◌, ◌||◌, not, none, some, List, [],
  ◌∷◌, ◌++◌, arith, Bool-cases, Option-cases, ◌==◌, beq_refl, beq→eq, nat_eq, str_eq, option_str_eq,
  contains, contains-append, NodupB,
}
use os_net_config.Base.Dict.{values}
use os_net_config.Dcb.{
  is_equal, is_equal_iff, app_eq, DcbAppTable, table_of, pop_equal, compare_tables, DcbApp,
}

pub values-table_of : (i : ℕ) (apps : List DcbApp) → values (table_of i apps) ≡ apps
unfolding values table_of
values-table_of i [] = refl
values-table_of i (app ∷ apps) = rw (values-table_of (suc i) apps)

values-append : (t u : DcbAppTable) → values (t ++ u) ≡ values t ++ values u
unfolding values
values-append [] u = refl
values-append ((k, app) ∷ t) u = rw (values-append t u)

pop_equal-none :
    (app : DcbApp) (table : DcbAppTable)
    → pop_equal app table ≡ none
    → contains (values table) app ≡ false
unfolding pop_equal contains values
pop_equal-none app [] h = refl
pop_equal-none app ((k, entry) ∷ table) h =
    ground (arith, pop_equal-none app table, is_equal_iff app entry, is_equal_iff entry app)

-- The values after an entry was popped.
record Popped (app : DcbApp) (table rest : DcbAppTable) : Type 0 where
  was_there : contains (values table) app ≡ true
  others : (a : DcbApp) → contains (values rest) a ≡ (contains (values table) a && not (app == a))
  unique : NodupB (values rest)

pop_equal-Popped :
    (app : DcbApp) (table rest : DcbAppTable)
    → NodupB (values table)
    → pop_equal app table ≡ some rest
    → Popped app table rest
unfolding pop_equal contains values
pop_equal-Popped app [] rest u h = absurd (ground arith)
pop_equal-Popped app ((k, entry) ∷ table) rest (fresh, u) h =
    elim (Bool-cases (is_equal app entry)) [
      | inl same ↦
          let e = (is_equal_iff app entry).0 same in
          let p : table ≡ rest = ground arith in
          subst (Popped app ((k, entry) ∷ table)) p record {
            was_there = ground (arith, beq_refl entry);
            others = λ a. ground (arith, beq→eq entry a);
            unique = u;
          }
      | inr differ ↦ elim (Option-cases (pop_equal app table)) [
        | inl gone ↦ absurd (ground arith)
        | inr (more, found) ↦
            let p : ((k, entry) ∷ more) ≡ rest = ground arith in
            let q = pop_equal-Popped app table more u found in
            subst (Popped app ((k, entry) ∷ table)) p record {
              was_there = ground (arith, q.was_there);
              others = λ a. ground (
                arith,
                q.others a,
                is_equal_iff app a,
                is_equal_iff entry a,
                is_equal_iff app entry,
              );
              unique = (ground (arith, q.others entry), q.unique);
            }
      ]
    ]

contains-values-append :
    (t : DcbAppTable) (i : ℕ) (app a : DcbApp)
    → contains (values (t ++ ((i, app) ∷ []))) a ≡ (contains (values t) a || is_equal app a)
contains-values-append t i app a =
    ap (λ l. contains l a) (values-append t ((i, app) ∷ []))
    ∙ contains-append (values t) _ a
    ∙ (unfold contains values in ground arith)

-- The two tables after the comparison with what the user asks for.
pub record Compared (user : List DcbApp) (current additions : DcbAppTable)
    (result : DcbAppTable × DcbAppTable) : Type 0 where
  pub kept :
      (a : DcbApp)
      → contains (values result.0) a ≡ (contains (values current) a && not (contains user a))
  pub sound :
      (a : DcbApp)
      → contains (values result.1) a ≡ true
      → (contains (values additions) a || contains user a) ≡ true
  pub complete :
      (a : DcbApp)
      → contains user a ≡ true
      → (contains (values result.1) a || contains (values current) a) ≡ true
  pub grows :
      (a : DcbApp) → contains (values additions) a ≡ true → contains (values result.1) a ≡ true

pub compare_tables-Compared :
    (user : List DcbApp) (i : ℕ) (current additions : DcbAppTable)
    → NodupB (values current)
    → Compared user current additions (compare_tables user i current additions)
unfolding compare_tables contains
compare_tables-Compared [] i current additions u = record {
  kept = λ a. ground arith;
  sound = λ a h. ground arith;
  complete = λ a h. ground arith;
  grows = λ a h. h;
}
compare_tables-Compared (app ∷ user) i current additions u =
    elim (Option-cases (pop_equal app current)) [
      | inl gone ↦
          let q = compare_tables-Compared user (suc i) current (additions ++ ((i, app) ∷ [])) u in
          let fresh = pop_equal-none app current gone in
          rw (gone, compare_tables)
            record {
              kept = λ a. ground (arith, q.kept a, is_equal_iff app a);
              sound = λ a h. ground (arith, q.sound a h, contains-values-append additions i app a);
              complete = λ a h.
                  ground (arith, q.complete a, q.grows a, contains-values-append additions i app a);
              grows = λ a h. ground (arith, q.grows a, contains-values-append additions i app a);
            }
      | inr (rest, found) ↦
          let q =
            compare_tables-Compared user i rest additions
              (pop_equal-Popped app current rest u found).unique in
          let popped = pop_equal-Popped app current rest u found in
          rw (found, compare_tables)
            record {
              kept = λ a. ground (arith, q.kept a, popped.others a);
              sound = λ a h. ground (arith, q.sound a h);
              complete = λ a h.
                  ground
                    (arith, q.complete a, popped.others a, popped.was_there, is_equal_iff app a);
              grows = λ a h. q.grows a h;
            }
    ]
