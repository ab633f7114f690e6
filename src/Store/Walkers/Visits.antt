-- ===== src/Store/Walkers/Visits.antt =====
-- A walk visits the rows of its snapshot in order, each once, up to the first error.
use qurator.Common.{
  ℕ, zero, suc, length, ◌≡◌, ◌≢◌, ◌⊎◌, ◌↔◌, refl, ap, inl, inr, true, List, [], ◌∷◌, ◌++◌, values,
  Result, ok, err, All, In, Distinct, sort_by, text_ltb_trans, text_ltb_asym, text_ltb_total,
  Ascending, sort_by-Ascending, In-sort_by, of_sort_by, text_eq, Result-cases, arith,
}
use qurator.Domain.{Code}
use qurator.Store.State.{MemStore, Ctx, Ctx-cases, live, done}
use qurator.Store.Rows.{OwnId, values-Apart}
use qurator.Store.Walkers.{
  WalkError, ended, failed, Callback, for_rows, walk_table, code_before, for_each_code,
}

-- the first looks at a context, all before it has ended
abbrev pub Awake : (ℕ → Ctx) → ℕ → Type 0
Awake ctx zero = Unit
Awake ctx (suc n) = (ctx 0 ≡ live) × Awake (λ i. ctx (suc i)) n

module _ {A S E : Type 0} (fn : Callback A S E) where
  -- the state after the callback has seen some rows
  abbrev pub after_rows : List A → S → S
  after_rows [] s = s
  after_rows (row ∷ rows) s = after_rows rows (fn row s).1

  -- the callback takes some rows, one after the other
  abbrev pub Takes : List A → S → Type 0
  Takes [] s = Unit
  Takes (row ∷ rows) s = ((fn row s).0 ≡ ok tt) × Takes rows (fn row s).1

  -- What a loop over rows has done. It looks at the context before each row: it took all of the rows, or
  -- the first of them until the context had ended, or the first of them until the callback failed.
  pub data Visited (ctx : ℕ → Ctx) (rows : List A) (s : S)
      (out : Result (WalkError E) (Unit {0}) × S) : Type 0 where
    finished :
        Awake ctx (length rows)
        → Takes rows s
        → out ≡ (ok tt, after_rows rows s)
        → Visited ctx rows s out
    cut_short :
        (before rest : List A)
        → rows ≡ before ++ rest
        → Awake ctx (length before)
        → ctx (length before) ≡ done
        → Takes before s
        → out ≡ (err ended, after_rows before s)
        → Visited ctx rows s out
    stopped :
        (before : List A) (row : A) (rest : List A) (e : E)
        → rows ≡ before ++ (row ∷ rest)
        → Awake ctx (suc (length before))
        → Takes before s
        → (fn row (after_rows before s)).0 ≡ err e
        → out ≡ (err (failed e), (fn row (after_rows before s)).1)
        → Visited ctx rows s out

  one_more :
      (ctx : ℕ → Ctx) (row : A) (rows : List A) (s : S) (out : Result (WalkError E) (Unit {0}) × S)
      → ctx 0 ≡ live
      → (fn row s).0 ≡ ok tt
      → Visited (λ i. ctx (suc i)) rows (fn row s).1 out
      → Visited ctx (row ∷ rows) s out
  one_more ctx row rows s out a q (finished w t o) = finished (a, w) (q, t) o
  one_more ctx row rows s out a q (cut_short before rest p w d t o) =
      cut_short (row ∷ before) rest (ap (◌∷◌ row) p) (a, w) d (q, t) o
  one_more ctx row rows s out a q (stopped before last rest e p w t f o) =
      stopped (row ∷ before) last rest e (ap (◌∷◌ row) p) (a, w) (q, t) f o

  for_rows-Visited :
      (ctx : ℕ → Ctx) (rows : List A) (s : S) → Visited ctx rows s (for_rows ctx fn rows s)
  unfolding for_rows
  for_rows-Visited ctx [] s = finished tt tt refl
  for_rows-Visited ctx (row ∷ rows) s = elim (Ctx-cases (ctx 0)) [
    | inr d ↦ rw (d, for_rows) (cut_short [] (row ∷ rows) refl tt d tt refl)
    | inl a ↦ elim (Result-cases (fn row s).0) [
      | inl (e, q) ↦ rw (a, q, for_rows) (stopped [] row rows e refl (a, tt) tt q refl)
      | inr (u, q) ↦
          rw (a, q, for_rows)
            (one_more ctx row rows s _ a q (for_rows-Visited (λ i. ctx (suc i)) rows (fn row s).1))
    ]
  ]

  -- a walk looks at the context once before its loop
  abbrev pub Walked : (ℕ → Ctx) → List A → S → Result (WalkError E) (Unit {0}) × S → Type 0
  Walked ctx rows s out =
      ((ctx 0 ≡ done) × (out ≡ (err ended, s)))
      ⊎ ((ctx 0 ≡ live) × Visited (λ i. ctx (suc i)) rows s out)

  walk_table-Walked :
      (ctx : ℕ → Ctx) (rows : List A) (s : S) → Walked ctx rows s (walk_table ctx fn rows s)
  unfolding walk_table
  walk_table-Walked ctx rows s = elim (Ctx-cases (ctx 0)) [
    | inr d ↦ inl (d, rw (d, walk_table) refl)
    | inl a ↦ inr (a, rw (a, walk_table) (for_rows-Visited (λ i. ctx (suc i)) rows s))
  ]

code_before_total : (a b : Code) → a.id ≢ b.id → (code_before a b ≡ true) ⊎ (code_before b a ≡ true)
unfolding code_before
code_before_total a b n = ground (arith, text_ltb_total a.id b.id, λ (e : a.id ≡ b.id). n e)

-- ForEachCode takes the rows of the table in strict order of their ids, each of them once. It gives
-- its callback one row after the other and succeeds after the last one; at the first row where the
-- context has ended, or where the callback fails, it stops with that error and gives it no other
-- row. Each row stands under its id, and no two entries have one key.
pub for_each_code-Visited :
    {S E : Type 0} (ctx : ℕ → Ctx) (fn : Callback Code S E) (m : MemStore) (s : S)
    → Distinct m.codes
    → All OwnId m.codes
    → (rows : List Code) × Ascending code_before rows
      × ((c : Code) → In c rows ↔ In c (values m.codes))
      × Walked fn ctx rows s (for_each_code ctx fn m s)
unfolding for_each_code
for_each_code-Visited ctx fn m s d h = (
  sort_by code_before (values m.codes),
  sort_by-Ascending code_before (λ a b c. unfold code_before in text_ltb_trans a.id b.id c.id)
      (λ a b. unfold code_before in text_ltb_asym a.id b.id) (values m.codes)
      (values-Apart code_before code_before_total m.codes d h),
  λ c. (of_sort_by code_before (values m.codes), In-sort_by code_before (values m.codes)),
  walk_table-Walked fn ctx (sort_by code_before (values m.codes)) s,
)
