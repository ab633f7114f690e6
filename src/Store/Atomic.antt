-- ===== src/Store/Atomic.antt =====
-- A batch of rows is created as if one by one, or not at all.
use qurator.Common.{
  ◌≡◌, refl, ap, ◌∙◌, inl, inr, ℕ, suc, Option, none, some, List, [], ◌∷◌, member, to_lower, Result,
  ok, err, Option-cases, Result-cases, text_eq, arith,
}
use qurator.Domain.{Time, Code}
use qurator.Store.State.{MemStore, ref_key_eq, live, StoreError}
use qurator.Store.Codes.{
  Seen, nothing_seen, ref_key, check_row, check_rows, persisted, store_row, persist_rows,
  store_rows, reflect_rows, create_codes, create_code,
}
use qurator.Store.Invariant.Batch.{Agrees, Agrees-nothing_seen, check_row-Agrees}

-- The rows one at a time, each by CreateCode, until one fails.
unfoldable pub create_each : Time → (ℕ → ℕ → ℕ) → List Code → MemStore → Result StoreError MemStore
create_each now rand [] m = ok m
create_each now rand (c ∷ cs) m = elim (create_code live now (rand 0) c m).0 [
  | err e ↦ err e
  | ok c' ↦ create_each now (λ i. rand (suc i)) cs (create_code live now (rand 0) c m).1
]

abbrev verdict : Result StoreError Seen → Option StoreError
verdict (ok s) = none
verdict (err e) = some e

-- In the middle of a batch a row gets the verdict that it would get alone.
check_row-alone :
    {m₀ m : MemStore} {s : Seen} (a : Agrees m₀ m s) (c : Code)
    → verdict (check_row m nothing_seen c) ≡ verdict (check_row m₀ s c)
unfolding check_row member
check_row-alone a c = ground (
  arith,
  a.ids c.id,
  a.codes (to_lower c.short_code),
  a.holds (to_lower c.short_code),
  a.refs (ref_key c),
)

-- CreateCode, by the verdict on its row.
create_code-verdict :
    (now : Time) (rand : ℕ → ℕ) (c : Code) (m : MemStore)
    → create_code live now rand c m ≡ elim (verdict (check_row m nothing_seen c)) [
      | some e ↦ (err e, m)
      | none ↦ (
        ok (record (persisted now rand c) { deleted_at = c.deleted_at }),
        store_row now m (persisted now rand c),
      )
    ]
unfolding create_code create_codes check_rows persist_rows store_rows reflect_rows
create_code-verdict now rand c m = ground arith

create_each-check_rows :
    (now : Time) (rand : ℕ → ℕ → ℕ) (m₀ m : MemStore) (s : Seen) (cs : List Code)
    → Agrees m₀ m s
    → create_each now rand cs m ≡ elim (check_rows m₀ s cs) [
      | some e ↦ err e
      | none ↦ ok (store_rows now m (persist_rows now rand cs))
    ]
unfolding create_each check_rows store_rows persist_rows
create_each-check_rows now rand m₀ m s [] a = refl
create_each-check_rows now rand m₀ m s (c ∷ cs) a = elim (Result-cases (check_row m₀ s c)) [
  | inl (e, p) ↦
      let v : verdict (check_row m nothing_seen c) ≡ some e = check_row-alone a c ∙ ap verdict p in
      ground (arith, create_code-verdict now (rand 0) c m)
  | inr (s', p) ↦
      let v : verdict (check_row m nothing_seen c) ≡ none = check_row-alone a c ∙ ap verdict p in
      ground (
        arith,
        create_code-verdict now (rand 0) c m,
        create_each-check_rows now (λ i. rand (suc i)) m₀
            (store_row now m (persisted now (rand 0) c)) s' cs
            (check_row-Agrees now (rand 0) a c p),
      )
]

-- CreateCodes leaves the store that CreateCode leaves when it is called for each row in turn, with
-- every call succeeding; or it returns the first error that one of these calls would return, and
-- leaves the store as it was.
pub create_codes-create_each :
    (now : Time) (rand : ℕ → ℕ → ℕ) (cs : List Code) (m : MemStore)
    → create_codes live now rand cs m ≡ elim (create_each now rand cs m) [
      | ok m' ↦ (ok (reflect_rows now rand cs), m')
      | err e ↦ (err e, m)
    ]
unfolding create_codes
create_codes-create_each now rand cs m =
    let eq = create_each-check_rows now rand m m nothing_seen cs (Agrees-nothing_seen m) in
    elim (Option-cases (check_rows m nothing_seen cs)) [
      | inl n ↦ rw (eq, n, create_codes)
      | inr (e, p) ↦ rw (eq, p, create_codes)
    ]
