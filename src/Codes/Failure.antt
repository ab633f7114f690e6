-- ===== src/Codes/Failure.antt =====
-- A failing Create leaves the tables as they were.
use qurator.Common.{
  ◌≡◌, refl, ap, sym, inl, inr, ℕ, zero, suc, Text, Dict, Result, ok, err, Result-cases, Bool-cases,
  if◌then◌else◌, arith,
}
use qurator.Domain.{Code}
use qurator.Domain.Ids.{new_code_id}
use qurator.Store.State.{MemStore, Ctx, alias_taken}
use qurator.Store.Codes.{persisted, create_code}
use qurator.Codes.Destination.{Service}
use qurator.Codes.Prepare.{CodesError, from_store, CreateInput, Prepared, prepare}
use qurator.Codes.World.{Env, World, Blob, materialise}
use qurator.Codes.Create.{
  Chance, generate_attempts, retries, chosen, final_error, insert_row, create_loop, create,
}
use qurator.Codes.Creation.{create_code-cases}

-- If a use case failed, it left these tables.
abbrev pub Kept : {C : Type 0} → MemStore → Result CodesError Code × World C → Type 0
Kept m (ok c, w) = Unit {0}
Kept m (err x, w) = w.store ≡ m

Kept-err :
    {C : Type 0} {m : MemStore} {x : CodesError} (p : Result CodesError Code × World C)
    → Kept m p
    → p.0 ≡ err x
    → p.1.store ≡ m
Kept-err (ok c, w) k h = absurd (ground arith)
Kept-err (err y, w) k h = k

module _ {C : Type 0} (e : Env C) where
  insert_row-Kept :
      (ctx : Ctx) (d : Chance) (p : Prepared) (sc : Text) (c : Code) (w : World C)
      (again : CodesError → World C → Result CodesError Code × World C)
      → ((x : CodesError) (w' : World C) → w'.store ≡ w.store → Kept w.store (again x w'))
      → Kept w.store (insert_row e ctx d p sc c w again)
  unfolding insert_row
  insert_row-Kept ctx d p sc c w again next =
      elim (create_code-cases ctx d.stored_at d.styling_bytes c w.store) [
        | inl (x, q) ↦
            let r0 : (create_code ctx d.stored_at d.styling_bytes c w.store).0 ≡ err x =
              ap (λ y. y.0) q in
            let m0 : (create_code ctx d.stored_at d.styling_bytes c w.store).1 ≡ w.store =
              ap (λ y. y.1) q in
            elim (Bool-cases (retries p x)) [
              | inl r ↦ rw (r0, r, insert_row) (next (final_error p sc x) _ m0)
              | inr r ↦ rw (r0, r, insert_row) m0
            ]
        | inr (fresh, q) ↦
            let r0 : (create_code ctx d.stored_at d.styling_bytes c w.store).0
                ≡ ok (record (persisted d.stored_at d.styling_bytes c) {
                  deleted_at = c.deleted_at;
                }) =
              ap (λ y. y.0) q in
            rw (r0, insert_row) tt
      ]

  create_loop-Kept :
      (n : ℕ) (sv : Service) (ctx : Ctx) (dice : ℕ → Chance) (user : Text) (p : Prepared)
      (last : CodesError) (m : MemStore) (w : World C)
      → w.store ≡ m
      → Kept m (create_loop e n sv ctx dice user p last w)
  unfolding create_loop
  create_loop-Kept zero sv ctx dice user p last m w k = k
  create_loop-Kept (suc n) sv ctx dice user p last m w k =
      let sc : Text = chosen p (dice 0) in
      let made : Result CodesError Code × Dict Text Blob =
        materialise e sv (dice 0).at user (new_code_id (dice 0).id_bytes) sc p w.blobs in
      elim (Result-cases made.0) [
        | inl (x, q) ↦ rw (q, create_loop) k
        | inr (c, q) ↦
            rw (q, create_loop, sym k)
              (insert_row-Kept ctx (dice 0) p sc c (record w { blobs = made.1 })
                (λ x w'. create_loop e n sv ctx (λ i. dice (suc i)) user p x w')
                (λ x w' k'. create_loop-Kept n sv ctx (λ i. dice (suc i)) user p x w.store w' k'))
      ]

  create-Kept :
      (sv : Service) (ctx : Ctx) (dice : ℕ → Chance) (input : CreateInput) (w : World C)
      → Kept w.store (create e sv ctx dice input w)
  unfolding create
  create-Kept sv ctx dice input w = elim (Result-cases (prepare sv input)) [
    | inl (x, q) ↦ rw (q, create) refl
    | inr (p, q) ↦
        rw (q, create)
          (create_loop-Kept (if p.is_alias then 1 else generate_attempts) sv ctx dice input.user_id
            p (from_store alias_taken) w.store w refl)
  ]

  -- A Create that fails, at whatever step and after however many rounds, leaves the tables as they
  -- were.
  pub create_failed :
      (sv : Service) (ctx : Ctx) (dice : ℕ → Chance) (input : CreateInput) (w : World C)
      (x : CodesError)
      → (create e sv ctx dice input w).0 ≡ err x
      → (create e sv ctx dice input w).1.store ≡ w.store
  create_failed sv ctx dice input w x h =
      Kept-err (create e sv ctx dice input w) (create-Kept sv ctx dice input w) h
