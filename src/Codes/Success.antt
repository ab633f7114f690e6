-- ===== src/Codes/Success.antt =====
-- The code that a succeeding Create returns is the one that its short code leads to.
use mathlib.Core.Path.{subst}
use qurator.Common.{
  ◌≡◌, ap, inl, inr, ℕ, zero, suc, Text, Dict, lookup-insert, text_eq, text_beq_iff, Result, ok,
  err, Result-cases, Bool-cases, if◌then◌else◌, arith,
}
use qurator.Domain.{Code}
use qurator.Domain.Ids.{new_code_id}
use qurator.Store.State.{MemStore, Ctx, alias_taken}
use qurator.Store.Codes.{persisted, store_row, create_code}
use qurator.Codes.Destination.{Service}
use qurator.Codes.Prepare.{CodesError, from_store, CreateInput, Prepared, prepare}
use qurator.Codes.World.{Env, World, Blob, materialise}
use qurator.Codes.Resolve.{answer, resolution_of}
use qurator.Codes.Create.{
  Chance, generate_attempts, retries, chosen, final_error, insert_row, create_loop, create,
}
use qurator.Codes.Creation.{create_code-cases}

-- If a use case returned a code, its short code leads to it.
abbrev Filed : {C : Type 0} → Result CodesError Code × World C → Type 0
Filed (ok c, w) = answer w.store c.short_code ≡ resolution_of c
Filed (err x, w) = Unit {0}

Filed-ok :
    {C : Type 0} {c : Code} (p : Result CodesError Code × World C)
    → Filed p
    → p.0 ≡ ok c
    → answer p.1.store c.short_code ≡ resolution_of c
Filed-ok {c = c} (ok d, w) k h =
    let same : d ≡ c = ground (arith, h) in
    subst (λ (y : Code). answer w.store y.short_code ≡ resolution_of y) same k
Filed-ok (err y, w) k h = absurd (ground arith)

answer-store_row_self :
    (now : ℕ) (m : MemStore) (c : Code) → answer (store_row now m c) c.short_code ≡ resolution_of c
unfolding answer store_row
answer-store_row_self now m c = ground (
  arith,
  lookup-insert c.short_code c.short_code c.id m.by_code,
  lookup-insert c.id c.id c m.codes,
  text_beq_iff c.short_code c.short_code,
  text_beq_iff c.id c.id,
)

module _ {C : Type 0} (e : Env C) where
  insert_row-Filed :
      (ctx : Ctx) (d : Chance) (p : Prepared) (sc : Text) (c : Code) (w : World C)
      (again : CodesError → World C → Result CodesError Code × World C)
      → ((x : CodesError) (w' : World C) → Filed (again x w'))
      → Filed (insert_row e ctx d p sc c w again)
  unfolding insert_row
  insert_row-Filed ctx d p sc c w again next =
      elim (create_code-cases ctx d.stored_at d.styling_bytes c w.store) [
        | inl (x, q) ↦
            let r0 : (create_code ctx d.stored_at d.styling_bytes c w.store).0 ≡ err x =
              ap (λ y. y.0) q in
            elim (Bool-cases (retries p x)) [
              | inl r ↦ rw (r0, r, insert_row) (next (final_error p sc x) _)
              | inr r ↦ rw (r0, r, insert_row) tt
            ]
        | inr (fresh, q) ↦
            let c' : Code = persisted d.stored_at d.styling_bytes c in
            let r0 : (create_code ctx d.stored_at d.styling_bytes c w.store).0
                ≡ ok (record c' { deleted_at = c.deleted_at }) =
              ap (λ y. y.0) q in
            let m0 : (create_code ctx d.stored_at d.styling_bytes c w.store).1
                ≡ store_row d.stored_at w.store c' =
              ap (λ y. y.1) q in
            rw (r0, m0, insert_row) (answer-store_row_self d.stored_at w.store c')
      ]

  create_loop-Filed :
      (n : ℕ) (sv : Service) (ctx : Ctx) (dice : ℕ → Chance) (user : Text) (p : Prepared)
      (last : CodesError) (w : World C)
      → Filed (create_loop e n sv ctx dice user p last w)
  unfolding create_loop
  create_loop-Filed zero sv ctx dice user p last w = tt
  create_loop-Filed (suc n) sv ctx dice user p last w =
      let sc : Text = chosen p (dice 0) in
      let made : Result CodesError Code × Dict Text Blob =
        materialise e sv (dice 0).at user (new_code_id (dice 0).id_bytes) sc p w.blobs in
      elim (Result-cases made.0) [
        | inl (x, q) ↦ rw (q, create_loop) tt
        | inr (c, q) ↦
            rw (q, create_loop)
              (insert_row-Filed ctx (dice 0) p sc c (record w { blobs = made.1 })
                (λ x w'. create_loop e n sv ctx (λ i. dice (suc i)) user p x w')
                (λ x w'. create_loop-Filed n sv ctx (λ i. dice (suc i)) user p x w'))
      ]

  create-Filed :
      (sv : Service) (ctx : Ctx) (dice : ℕ → Chance) (input : CreateInput) (w : World C)
      → Filed (create e sv ctx dice input w)
  unfolding create
  create-Filed sv ctx dice input w = elim (Result-cases (prepare sv input)) [
    | inl (x, q) ↦ rw (q, create) tt
    | inr (p, q) ↦
        rw (q, create)
          (create_loop-Filed (if p.is_alias then 1 else generate_attempts) sv ctx dice input.user_id
            p (from_store alias_taken) w)
  ]

  -- When Create returns a code, the tables answer its short code with that code's id, destination
  -- and state.
  pub create_stored :
      (sv : Service) (ctx : Ctx) (dice : ℕ → Chance) (input : CreateInput) (w : World C) (c : Code)
      → (create e sv ctx dice input w).0 ≡ ok c
      → answer (create e sv ctx dice input w).1.store c.short_code ≡ resolution_of c
  create_stored sv ctx dice input w c h =
      Filed-ok (create e sv ctx dice input w) (create-Filed sv ctx dice input w) h
