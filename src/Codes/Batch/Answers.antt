-- ===== src/Codes/Batch/Answers.antt =====
-- Each result of CreateBatch answers the item at its place.
use mathlib.Core.Path.{subst}
use qurator.Common.{
  ℕ, suc, ◌≡◌, refl, sym, inl, inr, List, [], ◌∷◌, Text, All, is_empty, text_eq, Bool-cases,
  Result-cases, arith,
}
use qurator.Domain.{Time}
use qurator.Store.State.{Ctx}
use qurator.Store.Codes.{create_codes, persisted, reflect_rows}
use qurator.Codes.Destination.{Service}
use qurator.Codes.Prepare.{CreateInput, CodesError}
use qurator.Codes.World.{Env, World}
use qurator.Codes.Create.{Chance}
use qurator.Codes.Batch.{BatchResult, Slot, settled, pending, rendered, Insertion, create_batch}
use qurator.Codes.Batch.Positions.{
  plan_items, render_slots, to_insert, settled_results, failed_results, created_results, numbered,
  insert_slots, refuse_all, batch_by_position,
}
use qurator.Codes.Batch.Slots.{
  IsRendered, List-cases, plan_items-IsPlanned, render_slots-IsRendered,
}
use qurator.Codes.Batch.Atomic.{create_codes-ok}
use qurator.Codes.Batch.Indices.{create_batch-by_position}
use qurator.Codes.Batch.Fitting.{Answer, Fits, Fit-Answer, plan_items-Fits, render_slots-Fits}

-- the results of some items, the first of them with the index i
abbrev pub Answers : Service → Text → ℕ → List CreateInput → List BatchResult → Type 0
Answers s user i [] [] = Unit
Answers s user i (item ∷ items) (r ∷ rs) =
    (r.index ≡ i) × Answer s user item r.outcome × Answers s user (suc i) items rs
Answers s user i [] (r ∷ rs) = ⊥
Answers s user i (item ∷ items) [] = ⊥

module _ (s : Service) (user : Text) where
  settled_results-Answers :
      (i : ℕ) (items : List CreateInput) (slots : List Slot)
      → Fits s user items slots
      → All IsRendered slots
      → to_insert slots ≡ []
      → Answers s user i items (numbered i (settled_results slots))
  unfolding settled_results numbered to_insert
  settled_results-Answers i [] [] h r n = tt
  settled_results-Answers i [] (slot ∷ slots) h r n = absurd h
  settled_results-Answers i (item ∷ items) [] h r n = h
  settled_results-Answers i (item ∷ items) (settled o ∷ slots) (f, h) (q, r) n =
      (refl, Fit-Answer s user item o f, settled_results-Answers (suc i) items slots h r n)
  settled_results-Answers i (item ∷ items) (pending p ∷ slots) (f, h) (q, r) n =
      absurd (ground arith)
  settled_results-Answers i (item ∷ items) (rendered c ∷ slots) (f, h) (q, r) n =
      absurd (ground arith)

  failed_results-Answers :
      (x : CodesError) (i : ℕ) (items : List CreateInput) (slots : List Slot)
      → Fits s user items slots
      → All IsRendered slots
      → Answers s user i items (numbered i (failed_results x slots))
  unfolding failed_results numbered
  failed_results-Answers x i [] [] h r = tt
  failed_results-Answers x i [] (slot ∷ slots) h r = absurd h
  failed_results-Answers x i (item ∷ items) [] h r = h
  failed_results-Answers x i (item ∷ items) (settled o ∷ slots) (f, h) (q, r) =
      (refl, Fit-Answer s user item o f, failed_results-Answers x (suc i) items slots h r)
  failed_results-Answers x i (item ∷ items) (pending p ∷ slots) (f, h) (q, r) =
      absurd (ground arith)
  failed_results-Answers x i (item ∷ items) (rendered c ∷ slots) (f, h) (q, r) =
      (refl, tt, failed_results-Answers x (suc i) items slots h r)

  created_results-Answers :
      (now : Time) (rand : ℕ → ℕ → ℕ) (i : ℕ) (items : List CreateInput) (slots : List Slot)
      → Fits s user items slots
      → All IsRendered slots
      → Answers s user i items
          (numbered i (created_results (reflect_rows now rand (to_insert slots)) slots))
  unfolding created_results numbered to_insert reflect_rows persisted
  created_results-Answers now rand i [] [] h r = tt
  created_results-Answers now rand i [] (slot ∷ slots) h r = absurd h
  created_results-Answers now rand i (item ∷ items) [] h r = h
  created_results-Answers now rand i (item ∷ items) (settled o ∷ slots) (f, h) (q, r) =
      (refl, Fit-Answer s user item o f, created_results-Answers now rand (suc i) items slots h r)
  created_results-Answers now rand i (item ∷ items) (pending p ∷ slots) (f, h) (q, r) =
      absurd (ground arith)
  created_results-Answers now rand i (item ∷ items) (rendered c ∷ slots) (f, h) (q, r) =
      (refl, f, created_results-Answers now (λ j. rand (suc j)) (suc i) items slots h r)

  refuse_all-Answers :
      (i : ℕ) (items : List CreateInput) → Answers s user i items (numbered i (refuse_all items))
  unfolding refuse_all numbered
  refuse_all-Answers i [] = tt
  refuse_all-Answers i (item ∷ items) = (refl, tt, refuse_all-Answers (suc i) items)

module _ {C : Type 0} (e : Env C) where
  insert_slots-Answers :
      (s : Service) (user : Text) (ins : Insertion) (items : List CreateInput) (slots : List Slot)
      (w : World C)
      → Fits s user items slots
      → All IsRendered slots
      → Answers s user 0 items (numbered 0 (insert_slots e ins slots w).0)
  unfolding insert_slots
  insert_slots-Answers s user ins items slots w h r = elim (List-cases (to_insert slots)) [
    | inl n ↦ rw (n, insert_slots) (settled_results-Answers s user 0 items slots h r n)
    | inr (c, cs, q) ↦
        let call = create_codes ins.ctx ins.at ins.styling_bytes (c ∷ cs) w.store in
        elim (Result-cases call.0) [
          | inl (x, p) ↦ rw (q, p, insert_slots) (failed_results-Answers s user _ 0 items slots h r)
          | inr (rows, p) ↦
              let (each, reflected) =
                create_codes-ok ins.ctx ins.at ins.styling_bytes (c ∷ cs) w.store rows p in
              rw (q, p, insert_slots, reflected, sym q)
                (created_results-Answers s user ins.at ins.styling_bytes 0 items slots h r)
        ]
  ]

  by_position-Answers :
      (s : Service) (ctx : ℕ → Ctx) (dice : ℕ → Chance) (ins : Insertion) (user : Text)
      (items : List CreateInput) (w : World C)
      → Answers s user 0 items (batch_by_position e s ctx dice ins user items w).0
  unfolding batch_by_position
  by_position-Answers s ctx dice ins user items w = elim (Bool-cases (is_empty user)) [
    | inl q ↦ rw q (refuse_all-Answers s user 0 items)
    | inr q ↦
        let plan = plan_items s ctx user items (record { refs = []; aliases = [] }) w.store in
        let made = render_slots e s user dice 0 plan w.blobs in
        rw q (
          insert_slots-Answers s user ins items made.0 (record w { blobs = made.1 })
            (render_slots-Fits e s user dice 0 items plan w.blobs
              (plan_items-Fits s user ctx items _ w.store))
            (render_slots-IsRendered e s user dice 0 plan w.blobs
              (plan_items-IsPlanned s ctx user items _ w.store)))
  ]

  -- CreateBatch returns one result for each item, at its place and with its index, and the result
  -- belongs to the item. A created code has the user, and the destination and the client reference
  -- that the preparation of the item gave; an existing code has the destination and the mode that the
  -- item asks for; any other result is an error with its Err.
  pub create_batch-Answers :
      (s : Service) (ctx : ℕ → Ctx) (dice : ℕ → Chance) (ins : Insertion) (user : Text)
      (items : List CreateInput) (w : World C)
      → Answers s user 0 items (create_batch e s ctx dice ins user items w).0
  create_batch-Answers s ctx dice ins user items w =
      subst (λ (r : List BatchResult × World C). Answers s user 0 items r.0)
        (sym (create_batch-by_position e s ctx dice ins user items w))
        (by_position-Answers s ctx dice ins user items w)
