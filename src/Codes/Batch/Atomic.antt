-- ===== src/Codes/Batch/Atomic.antt =====
-- The insertion of CreateBatch: all rows or none.
use qurator.Common.{
  ℕ, suc, ◌≡◌, ◌⊎◌, refl, ap, sym, ◌∙◌, inl, inr, true, List, [], ◌∷◌, Text, ok, err, length, All,
  is_empty, Bool-cases, Result-cases, arith,
}
use qurator.Domain.{Time, Code}
use qurator.Store.State.{MemStore, Ctx, live, done, StoreError}
use qurator.Store.Codes.{create_codes, reflect_rows}
use qurator.Store.Atomic.{create_each, create_codes-create_each}
use qurator.Codes.Destination.{Service}
use qurator.Codes.Prepare.{CreateInput, CodesError}
use qurator.Codes.World.{Env, World, invalidate}
use qurator.Codes.Create.{Chance}
use qurator.Codes.Batch.{
  create_batch, Outcome, created, existing, failed, unset, BatchResult, Slot, settled, pending,
  rendered, Insertion, invalidate_all,
}
use qurator.Codes.Batch.Positions.{
  plan_items, render_slots, to_insert, settled_results, failed_results, created_results, numbered,
  insert_slots, refuse_all, rendered_slots, batch_by_position,
}
use qurator.Codes.Batch.Indices.{create_batch-by_position}
use mathlib.Core.Path.{subst}
use qurator.Codes.Batch.Slots.{
  early, IsRendered, List-cases, create_codes-length, plan_items-IsPlanned, render_slots-IsRendered,
}

-- the codes that a list of results reports as created
abbrev pub created_of : List Outcome → List Code
created_of [] = []
created_of (created c ∷ os) = c ∷ created_of os
created_of (o ∷ os) = created_of os

abbrev pub created_codes : List BatchResult → List Code
created_codes [] = []
created_codes (r ∷ rs) = elim (r.outcome) [
  | created c ↦ c ∷ created_codes rs
  | _ ↦ created_codes rs
]

created_codes-numbered : (i : ℕ) (os : List Outcome) → created_codes (numbered i os) ≡ created_of os
unfolding numbered
created_codes-numbered i [] = refl
created_codes-numbered i (created c ∷ os) = ap (◌∷◌ c) (created_codes-numbered (suc i) os)
created_codes-numbered i (existing c ∷ os) = created_codes-numbered (suc i) os
created_codes-numbered i (failed x ∷ os) = created_codes-numbered (suc i) os
created_codes-numbered i (unset ∷ os) = created_codes-numbered (suc i) os

early-created_of :
    (o : Outcome) (os : List Outcome) → early o ≡ true → created_of (o ∷ os) ≡ created_of os
early-created_of (created c) os h = absurd (ground arith)
early-created_of (existing c) os h = refl
early-created_of (failed x) os h = refl
early-created_of unset os h = refl

settled_results_none :
    (slots : List Slot) → All IsRendered slots → created_of (settled_results slots) ≡ []
unfolding settled_results
settled_results_none [] h = refl
settled_results_none (settled o ∷ slots) (p, h) =
    early-created_of o (settled_results slots) p ∙ settled_results_none slots h
settled_results_none (pending p ∷ slots) (q, h) = settled_results_none slots h
settled_results_none (rendered c ∷ slots) (q, h) = settled_results_none slots h

failed_results-none :
    (x : CodesError) (slots : List Slot)
    → All IsRendered slots
    → created_of (failed_results x slots) ≡ []
unfolding failed_results
failed_results-none x [] h = refl
failed_results-none x (settled o ∷ slots) (p, h) =
    early-created_of o (failed_results x slots) p ∙ failed_results-none x slots h
failed_results-none x (pending p ∷ slots) (q, h) = failed_results-none x slots h
failed_results-none x (rendered c ∷ slots) (q, h) = failed_results-none x slots h

created_results-rows :
    (rows : List Code) (slots : List Slot)
    → All IsRendered slots
    → length rows ≡ length (to_insert slots)
    → created_of (created_results rows slots) ≡ rows
unfolding created_results to_insert
created_results-rows [] [] h e = refl
created_results-rows (r ∷ rows) [] h e = absurd (omega arith)
created_results-rows rows (settled o ∷ slots) (p, h) e =
    early-created_of o (created_results rows slots) p ∙ created_results-rows rows slots h e
created_results-rows rows (pending p ∷ slots) (q, h) e = absurd (ground arith)
created_results-rows [] (rendered c ∷ slots) (q, h) e = absurd (omega arith)
created_results-rows (r ∷ rows) (rendered c ∷ slots) (q, h) e =
    ap (◌∷◌ r) (created_results-rows rows slots h (omega arith))

-- What an insertion of rows did to the tables: nothing, and no code is reported as created, since there
-- is no user, or nothing to insert, or CreateCodes refused the rows; or it stored all of the rows, one
-- after the other, and reports just these as created.
abbrev pub AllOrNone : Insertion → Text → List Code → MemStore → MemStore → List Code → Type 0
AllOrNone ins user rows m m' made =
    ((made ≡ [])
      × (m' ≡ m)
      × ((user ≡ [])
          ⊎ ((rows ≡ [])
              ⊎ ((x : StoreError) × ((create_codes ins.ctx ins.at ins.styling_bytes rows m).0
                    ≡ err x)))))
    ⊎ ((create_each ins.at ins.styling_bytes rows m ≡ ok m')
        × (made ≡ reflect_rows ins.at ins.styling_bytes rows))

pub create_codes-ok :
    (ctx : Ctx) (now : Time) (rand : ℕ → ℕ → ℕ) (cs : List Code) (m : MemStore) (rows : List Code)
    → (create_codes ctx now rand cs m).0 ≡ ok rows
    → (create_each now rand cs m ≡ ok (create_codes ctx now rand cs m).1)
      × (rows ≡ reflect_rows now rand cs)
create_codes-ok done now rand cs m rows h = absurd (unfold create_codes in ground arith)
create_codes-ok live now rand cs m rows h = elim (Result-cases (create_each now rand cs m)) [
  | inl (x, q) ↦ absurd (ground (arith, create_codes-create_each now rand cs m))
  | inr (m', q) ↦ (
    ground (arith, create_codes-create_each now rand cs m),
    ground (arith, create_codes-create_each now rand cs m),
  )
]

pub create_codes-err :
    (ctx : Ctx) (now : Time) (rand : ℕ → ℕ → ℕ) (cs : List Code) (m : MemStore) (x : StoreError)
    → (create_codes ctx now rand cs m).0 ≡ err x
    → (create_codes ctx now rand cs m).1 ≡ m
unfolding create_codes
create_codes-err done now rand cs m x h = refl
create_codes-err live now rand cs m x h = ground arith

of_empty : (s : Text) → is_empty s ≡ true → s ≡ []
of_empty [] h = refl
of_empty (c ∷ s) h = absurd (ground arith)

refuse_all-none : (items : List CreateInput) → created_of (refuse_all items) ≡ []
unfolding refuse_all
refuse_all-none [] = refl
refuse_all-none (item ∷ items) = refuse_all-none items

module _ {C : Type 0} (e : Env C) where
  invalidate_all-store : (cs : List Code) (w : World C) → (invalidate_all e cs w).store ≡ w.store
  unfolding invalidate_all
  invalidate_all-store [] w = refl
  invalidate_all-store (c ∷ cs) w = invalidate_all-store cs (invalidate e c.short_code w)

  insert_slots-AllOrNone :
      (ins : Insertion) (user : Text) (slots : List Slot) (w : World C)
      → All IsRendered slots
      → AllOrNone ins user
          (to_insert slots)
          w.store
          (insert_slots e ins slots w).1.store
          (created_of (insert_slots e ins slots w).0)
  unfolding insert_slots
  insert_slots-AllOrNone ins user slots w h = elim (List-cases (to_insert slots)) [
    | inl n ↦ rw (n, insert_slots) (inl (settled_results_none slots h, refl, inr (inl refl)))
    | inr (c, cs, q) ↦
        let call = create_codes ins.ctx ins.at ins.styling_bytes (c ∷ cs) w.store in
        elim (Result-cases call.0) [
          | inl (x, r) ↦
              rw (q, r, insert_slots)
                (inl (
                  failed_results-none _ slots h,
                  create_codes-err ins.ctx ins.at ins.styling_bytes (c ∷ cs) w.store x r,
                  inr (inr (x, refl)),
                ))
          | inr (rows, r) ↦
              let (each, reflected) =
                create_codes-ok ins.ctx ins.at ins.styling_bytes (c ∷ cs) w.store rows r in
              let size =
                create_codes-length ins.ctx ins.at ins.styling_bytes (c ∷ cs) w.store rows r in
              rw (q, r, insert_slots)
                (inr (
                  each ∙ ap ok (sym (invalidate_all-store rows (record w { store = call.1 }))),
                  created_results-rows rows slots h (size ∙ sym (ap length q)) ∙ reflected,
                ))
        ]
  ]

  by_position-AllOrNone :
      (s : Service) (ctx : ℕ → Ctx) (dice : ℕ → Chance) (ins : Insertion) (user : Text)
      (items : List CreateInput) (w : World C)
      → AllOrNone ins user
          (to_insert (rendered_slots e s ctx dice user items w))
          w.store
          (batch_by_position e s ctx dice ins user items w).1.store
          (created_codes (batch_by_position e s ctx dice ins user items w).0)
  unfolding batch_by_position
  by_position-AllOrNone s ctx dice ins user items w = elim (Bool-cases (is_empty user)) [
    | inl q ↦ rw q (
        inl (
          created_codes-numbered 0 (refuse_all items) ∙ refuse_all-none items,
          refl,
          inl (of_empty user q),
        ))
    | inr q ↦
        let plan = plan_items s ctx user items (record { refs = []; aliases = [] }) w.store in
        let made = render_slots e s user dice 0 plan w.blobs in
        rw (q, created_codes-numbered 0 (insert_slots e ins made.0 (record w { blobs = made.1 })).0)
          (insert_slots-AllOrNone ins user made.0 (record w { blobs = made.1 })
            (render_slots-IsRendered e s user dice 0 plan w.blobs
              (plan_items-IsPlanned s ctx user items _ w.store)))
  ]

  -- Of the rows that the items of a batch were rendered to, CreateBatch stores all or none. It leaves
  -- the tables that CreateCode leaves when it is called, successfully, for each of these rows in turn,
  -- and reports exactly these rows, as they are stored, as created, in their order; or it changes
  -- nothing in the tables and reports no code as created, and then there is no user, or no such row,
  -- or CreateCodes refuses them.
  pub create_batch-AllOrNone :
      (s : Service) (ctx : ℕ → Ctx) (dice : ℕ → Chance) (ins : Insertion) (user : Text)
      (items : List CreateInput) (w : World C)
      → AllOrNone ins user
          (to_insert (rendered_slots e s ctx dice user items w))
          w.store
          (create_batch e s ctx dice ins user items w).1.store
          (created_codes (create_batch e s ctx dice ins user items w).0)
  create_batch-AllOrNone s ctx dice ins user items w =
      subst
        (λ (r : List BatchResult × World C).
          AllOrNone ins user (to_insert (rendered_slots e s ctx dice user items w)) w.store
            r.1.store (created_codes r.0))
        (sym (create_batch-by_position e s ctx dice ins user items w))
        (by_position-AllOrNone s ctx dice ins user items w)
