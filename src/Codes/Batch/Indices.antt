-- ===== src/Codes/Batch/Indices.antt =====
-- The bookkeeping of indices in CreateBatch comes to what the account by positions says.
use qurator.Common.{
  ℕ, suc, ◌≡◌, refl, ap, sym, ◌∙◌, inl, inr, Option, none, some, List, [], ◌∷◌, ◌++◌, map, Text,
  Dict, length, All, is_empty, Bool-cases, Result-cases, arith,
}
use qurator.Domain.{Code}
use qurator.Domain.Ids.{new_code_id}
use qurator.Store.State.{Ctx}
use qurator.Store.Codes.{create_codes}
use qurator.Codes.Destination.{Service}
use qurator.Codes.Prepare.{CreateInput, Prepared, CodesError, user_required}
use qurator.Codes.World.{Env, World, Blob, materialise}
use qurator.Codes.Create.{Chance, chosen}
use qurator.Codes.Batch.{
  Outcome, failed, unset, BatchResult, Slot, settled, pending, rendered, PendingItem, fresh_results,
  render_pending, codes_to_insert, insert_idx, insert_error, Insertion, insert_batch, remove_all,
  invalidate_all, create_batch,
}
use qurator.Codes.Batch.Positions.{
  plan_items, render_slot, render_slots, to_insert, settled_results, numbered, insert_slots,
  refuse_all, batch_by_position,
}
use qurator.Codes.Batch.Slots.{IsPlanned, List-cases, plan_items-IsPlanned}
use qurator.Codes.Batch.Writes.{
  result, shift, fails-at, next, pendings, rendered_idx, plan_loop-slots, fail_inserts-slots,
  write_created-slots,
}

-- what the rendering leaves, against the slots after it
record Agrees (i : ℕ) (pes : List PendingItem) (slots : List Slot) (b : Dict Text Blob)
    (pre : List BatchResult) (out : List (Option Code) × List BatchResult × Dict Text Blob)
    : Type 0 where
  codes : codes_to_insert out.0 ≡ to_insert slots
  idx : insert_idx pes out.0 ≡ rendered_idx i slots
  results : out.1 ≡ pre ++ numbered i (settled_results slots)
  blobs : out.2 ≡ b

module _ {C : Type 0} (e : Env C) (s : Service) (user : Text) (dice : ℕ → Chance) where
  -- a slot whose result stands, before the others
  Agrees-settled :
      (i : ℕ) (pes : List PendingItem) (o : Outcome) (slots : List Slot) (b : Dict Text Blob)
      (pre : List BatchResult) (out : List (Option Code) × List BatchResult × Dict Text Blob)
      → Agrees (suc i) pes slots b (pre ++ (result i o ∷ [])) out
      → Agrees i pes (settled o ∷ slots) b pre out
  unfolding to_insert rendered_idx settled_results numbered
  Agrees-settled i pes o slots b pre out a = record {
    codes = a.codes;
    idx = a.idx;
    results = a.results ∙ sym (shift pre (result i o) _);
    blobs = a.blobs;
  }

  Agrees-failed :
      (i : ℕ) (pes : List PendingItem) (p : Prepared) (x : CodesError) (slots : List Slot)
      (b : Dict Text Blob) (pre : List BatchResult)
      (out : List (Option Code) × List BatchResult × Dict Text Blob)
      → Agrees (suc i) pes slots b (pre ++ (result i (failed x) ∷ [])) out
      → Agrees i
          (record { idx = i; p = p } ∷ pes)
          (settled (failed x) ∷ slots)
          b
          pre
          (none ∷ out.0, out.1, out.2)
  unfolding to_insert rendered_idx settled_results numbered codes_to_insert insert_idx
  Agrees-failed i pes p x slots b pre out a = record {
    codes = a.codes;
    idx = a.idx;
    results = a.results ∙ sym (shift pre (result i (failed x)) _);
    blobs = a.blobs;
  }

  Agrees-rendered :
      (i : ℕ) (pes : List PendingItem) (p : Prepared) (c : Code) (slots : List Slot)
      (b : Dict Text Blob) (pre : List BatchResult)
      (out : List (Option Code) × List BatchResult × Dict Text Blob)
      → Agrees (suc i) pes slots b (pre ++ (result i unset ∷ [])) out
      → Agrees i
          (record { idx = i; p = p } ∷ pes)
          (rendered c ∷ slots)
          b
          pre
          (some c ∷ out.0, out.1, out.2)
  unfolding to_insert rendered_idx settled_results numbered codes_to_insert insert_idx
  Agrees-rendered i pes p c slots b pre out a = record {
    codes = ap (◌∷◌ c) a.codes;
    idx = ap (◌∷◌ i) a.idx;
    results = a.results ∙ sym (shift pre (result i unset) _);
    blobs = a.blobs;
  }

  render_pending-Agrees :
      (i : ℕ) (slots : List Slot) (b : Dict Text Blob) (pre : List BatchResult)
      → length pre ≡ i
      → All IsPlanned slots
      → Agrees i
          (pendings i slots)
          (render_slots e s user dice i slots b).0
          (render_slots e s user dice i slots b).1
          pre
          (render_pending e s user dice
            (pendings i slots)
            (pre ++ numbered i (settled_results slots))
            b)
  unfolding render_pending render_slots render_slot pendings settled_results numbered
  render_pending-Agrees i [] b pre l h =
      unfold codes_to_insert to_insert insert_idx rendered_idx in
      record { codes = refl; idx = refl; results = refl; blobs = refl }
  render_pending-Agrees i (rendered c ∷ slots) b pre l (q, h) = absurd (ground arith)
  render_pending-Agrees i (settled o ∷ slots) b pre l (q, h) =
      rw (shift pre (result i o) (numbered (suc i) (settled_results slots))) (
        Agrees-settled i (pendings (suc i) slots) o _ _ pre _ (
          render_pending-Agrees (suc i) slots b (pre ++ (result i o ∷ []))
            (next pre i (result i o) l) h))
  render_pending-Agrees i (pending p ∷ slots) b pre l (q, h) =
      let d = dice i in
      let made = materialise e s d.at user (new_code_id d.id_bytes) (chosen p d) p b in
      elim (Result-cases made.0) [
        | inl (x, r) ↦
            rw
              (
                r,
                render_pending,
                render_slots,
                render_slot,
                fails-at pre (numbered (suc i) (settled_results slots)) i x unset l,
              )
              (Agrees-failed i (pendings (suc i) slots) p x _ _ pre _ (
                render_pending-Agrees (suc i) slots made.1 (pre ++ (result i (failed x) ∷ []))
                  (next pre i (result i (failed x)) l) h))
        | inr (c, r) ↦
            rw
              (
                r,
                render_pending,
                render_slots,
                render_slot,
                shift pre (result i unset) (numbered (suc i) (settled_results slots)),
              )
              (Agrees-rendered i (pendings (suc i) slots) p c _ _ pre _ (
                render_pending-Agrees (suc i) slots made.1 (pre ++ (result i unset ∷ []))
                  (next pre i (result i unset) l) h))
      ]

refuses-all :
    (i : ℕ) (items : List CreateInput)
    → map (λ (r : BatchResult). record r { outcome = failed user_required }) (fresh_results i items)
      ≡ numbered i (refuse_all items)
unfolding fresh_results refuse_all numbered
refuses-all i [] = refl
refuses-all i (item ∷ items) =
    ap (◌∷◌ (result i (failed user_required))) (refuses-all (suc i) items)

module _ {C : Type 0} (e : Env C) where
  insert_batch-slots :
      (ins : Insertion) (slots : List Slot) (w : World C)
      → insert_batch e ins
          (rendered_idx 0 slots)
          (to_insert slots)
          (numbered 0 (settled_results slots))
          w
        ≡ (numbered 0 (insert_slots e ins slots w).0, (insert_slots e ins slots w).1)
  unfolding insert_batch insert_slots
  insert_batch-slots ins slots w = elim (List-cases (to_insert slots)) [
    | inl n ↦ rw (n, insert_batch, insert_slots) refl
    | inr (c, cs, q) ↦
        let call = create_codes ins.ctx ins.at ins.styling_bytes (c ∷ cs) w.store in
        elim (Result-cases call.0) [
          | inl (x, r) ↦
              rw (q, r, insert_batch, insert_slots)
                (ap (λ l. (l, record w { store = call.1; blobs = remove_all e (c ∷ cs) w.blobs }))
                  (fail_inserts-slots (insert_error x) 0 slots [] refl))
          | inr (rows, r) ↦
              rw (q, r, insert_batch, insert_slots)
                (ap (λ l. (l, invalidate_all e rows (record w { store = call.1 })))
                  (write_created-slots rows 0 slots [] refl))
        ]
  ]

  -- CreateBatch, which writes its results by index, gives what the account by positions gives: the
  -- result of each item stands where the item does, and has its index.
  pub create_batch-by_position :
      (s : Service) (ctx : ℕ → Ctx) (dice : ℕ → Chance) (ins : Insertion) (user : Text)
      (items : List CreateInput) (w : World C)
      → create_batch e s ctx dice ins user items w ≡ batch_by_position e s ctx dice ins user items w
  unfolding create_batch batch_by_position
  create_batch-by_position s ctx dice ins user items w = elim (Bool-cases (is_empty user)) [
    | inl q ↦ rw q (ap (λ l. (l, w)) (refuses-all 0 items))
    | inr q ↦
        let slots = plan_items s ctx user items (record { refs = []; aliases = [] }) w.store in
        let made = render_slots e s user dice 0 slots w.blobs in
        let a =
          render_pending-Agrees e s user dice 0 slots w.blobs [] refl
            (plan_items-IsPlanned s ctx user items _ w.store) in
        rw
          (
            q,
            plan_loop-slots s ctx user 0 items (record { refs = []; aliases = [] }) w.store [] []
                refl,
            a.codes,
            a.idx,
            a.results,
            a.blobs,
          )
          (insert_batch-slots ins made.0 (record w { blobs = made.1 }))
  ]
