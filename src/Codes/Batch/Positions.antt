-- ===== src/Codes/Batch/Positions.antt =====
-- CreateBatch by position: what the bookkeeping of indices in CreateBatch comes to. Each item has a
-- slot, which goes through the phases, and a result at the end.
use qurator.Common.{
  ℕ, suc, ◌+◌, List, [], ◌∷◌, Text, Dict, ok, err, is_empty, text_eq, nat_eq, if◌then◌else◌,
}
use qurator.Domain.{Code}
use qurator.Domain.Ids.{new_code_id}
use qurator.Store.State.{MemStore, Ctx}
use qurator.Store.Codes.{create_codes}
use qurator.Codes.Destination.{Service}
use qurator.Codes.Prepare.{CreateInput, CodesError, user_required}
use qurator.Codes.World.{Env, World, Blob, materialise}
use qurator.Codes.Create.{Chance, chosen}
use qurator.Codes.Batch.{
  Outcome, created, failed, unset, BatchResult, Slot, settled, pending, rendered, SeenItems,
  plan_item, seen_alias, seen_ref, remove_all, invalidate_all, insert_error, Insertion,
}

-- The loop over the items, which writes the user into each.
unfoldable pub plan_items :
    Service → (ℕ → Ctx) → Text → List CreateInput → SeenItems → MemStore → List Slot
unfolding plan_item
plan_items s ctx user [] seen m = []
plan_items s ctx user (item ∷ items) seen m =
    let input = record item { user_id = user } in
    let slot = plan_item s (ctx 0) (ctx 1) user input seen m in
    slot
    ∷ plan_items s (λ i. ctx (i + 2)) user items
        (record { refs = seen_ref input seen.refs; aliases = seen_alias slot seen.aliases }) m

module _ {C : Type 0} (e : Env C) where
  -- Phase 3 of an item.
  unfoldable pub render_slot :
      Service → Text → Chance → Slot → Dict Text Blob → Slot × Dict Text Blob
  render_slot s user d (pending p) b =
      let (r, b') = materialise e s d.at user (new_code_id d.id_bytes) (chosen p d) p b in
      elim r [ err x ↦ (settled (failed x), b') | ok c ↦ (rendered c, b') ]
  render_slot s user d slot b = (slot, b)

  unfoldable pub render_slots :
      Service → Text → (ℕ → Chance) → ℕ → List Slot → Dict Text Blob → List Slot × Dict Text Blob
  unfolding render_slot
  render_slots s user dice i [] b = ([], b)
  render_slots s user dice i (slot ∷ slots) b =
      let (slot', b') = render_slot s user (dice i) slot b in
      let (slots', b'') = render_slots s user dice (suc i) slots b' in (slot' ∷ slots', b'')

-- toInsert
unfoldable pub to_insert : List Slot → List Code
to_insert [] = []
to_insert (rendered c ∷ slots) = c ∷ to_insert slots
to_insert (slot ∷ slots) = to_insert slots

-- The results as they stand where there is nothing to insert, where the insertion failed, and where
-- it gave the rows as they are stored.
unfoldable pub settled_results : List Slot → List Outcome
settled_results [] = []
settled_results (settled o ∷ slots) = o ∷ settled_results slots
settled_results (slot ∷ slots) = unset ∷ settled_results slots

unfoldable pub failed_results : CodesError → List Slot → List Outcome
failed_results x [] = []
failed_results x (settled o ∷ slots) = o ∷ failed_results x slots
failed_results x (pending p ∷ slots) = unset ∷ failed_results x slots
failed_results x (rendered c ∷ slots) = failed x ∷ failed_results x slots

unfoldable pub created_results : List Code → List Slot → List Outcome
created_results cs [] = []
created_results cs (settled o ∷ slots) = o ∷ created_results cs slots
created_results cs (pending p ∷ slots) = unset ∷ created_results cs slots
created_results [] (rendered d ∷ slots) = unset ∷ created_results [] slots
created_results (c ∷ cs) (rendered d ∷ slots) = created c ∷ created_results cs slots

unfoldable pub numbered : ℕ → List Outcome → List BatchResult
numbered i [] = []
numbered i (o ∷ os) = record { index = i; outcome = o } ∷ numbered (suc i) os

-- the results where there is no user
unfoldable pub refuse_all : List CreateInput → List Outcome
refuse_all [] = []
refuse_all (item ∷ items) = failed user_required ∷ refuse_all items

module _ {C : Type 0} (e : Env C) where
  -- Phase 4. With nothing to insert, CreateBatch has returned before.
  unfoldable pub insert_slots : Insertion → List Slot → World C → List Outcome × World C
  unfolding settled_results failed_results created_results to_insert insert_error
  insert_slots ins slots w = elim (to_insert slots) [
    | [] ↦ (settled_results slots, w)
    | c ∷ cs ↦
        let (r, m) = create_codes ins.ctx ins.at ins.styling_bytes (c ∷ cs) w.store in
        elim r [
          | err x ↦ (
            failed_results (insert_error x) slots,
            record w { store = m; blobs = remove_all e (c ∷ cs) w.blobs },
          )
          | ok rows ↦ (created_results rows slots, invalidate_all e rows (record w { store = m }))
        ]
  ]

  -- the slots of a batch after the rendering
  abbrev pub rendered_slots :
      Service → (ℕ → Ctx) → (ℕ → Chance) → Text → List CreateInput → World C → List Slot
  rendered_slots s ctx dice user items w =
      (render_slots e s user dice 0
        (plan_items s ctx user items (record { refs = []; aliases = [] }) w.store) w.blobs).0

  unfoldable pub batch_by_position :
      Service
      → (ℕ → Ctx)
      → (ℕ → Chance)
      → Insertion
      → Text
      → List CreateInput
      → World C
      → List BatchResult × World C
  unfolding insert_slots plan_items render_slots refuse_all numbered
  batch_by_position s ctx dice ins user items w =
      if is_empty user
      then (numbered 0 (refuse_all items), w)
      else let slots = plan_items s ctx user items (record { refs = []; aliases = [] }) w.store in
        let (slots', b) = render_slots e s user dice 0 slots w.blobs in
        let (os, w') = insert_slots ins slots' (record w { blobs = b }) in (numbered 0 os, w')
