-- ===== src/Codes/Batch/Soundness.antt =====
-- CreateBatch leads from a sound state of the service to a sound one.
use qurator.Common.{
  ℕ, suc, ◌+◌, ◌≡◌, member, text_eq, to_lower_idem, refl, ap, sym, ◌∙◌, inl, inr, Option-cases,
  List, [], ◌∷◌, Text, Dict, ok, All, is_empty, to_lower, trim_space, trim_space-to_lower,
  Bool-cases, Result-cases, arith,
}
use mathlib.Core.Path.{subst}
use qurator.Domain.{Time, Code}
use qurator.Domain.Ids.{new_code_id}
use qurator.Store.State.{MemStore, Ctx, live}
use qurator.Store.Codes.{create_codes, create_code, persisted, reflect_rows, store_row}
use qurator.Store.Invariant.{Inv}
use qurator.Store.Aliases.{is_alias_available}
use qurator.Store.Atomic.{create_each}
use qurator.Codes.Destination.{Service}
use qurator.Codes.Prepare.{CreateInput, Prepared, prepare}
use qurator.Codes.World.{Env, CacheLaws, World, Blob, cache_key, invalidate, materialise}
use qurator.Codes.Create.{Chance, chosen}
use qurator.Codes.Coherence.{Sound}
use qurator.Codes.Creation.{
  create_code-cases, create_code-Inv, chosen-trimmed, prepare-trimmed, materialise-row,
  stored-Sound, reblobbed-Sound,
}
use qurator.Codes.Batch.{
  create_batch, BatchResult, Slot, settled, pending, rendered, SeenItems, resolve_ref,
  check_batch_alias, plan_item, Insertion, invalidate_all,
}
use qurator.Codes.Batch.Positions.{
  plan_items, render_slot, render_slots, to_insert, insert_slots, batch_by_position,
}
use qurator.Codes.Batch.Indices.{create_batch-by_position}
use qurator.Codes.Batch.Slots.{List-cases}
use qurator.Codes.Batch.Atomic.{create_codes-ok, create_codes-err}

abbrev Trimmed : Text → Type 0
Trimmed sc = trim_space sc ≡ sc

-- the short code that a slot brings has no white space at an end
abbrev SlotTrimmed : Slot → Type 0
SlotTrimmed (settled o) = Unit
SlotTrimmed (pending p) = Trimmed p.short_code
SlotTrimmed (rendered c) = Trimmed c.short_code

check_batch_alias-Trimmed :
    (ctx : Ctx) (p : Prepared) (aliases : List Text) (m : MemStore)
    → Trimmed p.short_code
    → SlotTrimmed (check_batch_alias ctx p aliases m)
unfolding check_batch_alias
check_batch_alias-Trimmed ctx p aliases m t = elim (Bool-cases p.is_alias) [
  | inr f ↦ rw (f, check_batch_alias) t
  | inl a ↦ elim (Bool-cases (member p.short_code aliases)) [
    | inl b ↦ rw (a, b, check_batch_alias) tt
    | inr f ↦ elim (Result-cases (is_alias_available ctx p.short_code m).0) [
      | inl (x, q) ↦ rw (a, f, q, check_batch_alias) tt
      | inr (available, q) ↦ elim (Bool-cases available) [
        | inl v ↦ rw (a, f, q, v, check_batch_alias) t
        | inr v ↦ rw (a, f, q, v, check_batch_alias) tt
      ]
    ]
  ]
]

plan_item-Trimmed :
    (s : Service) (ctx ctx' : Ctx) (user : Text) (input : CreateInput) (seen : SeenItems)
    (m : MemStore)
    → SlotTrimmed (plan_item s ctx ctx' user input seen m)
unfolding plan_item
plan_item-Trimmed s ctx ctx' user input seen m =
    elim (Option-cases (resolve_ref ctx user input seen.refs m)) [
      | inr (o, q) ↦ rw (q, plan_item) tt
      | inl n ↦ elim (Result-cases (prepare s input)) [
        | inl (x, q) ↦ rw (n, q, plan_item) tt
        | inr (p, q) ↦
            rw (n, q, plan_item)
              (check_batch_alias-Trimmed ctx' p seen.aliases m (prepare-trimmed s input p q))
      ]
    ]

plan_items-Trimmed :
    (s : Service) (ctx : ℕ → Ctx) (user : Text) (items : List CreateInput) (seen : SeenItems)
    (m : MemStore)
    → All SlotTrimmed (plan_items s ctx user items seen m)
unfolding plan_items
plan_items-Trimmed s ctx user [] seen m = tt
plan_items-Trimmed s ctx user (item ∷ items) seen m = (
  plan_item-Trimmed s (ctx 0) (ctx 1) user (record item { user_id = user }) seen m,
  plan_items-Trimmed s (λ i. ctx (i + 2)) user items _ m,
)

to_insert-Trimmed :
    (slots : List Slot)
    → All SlotTrimmed slots
    → All (λ (c : Code). Trimmed c.short_code) (to_insert slots)
unfolding to_insert
to_insert-Trimmed [] h = tt
to_insert-Trimmed (settled o ∷ slots) (t, h) = to_insert-Trimmed slots h
to_insert-Trimmed (pending p ∷ slots) (t, h) = to_insert-Trimmed slots h
to_insert-Trimmed (rendered c ∷ slots) (t, h) = (t, to_insert-Trimmed slots h)

module _ {C : Type 0} (e : Env C) where
  render_slot-Trimmed :
      (s : Service) (user : Text) (d : Chance) (slot : Slot) (b : Dict Text Blob)
      → SlotTrimmed slot
      → SlotTrimmed (render_slot e s user d slot b).0
  unfolding render_slot
  render_slot-Trimmed s user d (settled o) b t = tt
  render_slot-Trimmed s user d (rendered c) b t = t
  render_slot-Trimmed s user d (pending p) b t =
      let made = materialise e s d.at user (new_code_id d.id_bytes) (chosen p d) p b in
      elim (Result-cases made.0) [
        | inl (x, q) ↦ rw (q, render_slot) tt
        | inr (c, q) ↦
            let r : c.short_code ≡ chosen p d =
              materialise-row e s d.at user (new_code_id d.id_bytes) (chosen p d) p b c q in
            rw (q, render_slot) (ap trim_space r ∙ chosen-trimmed p d t ∙ sym r)
      ]

  render_slots-Trimmed :
      (s : Service) (user : Text) (dice : ℕ → Chance) (i : ℕ) (slots : List Slot)
      (b : Dict Text Blob)
      → All SlotTrimmed slots
      → All SlotTrimmed (render_slots e s user dice i slots b).0
  unfolding render_slots
  render_slots-Trimmed s user dice i [] b h = tt
  render_slots-Trimmed s user dice i (slot ∷ slots) b (t, h) = (
    render_slot-Trimmed s user (dice i) slot b t,
    render_slots-Trimmed s user dice (suc i) slots _ h,
  )

module _ {C : Type 0} (e : Env C) (laws : CacheLaws e) where
  row-Sound :
      (now : Time) (rand : ℕ → ℕ) (c : Code) {w : World C}
      → Trimmed c.short_code
      → Sound e w
      → (r : Code) → (create_code live now rand c w.store).0 ≡ ok r
      → Sound e (
          invalidate e
            (to_lower c.short_code)
            (record w { store = (create_code live now rand c w.store).1 }))
  row-Sound now rand c {w} t s r h = elim (create_code-cases live now rand c w.store) [
    | inl (x, q) ↦ absurd (ground (arith, ap (λ y. y.0) q))
    | inr (fresh, q) ↦
        let m0 : (create_code live now rand c w.store).1
            ≡ store_row now w.store (persisted now rand c) =
          ap (λ y. y.1) q in
        let lowered : (persisted now rand c).short_code ≡ to_lower c.short_code =
          unfold persisted in refl in
        let lower_trimmed : Trimmed (to_lower c.short_code) =
          trim_space-to_lower c.short_code ∙ ap to_lower t in
        let key : cache_key (to_lower c.short_code) ≡ to_lower (to_lower c.short_code) =
          unfold cache_key in ap to_lower lower_trimmed in
        rw m0 (
          stored-Sound e laws s now (persisted now rand c) (to_lower c.short_code)
            (unfold persisted in fresh) (rw lowered lower_trimmed)
            (key ∙ to_lower_idem c.short_code ∙ sym lowered)
            (subst (λ (m : MemStore). Inv m) m0 (create_code-Inv s.inv live now rand c)))
  ]

  rows-Sound :
      (now : Time) (rand : ℕ → ℕ → ℕ) (cs : List Code) {w : World C} (m : MemStore)
      → All (λ (c : Code). Trimmed c.short_code) cs
      → Sound e w
      → create_each now rand cs w.store ≡ ok m
      → Sound e (invalidate_all e (reflect_rows now rand cs) (record w { store = m }))
  unfolding create_each invalidate_all reflect_rows persisted
  rows-Sound now rand [] {w} m h s q =
      let same : w.store ≡ m = ground arith in
      subst (λ (x : MemStore). Sound e (record w { store = x })) same s
  rows-Sound now rand (c ∷ cs) {w} m (t, h) s q =
      elim (Result-cases (create_code live now (rand 0) c w.store).0) [
        | inl (x, r) ↦ absurd (ground arith)
        | inr (c', r) ↦
            rows-Sound now (λ i. rand (suc i)) cs
              {w = invalidate e (to_lower c.short_code)
                (record w { store = (create_code live now (rand 0) c w.store).1 })}
              m h (row-Sound now (rand 0) c t s c' r) (ground arith)
      ]

  insert_slots-Sound :
      (ins : Insertion) (slots : List Slot) {w : World C}
      → All SlotTrimmed slots
      → Sound e w
      → Sound e (insert_slots e ins slots w).1
  unfolding insert_slots
  insert_slots-Sound ins slots {w} h s = elim (List-cases (to_insert slots)) [
    | inl n ↦ rw (n, insert_slots) s
    | inr (c, cs, q) ↦
        let call = create_codes ins.ctx ins.at ins.styling_bytes (c ∷ cs) w.store in
        elim (Result-cases call.0) [
          | inl (x, r) ↦
              let m0 : call.1 ≡ w.store =
                create_codes-err ins.ctx ins.at ins.styling_bytes (c ∷ cs) w.store x r in
              rw (q, r, m0, insert_slots) (reblobbed-Sound e laws s _)
          | inr (rows, r) ↦
              let (each, reflected) =
                create_codes-ok ins.ctx ins.at ins.styling_bytes (c ∷ cs) w.store rows r in
              rw (q, r, insert_slots, reflected)
                (rows-Sound ins.at ins.styling_bytes (c ∷ cs) call.1
                  (subst (All (λ (d : Code). Trimmed d.short_code)) q (to_insert-Trimmed slots h)) s
                  each)
        ]
  ]

  -- CreateBatch, whatever fails
  by_position-Sound :
      (sv : Service) (ctx : ℕ → Ctx) (dice : ℕ → Chance) (ins : Insertion) (user : Text)
      (items : List CreateInput) {w : World C}
      → Sound e w
      → Sound e (batch_by_position e sv ctx dice ins user items w).1
  unfolding batch_by_position
  by_position-Sound sv ctx dice ins user items {w} s = elim (Bool-cases (is_empty user)) [
    | inl q ↦ rw q s
    | inr q ↦
        let plan = plan_items sv ctx user items (record { refs = []; aliases = [] }) w.store in
        let made = render_slots e sv user dice 0 plan w.blobs in
        rw q (
          insert_slots-Sound ins made.0
            (render_slots-Trimmed e sv user dice 0 plan w.blobs
              (plan_items-Trimmed sv ctx user items _ w.store))
            (reblobbed-Sound e laws s made.1))
  ]

  pub create_batch-Sound :
      (sv : Service) (ctx : ℕ → Ctx) (dice : ℕ → Chance) (ins : Insertion) (user : Text)
      (items : List CreateInput) {w : World C}
      → Sound e w
      → Sound e (create_batch e sv ctx dice ins user items w).1
  create_batch-Sound sv ctx dice ins user items {w} s =
      subst (λ (r : List BatchResult × World C). Sound e r.1)
        (sym (create_batch-by_position e sv ctx dice ins user items w))
        (by_position-Sound sv ctx dice ins user items s)
