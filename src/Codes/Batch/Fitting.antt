-- ===== src/Codes/Batch/Fitting.antt =====
-- What the slots of a batch have of their items, through its phases.
use mathlib.Core.Path.{subst}
use qurator.Common.{
  ℕ, suc, ◌+◌, ◌≡◌, sym, inl, inr, true, some, List, [], ◌∷◌, Text, Dict, Result, ok, err,
  trim_space, member, text_eq, text_beq_iff, Option-cases, Bool-cases, Result-cases, arith,
}
use qurator.Domain.{Time, Code, mode_beq}
use qurator.Domain.Ids.{new_code_id}
use qurator.Store.State.{
  MemStore, Ctx, StoreError, not_found, conflict, alias_taken, client_ref_taken, invalid, cancelled,
}
use qurator.Store.Codes.{get_code_by_client_ref}
use qurator.Store.Aliases.{is_alias_available}
use qurator.Codes.Destination.{Service}
use qurator.Codes.Prepare.{CreateInput, Prepared, prepare, from_store, client_ref_duplicate}
use qurator.Codes.World.{Env, Blob, content_of, put_image, materialise}
use qurator.Codes.Create.{Chance, chosen}
use qurator.Codes.Batch.{
  Outcome, created, existing, failed, unset, Slot, settled, pending, rendered, SeenItems, mode_of,
  uses_ref, known_ref, resolve_ref, check_batch_alias, plan_item,
}
use qurator.Codes.Batch.Positions.{plan_items, render_slot, render_slots}

-- A code that was made of an item, for a user.
abbrev pub MadeOf : Service → Text → CreateInput → Code → Type 0
MadeOf s user item c =
    (p : Prepared) × (prepare s (record item { user_id = user }) ≡ ok p)
    × (c.user_id ≡ user)
    × (c.destination ≡ p.destination)
    × (c.client_ref ≡ p.client_ref)

-- An existing code that an item asks for again.
abbrev pub Repeated : CreateInput → Code → Type 0
Repeated item c =
    (c.destination ≡ trim_space item.destination)
    × (mode_beq (mode_of c.mode) (mode_of item.mode) ≡ true)

abbrev pub Answer : Service → Text → CreateInput → Outcome → Type 0
Answer s user item (created c) = MadeOf s user item c
Answer s user item (existing c) = Repeated item c
Answer s user item (failed x) = Unit
Answer s user item unset = ⊥

-- what a slot is of its item
abbrev Fit : Service → Text → CreateInput → Slot → Type 0
Fit s user item (settled (created c)) = ⊥
Fit s user item (settled o) = Answer s user item o
Fit s user item (pending p) = prepare s (record item { user_id = user }) ≡ ok p
Fit s user item (rendered c) = MadeOf s user item c

abbrev pub Fits : Service → Text → List CreateInput → List Slot → Type 0
Fits s user [] [] = Unit
Fits s user (item ∷ items) (slot ∷ slots) = Fit s user item slot × Fits s user items slots
Fits s user [] (slot ∷ slots) = ⊥
Fits s user (item ∷ items) [] = ⊥

module _ (s : Service) (user : Text) where
  pub Fit-Answer :
      (item : CreateInput) (o : Outcome) → Fit s user item (settled o) → Answer s user item o
  Fit-Answer item (created c) h = absurd h
  Fit-Answer item (existing c) h = h
  Fit-Answer item (failed x) h = h
  Fit-Answer item unset h = h

  known_ref-found :
      (item : CreateInput) (c : Code) (o : Outcome)
      → known_ref (record item { user_id = user }) (ok c) ≡ some o
      → Fit s user item (settled o)
  unfolding known_ref
  known_ref-found item c (created d) h = absurd (ground arith)
  known_ref-found item c (existing d) h =
      let same : c ≡ d = ground arith in
      subst (Repeated item) same
        (ground (arith, text_beq_iff c.destination (trim_space item.destination)), ground arith)
  known_ref-found item c (failed x) h = tt
  known_ref-found item c unset h = absurd (ground arith)

  known_ref-missing :
      (item : CreateInput) (x : StoreError) (o : Outcome)
      → known_ref (record item { user_id = user }) (err x) ≡ some o
      → Fit s user item (settled o)
  unfolding known_ref
  known_ref-missing item not_found o h = absurd (ground arith)
  known_ref-missing item conflict o h =
      let same : failed (from_store conflict) ≡ o = ground arith in
      subst (λ y. Fit s user item (settled y)) same tt
  known_ref-missing item alias_taken o h =
      let same : failed (from_store alias_taken) ≡ o = ground arith in
      subst (λ y. Fit s user item (settled y)) same tt
  known_ref-missing item client_ref_taken o h =
      let same : failed (from_store client_ref_taken) ≡ o = ground arith in
      subst (λ y. Fit s user item (settled y)) same tt
  known_ref-missing item invalid o h =
      let same : failed (from_store invalid) ≡ o = ground arith in
      subst (λ y. Fit s user item (settled y)) same tt
  known_ref-missing item cancelled o h =
      let same : failed (from_store cancelled) ≡ o = ground arith in
      subst (λ y. Fit s user item (settled y)) same tt

  known_ref-Fit :
      (item : CreateInput) (r : Result StoreError Code) (o : Outcome)
      → known_ref (record item { user_id = user }) r ≡ some o
      → Fit s user item (settled o)
  known_ref-Fit item (ok c) o h = known_ref-found item c o h
  known_ref-Fit item (err x) o h = known_ref-missing item x o h

  resolve_ref-Fit :
      (ctx : Ctx) (item : CreateInput) (refs : List Text) (m : MemStore) (o : Outcome)
      → resolve_ref ctx user (record item { user_id = user }) refs m ≡ some o
      → Fit s user item (settled o)
  unfolding resolve_ref
  resolve_ref-Fit ctx item refs m o h = elim (Bool-cases (uses_ref item)) [
    | inr f ↦ absurd (ground arith)
    | inl t ↦ elim (Bool-cases (member item.client_ref refs)) [
      | inl d ↦
          let same : failed (client_ref_duplicate item.client_ref) ≡ o = ground arith in
          subst (λ y. Fit s user item (settled y)) same tt
      | inr f ↦
          known_ref-Fit item (get_code_by_client_ref ctx user item.client_ref m).0 o (ground arith)
    ]
  ]

  check_batch_alias-Fit :
      (ctx : Ctx) (item : CreateInput) (p : Prepared) (aliases : List Text) (m : MemStore)
      → prepare s (record item { user_id = user }) ≡ ok p
      → Fit s user item (check_batch_alias ctx p aliases m)
  unfolding check_batch_alias
  check_batch_alias-Fit ctx item p aliases m h = elim (Bool-cases p.is_alias) [
    | inr f ↦
        let e : check_batch_alias ctx p aliases m ≡ pending p = ground arith in
        subst (Fit s user item) (sym e) h
    | inl a ↦ elim (Bool-cases (member p.short_code aliases)) [
      | inl b ↦ rw (a, b, check_batch_alias) tt
      | inr f ↦ elim (Result-cases (is_alias_available ctx p.short_code m).0) [
        | inl (x, q) ↦ rw (a, f, q, check_batch_alias) tt
        | inr (available, q) ↦ elim (Bool-cases available) [
          | inl v ↦
              let e : check_batch_alias ctx p aliases m ≡ pending p = ground arith in
              subst (Fit s user item) (sym e) h
          | inr v ↦ rw (a, f, q, v, check_batch_alias) tt
        ]
      ]
    ]
  ]

  plan_item-Fit :
      (ctx ctx' : Ctx) (item : CreateInput) (seen : SeenItems) (m : MemStore)
      → Fit s user item (plan_item s ctx ctx' user (record item { user_id = user }) seen m)
  unfolding plan_item
  plan_item-Fit ctx ctx' item seen m =
      let input = record item { user_id = user } in
      elim (Option-cases (resolve_ref ctx user input seen.refs m)) [
        | inr (o, q) ↦ rw (q, plan_item) (resolve_ref-Fit ctx item seen.refs m o q)
        | inl n ↦ elim (Result-cases (prepare s input)) [
          | inl (x, q) ↦ rw (n, q, plan_item) tt
          | inr (p, q) ↦ rw (n, q, plan_item) (check_batch_alias-Fit ctx' item p seen.aliases m q)
        ]
      ]

  pub plan_items-Fits :
      (ctx : ℕ → Ctx) (items : List CreateInput) (seen : SeenItems) (m : MemStore)
      → Fits s user items (plan_items s ctx user items seen m)
  unfolding plan_items
  plan_items-Fits ctx [] seen m = tt
  plan_items-Fits ctx (item ∷ items) seen m =
      (plan_item-Fit (ctx 0) (ctx 1) item seen m, plan_items-Fits (λ i. ctx (i + 2)) items _ m)

module _ {C : Type 0} (e : Env C) (s : Service) (user : Text) where
  materialise-MadeOf :
      (now : Time) (id sc : Text) (item : CreateInput) (p : Prepared) (b : Dict Text Blob)
      (c : Code)
      → prepare s (record item { user_id = user }) ≡ ok p
      → (materialise e s now user id sc p b).0 ≡ ok c
      → MadeOf s user item c
  unfolding materialise put_image
  materialise-MadeOf now id sc item p b c q h =
      elim (Option-cases (e.render (content_of s sc p) p.styling p.logo p.auto_raise)) [
        | inl n ↦ absurd (ground arith)
        | inr (r, t) ↦ (p, q, ground arith, ground arith, ground arith)
      ]

  render_slot-Fit :
      (d : Chance) (item : CreateInput) (slot : Slot) (b : Dict Text Blob)
      → Fit s user item slot
      → Fit s user item (render_slot e s user d slot b).0
  unfolding render_slot
  render_slot-Fit d item (settled o) b h = h
  render_slot-Fit d item (rendered c) b h = h
  render_slot-Fit d item (pending p) b h =
      elim (Result-cases (materialise e s d.at user (new_code_id d.id_bytes) (chosen p d) p b).0) [
        | inl (x, q) ↦ rw (q, render_slot) tt
        | inr (c, q) ↦
            rw (q, render_slot)
              (materialise-MadeOf d.at (new_code_id d.id_bytes) (chosen p d) item p b c h q)
      ]

  pub render_slots-Fits :
      (dice : ℕ → Chance) (i : ℕ) (items : List CreateInput) (slots : List Slot)
      (b : Dict Text Blob)
      → Fits s user items slots
      → Fits s user items (render_slots e s user dice i slots b).0
  unfolding render_slots
  render_slots-Fits dice i [] [] b h = tt
  render_slots-Fits dice i [] (slot ∷ slots) b h = h
  render_slots-Fits dice i (item ∷ items) [] b h = h
  render_slots-Fits dice i (item ∷ items) (slot ∷ slots) b (f, h) =
      (render_slot-Fit (dice i) item slot b f, render_slots-Fits dice (suc i) items slots _ h)
