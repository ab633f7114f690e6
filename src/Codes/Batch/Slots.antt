-- ===== src/Codes/Batch/Slots.antt =====
-- What the slots of a batch are after the planning and after the rendering.
use qurator.Common.{
  ℕ, suc, ◌+◌, ◌≡◌, ◌⊎◌, refl, ap, sym, ◌∙◌, inl, inr, Bool, true, false, some, List, [], ◌∷◌, Text,
  Dict, Result, ok, err, length, All, Option-cases, Result-cases, arith,
}
use qurator.Domain.{Time, Code}
use qurator.Store.State.{
  MemStore, Ctx, live, done, StoreError, not_found, conflict, alias_taken, client_ref_taken,
  invalid, cancelled,
}
use qurator.Store.Codes.{
  create_codes, get_code_by_client_ref, reflect_rows, check_rows, nothing_seen,
}
use qurator.Codes.Destination.{Service}
use qurator.Codes.Prepare.{CreateInput, Prepared, prepare}
use qurator.Codes.World.{Env, Blob}
use qurator.Codes.Create.{Chance}
use qurator.Codes.Batch.{
  Outcome, created, existing, failed, unset, Slot, settled, pending, rendered, SeenItems, known_ref,
  resolve_ref, check_batch_alias, plan_item,
}
use qurator.Codes.Batch.Positions.{plan_items, render_slot, render_slots}

-- a result of the first three phases
abbrev pub early : Outcome → Bool
early (created c) = false
early (existing c) = true
early (failed x) = true
early unset = false

abbrev pub planned : Slot → Bool
planned (settled o) = early o
planned (pending p) = true
planned (rendered c) = false

abbrev pub ready : Slot → Bool
ready (settled o) = early o
ready (pending p) = false
ready (rendered c) = true

abbrev pub IsPlanned : Slot → Type 0
IsPlanned s = planned s ≡ true

abbrev pub IsRendered : Slot → Type 0
IsRendered s = ready s ≡ true

known_ref-early :
    (input : CreateInput) (r : Result StoreError Code) (o : Outcome)
    → known_ref input r ≡ some o
    → early o ≡ true
unfolding known_ref
known_ref-early input (ok c) o h = ground arith
known_ref-early input (err not_found) o h = absurd (ground arith)
known_ref-early input (err conflict) o h = ground arith
known_ref-early input (err alias_taken) o h = ground arith
known_ref-early input (err client_ref_taken) o h = ground arith
known_ref-early input (err invalid) o h = ground arith
known_ref-early input (err cancelled) o h = ground arith

resolve_ref-early :
    (ctx : Ctx) (user : Text) (input : CreateInput) (refs : List Text) (m : MemStore) (o : Outcome)
    → resolve_ref ctx user input refs m ≡ some o
    → early o ≡ true
unfolding resolve_ref
resolve_ref-early ctx user input refs m o h =
    ground (arith, known_ref-early input (get_code_by_client_ref ctx user input.client_ref m).0 o)

check_batch_alias-IsPlanned :
    (ctx : Ctx) (p : Prepared) (aliases : List Text) (m : MemStore)
    → IsPlanned (check_batch_alias ctx p aliases m)
unfolding check_batch_alias
check_batch_alias-IsPlanned ctx p aliases m = ground arith

plan_item-IsPlanned :
    (s : Service) (ctx ctx' : Ctx) (user : Text) (input : CreateInput) (seen : SeenItems)
    (m : MemStore)
    → IsPlanned (plan_item s ctx ctx' user input seen m)
unfolding plan_item
plan_item-IsPlanned s ctx ctx' user input seen m =
    elim (Option-cases (resolve_ref ctx user input seen.refs m)) [
      | inr (o, q) ↦ ground (arith, resolve_ref-early ctx user input seen.refs m o q)
      | inl n ↦ elim (Result-cases (prepare s input)) [
        | inl (x, q) ↦ ground arith
        | inr (p, q) ↦ ground (arith, check_batch_alias-IsPlanned ctx' p seen.aliases m)
      ]
    ]

pub plan_items-IsPlanned :
    (s : Service) (ctx : ℕ → Ctx) (user : Text) (items : List CreateInput) (seen : SeenItems)
    (m : MemStore)
    → All IsPlanned (plan_items s ctx user items seen m)
unfolding plan_items
plan_items-IsPlanned s ctx user [] seen m = tt
plan_items-IsPlanned s ctx user (item ∷ items) seen m = (
  plan_item-IsPlanned s (ctx 0) (ctx 1) user (record item { user_id = user }) seen m,
  plan_items-IsPlanned s (λ i. ctx (i + 2)) user items _ m,
)

module _ {C : Type 0} (e : Env C) where
  render_slot-IsRendered :
      (s : Service) (user : Text) (d : Chance) (slot : Slot) (b : Dict Text Blob)
      → IsPlanned slot
      → IsRendered (render_slot e s user d slot b).0
  unfolding render_slot
  render_slot-IsRendered s user d (settled o) b h = h
  render_slot-IsRendered s user d (rendered c) b h = absurd (ground arith)
  render_slot-IsRendered s user d (pending p) b h = ground arith

  pub render_slots-IsRendered :
      (s : Service) (user : Text) (dice : ℕ → Chance) (i : ℕ) (slots : List Slot)
      (b : Dict Text Blob)
      → All IsPlanned slots
      → All IsRendered (render_slots e s user dice i slots b).0
  unfolding render_slots
  render_slots-IsRendered s user dice i [] b h = tt
  render_slots-IsRendered s user dice i (slot ∷ slots) b (p, h) = (
    render_slot-IsRendered s user (dice i) slot b p,
    render_slots-IsRendered s user dice (suc i) slots _ h,
  )

length-reflect_rows :
    (now : Time) (rand : ℕ → ℕ → ℕ) (cs : List Code) → length (reflect_rows now rand cs) ≡ length cs
unfolding reflect_rows
length-reflect_rows now rand [] = refl
length-reflect_rows now rand (c ∷ cs) = ap suc (length-reflect_rows now (λ i. rand (suc i)) cs)

pub create_codes-length :
    (ctx : Ctx) (now : Time) (rand : ℕ → ℕ → ℕ) (cs : List Code) (m : MemStore) (rows : List Code)
    → (create_codes ctx now rand cs m).0 ≡ ok rows
    → length rows ≡ length cs
unfolding create_codes
create_codes-length done now rand cs m rows h = absurd (ground arith)
create_codes-length live now rand cs m rows h = elim (Option-cases (check_rows m nothing_seen cs)) [
  | inr (x, q) ↦ absurd (ground arith)
  | inl n ↦
      let r : reflect_rows now rand cs ≡ rows = ground arith in
      sym (ap length r) ∙ length-reflect_rows now rand cs
]

pub List-cases : (cs : List Code) → (cs ≡ []) ⊎ ((c : Code) × (rest : List Code) × (cs ≡ c ∷ rest))
List-cases [] = inl refl
List-cases (c ∷ cs) = inr (c, cs, refl)
