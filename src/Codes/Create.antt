-- ===== src/Codes/Create.antt =====
-- service.go: Create
use qurator.Common.{
  ℕ, zero, suc, Bool, true, false, not, ◌&&◌, Text, Result, ok, err, if◌then◌else◌,
}
use qurator.Domain.{Time, Code}
use qurator.Domain.Ids.{new_code_id}
use qurator.Shortcode.Generate.{generate}
use qurator.Store.State.{Ctx, StoreError, alias_taken}
use qurator.Store.Codes.{create_code}
use qurator.Codes.Destination.{Service}
use qurator.Codes.Prepare.{CreateInput, Prepared, prepare, CodesError, from_store, alias_in_use}
use qurator.Codes.World.{Env, World, invalidate, remove_blobs, materialise, blob_keys_of}

-- What one round of the loop gets from outside: the bytes of crypto/rand for the short code, the
-- id and the id of the styling, and the clocks of the service and of the store.
pub record Chance : Type 0 where
  pub code_bytes : ℕ → ℕ
  pub id_bytes : ℕ → ℕ
  pub styling_bytes : ℕ → ℕ
  pub at : Time
  pub stored_at : Time

abbrev pub generate_attempts : ℕ
generate_attempts = 5

abbrev is_alias_taken : StoreError → Bool
is_alias_taken alias_taken = true
is_alias_taken _ = false

-- the error that ends the loop
unfoldable pub final_error : Prepared → Text → StoreError → CodesError
final_error p short_code x =
    if is_alias_taken x && p.is_alias then alias_in_use short_code else from_store x

unfoldable pub retries : Prepared → StoreError → Bool
retries p x = is_alias_taken x && not p.is_alias

abbrev pub chosen : Prepared → Chance → Text
chosen p d = if p.is_alias then p.short_code else generate d.code_bytes

module _ {C : Type 0} (e : Env C) where
  abbrev pub Outcome : Type 0
  Outcome = Result CodesError Code × World C

  -- a round after its row was rendered: the insertion, with the rest of the loop for a retry
  unfoldable pub insert_row :
      Ctx → Chance → Prepared → Text → Code → World C → (CodesError → World C → Outcome) → Outcome
  insert_row ctx d p short_code c w again =
      let (r, m) = create_code ctx d.stored_at d.styling_bytes c w.store in
      elim r [
        | ok c' ↦ (ok c', invalidate e short_code (record w { store = m }))
        | err x ↦
            let w' = record w { store = m; blobs = remove_blobs e (blob_keys_of c) w.blobs } in
            elim (retries p x) [
              | true ↦ again (final_error p short_code x) w'
              | false ↦ (err (final_error p short_code x), w')
            ]
      ]

  -- `last` is the error of the round before; Create starts with some rounds left, so that the
  -- first one's is never read
  unfoldable pub create_loop :
      ℕ → Service → Ctx → (ℕ → Chance) → Text → Prepared → CodesError → World C → Outcome
  unfolding insert_row
  create_loop zero s ctx dice user p last w = (err last, w)
  create_loop (suc n) s ctx dice user p last w =
      let short_code = chosen p (dice 0) in
      let (r, b) =
        materialise e s (dice 0).at user (new_code_id (dice 0).id_bytes) short_code p w.blobs in
      elim r [
        | err x ↦ (err x, record w { blobs = b })
        | ok c ↦
            insert_row ctx (dice 0) p short_code c (record w { blobs = b })
              (λ x w'. create_loop n s ctx (λ i. dice (suc i)) user p x w')
      ]

  unfoldable pub create : Service → Ctx → (ℕ → Chance) → CreateInput → World C → Outcome
  unfolding create_loop
  create s ctx dice input w = elim (prepare s input) [
    | err x ↦ (err x, w)
    | ok p ↦
        create_loop (if p.is_alias then 1 else generate_attempts) s ctx dice input.user_id p
          (from_store alias_taken) w
  ]
