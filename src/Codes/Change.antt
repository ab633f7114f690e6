-- ===== src/Codes/Change.antt =====
-- service.go: Get, UpdateDestination, SetState and Delete
use qurator.Common.{
  ℕ, zero, suc, ◌-◌, Bool, true, false, not, ◌||◌, none, some, List, Text, trim_space, Result, ok,
  err, nat_eq, if◌then◌else◌,
}
use qurator.Domain.{Time, Code, CodeState, is_direct, is_deleted, nonpositive64}
use qurator.Store.State.{Ctx, StoreError, conflict}
use qurator.Store.Codes.{get_code_by_id}
use qurator.Store.Changes.{update_destination, set_code_state, delete_code}
use qurator.Store.Calls.{Call, run}
use qurator.Codes.Destination.{Service, validate_destination}
use qurator.Codes.Prepare.{
  CodesError, from_store, bad_destination, direct_immutable, version_conflict, kept_losing,
}
use qurator.Codes.World.{Env, World, invalidate}

abbrev pub last_write_wins_attempts : ℕ
last_write_wins_attempts = 3

abbrev pub is_conflict : StoreError → Bool
is_conflict conflict = true
is_conflict _ = false

abbrev lifted {ℓ} : {A : Type ℓ} → Result StoreError A → Result CodesError A
lifted (ok a) = ok a
lifted (err x) = err (from_store x)

-- the attempts after the first
abbrev pub more_attempts : ℕ → ℕ
more_attempts expected = if nonpositive64 expected then last_write_wins_attempts - 1 else 0

module _ {C : Type 0} (e : Env C) where
  abbrev Outcome : Type 0
  Outcome = Result CodesError Code × World C

  unfoldable pub get : Ctx → Text → Text → World C → Outcome
  get ctx id user w = (lifted (get_code_by_id ctx id user w.store).0, w)

  -- what a conflict that is not retried reports: the version that won
  unfoldable pub report_conflict : Ctx → Text → Text → ℕ → World C → Outcome
  report_conflict ctx id user v w = elim (get_code_by_id ctx id user w.store).0 [
    | err x ↦ (err (from_store x), w)
    | ok latest ↦ (err (version_conflict v latest.version), w)
  ]

  -- One round, from the row that was read. `others` are the calls of other clients that the store
  -- takes between the read and the write; `again` is the next round.
  unfoldable pub update_round :
      Ctx
      → Time
      → List Call
      → Text
      → Text
      → Text
      → ℕ
      → Code
      → World C
      → (World C → Outcome)
      → Outcome
  unfolding report_conflict get
  update_round ctx now others id user dest expected cur w again =
      let v = if nonpositive64 expected then cur.version else expected in
      let (r, m) = update_destination ctx now id user dest v (run others w.store) in
      let w' = record w { store = m } in
      elim r [
        | ok _ ↦ get ctx id user (invalidate e cur.short_code w')
        | err x ↦
            if not (is_conflict x)
            then (err (from_store x), w')
            else elim (not (nonpositive64 expected) || is_deleted cur.state) [
              | true ↦ report_conflict ctx id user v w'
              | false ↦ again w'
            ]
      ]

  -- the rounds after the first, each of which reads the row again
  unfoldable pub update_again :
      ℕ → Ctx → Time → (ℕ → List Call) → Text → Text → Text → ℕ → World C → Outcome
  unfolding update_round
  update_again zero ctx now others id user dest expected w = (err kept_losing, w)
  update_again (suc n) ctx now others id user dest expected w =
      elim (get_code_by_id ctx id user w.store).0 [
        | err x ↦ (err (from_store x), w)
        | ok cur ↦
            update_round ctx now (others 0) id user dest expected cur w
              (λ w'. update_again n ctx now (λ i. others (suc i)) id user dest expected w')
      ]

  unfoldable pub update :
      Service → Ctx → Time → (ℕ → List Call) → Text → Text → Text → ℕ → World C → Outcome
  unfolding update_round update_again
  update s ctx now others id user dest expected w = elim (get_code_by_id ctx id user w.store).0 [
    | err x ↦ (err (from_store x), w)
    | ok cur ↦
        if is_direct cur.mode
        then (err direct_immutable, w)
        else elim (validate_destination s dest) [
          | some x ↦ (err (bad_destination x), w)
          | none ↦ update_round ctx now (others 0) id user (trim_space dest) expected cur w (λ w'.
              update_again (more_attempts expected) ctx now (λ i. others (suc i)) id user
                (trim_space dest) expected w')
        ]
  ]

  -- SetState after its checks
  unfoldable pub set_state_owned : Ctx → Time → Text → Text → CodeState → World C → Outcome
  set_state_owned ctx now id user state w =
      let (r, m) = set_code_state ctx now id user state w.store in
      let w' = record w { store = m } in
      elim r [
        | err x ↦ (err (from_store x), w')
        | ok _ ↦ elim (get_code_by_id ctx id user m).0 [
          | err x ↦ (err (from_store x), w')
          | ok c ↦ (ok c, invalidate e c.short_code w')
        ]
      ]

  unfoldable pub set_state : Ctx → Time → Text → Text → CodeState → World C → Outcome
  unfolding set_state_owned
  set_state ctx now id user state w = elim (get_code_by_id ctx id user w.store).0 [
    | err x ↦ (err (from_store x), w)
    | ok cur ↦
        if is_direct cur.mode
        then (err direct_immutable, w)
        else set_state_owned ctx now id user state w
  ]

  unfoldable pub delete_one :
      Ctx → Time → Text → Text → World C → Result CodesError (Unit {0}) × World C
  delete_one ctx now id user w = elim (get_code_by_id ctx id user w.store).0 [
    | err x ↦ (err (from_store x), w)
    | ok c ↦
        let (r, m) = delete_code ctx now id user w.store in
        let w' = record w { store = m } in
        elim r [ err x ↦ (err (from_store x), w') | ok _ ↦ (ok tt, invalidate e c.short_code w') ]
  ]
