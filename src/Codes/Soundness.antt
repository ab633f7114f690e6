-- ===== src/Codes/Soundness.antt =====
-- Every use case leads from a sound state of the service to a sound one.
use qurator.Common.{
  ◌≡◌, refl, inl, inr, ℕ, zero, suc, not, some, List, [], Text, trim_space, text_eq, nat_eq,
  Option-cases, Bool-cases, Result-cases, Result, ok, ◌||◌, if◌then◌else◌, arith,
}
use qurator.Domain.{
  Time, Code, CodeState, code_active, code_disabled, is_deleted, is_direct, nonpositive64,
}
use qurator.Store.State.{MemStore, Ctx, live, done, StoreError}
use qurator.Store.Codes.{owned, get_code_by_id}
use qurator.Store.Concurrency.{owned-insert}
use qurator.Store.Changes.{with_state, put_state, update_destination, set_code_state, delete_code}
use qurator.Store.Calls.{Call, run}
use qurator.Store.Invariant.Methods.{update_destination-Inv, set_code_state-Inv, delete_code-Inv}
use qurator.Codes.Destination.{Service, validate_destination}
use qurator.Codes.Prepare.{CodesError}
use qurator.Codes.World.{Env, CacheLaws, World}
use qurator.Codes.Change.{
  is_conflict, get, report_conflict, update_round, update_again, more_attempts, update, set_state,
  set_state_owned, delete_one,
}
use qurator.Codes.Coherence.{
  Sound, SoundAfter, Step-Sound, after_ok, after_err, update_destination-Step, set_code_state-Step,
  delete_code-Step,
}

get_ok :
    (ctx : Ctx) (id u : Text) (m : MemStore) (c : Code)
    → (get_code_by_id ctx id u m).0 ≡ ok c
    → owned m id u ≡ some c
unfolding get_code_by_id
get_ok done id u m c h = absurd (ground arith)
get_ok live id u m c h = ground arith

put_state_written :
    (now : Time) (id u : Text) (state : CodeState) (m : MemStore) (cur : Code) (a : Unit {0})
    → owned m id u ≡ some cur
    → (put_state now id u state m).0 ≡ ok a
    → owned (put_state now id u state m).1 id u ≡ some (with_state now state cur)
unfolding put_state
put_state_written now id u state m cur a o q = elim (Bool-cases (is_deleted cur.state)) [
  | inl g ↦ absurd (ground arith)
  | inr l ↦
      rw (o, l, put_state)
        (owned-insert m id u cur (with_state now state cur) o (unfold with_state in refl))
]

-- after SetState's write its read gives the row
set_code_state_written :
    (ctx : Ctx) (now : Time) (id u : Text) (state : CodeState) (m : MemStore) (cur : Code)
    (a : Unit {0})
    → owned m id u ≡ some cur
    → (set_code_state ctx now id u state m).0 ≡ ok a
    → (get_code_by_id ctx id u (set_code_state ctx now id u state m).1).0
      ≡ ok (with_state now state cur)
unfolding set_code_state get_code_by_id
set_code_state_written done now id u state m cur a o q = absurd (ground arith)
set_code_state_written live now id u code_active m cur a o q =
    ground (arith, put_state_written now id u code_active m cur a o q)
set_code_state_written live now id u code_disabled m cur a o q =
    ground (arith, put_state_written now id u code_disabled m cur a o q)
set_code_state_written live now id u state m cur a o q = absurd (ground arith)

module _ {C : Type 0} (e : Env C) (laws : CacheLaws e) {w : World C} (s : Sound e w) where
  report_conflict-Sound :
      (ctx : Ctx) (id u : Text) (v : ℕ) → Sound e (report_conflict e ctx id u v w).1
  unfolding report_conflict
  report_conflict-Sound ctx id u v = elim (Result-cases (get_code_by_id ctx id u w.store).0) [
    | inl (x, p) ↦ rw (p, report_conflict) s
    | inr (c, p) ↦ rw (p, report_conflict) s
  ]

module _ {C : Type 0} (e : Env C) (laws : CacheLaws e) {w : World C} (s : Sound e w) where
  -- a round without other clients
  update_round-Sound :
      (ctx : Ctx) (now : Time) (id u dest : Text) (expected : ℕ) (cur : Code)
      (again : World C → Result CodesError Code × World C)
      → owned w.store id u ≡ some cur
      → ((w' : World C) → Sound e w' → Sound e (again w').1)
      → Sound e (update_round e ctx now [] id u dest expected cur w again).1
  unfolding update_round run get
  update_round-Sound ctx now id u dest expected cur again o next =
      let v : ℕ = if nonpositive64 expected then cur.version else expected in
      let p : Result StoreError (Unit {0}) × MemStore =
        update_destination ctx now id u dest v w.store in
      let after : SoundAfter e w cur p =
        Step-Sound e laws s id u cur p o (update_destination-Step ctx now id u dest v w.store)
          (update_destination-Inv s.inv now id u ctx dest v) in
      elim (Result-cases p.0) [
        | inr (a, q) ↦ rw (q, update_round, run) (after_ok e w cur p a q after)
        | inl (x, q) ↦
            let rest : Sound e (record w { store = p.1 }) = after_err e w cur p x q after in
            elim (Bool-cases (is_conflict x)) [
              | inl t ↦ elim (Bool-cases (not (nonpositive64 expected) || is_deleted cur.state)) [
                | inl t' ↦
                    rw (q, t, t', update_round) (report_conflict-Sound e laws rest ctx id u v)
                | inr f' ↦ rw (q, t, f', update_round) (next _ rest)
              ]
              | inr f ↦ rw (q, f, update_round) rest
            ]
      ]

-- no other clients
abbrev pub quiet : ℕ → List Call
quiet i = []

module _ {C : Type 0} (e : Env C) (laws : CacheLaws e) where
  update_again-Sound :
      (n : ℕ) (ctx : Ctx) (now : Time) (id u dest : Text) (expected : ℕ) {w : World C}
      → Sound e w
      → Sound e (update_again e n ctx now quiet id u dest expected w).1
  unfolding update_again
  update_again-Sound zero ctx now id u dest expected s = s
  update_again-Sound (suc n) ctx now id u dest expected {w} s =
      elim (Result-cases (get_code_by_id ctx id u w.store).0) [
        | inl (x, q) ↦ rw (q, update_again) s
        | inr (cur, q) ↦
            rw (q, update_again)
              (update_round-Sound e laws s ctx now id u dest expected cur
                (λ w'. update_again e n ctx now quiet id u dest expected w')
                (get_ok ctx id u w.store cur q)
                (λ w' s'. update_again-Sound n ctx now id u dest expected s'))
      ]

  pub update-Sound :
      (sv : Service) (ctx : Ctx) (now : Time) (id u dest : Text) (expected : ℕ) {w : World C}
      → Sound e w
      → Sound e (update e sv ctx now quiet id u dest expected w).1
  unfolding update
  update-Sound sv ctx now id u dest expected {w} s =
      elim (Result-cases (get_code_by_id ctx id u w.store).0) [
        | inl (x, q) ↦ rw (q, update) s
        | inr (cur, q) ↦ elim (Bool-cases (is_direct cur.mode)) [
          | inl t ↦ rw (q, t, update) s
          | inr f ↦ elim (Option-cases (validate_destination sv dest)) [
            | inr (x, v) ↦ rw (q, f, v, update) s
            | inl v ↦
                rw (q, f, v, update)
                  (update_round-Sound e laws s ctx now id u (trim_space dest) expected cur
                    (λ w'.
                      update_again e (more_attempts expected) ctx now quiet id u (trim_space dest)
                        expected w')
                    (get_ok ctx id u w.store cur q)
                    (λ w' s'.
                      update_again-Sound (more_attempts expected) ctx now id u (trim_space dest)
                        expected s'))
          ]
        ]
      ]

  set_state_owned-Sound :
      (ctx : Ctx) (now : Time) (id u : Text) (state : CodeState) (cur : Code) {w : World C}
      → Sound e w
      → owned w.store id u ≡ some cur
      → Sound e (set_state_owned e ctx now id u state w).1
  unfolding set_state_owned
  set_state_owned-Sound ctx now id u state cur {w} s o =
      let p : Result StoreError (Unit {0}) × MemStore = set_code_state ctx now id u state w.store in
      let after : SoundAfter e w cur p =
        Step-Sound e laws s id u cur p o (set_code_state-Step ctx now id u state w.store)
          (set_code_state-Inv s.inv now id u ctx state) in
      elim (Result-cases p.0) [
        | inl (x, q) ↦ rw (q, set_state_owned) (after_err e w cur p x q after)
        | inr (a, q) ↦
            rw (q, set_code_state_written ctx now id u state w.store cur a o q, set_state_owned)
              (unfold with_state in after_ok e w cur p a q after)
      ]

  pub set_state-Sound :
      (ctx : Ctx) (now : Time) (id u : Text) (state : CodeState) {w : World C}
      → Sound e w
      → Sound e (set_state e ctx now id u state w).1
  unfolding set_state
  set_state-Sound ctx now id u state {w} s =
      elim (Result-cases (get_code_by_id ctx id u w.store).0) [
        | inl (x, q) ↦ rw (q, set_state) s
        | inr (cur, q) ↦ elim (Bool-cases (is_direct cur.mode)) [
          | inl t ↦ rw (q, t, set_state) s
          | inr f ↦
              rw (q, f, set_state)
                (set_state_owned-Sound ctx now id u state cur s (get_ok ctx id u w.store cur q))
        ]
      ]

  pub delete_one-Sound :
      (ctx : Ctx) (now : Time) (id u : Text) {w : World C}
      → Sound e w
      → Sound e (delete_one e ctx now id u w).1
  unfolding delete_one
  delete_one-Sound ctx now id u {w} s = elim (Result-cases (get_code_by_id ctx id u w.store).0) [
    | inl (x, q) ↦ rw (q, delete_one) s
    | inr (cur, q) ↦
        let p : Result StoreError (Unit {0}) × MemStore = delete_code ctx now id u w.store in
        let after : SoundAfter e w cur p =
          Step-Sound e laws s id u cur p (get_ok ctx id u w.store cur q)
            (delete_code-Step ctx now id u w.store) (delete_code-Inv s.inv now id u ctx) in
        elim (Result-cases p.0) [
          | inl (x, r) ↦ rw (q, r, delete_one) (after_err e w cur p x r after)
          | inr (a, r) ↦ rw (q, r, delete_one) (after_ok e w cur p a r after)
        ]
  ]
