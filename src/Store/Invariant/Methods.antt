-- ===== src/Store/Invariant/Methods.antt =====
-- The methods that change a row of the codes table keep the invariant.
use qurator.Common.{
  nat_eq, ◌≡◌, inl, inr, ℕ, false, some, Text, lookup, text_eq, text_beq_iff, Bool-cases,
  Option-cases, ◌==◌, arith,
}
use qurator.Domain.{Time, Code, CodeState, code_active, code_disabled, is_deleted}
use qurator.Store.State.{MemStore, Ctx, live, done}
use qurator.Store.Codes.{owned}
use qurator.Store.Changes.{
  redirected, update_destination, with_state, put_state, set_code_state, buried, delete_code,
}
use qurator.Store.Invariant.Defs.{Inv}
use qurator.Store.Invariant.Change.{Replaces, change-Inv}

pub lookup_of_owned :
    (m : MemStore) (id u : Text) (c : Code)
    → owned m id u ≡ some c
    → (lookup id m.codes ≡ some c) × (c.user_id ≡ u)
unfolding owned
lookup_of_owned m id u c e = elim (Option-cases (lookup id m.codes)) [
  | inl n ↦ absurd (ground arith)
  | inr (d, p) ↦ (ground arith, ground (arith, text_beq_iff d.user_id u))
]

redirected-Replaces : (now : Time) (dest : Text) (c : Code) → Replaces c (redirected now dest c)
unfolding redirected
redirected-Replaces now dest c = ground arith

with_state-Replaces :
    (now : Time) (s : CodeState) (c : Code)
    → is_deleted c.state ≡ false
    → Replaces c (with_state now s c)
unfolding with_state
with_state-Replaces now s c l = ground arith

buried-Replaces : (now : Time) (c : Code) → Replaces c (buried now c)
unfolding buried
buried-Replaces now c = ground arith

module _ {m : MemStore} (h : Inv m) (now : Time) (id user_id : Text) where
  pub update_destination-Inv :
      (ctx : Ctx) (dest : Text) (v : ℕ) → Inv (update_destination ctx now id user_id dest v m).1
  unfolding update_destination
  update_destination-Inv done dest v = h
  update_destination-Inv live dest v = elim (Option-cases (owned m id user_id)) [
    | inl n ↦ rw (n, update_destination) h
    | inr (c, e) ↦
        rw (e, update_destination)
          (elim (Bool-cases (is_deleted c.state)) [
            | inl d ↦ rw (d, update_destination) h
            | inr l ↦
                rw (l, update_destination)
                  (elim (Bool-cases (c.version == v)) [
                    | inl t ↦
                        rw (t, update_destination)
                          (change-Inv h id (redirected now dest c)
                            (lookup_of_owned m id user_id c e).0 (redirected-Replaces now dest c))
                    | inr f ↦ rw (f, update_destination) h
                  ])
          ])
  ]

  put_state-Inv : (s : CodeState) → Inv (put_state now id user_id s m).1
  unfolding put_state
  put_state-Inv s = elim (Option-cases (owned m id user_id)) [
    | inl n ↦ rw (n, put_state) h
    | inr (c, e) ↦
        rw (e, put_state)
          (elim (Bool-cases (is_deleted c.state)) [
            | inl d ↦ rw (d, put_state) h
            | inr l ↦
                rw (l, put_state)
                  (change-Inv h id (with_state now s c) (lookup_of_owned m id user_id c e).0
                    (with_state-Replaces now s c l))
          ])
  ]

  pub set_code_state-Inv :
      (ctx : Ctx) (s : CodeState) → Inv (set_code_state ctx now id user_id s m).1
  unfolding set_code_state
  set_code_state-Inv done code_active = h
  set_code_state-Inv done _ = h
  set_code_state-Inv live code_active = put_state-Inv code_active
  set_code_state-Inv live code_disabled = put_state-Inv code_disabled
  set_code_state-Inv live _ = h

  pub delete_code-Inv : (ctx : Ctx) → Inv (delete_code ctx now id user_id m).1
  unfolding delete_code
  delete_code-Inv done = h
  delete_code-Inv live = elim (Option-cases (owned m id user_id)) [
    | inl n ↦ rw (n, delete_code) h
    | inr (c, e) ↦
        rw (e, delete_code)
          (elim (Bool-cases (is_deleted c.state)) [
            | inl d ↦ rw (d, delete_code) h
            | inr l ↦
                rw (l, delete_code)
                  (change-Inv h id (buried now c) (lookup_of_owned m id user_id c e).0
                    (buried-Replaces now c))
          ])
  ]
