-- ===== src/Store/Evolution.antt =====
-- What the calls of a client, or of many, can do to a row that is there.
use mathlib.Core.Path.{subst}
use qurator.Common.{
  ◌≡◌, refl, ap, ◌∙◌, inl, inr, nat_eq, ℕ, suc, true, false, none, some, List, [], ◌∷◌, Text,
  lookup, insert, lookup-insert, text_eq, text_beq_iff, Bool-cases, Option-cases, ◌==◌, arith,
}
use qurator.Domain.{Time, Code, CodeState, code_active, code_disabled, is_deleted, incr64}
use qurator.Store.State.{MemStore, Ctx, live, done, has}
use qurator.Store.Codes.{
  owned, Seen, nothing_seen, check_rows, persisted, store_row, persist_rows, store_rows,
  create_codes,
}
use qurator.Store.Changes.{
  redirected, update_destination, with_state, put_state, set_code_state, buried, delete_code,
}
use qurator.Store.Aliases.{release_alias}
use qurator.Store.Invariant.Methods.{lookup_of_owned}
use qurator.Store.Invariant.Create.{not-has}
use qurator.Store.Invariant.Batch.{
  Agrees, Agrees-nothing_seen, check_rows_step, check_row-Fresh, check_row-Agrees,
}
use qurator.Store.Calls.{
  Call, call_create, call_update, call_put, call_bury, call_release, apply, run,
}

-- What a row keeps for good.
pub record SameRow (c d : Code) : Type 0 where
  pub id : d.id ≡ c.id
  pub short_code : d.short_code ≡ c.short_code
  pub user_id : d.user_id ≡ c.user_id
  pub mode : d.mode ≡ c.mode
  pub client_ref : d.client_ref ≡ c.client_ref
  pub created_at : d.created_at ≡ c.created_at

-- One call leaves the row as it is, or changes a row that is not deleted and counts its version up.
pub data Evolves (c : Code) : Code → Type 0 where
  stays : {d : Code} → d ≡ c → Evolves c d
  moves :
      {d : Code}
      → is_deleted c.state ≡ false
      → d.version ≡ incr64 c.version
      → SameRow c d
      → Evolves c d

codes-release :
    (ctx : Ctx) (now : Time) (k : Text) (m : MemStore)
    → (release_alias ctx now k m).1.codes ≡ m.codes
unfolding release_alias
codes-release done now k m = refl
codes-release live now k m = ground arith

store_row-keep :
    (now : Time) (m : MemStore) (d : Code) (id : Text) {c : Code}
    → has d.id m.codes ≡ false
    → lookup id m.codes ≡ some c
    → lookup id (store_row now m d).codes ≡ some c
unfolding store_row
store_row-keep now m d id f at =
    ground (arith, lookup-insert id d.id d m.codes, text_beq_iff d.id id, not-has d.id m.codes f)

store_rows-keep :
    (now : Time) (rand : ℕ → ℕ → ℕ) (m₀ m : MemStore) (s : Seen) (cs : List Code) (id : Text)
    (c : Code)
    → Agrees m₀ m s
    → check_rows m₀ s cs ≡ none
    → lookup id m.codes ≡ some c
    → lookup id (store_rows now m (persist_rows now rand cs)).codes ≡ some c
unfolding store_rows persist_rows
store_rows-keep now rand m₀ m s [] id c a e at = at
store_rows-keep now rand m₀ m s (d ∷ cs) id c a e at =
    let (s', p, e') = check_rows_step m₀ s d cs e in
    let d' = persisted now (rand 0) d in
    store_rows-keep now (λ i. rand (suc i)) m₀ (store_row now m d') s' cs id c
      (check_row-Agrees now (rand 0) a d p) e'
      (store_row-keep now m d' id (check_row-Fresh now (rand 0) a d p).id at)

module _ (m : MemStore) (id : Text) (c : Code) (at : lookup id m.codes ≡ some c) where
  abbrev After : MemStore → Type 0
  After m' = (d : Code) × (lookup id m'.codes ≡ some d) × Evolves c d

  unchanged : After m
  unchanged = (c, at, stays refl)

  changed :
      (j : Text) (d e : Code)
      → lookup j m.codes ≡ some d
      → is_deleted d.state ≡ false
      → e.version ≡ incr64 d.version
      → SameRow d e
      → After (record m { codes = insert j e m.codes })
  changed j d e p l v s = elim (Bool-cases (j == id)) [
    | inl t ↦ (
      e,
      ground (arith, lookup-insert id j e m.codes),
      (let q : d ≡ c = ground (arith, text_beq_iff j id) in
          subst (λ x. Evolves x e) q (moves l v s)),
    )
    | inr f ↦ (c, ground (arith, lookup-insert id j e m.codes), stays refl)
  ]

  update_destination-After :
      (ctx : Ctx) (now : Time) (j u dest : Text) (v : ℕ)
      → After (update_destination ctx now j u dest v m).1
  unfolding update_destination
  update_destination-After done now j u dest v = unchanged
  update_destination-After live now j u dest v = elim (Option-cases (owned m j u)) [
    | inl n ↦ rw (n, update_destination) unchanged
    | inr (d, e) ↦
        rw (e, update_destination)
          (elim (Bool-cases (is_deleted d.state)) [
            | inl t ↦ rw (t, update_destination) unchanged
            | inr l ↦
                rw (l, update_destination)
                  (elim (Bool-cases (d.version == v)) [
                    | inl t ↦
                        rw (t, update_destination)
                          (changed j d (redirected now dest d) (lookup_of_owned m j u d e).0 l
                            (unfold redirected in refl) (unfold redirected in ground arith))
                    | inr f ↦ rw (f, update_destination) unchanged
                  ])
          ])
  ]

  put_state-After : (now : Time) (j u : Text) (s : CodeState) → After (put_state now j u s m).1
  unfolding put_state
  put_state-After now j u s = elim (Option-cases (owned m j u)) [
    | inl n ↦ rw (n, put_state) unchanged
    | inr (d, e) ↦
        rw (e, put_state)
          (elim (Bool-cases (is_deleted d.state)) [
            | inl t ↦ rw (t, put_state) unchanged
            | inr l ↦
                rw (l, put_state)
                  (changed j d (with_state now s d) (lookup_of_owned m j u d e).0 l
                    (unfold with_state in refl) (unfold with_state in ground arith))
          ])
  ]

  delete_code-After : (ctx : Ctx) (now : Time) (j u : Text) → After (delete_code ctx now j u m).1
  unfolding delete_code
  delete_code-After done now j u = unchanged
  delete_code-After live now j u = elim (Option-cases (owned m j u)) [
    | inl n ↦ rw (n, delete_code) unchanged
    | inr (d, e) ↦
        rw (e, delete_code)
          (elim (Bool-cases (is_deleted d.state)) [
            | inl t ↦ rw (t, delete_code) unchanged
            | inr l ↦
                rw (l, delete_code)
                  (changed j d (buried now d) (lookup_of_owned m j u d e).0 l
                    (unfold buried in refl) (unfold buried in ground arith))
          ])
  ]

  set_code_state-After :
      (ctx : Ctx) (now : Time) (j u : Text) (s : CodeState)
      → After (set_code_state ctx now j u s m).1
  unfolding set_code_state
  set_code_state-After done now j u code_active = unchanged
  set_code_state-After done now j u _ = unchanged
  set_code_state-After live now j u code_active = put_state-After now j u code_active
  set_code_state-After live now j u code_disabled = put_state-After now j u code_disabled
  set_code_state-After live now j u _ = unchanged

  release_alias-After : (ctx : Ctx) (now : Time) (k : Text) → After (release_alias ctx now k m).1
  release_alias-After ctx now k = (c, rw (codes-release ctx now k m) at, stays refl)

  create_codes-After :
      (ctx : Ctx) (now : Time) (rand : ℕ → ℕ → ℕ) (cs : List Code)
      → After (create_codes ctx now rand cs m).1
  unfolding create_codes
  create_codes-After done now rand cs = unchanged
  create_codes-After live now rand cs = elim (Option-cases (check_rows m nothing_seen cs)) [
    | inl n ↦
        rw (n, create_codes)
          (
            c,
            store_rows-keep now rand m m nothing_seen cs id c (Agrees-nothing_seen m) n at,
            stays refl,
          )
    | inr (e, p) ↦ rw (p, create_codes) unchanged
  ]

  apply-After : (call : Call) → After (apply call m)
  unfolding apply
  apply-After (call_create ctx now rand cs) = create_codes-After ctx now rand cs
  apply-After (call_update ctx now j u dest v) = update_destination-After ctx now j u dest v
  apply-After (call_put ctx now j u s) = set_code_state-After ctx now j u s
  apply-After (call_bury ctx now j u) = delete_code-After ctx now j u
  apply-After (call_release ctx now k) = release_alias-After ctx now k

-- Each call, by anyone, keeps a row: the row stays as it is, or it was not deleted, its version
-- counts up by one, and its id, short code, owner, mode, client reference and creation time stay.
pub apply-Evolves :
    (call : Call) (m : MemStore) (id : Text) (c : Code)
    → lookup id m.codes ≡ some c
    → (d : Code) × (lookup id (apply call m).codes ≡ some d) × Evolves c d
apply-Evolves call m id c at = apply-After m id c at call

Evolves-deleted : {c d : Code} → is_deleted c.state ≡ true → Evolves c d → d ≡ c
Evolves-deleted g (stays e) = e
Evolves-deleted g (moves l v s) = cc

-- A deleted row never changes again, and never goes away, whatever is called.
pub run-deleted :
    (cs : List Call) (m : MemStore) (id : Text) (c : Code)
    → lookup id m.codes ≡ some c
    → is_deleted c.state ≡ true
    → lookup id (run cs m).codes ≡ some c
unfolding run
run-deleted [] m id c at g = at
run-deleted (call ∷ cs) m id c at g =
    let (d, p, e) = apply-Evolves call m id c at in
    run-deleted cs (apply call m) id c (p ∙ ap some (Evolves-deleted g e)) g

Evolves-SameRow : {c d : Code} → Evolves c d → SameRow c d
Evolves-SameRow {c} {d} (stays e) = ground (arith, e)
Evolves-SameRow (moves l v s) = s

SameRow-trans : {c d e : Code} → SameRow c d → SameRow d e → SameRow c e
SameRow-trans s t = ground arith

-- Whatever is called, a row keeps its id, short code, owner, mode, client reference and time of
-- creation.
pub run-SameRow :
    (cs : List Call) (m : MemStore) (id : Text) (c : Code)
    → lookup id m.codes ≡ some c
    → (d : Code) × (lookup id (run cs m).codes ≡ some d) × SameRow c d
unfolding run
run-SameRow [] m id c at = (c, at, ground arith)
run-SameRow (call ∷ cs) m id c at =
    let (d, p, e) = apply-Evolves call m id c at in
    let (f, q, s) = run-SameRow cs (apply call m) id d p in
    (f, q, SameRow-trans (Evolves-SameRow e) s)
