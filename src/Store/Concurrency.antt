-- ===== src/Store/Concurrency.antt =====
-- Optimistic concurrency on a row, and the boundary between users.
use qurator.Common.{
  ◌≡◌, ◌≢◌, ◌↔◌, refl, ap, sym, ◌∙◌, inl, inr, nat_eq, ℕ, false, none, some, Text, lookup, insert,
  lookup-insert, ok, err, text_eq, text_beq_iff, Option-cases, beq_ne, arith,
}
use qurator.Domain.{Time, Code, code_active, code_disabled, is_deleted, incr64}
use qurator.Store.State.{MemStore, live, not_found, conflict}
use qurator.Store.Codes.{owned, get_code_by_id}
use qurator.Store.Changes.{redirected, update_destination, put_state, set_code_state, delete_code}

incr64-ne : (v : ℕ) → incr64 v ≢ v
unfolding incr64
incr64-ne v e = omega arith

-- UpdateDestination succeeds exactly on a row of the caller that is not deleted and has the
-- expected version.
pub update_destination-ok_iff :
    (now : Time) (id u dest : Text) (v : ℕ) (m : MemStore)
    → ((update_destination live now id u dest v m).0 ≡ ok tt)
      ↔ ((c : Code) × (owned m id u ≡ some c) × (is_deleted c.state ≡ false) × (c.version ≡ v))
unfolding update_destination
update_destination-ok_iff now id u dest v m = (forth, back)
  where
    forth :
        (update_destination live now id u dest v m).0 ≡ ok tt
        → (c : Code) × (owned m id u ≡ some c) × (is_deleted c.state ≡ false) × (c.version ≡ v)
    forth h = elim (Option-cases (owned m id u)) [
      | inl n ↦ absurd (ground arith)
      | inr (c, e) ↦ (c, e, ground arith, ground arith)
    ]

    back :
        (c : Code) × (owned m id u ≡ some c) × (is_deleted c.state ≡ false) × (c.version ≡ v)
        → (update_destination live now id u dest v m).0 ≡ ok tt
    back (c, e, l, q) = ground arith

update_destination_ok :
    (now : Time) (id u dest : Text) (v : ℕ) (m : MemStore) (c : Code)
    → owned m id u ≡ some c
    → is_deleted c.state ≡ false
    → c.version ≡ v
    → update_destination live now id u dest v m
      ≡ (ok tt, record m { codes = insert id (redirected now dest c) m.codes })
unfolding update_destination
update_destination_ok now id u dest v m c e l q = ground arith

update_destination_stale :
    (now : Time) (id u dest : Text) (v : ℕ) (m : MemStore) (c : Code)
    → owned m id u ≡ some c
    → c.version ≢ v
    → update_destination live now id u dest v m ≡ (err conflict, m)
unfolding update_destination
update_destination_stale now id u dest v m c e q = ground arith

-- The row that a call wrote is the row of its owner.
pub owned-insert :
    (m : MemStore) (id u : Text) (c c' : Code)
    → owned m id u ≡ some c
    → c'.user_id ≡ c.user_id
    → owned (record m { codes = insert id c' m.codes }) id u ≡ some c'
unfolding owned
owned-insert m id u c c' e s = ground (arith, lookup-insert id id c' m.codes, text_beq_iff id id)

-- After one update with some expected version succeeded, another with the same expected version
-- has a conflict and writes nothing: of two clients that read one version, one is refused.
pub second_update_conflicts :
    (now now' : Time) (id u dest dest' : Text) (v : ℕ) (m : MemStore)
    → (update_destination live now id u dest v m).0 ≡ ok tt
    → update_destination live now' id u dest' v (update_destination live now id u dest v m).1
      ≡ (err conflict, (update_destination live now id u dest v m).1)
second_update_conflicts now now' id u dest dest' v m h =
    let (c, e, l, q) = (update_destination-ok_iff now id u dest v m).0 h in
    rw (update_destination_ok now id u dest v m c e l q) (
      update_destination_stale now' id u dest' v _ (redirected now dest c)
        (owned-insert m id u c (redirected now dest c) e (unfold redirected in refl))
        (λ z. incr64-ne v (ap incr64 (sym q) ∙ unfold redirected in z)))

owned_of_foreign :
    (m : MemStore) (id u : Text)
    → ((c : Code) → lookup id m.codes ≡ some c → c.user_id ≢ u)
    → owned m id u ≡ none
unfolding owned
owned_of_foreign m id u f = elim (Option-cases (lookup id m.codes)) [
  | inl n ↦ ground arith
  | inr (c, e) ↦ ground (arith, beq_ne c.user_id u (f c e))
]

-- Where a user does not own a row, or there is none of this id, to get it by its id, to change its
-- destination, to make it active or disabled, or to delete it gives `not_found`, and leaves the store
-- as it was. The context has not ended.
pub not_owner :
    (now : Time) (id u dest : Text) (v : ℕ) (m : MemStore)
    → ((c : Code) → lookup id m.codes ≡ some c → c.user_id ≢ u)
    → (get_code_by_id live id u m ≡ (err not_found, m))
      × (update_destination live now id u dest v m ≡ (err not_found, m))
      × (set_code_state live now id u code_active m ≡ (err not_found, m))
      × (set_code_state live now id u code_disabled m ≡ (err not_found, m))
      × (delete_code live now id u m ≡ (err not_found, m))
unfolding get_code_by_id update_destination set_code_state put_state delete_code
not_owner now id u dest v m f =
    let n = owned_of_foreign m id u f in
    (ground (arith, n), ground (arith, n), ground (arith, n), ground (arith, n), ground (arith, n))
