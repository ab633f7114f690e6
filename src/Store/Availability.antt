-- ===== src/Store/Availability.antt =====
-- When a short code can be taken: IsAliasAvailable, CreateCode, DeleteCode and ReleaseAlias agree.
use qurator.Common.{
  if◌then◌else◌, ◌≡◌, ◌⊎◌, inl, inr, ℕ, true, false, not, some, Text, lookup, insert, delete,
  lookup-insert, lookup-delete, member, to_lower, is_empty, ok, err, text_eq, text_beq_iff,
  Bool-cases, arith,
}
use qurator.Domain.{Time, Code, is_deleted}
use qurator.Store.State.{MemStore, live, has, held, Reservation, alias_taken, conflict, ref_key_eq}
use qurator.Store.Codes.{check_row, check_rows, persisted, reflect_rows, create_codes, create_code}
use qurator.Store.Changes.{delete_code}
use qurator.Store.Aliases.{is_alias_available, owner_lives, release_alias}
use qurator.Store.Invariant.{Inv}
use qurator.Store.Invariant.Release.{unindexed_of_gone}

-- A row whose id is new, with all that CreateCode asks of a row besides its short code.
pub record IsInsertable (m : MemStore) (c : Code) : Type 0 where
  pub has_id : is_empty c.id ≡ false
  pub has_short_code : is_empty c.short_code ≡ false
  pub has_user : is_empty c.user_id ≡ false
  pub new_id : has c.id m.codes ≡ false
  pub no_ref : is_empty c.client_ref ≡ true

-- For a row that has a new id, a user, a short code and no client reference, while the context has not
-- ended: either IsAliasAvailable answers yes and CreateCode, called next, takes the row, or it answers
-- no and CreateCode fails with `alias_taken`.
pub is_alias_available-create_code :
    (now : Time) (rand : ℕ → ℕ) (m : MemStore) (c : Code)
    → IsInsertable m c
    → ((is_alias_available live c.short_code m ≡ (ok true, m))
        × ((c' : Code) × ((create_code live now rand c m).0 ≡ ok c')))
      ⊎ ((is_alias_available live c.short_code m ≡ (ok false, m))
          × (create_code live now rand c m ≡ (err alias_taken, m)))
unfolding is_alias_available create_code create_codes check_rows check_row reflect_rows member
is_alias_available-create_code now rand m c h =
    elim (Bool-cases (has (to_lower c.short_code) m.by_code)) [
      | inl t ↦ inr (ground arith, ground arith)
      | inr f ↦ elim (Bool-cases (held (to_lower c.short_code) m)) [
        | inl t ↦ inr (ground arith, ground arith)
        | inr g ↦ inl (
          ground arith,
          (record (persisted now rand c) { deleted_at = c.deleted_at }, ground arith),
        )
      ]
    ]

-- Deleting a code does not free its short code.
pub delete_code-reserved :
    (now : Time) (id u : Text) (m : MemStore) (k : Text)
    → is_alias_available live k (delete_code live now id u m).1
      ≡ ((is_alias_available live k m).0, (delete_code live now id u m).1)
unfolding is_alias_available delete_code held
delete_code-reserved now id u m k = ground arith

module _ (now : Time) (m : MemStore) (id : Text) (c : Code) (h : Inv m)
    (x : lookup c.short_code m.by_code ≡ some id) (e : lookup id m.codes ≡ some c) where
  lower : to_lower c.short_code ≡ c.short_code
  lower = h.code_lower id c e

  owner_lives-eq : owner_lives id m ≡ not (is_deleted c.state)
  unfolding owner_lives
  owner_lives-eq = ground (arith, e)

  release_alias_live :
      is_deleted c.state ≡ false → release_alias live now c.short_code m ≡ (err conflict, m)
  unfolding release_alias
  release_alias_live l =
      let (r, y, z, w) = h.index_held c.short_code id x in
      ground (arith, lower, y, z, w, owner_lives-eq, l)

  release_alias_gone :
      is_deleted c.state ≡ true
      → (r : Reservation) × (release_alias live now c.short_code m ≡ (
        ok tt,
        record m {
          reservations = insert c.short_code (record r { released_at = some now }) m.reservations;
          by_code = delete c.short_code m.by_code;
        },
      ))
  unfolding release_alias
  release_alias_gone g =
      let (r, y, z, w) = h.index_held c.short_code id x in
      (
        r,
        ground
            (arith, lower, y, z, w, owner_lives-eq, g, unindexed_of_gone m c.short_code id c x e g),
      )

  -- Of a short code that is in use, ReleaseAlias frees that of a deleted code, and refuses that of
  -- any other with a conflict; afterwards the short code is available exactly if it was freed.
  pub release_alias_frees :
      ((release_alias live now c.short_code m).0
        ≡ (if is_deleted c.state then ok tt else err conflict))
      × (is_alias_available live c.short_code (release_alias live now c.short_code m).1
          ≡ (ok (is_deleted c.state), (release_alias live now c.short_code m).1))
  unfolding is_alias_available has held
  release_alias_frees = elim (Bool-cases (is_deleted c.state)) [
    | inl g ↦
        let (r, q) = release_alias_gone g in
        (
          ground (arith, q, g),
          rw (q, g)
              (ground (
                arith,
                lower,
                lookup-delete c.short_code c.short_code m.by_code,
                lookup-insert c.short_code c.short_code (record r { released_at = some now })
                    m.reservations,
                text_beq_iff c.short_code c.short_code,
              )),
        )
    | inr l ↦
        let q = release_alias_live l in (ground (arith, q, l), rw (q, l) (ground (arith, lower, x)))
  ]
