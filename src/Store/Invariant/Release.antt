-- ===== src/Store/Invariant/Release.antt =====
-- ReleaseAlias keeps the invariant: a short code leaves the index with its reservation.
use qurator.Common.{
  ◌≡◌, ◌≢◌, ap, ◌∙◌, inl, inr, true, false, none, some, Text, lookup, insert, delete, lookup-insert,
  lookup-insert-some, lookup-delete, lookup-delete-some, to_lower, text_eq, Bool-cases,
  Option-cases, beq_ne, ◌==◌, arith,
}
use qurator.Domain.{Time, Code, is_deleted}
use qurator.Store.State.{MemStore, Reservation, Ctx, live, done}
use qurator.Store.Aliases.{owner_lives, unindexed, release_alias}
use qurator.Store.Invariant.Defs.{Inv}

-- a released short code, at the tables
abbrev released : MemStore → Text → Reservation → MemStore
released m k r = record m { reservations = insert k r m.reservations; by_code = delete k m.by_code }

module _ {m : MemStore} (h : Inv m) (k : Text) {c : Code} {id : Text} (r : Reservation)
    (index : lookup k m.by_code ≡ some id) (row : lookup id m.codes ≡ some c)
    (gone : is_deleted c.state ≡ true) (over : r.released_at ≢ none) where
  other_key :
      (j : Text) (d : Code)
      → lookup j m.codes ≡ some d
      → is_deleted d.state ≡ false
      → (k == d.short_code) ≡ false
  other_key j d e l = beq_ne k d.short_code (λ q. ground (arith, q, h.live_indexed j d e l))

  pub released-Inv : Inv (released m k r)
  released-Inv = record {
    code_id = h.code_id;
    code_lower = h.code_lower;
    indexed = λ j i e. h.indexed j i (lookup-delete-some j k i m.by_code e).1;
    live_indexed = λ j d e l.
        ground (
          arith,
          lookup-delete d.short_code k m.by_code,
          other_key j d e l,
          h.live_indexed j d e l,
        );
    index_held = λ j i e.
        let (f, e') = lookup-delete-some j k i m.by_code e in
        let (s, p, q, n) = h.index_held j i e' in
        (s, ground (arith, lookup-insert j k r m.reservations), q, n);
    held_indexed = λ j s e n. elim (lookup-insert-some j k r s m.reservations e) [
      | inl (p, q) ↦ absurd (over (ap (λ (x : Reservation). x.released_at) q ∙ n))
      | inr (f, e') ↦ ground (arith, lookup-delete j k m.by_code, h.held_indexed j s e' n)
    ];
    ref_indexed = h.ref_indexed;
    ref_at = h.ref_at;
  }

pub gone_of_not_lives :
    (m : MemStore) (id : Text) (c : Code)
    → lookup id m.codes ≡ some c
    → owner_lives id m ≡ false
    → is_deleted c.state ≡ true
unfolding owner_lives
gone_of_not_lives m id c e h = ground arith

pub unindexed_of_gone :
    (m : MemStore) (k id : Text) (c : Code)
    → lookup k m.by_code ≡ some id
    → lookup id m.codes ≡ some c
    → is_deleted c.state ≡ true
    → unindexed k m ≡ delete k m.by_code
unfolding unindexed
unindexed_of_gone m k id c e f g = ground arith

module _ {m : MemStore} (h : Inv m) (now : Time) (alias : Text) where
  pub release_alias-Inv : (ctx : Ctx) → Inv (release_alias ctx now alias m).1
  unfolding release_alias
  release_alias-Inv done = h
  release_alias-Inv live = elim (Option-cases (lookup (to_lower alias) m.reservations)) [
    | inl n ↦ rw (n, release_alias) h
    | inr (r, e) ↦
        rw (e, release_alias)
          (elim (Option-cases r.released_at) [
            | inr (t, g) ↦ rw (g, release_alias) h
            | inl g ↦
                rw (g, release_alias)
                  (elim (Bool-cases (owner_lives r.code_id m)) [
                    | inl o ↦ rw (o, release_alias) h
                    | inr o ↦
                        let index : lookup (to_lower alias) m.by_code ≡ some r.code_id =
                          h.held_indexed _ r e g in
                        let (c, row, p) = h.indexed _ _ index in
                        let gone : is_deleted c.state ≡ true =
                          gone_of_not_lives m r.code_id c row o in
                        rw (o, release_alias) rw
                          (unindexed_of_gone m (to_lower alias) r.code_id c index row gone)
                          (released-Inv h (to_lower alias) (record r { released_at = some now })
                            index row gone (λ z. cc z))
                  ])
          ])
  ]
