-- ===== src/Store/Invariant/Change.antt =====
-- A change of one row that keeps what the indexes read keeps the invariant.
use qurator.Common.{
  ◌≡◌, inl, inr, true, false, some, Text, lookup, insert, lookup-insert, text_eq, text_beq_iff,
  Bool-cases, ◌==◌, arith,
}
use qurator.Domain.{Code, is_deleted}
use qurator.Store.State.{MemStore, ref_key_eq}
use qurator.Store.Invariant.Defs.{Inv}

-- `c'` may take the place of `c`
pub record Replaces (c c' : Code) : Type 0 where
  pub id : c'.id ≡ c.id
  pub short_code : c'.short_code ≡ c.short_code
  pub user_id : c'.user_id ≡ c.user_id
  pub client_ref : c'.client_ref ≡ c.client_ref
  pub deleted : is_deleted c.state ≡ true → is_deleted c'.state ≡ true

module _ {m : MemStore} (h : Inv m) (id : Text) {c : Code} (c' : Code)
    (at : lookup id m.codes ≡ some c) (r : Replaces c c') where
  live_before : is_deleted c'.state ≡ false → is_deleted c.state ≡ false
  live_before l = elim (Bool-cases (is_deleted c.state)) [ inl t ↦ cc (r.deleted t) | inr f ↦ f ]

  pub change-Inv : Inv (record m { codes = insert id c' m.codes })
  change-Inv = record {
    code_id = λ j d e. ground (
      arith,
      h.code_id id c at,
      h.code_id j d,
      lookup-insert j id c' m.codes,
      text_beq_iff id j,
      r.id,
    );
    code_lower = λ j d e. ground (
      arith,
      h.code_lower id c at,
      h.code_lower j d,
      lookup-insert j id c' m.codes,
      text_beq_iff id j,
      r.short_code,
    );
    indexed = λ k j e.
        let (d, p, q) = h.indexed k j e in
        elim (Bool-cases (id == j)) [
          | inl t ↦ (
            c',
            ground (arith, lookup-insert j id c' m.codes),
            ground (arith, text_beq_iff id j, r.short_code),
          )
          | inr f ↦ (d, ground (arith, lookup-insert j id c' m.codes), q)
        ];
    live_indexed = λ j d e l. ground (
      arith,
      h.live_indexed id c at,
      h.live_indexed j d,
      lookup-insert j id c' m.codes,
      text_beq_iff id j,
      r.short_code,
      live_before,
    );
    index_held = h.index_held;
    held_indexed = h.held_indexed;
    ref_indexed = λ j d e l. ground (
      arith,
      h.ref_indexed id c at,
      h.ref_indexed j d,
      lookup-insert j id c' m.codes,
      text_beq_iff id j,
      r.user_id,
      r.client_ref,
    );
    ref_at = λ k j e.
        let (d, p, q, n) = h.ref_at k j e in
        elim (Bool-cases (id == j)) [
          | inl t ↦ (
            c',
            ground (arith, lookup-insert j id c' m.codes),
            ground (arith, text_beq_iff id j, r.user_id, r.client_ref),
            ground (arith, text_beq_iff id j, r.client_ref),
          )
          | inr f ↦ (d, ground (arith, lookup-insert j id c' m.codes), q, n)
        ];
  }
