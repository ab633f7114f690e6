-- ===== src/Store/Invariant/Create.antt =====
-- CreateCodes keeps the invariant. The validation loop reads the store as it was and the maps that
-- it fills; `Agrees` says that these answer like the store with the rows so far inserted.
use qurator.Common.{
  ◌≡◌, ◌≢◌, refl, inl, inr, false, ◌||◌, none, some, Text, Dict, lookup, insert, lookup-insert,
  lookup-insert-some, lookup-insert_self, if◌then◌else◌, ◌⊎◌, to_lower, is_empty, text_eq,
  text_beq_iff, Bool-cases, beq_ne, ◌==◌, Eq, arith,
}
use qurator.Domain.{Time, Code}
use qurator.Store.State.{MemStore, Reservation, has, held, RefKey, ref_key_eq}
use qurator.Store.Codes.{ref_key, store_row}
use qurator.Store.Invariant.Defs.{Inv}

pub not-has {ℓ} :
    {K : Type 0} {V : Type ℓ} ⦃e : Eq K⦄ (k : K) (m : Dict K V)
    → has k m ≡ false
    → lookup k m ≡ none
unfolding has
not-has k m h = ground arith

pub has-insert {ℓ} :
    {K : Type 0} {V : Type ℓ} ⦃e : Eq K⦄ (j k : K) (v : V) (m : Dict K V)
    → has j (insert k v m) ≡ ((k == j) || has j m)
unfolding has
has-insert j k v m = ground (arith, lookup-insert j k v m)

-- what the checks of one row establish
pub record Fresh (m : MemStore) (c : Code) : Type 0 where
  pub id : has c.id m.codes ≡ false
  pub short_code : has c.short_code m.by_code ≡ false
  pub not_held : held c.short_code m ≡ false
  pub ref : is_empty c.client_ref ≡ false → has (ref_key c) m.by_ref ≡ false
  pub lower : to_lower c.short_code ≡ c.short_code

-- a key that a table lacks is not the key of an entry
other_key {ℓ} :
    {K : Type 0} {V : Type ℓ} ⦃e : Eq K⦄ (j k : K) (v : V) (m : Dict K V)
    → has k m ≡ false
    → lookup j m ≡ some v
    → (k == j) ≡ false
other_key j k v m f h = beq_ne k j (λ q. ground (arith, q, not-has k m f))

not-held :
    (k : Text) (m : MemStore) (r : Reservation)
    → held k m ≡ false
    → r.released_at ≡ none
    → lookup k m.reservations ≢ some r
unfolding held
not-held k m r f n e = ground arith

module _ {m : MemStore} (h : Inv m) (now : Time) (c : Code) (f : Fresh m c) where
  refs : Dict RefKey Text
  refs = if is_empty c.client_ref then m.by_ref else insert (ref_key c) c.id m.by_ref

  refs-keep : (k : RefKey) (j : Text) → lookup k m.by_ref ≡ some j → lookup k refs ≡ some j
  unfolding refs
  refs-keep k j e = elim (Bool-cases (is_empty c.client_ref)) [
    | inl t ↦ rw t e
    | inr n ↦ rw n (
        ground (
          arith,
          other_key k (ref_key c) j m.by_ref (f.ref n) e,
          lookup-insert k (ref_key c) c.id m.by_ref,
        ))
  ]

  refs-some :
      (k : RefKey) (j : Text)
      → lookup k refs ≡ some j
      → ((ref_key c ≡ k) × (c.id ≡ j) × (is_empty c.client_ref ≡ false))
        ⊎ (lookup k m.by_ref ≡ some j)
  unfolding refs
  refs-some k j e = elim (Bool-cases (is_empty c.client_ref)) [
    | inl t ↦ inr (rw t at e)
    | inr n ↦ elim (lookup-insert-some k (ref_key c) c.id j m.by_ref (rw n at e)) [
      | inl (p, q) ↦ inl (p, q, n)
      | inr (g, e') ↦ inr e'
    ]
  ]

  refs_self :
      (d : Code) {j : Text}
      → c.id ≡ j
      → c ≡ d
      → is_empty d.client_ref ≡ false
      → lookup (ref_key d) refs ≡ some j
  unfolding refs
  refs_self d p q l =
      let n : is_empty c.client_ref ≡ false = rw q l in
      rw n (rw (← q) (rw (← p) (lookup-insert_self (ref_key c) c.id m.by_ref)))

  pub store_row-Inv : Inv (store_row now m c)
  unfolding store_row refs
  store_row-Inv = record {
    code_id =
        λ j d e. ground (arith, lookup-insert j c.id c m.codes, text_beq_iff c.id j, h.code_id j d);
    code_lower = λ j d e. ground (arith, f.lower, lookup-insert j c.id c m.codes, h.code_lower j d);
    indexed = λ k j e. elim (lookup-insert-some k c.short_code c.id j m.by_code e) [
      | inl (p, q) ↦ (c, ground (arith, lookup-insert j c.id c m.codes, text_beq_iff c.id j), p)
      | inr (g, e') ↦
          let (d, x, y) = h.indexed k j e' in
          (d, ground (arith, lookup-insert j c.id c m.codes, other_key j c.id d m.codes f.id x), y)
    ];
    live_indexed = λ j d e l. elim (lookup-insert-some j c.id c d m.codes e) [
      | inl (p, q) ↦ ground (
        arith,
        lookup-insert d.short_code c.short_code c.id m.by_code,
        text_beq_iff c.short_code d.short_code,
      )
      | inr (g, e') ↦
          let x = h.live_indexed j d e' l in
          ground (
            arith,
            lookup-insert d.short_code c.short_code c.id m.by_code,
            other_key d.short_code c.short_code j m.by_code f.short_code x,
          )
    ];
    index_held = λ k j e. elim (lookup-insert-some k c.short_code c.id j m.by_code e) [
      | inl (p, q) ↦ (
        record { code_id = c.id; reserved_at = now; released_at = none },
        ground (
          arith,
          lookup-insert k c.short_code
              (record { code_id = c.id; reserved_at = now; released_at = none }) m.reservations,
          text_beq_iff c.short_code k,
        ),
        q,
        refl,
      )
      | inr (g, e') ↦
          let (r, x, y, z) = h.index_held k j e' in
          (
            r,
            ground (
              arith,
              lookup-insert k c.short_code
                  (record { code_id = c.id; reserved_at = now; released_at = none }) m.reservations,
            ),
            y,
            z,
          )
    ];
    held_indexed = λ k r e n. elim (lookup-insert-some k c.short_code _ r m.reservations e) [
      | inl (p, q) ↦
          ground (arith, lookup-insert k c.short_code c.id m.by_code, text_beq_iff c.short_code k)
      | inr (g, e') ↦
          ground (arith, lookup-insert k c.short_code c.id m.by_code, h.held_indexed k r e' n)
    ];
    ref_indexed = λ j d e l. elim (lookup-insert-some j c.id c d m.codes e) [
      | inl (p, q) ↦ refs_self d p q l
      | inr (g, e') ↦ refs-keep (ref_key d) j (h.ref_indexed j d e' l)
    ];
    ref_at = λ k j e. elim (refs-some k j e) [
      | inl (p, q, n) ↦
          (c, ground (arith, lookup-insert j c.id c m.codes, text_beq_iff c.id j), p, n)
      | inr e' ↦
          let (d, x, y, z) = h.ref_at k j e' in
          (
            d,
            ground (arith, lookup-insert j c.id c m.codes, other_key j c.id d m.codes f.id x),
            y,
            z,
          )
    ];
  }
