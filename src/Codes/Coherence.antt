-- ===== src/Codes/Coherence.antt =====
-- The resolver cache never contradicts the tables: the sound states of the service, and that the
-- changes of a code lead from one to another.
use qurator.Common.{
  ◌≡◌, ◌≢◌, refl, ap, sym, ◌∙◌, inl, inr, ℕ, some, Text, lookup, insert, lookup-insert, to_lower,
  trim_space, text_eq, nat_eq, text_beq_iff, Option-cases, Bool-cases, Result, ok, err, ◌==◌, arith,
}
use qurator.Domain.{Time, Code, CodeState, code_active, code_disabled, is_deleted}
use qurator.Store.State.{MemStore, Ctx, live, done, StoreError}
use qurator.Store.Codes.{owned}
use qurator.Store.Changes.{
  redirected, update_destination, with_state, put_state, set_code_state, buried, delete_code,
}
use qurator.Store.Invariant.{Inv}
use qurator.Store.Invariant.Methods.{lookup_of_owned}
use qurator.Codes.World.{Env, CacheLaws, World, Resolution, cache_key, invalidate}
use qurator.Codes.Resolve.{answer}
use qurator.Codes.Answers.{answer-put}

-- The tables are consistent, no short code has white space at an end, and what the cache holds
-- under a key is what the tables say.
pub record Sound {C : Type 0} (e : Env C) (w : World C) : Type 0 where
  pub inv : Inv w.store
  pub trimmed :
      (id : Text) (c : Code)
      → lookup id w.store.codes ≡ some c
      → trim_space c.short_code ≡ c.short_code
  pub coherent : (k : Text) (r : Resolution) → e.cache_get w.cache k ≡ some r → answer w.store k ≡ r

-- A write to the row of one id that keeps the short code.
pub data Step (m : MemStore) (id u : Text) : Result StoreError (Unit {0}) × MemStore → Type 0 where
  failed : {x : StoreError} → Step m id u (err x, m)
  kept : Step m id u (ok tt, m)
  wrote :
      (c c' : Code)
      → owned m id u ≡ some c
      → c'.short_code ≡ c.short_code
      → Step m id u (ok tt, record m { codes = insert id c' m.codes })

pub update_destination-Step :
    (ctx : Ctx) (now : Time) (id u dest : Text) (v : ℕ) (m : MemStore)
    → Step m id u (update_destination ctx now id u dest v m)
unfolding update_destination
update_destination-Step done now id u dest v m = failed
update_destination-Step live now id u dest v m = elim (Option-cases (owned m id u)) [
  | inl n ↦ rw (n, update_destination) failed
  | inr (c, o) ↦ elim (Bool-cases (is_deleted c.state)) [
    | inl g ↦ rw (o, g, update_destination) failed
    | inr l ↦ elim (Bool-cases (c.version == v)) [
      | inl q ↦
          rw (o, l, q, update_destination)
            (wrote c (redirected now dest c) o (unfold redirected in refl))
      | inr q ↦ rw (o, l, q, update_destination) failed
    ]
  ]
]

put_state-Step :
    (now : Time) (id u : Text) (s : CodeState) (m : MemStore) → Step m id u (put_state now id u s m)
unfolding put_state
put_state-Step now id u s m = elim (Option-cases (owned m id u)) [
  | inl n ↦ rw (n, put_state) failed
  | inr (c, o) ↦ elim (Bool-cases (is_deleted c.state)) [
    | inl g ↦ rw (o, g, put_state) failed
    | inr l ↦ rw (o, l, put_state) (wrote c (with_state now s c) o (unfold with_state in refl))
  ]
]

pub set_code_state-Step :
    (ctx : Ctx) (now : Time) (id u : Text) (s : CodeState) (m : MemStore)
    → Step m id u (set_code_state ctx now id u s m)
unfolding set_code_state
set_code_state-Step done now id u s m = failed
set_code_state-Step live now id u code_active m = put_state-Step now id u code_active m
set_code_state-Step live now id u code_disabled m = put_state-Step now id u code_disabled m
set_code_state-Step live now id u s m = failed

pub delete_code-Step :
    (ctx : Ctx) (now : Time) (id u : Text) (m : MemStore) → Step m id u (delete_code ctx now id u m)
unfolding delete_code
delete_code-Step done now id u m = failed
delete_code-Step live now id u m = elim (Option-cases (owned m id u)) [
  | inl n ↦ rw (n, delete_code) failed
  | inr (c, o) ↦ elim (Bool-cases (is_deleted c.state)) [
    | inl g ↦ rw (o, g, delete_code) kept
    | inr l ↦ rw (o, l, delete_code) (wrote c (buried now c) o (unfold buried in refl))
  ]
]

-- the short code is dropped from the cache if the write succeeded
abbrev pub SoundAfter :
    {C : Type 0} (e : Env C) (w : World C) (cur : Code)
    → Result StoreError (Unit {0}) × MemStore
    → Type 0
SoundAfter e w cur (ok _, m) = Sound e (invalidate e cur.short_code (record w { store = m }))
SoundAfter e w cur (err x, m) = Sound e (record w { store = m })

pub after_ok :
    {C : Type 0} (e : Env C) (w : World C) (cur : Code)
    (p : Result StoreError (Unit {0}) × MemStore)
    → (a : Unit {0}) → p.0 ≡ ok a
    → SoundAfter e w cur p
    → Sound e (invalidate e cur.short_code (record w { store = p.1 }))
after_ok e w cur (ok b, m) a q s = s
after_ok e w cur (err x, m) a q s = absurd (ground arith)

pub after_err :
    {C : Type 0} (e : Env C) (w : World C) (cur : Code)
    (p : Result StoreError (Unit {0}) × MemStore)
    → (x : StoreError) → p.0 ≡ err x
    → SoundAfter e w cur p
    → Sound e (record w { store = p.1 })
after_err e w cur (ok b, m) x q s = absurd (ground arith)
after_err e w cur (err y, m) x q s = s

module _ {C : Type 0} (e : Env C) (laws : CacheLaws e) {w : World C} (s : Sound e w) where
  pub stored_key :
      (id : Text) (c : Code)
      → lookup id w.store.codes ≡ some c
      → cache_key c.short_code ≡ c.short_code
  unfolding cache_key
  stored_key id c at = ap to_lower (s.trimmed id c at) ∙ s.inv.code_lower id c at

  -- the tables change at one short code only, and its entry of the cache is dropped
  pub coherent_after :
      (m : MemStore) (x sc k : Text) (r : Resolution)
      → cache_key x ≡ sc
      → ((j : Text) → sc ≢ j → answer m j ≡ answer w.store j)
      → e.cache_get (invalidate e x w).cache k ≡ some r
      → answer m k ≡ r
  coherent_after m x sc k r key same got =
      let (ne, had) = laws.get-invalidate w.cache k (cache_key x) r got in
      same k (λ q. ground (arith, text_beq_iff (cache_key x) k, key, q)) ∙ s.coherent k r had

  trimmed_after :
      (id j : Text) (c c' d : Code)
      → lookup id w.store.codes ≡ some c
      → c'.short_code ≡ c.short_code
      → lookup j (insert id c' w.store.codes) ≡ some d
      → trim_space d.short_code ≡ d.short_code
  trimmed_after id j c c' d at q p = elim (Bool-cases (id == j)) [
    | inl t ↦
        let f : d ≡ c' = ground (arith, lookup-insert j id c' w.store.codes) in
        ap trim_space (ap (λ (x : Code). x.short_code) f ∙ q)
        ∙ s.trimmed id c at
        ∙ sym q
        ∙ sym (ap (λ (x : Code). x.short_code) f)
    | inr f ↦ s.trimmed j d (ground (arith, lookup-insert j id c' w.store.codes))
  ]

  wrote-Sound :
      (id : Text) (c c' : Code)
      → lookup id w.store.codes ≡ some c
      → c'.short_code ≡ c.short_code
      → Inv (record (w.store) { codes = insert id c' w.store.codes })
      → Sound e (
          invalidate e c.short_code
            (record w { store = record (w.store) { codes = insert id c' w.store.codes } }))
  wrote-Sound id c c' at q inv = record {
    inv = inv;
    trimmed = λ j d. trimmed_after id j c c' d at q;
    coherent = λ k r.
        coherent_after (record (w.store) { codes = insert id c' w.store.codes }) c.short_code
          c.short_code k r (stored_key id c at) (λ j. answer-put s.inv id j c c' at);
  }

  pub dropped-Sound : (k : Text) → Sound e (invalidate e k w)
  dropped-Sound k = record {
    inv = s.inv;
    trimmed = s.trimmed;
    coherent = λ j r got. s.coherent j r (laws.get-invalidate w.cache j (cache_key k) r got).1;
  }

  pub Step-Sound :
      (id u : Text) (cur : Code) (p : Result StoreError (Unit {0}) × MemStore)
      → owned w.store id u ≡ some cur
      → Step w.store id u p
      → Inv p.1
      → SoundAfter e w cur p
  Step-Sound id u cur p o failed inv = s
  Step-Sound id u cur p o kept inv = dropped-Sound cur.short_code
  Step-Sound id u cur p o (wrote c c' o' q) inv =
      let at : lookup id w.store.codes ≡ some cur = (lookup_of_owned w.store id u cur o).0 in
      let same : c ≡ cur = cc in
      wrote-Sound id cur c' at (q ∙ ap (λ (x : Code). x.short_code) same) inv
