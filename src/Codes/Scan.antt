-- ===== src/Codes/Scan.antt =====
-- Resolve answers as the tables do, warm or cold; and after any use cases, one after the other.
use qurator.Common.{
  ◌≡◌, ◌⊎◌, ap, sym, ◌∙◌, inl, inr, some, Text, lookup, to_lower, trim_space, text_eq, Option-cases,
  ok, err, arith,
}
use qurator.Domain.{Code}
use qurator.Store.State.{MemStore, live, done, not_found}
use qurator.Store.Codes.{get_code_by_short_code}
use qurator.Codes.World.{Env, CacheLaws, World, Resolution, cache_key, cache_put}
use qurator.Codes.Resolve.{answer, unknown, resolution_of, resolve, resolve_cold}
use qurator.Codes.Coherence.{Sound, stored_key}

-- A cold lookup, by what it finds.
lookup-answer :
    (m : MemStore) (sc : Text)
    → (((get_code_by_short_code live sc m).0 ≡ err not_found) × (answer m (to_lower sc) ≡ unknown))
      ⊎ ((id : Text) × (c : Code) × (lookup (to_lower sc) m.by_code ≡ some id)
          × (lookup id m.codes ≡ some c)
          × ((get_code_by_short_code live sc m).0 ≡ ok c)
          × (answer m (to_lower sc) ≡ resolution_of c))
unfolding get_code_by_short_code answer
lookup-answer m sc = elim (Option-cases (lookup (to_lower sc) m.by_code)) [
  | inl n ↦ inl (ground arith, ground arith)
  | inr (id, p) ↦ elim (Option-cases (lookup id m.codes)) [
    | inl n ↦ inl (ground arith, ground arith)
    | inr (c, q) ↦ inr (id, c, p, q, ground arith, ground arith)
  ]
]

module _ {C : Type 0} (e : Env C) (laws : CacheLaws e) {w : World C} (s : Sound e w) where
  -- the cache takes what the tables say
  put-Sound :
      (k : Text) (r : Resolution) → answer w.store (cache_key k) ≡ r → Sound e (cache_put e k r w)
  put-Sound k r h = record {
    inv = s.inv;
    trimmed = s.trimmed;
    coherent = λ j x got. elim (laws.get-set w.cache j (cache_key k) r x got) [
      | inl (p, q) ↦ ap (answer w.store) (sym p) ∙ h ∙ q
      | inr had ↦ s.coherent j x had
    ];
  }

  key_lem : (sc : Text) → trim_space sc ≡ sc → cache_key sc ≡ to_lower sc
  unfolding cache_key
  key_lem sc t = ap to_lower t

  resolve_cold-answer :
      (sc : Text)
      → trim_space sc ≡ sc
      → ((resolve_cold e live sc w).0 ≡ ok (answer w.store (to_lower sc)))
        × Sound e (resolve_cold e live sc w).1
  unfolding resolve_cold
  resolve_cold-answer sc t = elim (lookup-answer w.store sc) [
    | inl (p, a) ↦ (
      ground (arith, p, a),
      rw (p, resolve_cold) (put-Sound sc unknown (ap (answer w.store) (key_lem sc t) ∙ a)),
    )
    | inr (id, c, l, q, p, a) ↦
        let (d, at, k) = s.inv.indexed (to_lower sc) id l in
        let same : d ≡ c = cc in
        let key : cache_key c.short_code ≡ to_lower sc =
          stored_key e laws s id c q ∙ ap (λ (x : Code). x.short_code) (sym same) ∙ k in
        (
          ground (arith, p, a),
          rw (p, resolve_cold)
              (put-Sound c.short_code (resolution_of c) (ap (answer w.store) key ∙ a)),
        )
  ]

  -- In a sound state a scan of a short code without white space at its ends is answered as the
  -- tables answer it, be it from the cache or not, and leaves a sound state.
  pub resolve-answer :
      (sc : Text)
      → trim_space sc ≡ sc
      → ((resolve e live sc w).0 ≡ ok (answer w.store (to_lower sc)))
        × Sound e (resolve e live sc w).1
  unfolding resolve
  resolve-answer sc t = elim (Option-cases (e.cache_get w.cache (cache_key sc))) [
    | inl n ↦ rw (n, resolve) (resolve_cold-answer sc t)
    | inr (r, got) ↦
        let a : answer w.store (to_lower sc) ≡ r =
          ap (answer w.store) (sym (key_lem sc t)) ∙ s.coherent (cache_key sc) r got in
        rw (got, resolve) (ground (arith, a), s)
  ]

  pub resolve-Sound_done : (sc : Text) → Sound e (resolve e done sc w).1
  unfolding resolve resolve_cold get_code_by_short_code
  resolve-Sound_done sc = elim (Option-cases (e.cache_get w.cache (cache_key sc))) [
    | inl n ↦ rw (n, resolve) s
    | inr (r, got) ↦ rw (got, resolve) s
  ]
