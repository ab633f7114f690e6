-- ===== src/Auth/Revocation.antt =====
-- What the calls do to the entries of the cache, and to the row of a revoked token.
use qurator.Common.{
  ℕ, ◌+◌, ◌≤◌, ◌≡◌, ◌⊎◌, refl, ap, sym, ◌∙◌, inl, inr, Bool, true, false, ◌||◌, some, [], ◌∷◌, Text,
  Dict, lookup, insert, delete, lookup-insert, All, All-filter, ok, err, length, ltb, leb, is_empty,
  ◌==◌, text_eq, text_beq_iff, Bool-cases, Option-cases, Result-cases, arith,
}
use mathlib.Core.Path.{subst}
use qurator.Domain.{Time, ApiToken, revoked, is_some}
use qurator.Store.State.{MemStore, Ctx, live, done, has}
use qurator.Store.Tokens.{get_token_by_id, create_token, revoke_token, touch_token_last_used}
use qurator.Auth.{
  AuthConfig, AuthError, CacheEntry, Authenticator, ttl_get, ttl_put, parse_token, touch,
  keep_token, expired, check_token, verify_token,
}

-- all entries under a key (or under any) end by a time
abbrev pub EndsBy : (Text → Bool) → Time → Text × CacheEntry → Type 0
EndsBy p t e = p e.0 ≡ true → e.1.exp ≤ t

module _ {A : Type 0} (P : Text × A → Type 0) where
  All-insert :
      (key : Text) (v : A) (d : Dict Text A) → P (key, v) → All P d → All P (insert key v d)
  unfolding insert
  All-insert key v [] p h = (p, tt)
  All-insert key v ((j, w) ∷ d) p (q, h) = elim (Bool-cases (j == key)) [
    | inl t ↦ rw t (p, h)
    | inr f ↦ rw f (q, All-insert key v d p h)
  ]

  All-delete : (key : Text) (d : Dict Text A) → All P d → All P (delete key d)
  unfolding delete
  All-delete key [] h = tt
  All-delete key ((j, w) ∷ d) (q, h) = elim (Bool-cases (j == key)) [
    | inl t ↦ rw t (All-delete key d h)
    | inr f ↦ rw f (q, All-delete key d h)
  ]

  pub All-lookup :
      (key : Text) (v : A) (d : Dict Text A) → lookup key d ≡ some v → All P d → P (key, v)
  unfolding lookup
  All-lookup key v [] e h = absurd (ground arith)
  All-lookup key v ((j, w) ∷ d) e (q, h) = elim (Bool-cases (j == key)) [
    | inl t ↦
        let s : j ≡ key = (text_beq_iff j key).0 t in
        let r : w ≡ v = ground arith in subst (λ (y : Text × A). P y) (λ i. (s i, r i)) q
    | inr f ↦ All-lookup key v d (ground arith) h
  ]

module _ (p : Text → Bool) (t : Time) where
  ttl_get-EndsBy :
      (now : Time) (key : Text) (d : Dict Text CacheEntry)
      → All (EndsBy p t) d
      → All (EndsBy p t) (ttl_get now key d).1
  unfolding ttl_get
  ttl_get-EndsBy now key d h = elim (Option-cases (lookup key d)) [
    | inl n ↦ rw (n, ttl_get) h
    | inr (e, q) ↦ elim (Bool-cases (ltb now e.exp)) [
      | inl l ↦ rw (q, l, ttl_get) h
      | inr l ↦ rw (q, l, ttl_get) (All-delete (EndsBy p t) key d h)
    ]
  ]

  ttl_put-EndsBy :
      (ttl : ℕ) (now : Time) (key : Text) (v : ApiToken) (d : Dict Text CacheEntry)
      → (p key ≡ true → now + ttl ≤ t)
      → All (EndsBy p t) d
      → All (EndsBy p t) (ttl_put ttl now key v d)
  unfolding ttl_put
  ttl_put-EndsBy ttl now key v d q h = elim (Bool-cases (leb 4096 (length d))) [
    | inl l ↦ rw l (All-insert (EndsBy p t) key _ _ q (All-filter (EndsBy p t) _ d h))
    | inr l ↦ rw l (All-insert (EndsBy p t) key _ _ q h)
  ]

touch-tokens :
    (ctx : Ctx) (id : Text) (now : Time) (a : Authenticator)
    → (touch ctx id now a).tokens ≡ a.tokens
unfolding touch
touch-tokens ctx id now a = ground arith

-- A failing check changes nothing, and one that succeeds keeps and touches a token that is not revoked.
pub check_token-cases :
    (k : AuthConfig) (ctx : Ctx) (now : Time) (secret id : Text) (cached : Bool) (v : ApiToken)
    (a : Authenticator)
    → (((e : AuthError) × ((check_token k ctx now secret id cached v a).0 ≡ err e))
        × ((check_token k ctx now secret id cached v a).1 ≡ a))
      ⊎ ((revoked v ≡ false)
          × ((check_token k ctx now secret id cached v a).1
              ≡ touch ctx id now (keep_token k now id cached v a)))
unfolding check_token
check_token-cases k ctx now secret id cached v a =
    elim (Bool-cases (k.hash_token secret == v.secret_hash)) [
      | inr f ↦ rw (f, check_token) (inl ((_, refl), refl))
      | inl t ↦ elim (Bool-cases (revoked v)) [
        | inl g ↦ rw (t, g, check_token) (inl ((_, refl), refl))
        | inr l ↦ elim (Bool-cases (expired now v)) [
          | inl x ↦ rw (t, l, x, check_token) (inl ((_, refl), refl))
          | inr x ↦ rw (t, l, x, check_token) (inr (refl, refl))
        ]
      ]
    ]

-- the tokens of a store after a call that may have revoked or touched some
abbrev pub StillRevoked : Text → MemStore → MemStore → Type 0
StillRevoked id m m' =
    (row : ApiToken)
    → lookup id m.tokens ≡ some row
    → revoked row ≡ true
    → (row' : ApiToken) × (lookup id m'.tokens ≡ some row') × (revoked row' ≡ true)

written :
    (id j : Text) (v row : ApiToken) (d : Dict Text ApiToken)
    → lookup id d ≡ some row
    → revoked row ≡ true
    → (j ≡ id → revoked v ≡ true)
    → (row' : ApiToken) × (lookup id (insert j v d) ≡ some row') × (revoked row' ≡ true)
written id j v row d e r h = elim (Bool-cases (j == id)) [
  | inl t ↦ (v, ground (arith, lookup-insert id j v d), h ((text_beq_iff j id).0 t))
  | inr f ↦ (row, ground (arith, lookup-insert id j v d), r)
]

-- the row at an equal id
pub same_row :
    (id j : Text) (row t : ApiToken) (d : Dict Text ApiToken)
    → lookup id d ≡ some row
    → lookup j d ≡ some t
    → j ≡ id
    → row ≡ t
same_row id j row t d e q s =
    let p : lookup j d ≡ lookup id d = ap (λ i. lookup i d) s in ground arith

touch_token-StillRevoked :
    (ctx : Ctx) (id j : Text) (now : Time) (m : MemStore)
    → StillRevoked id m (touch_token_last_used ctx j now m).1
unfolding touch_token_last_used
touch_token-StillRevoked done id j now m row e r = (row, e, r)
touch_token-StillRevoked live id j now m row e r = elim (Option-cases (lookup j m.tokens)) [
  | inl n ↦ rw (n, touch_token_last_used) (row, e, r)
  | inr (t, q) ↦
      rw (q, touch_token_last_used)
        (written id j (record t { last_used_at = some now }) row m.tokens e r
          (λ s.
            unfold revoked in
            ap (λ (x : ApiToken). is_some x.revoked_at) (sym (same_row id j row t m.tokens e q s))
            ∙ r))
]

pub revoke_token-StillRevoked :
    (ctx : Ctx) (id j user : Text) (now : Time) (m : MemStore)
    → StillRevoked id m (revoke_token ctx now j user m).1
unfolding revoke_token
revoke_token-StillRevoked done id j user now m row e r = (row, e, r)
revoke_token-StillRevoked live id j user now m row e r = elim (Option-cases (lookup j m.tokens)) [
  | inl n ↦ rw (n, revoke_token) (row, e, r)
  | inr (t, q) ↦ elim (Bool-cases (t.user_id == user)) [
    | inr f ↦ rw (q, f, revoke_token) (row, e, r)
    | inl o ↦ elim (Bool-cases (revoked t)) [
      | inl g ↦ rw (q, o, g, revoke_token) (row, e, r)
      | inr g ↦
          rw (q, o, g, revoke_token)
            (written id j (record t { revoked_at = some now }) row m.tokens e r
              (λ s. unfold revoked in refl))
    ]
  ]
]

pub create_token-StillRevoked :
    (ctx : Ctx) (id : Text) (now : Time) (t : ApiToken) (m : MemStore)
    → StillRevoked id m (create_token ctx now t m).1
unfolding create_token has
create_token-StillRevoked done id now t m row e r = (row, e, r)
create_token-StillRevoked live id now t m row e r =
    elim (Bool-cases (is_empty t.id || is_empty t.user_id)) [
      | inl q ↦ rw (q, create_token) (row, e, r)
      | inr q ↦ elim (Option-cases (lookup t.id m.tokens)) [
        | inr (x, h) ↦ rw (q, h, create_token) (row, e, r)
        | inl n ↦
            rw (q, n, create_token)
              (written id t.id _ row m.tokens e r (λ s.
                let p : lookup t.id m.tokens ≡ lookup id m.tokens = ap (λ i. lookup i m.tokens) s in
                absurd (ground arith)))
      ]
    ]

touch-store :
    (ctx : Ctx) (j : Text) (now : Time) (a : Authenticator)
    → ((touch ctx j now a).store ≡ a.store)
      ⊎ ((touch ctx j now a).store ≡ (touch_token_last_used ctx j now a.store).1)
unfolding touch
touch-store ctx j now a = ground arith

keep_token-store :
    (k : AuthConfig) (now : Time) (id : Text) (cached : Bool) (v : ApiToken) (a : Authenticator)
    → (keep_token k now id cached v a).store ≡ a.store
unfolding keep_token
keep_token-store k now id cached v a = ground arith

pub get_token_by_id-ok :
    (ctx : Ctx) (j : Text) (v : ApiToken) (m : MemStore)
    → (get_token_by_id ctx j m).0 ≡ ok v
    → lookup j m.tokens ≡ some v
unfolding get_token_by_id
get_token_by_id-ok done j v m h = absurd (ground arith)
get_token_by_id-ok live j v m h = ground arith

touch-StillRevoked :
    (ctx : Ctx) (id j : Text) (now : Time) (a : Authenticator)
    → StillRevoked id a.store (touch ctx j now a).store
touch-StillRevoked ctx id j now a row e r = elim (touch-store ctx j now a) [
  | inl q ↦ rw q (row, e, r)
  | inr q ↦ rw q (touch_token-StillRevoked ctx id j now a.store row e r)
]

check_token-StillRevoked :
    (k : AuthConfig) (ctx : Ctx) (id : Text) (now : Time) (secret j : Text) (cached : Bool)
    (v : ApiToken) (a : Authenticator)
    → StillRevoked id a.store (check_token k ctx now secret j cached v a).1.store
check_token-StillRevoked k ctx id now secret j cached v a row e r =
    elim (check_token-cases k ctx now secret j cached v a) [
      | inl (x, q) ↦ rw q (row, e, r)
      | inr (l, q) ↦
          let same = keep_token-store k now j cached v a in
          rw q (
            touch-StillRevoked ctx id j now (keep_token k now j cached v a) row
              (ap (λ (m : MemStore). lookup id m.tokens) same ∙ e) r)
    ]

-- What verifyToken does to the cache: the only entry that it puts there is that of a token which the
-- store has and which is not revoked.
pub verify_token-EndsBy :
    (p : Text → Bool) (t : Time) (k : AuthConfig) (ctx ctx' : Ctx) (now : Time) (secret : Text)
    (a : Authenticator)
    → ((j : Text) (v : ApiToken)
        → lookup j a.store.tokens ≡ some v
        → revoked v ≡ false
        → p j ≡ true
        → now + k.cache_ttl ≤ t)
    → All (EndsBy p t) a.tokens
    → All (EndsBy p t) (verify_token k ctx ctx' now secret a).1.tokens
unfolding verify_token
verify_token-EndsBy p t k ctx ctx' now secret a puts h =
    elim (Option-cases (parse_token k secret)) [
      | inl n ↦ rw (n, verify_token) h
      | inr (j, q) ↦
          let a' = record a { tokens = (ttl_get now j a.tokens).1 } in
          let h' : All (EndsBy p t) a'.tokens = ttl_get-EndsBy p t now j a.tokens h in
          elim (Option-cases (ttl_get now j a.tokens).0) [
            | inr (v, hit) ↦ rw (q, hit, verify_token) (checked_hit a' j v h')
            | inl miss ↦ elim (Result-cases (get_token_by_id ctx j a.store).0) [
              | inl (x, f) ↦ rw (q, miss, f, verify_token) h'
              | inr (v, f) ↦
                  rw (q, miss, f, verify_token)
                    (checked_miss a' j v h' (puts j v (found ctx j v a.store f)))
            ]
          ]
    ]
  where
    found :
        (c : Ctx) (j : Text) (v : ApiToken) (m : MemStore)
        → (get_token_by_id c j m).0 ≡ ok v
        → lookup j m.tokens ≡ some v
    found c j v m f = get_token_by_id-ok c j v m f

    checked_hit :
        (b : Authenticator) (j : Text) (v : ApiToken)
        → All (EndsBy p t) b.tokens
        → All (EndsBy p t) (check_token k ctx' now secret j true v b).1.tokens
    checked_hit b j v g = elim (check_token-cases k ctx' now secret j true v b) [
      | inl (e, q) ↦ rw q g
      | inr (l, q) ↦
          rw (q, touch-tokens ctx' j now (keep_token k now j true v b)) (unfold keep_token in g)
    ]

    checked_miss :
        (b : Authenticator) (j : Text) (v : ApiToken)
        → All (EndsBy p t) b.tokens
        → (revoked v ≡ false → p j ≡ true → now + k.cache_ttl ≤ t)
        → All (EndsBy p t) (check_token k ctx' now secret j false v b).1.tokens
    checked_miss b j v g u = elim (check_token-cases k ctx' now secret j false v b) [
      | inl (e, q) ↦ rw q g
      | inr (l, q) ↦
          rw (q, touch-tokens ctx' j now (keep_token k now j false v b))
            (unfold keep_token in ttl_put-EndsBy p t k.cache_ttl now j v b.tokens (u l) g)
    ]

pub verify_token-StillRevoked :
    (k : AuthConfig) (ctx ctx' : Ctx) (id : Text) (now : Time) (secret : Text) (a : Authenticator)
    → StillRevoked id a.store (verify_token k ctx ctx' now secret a).1.store
unfolding verify_token
verify_token-StillRevoked k ctx ctx' id now secret a row e r =
    elim (Option-cases (parse_token k secret)) [
      | inl n ↦ rw (n, verify_token) (row, e, r)
      | inr (j, q) ↦
          let a' = record a { tokens = (ttl_get now j a.tokens).1 } in
          elim (Option-cases (ttl_get now j a.tokens).0) [
            | inr (v, hit) ↦
                rw (q, hit, verify_token)
                  (check_token-StillRevoked k ctx' id now secret j true v a' row e r)
            | inl miss ↦ elim (Result-cases (get_token_by_id ctx j a.store).0) [
              | inl (x, f) ↦ rw (q, miss, f, verify_token) (row, e, r)
              | inr (v, f) ↦
                  rw (q, miss, f, verify_token)
                    (check_token-StillRevoked k ctx' id now secret j false v a' row e r)
            ]
          ]
    ]
