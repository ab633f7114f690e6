-- ===== src/Auth/Propagation.antt =====
-- A revoked token is refused as soon as the entries of the cache from before have expired.
use qurator.Common.{
  ◌+◌, ◌≤◌, ◌≡◌, refl, ap, sym, ◌∙◌, inl, inr, true, false, Option, none, some, List, [], ◌∷◌, Text,
  Dict, lookup, lookup-insert, All, ok, err, ◌==◌, text_eq, text_beq_iff, Bool-cases, Option-cases,
  Result-cases, arith,
}
use qurator.Domain.{Time, ApiToken, revoked}
use qurator.Store.State.{MemStore, Ctx, live}
use qurator.Store.Tokens.{get_token_by_id, create_token, revoke_token}
use qurator.Auth.{
  AuthConfig, AuthError, CacheEntry, Authenticator, new_authenticator, ttl_get, parse_token,
  check_token, lookup_error, verify_token, minted, mint_token,
}
use qurator.Auth.Revocation.{
  EndsBy, StillRevoked, All-lookup, check_token-cases, revoke_token-StillRevoked,
  create_token-StillRevoked, verify_token-EndsBy, verify_token-StillRevoked, get_token_by_id-ok,
  same_row,
}

-- What comes to the tokens: a secret to verify, a new token, a revocation.
pub data Request : Type 0 where
  verifies : Ctx → Ctx → Time → Text → Request
  mints : Ctx → Time → Time → Text → Text → Text → Option Time → Request
  revokes : Ctx → Time → Text → Text → Request

abbrev pub revoke_at : Ctx → Time → Text → Text → Authenticator → Authenticator
revoke_at ctx now id user a = record a { store = (revoke_token ctx now id user a.store).1 }

unfoldable pub serve_request : AuthConfig → Request → Authenticator → Authenticator
serve_request k (verifies ctx ctx' now secret) a = (verify_token k ctx ctx' now secret a).1
serve_request k (mints ctx now stored_at raw user name expires) a =
    (mint_token k ctx now stored_at raw user name expires a).1
serve_request k (revokes ctx now id user) a = revoke_at ctx now id user a

unfoldable pub serve_requests : AuthConfig → List Request → Authenticator → Authenticator
serve_requests k [] a = a
serve_requests k (r ∷ rs) a = serve_requests k rs (serve_request k r a)

abbrev pub time_of : Request → Time
time_of (verifies ctx ctx' now secret) = now
time_of (mints ctx now stored_at raw user name expires) = now
time_of (revokes ctx now id user) = now

mint_token-tokens :
    (k : AuthConfig) (ctx : Ctx) (now stored_at : Time) (raw user name : Text)
    (expires : Option Time) (a : Authenticator)
    → (mint_token k ctx now stored_at raw user name expires a).1.tokens ≡ a.tokens
unfolding mint_token
mint_token-tokens k ctx now stored_at raw user name expires a = ground arith

mint_token-store :
    (k : AuthConfig) (ctx : Ctx) (now stored_at : Time) (raw user name : Text)
    (expires : Option Time) (a : Authenticator)
    → (mint_token k ctx now stored_at raw user name expires a).1.store
      ≡ (create_token ctx stored_at (minted k now raw user name expires) a.store).1
unfolding mint_token
mint_token-store k ctx now stored_at raw user name expires a =
    elim (Result-cases
      (create_token ctx stored_at (minted k now raw user name expires) a.store).0) [
        | inl (x, q) ↦ rw (q, mint_token) refl
        | inr (u, q) ↦ rw (q, mint_token) refl
      ]

mint_token-StillRevoked :
    (id : Text) (k : AuthConfig) (ctx : Ctx) (now stored_at : Time) (raw user name : Text)
    (expires : Option Time) (a : Authenticator)
    → StillRevoked id a.store (mint_token k ctx now stored_at raw user name expires a).1.store
mint_token-StillRevoked id k ctx now stored_at raw user name expires a row e r =
    rw (mint_token-store k ctx now stored_at raw user name expires a) (
      create_token-StillRevoked ctx id stored_at (minted k now raw user name expires) a.store row e
        r)

-- Before the revocation every entry ends in good time.
serve_requests-EndsBy :
    (k : AuthConfig) (t : Time) (rs : List Request) (a : Authenticator)
    → All (λ (r : Request). time_of r ≤ t) rs
    → All (EndsBy (λ j. true) (t + k.cache_ttl)) a.tokens
    → All (EndsBy (λ j. true) (t + k.cache_ttl)) (serve_requests k rs a).tokens
unfolding serve_requests serve_request
serve_requests-EndsBy k t [] a q h = h
serve_requests-EndsBy k t (verifies ctx ctx' now secret ∷ rs) a (l, q) h =
    serve_requests-EndsBy k t rs _ q (
      verify_token-EndsBy (λ j. true) (t + k.cache_ttl) k ctx ctx' now secret a
        (λ j v e f g. omega arith) h)
serve_requests-EndsBy k t (mints ctx now stored_at raw user name expires ∷ rs) a (l, q) h =
    serve_requests-EndsBy k t rs _ q
      (rw (mint_token-tokens k ctx now stored_at raw user name expires a) h)
serve_requests-EndsBy k t (revokes ctx now id user ∷ rs) a (l, q) h =
    serve_requests-EndsBy k t rs _ q h

-- Since the revocation of a token: the store has it as revoked, and what the cache holds under its id
-- ends by some time.
record Gone (id : Text) (t : Time) (a : Authenticator) : Type 0 where
  row : ApiToken
  stored : lookup id a.store.tokens ≡ some row
  dead : revoked row ≡ true
  fading : All (EndsBy (λ j. j == id) t) a.tokens

moved-Gone :
    {id : Text} {t : Time} {a : Authenticator} (a' : Authenticator)
    → Gone id t a
    → StillRevoked id a.store a'.store
    → All (EndsBy (λ j. j == id) t) a'.tokens
    → Gone id t a'
moved-Gone a' g s f =
    let (row, e, r) = s g.row g.stored g.dead in
    record { row = row; stored = e; dead = r; fading = f }

serve_request-Gone :
    {id : Text} {t : Time} {a : Authenticator} (k : AuthConfig) (r : Request)
    → Gone id t a
    → Gone id t (serve_request k r a)
unfolding serve_request
serve_request-Gone {id} {t} {a} k (verifies ctx ctx' now secret) g =
    moved-Gone _ g (verify_token-StillRevoked k ctx ctx' id now secret a) (
      verify_token-EndsBy (λ j. j == id) t k ctx ctx' now secret a
        (λ j v e l q.
          let same : g.row ≡ v =
            same_row id j g.row v a.store.tokens g.stored e ((text_beq_iff j id).0 q) in
          let dead : revoked v ≡ true = ap revoked (sym same) ∙ g.dead in absurd (ground arith))
        g.fading)
serve_request-Gone {id} {t} {a} k (mints ctx now stored_at raw user name expires) g =
    moved-Gone _ g (mint_token-StillRevoked id k ctx now stored_at raw user name expires a)
      (rw (mint_token-tokens k ctx now stored_at raw user name expires a) g.fading)
serve_request-Gone {id} {t} {a} k (revokes ctx now j user) g =
    moved-Gone _ g (revoke_token-StillRevoked ctx id j user now a.store) g.fading

serve_requests-Gone :
    {id : Text} {t : Time} (k : AuthConfig) (rs : List Request) {a : Authenticator}
    → Gone id t a
    → Gone id t (serve_requests k rs a)
unfolding serve_requests
serve_requests-Gone k [] g = g
serve_requests-Gone k (r ∷ rs) g = serve_requests-Gone k rs (serve_request-Gone k r g)

revoked_row :
    (now : Time) (id user : Text) (m : MemStore) (u : Unit {0})
    → (revoke_token live now id user m).0 ≡ ok u
    → (row : ApiToken) × (lookup id (revoke_token live now id user m).1.tokens ≡ some row)
      × (revoked row ≡ true)
unfolding revoke_token
revoked_row now id user m u h = elim (Option-cases (lookup id m.tokens)) [
  | inl n ↦ absurd (ground arith)
  | inr (t, q) ↦ elim (Bool-cases (t.user_id == user)) [
    | inr f ↦ absurd (ground arith)
    | inl o ↦ elim (Bool-cases (revoked t)) [
      | inl g ↦ rw (q, o, g, revoke_token) (t, q, g)
      | inr g ↦
          rw (q, o, g, revoke_token)
            (
              record t { revoked_at = some now },
              ground (
                arith,
                lookup-insert id id (record t { revoked_at = some now }) m.tokens,
                (text_beq_iff id id).1 refl,
              ),
              unfold revoked in refl,
            )
    ]
  ]
]

Gone-missed :
    {id : Text} {t : Time} {a : Authenticator} (now : Time)
    → Gone id t a
    → t ≤ now
    → (ttl_get now id a.tokens).0 ≡ none
unfolding ttl_get
Gone-missed {id} {t} {a} now g l = elim (Option-cases (lookup id a.tokens)) [
  | inl n ↦ ground arith
  | inr (e, q) ↦
      let ends : e.exp ≤ t =
        All-lookup (EndsBy (λ j. j == id) t) id e a.tokens q g.fading
          ((text_beq_iff id id).1 refl) in
      ground arith
]

dead_token :
    (k : AuthConfig) (ctx : Ctx) (now : Time) (secret id : Text) (v : ApiToken) (a : Authenticator)
    → revoked v ≡ true
    → (x : AuthError) × ((check_token k ctx now secret id false v a).0 ≡ err x)
dead_token k ctx now secret id v a d = elim (check_token-cases k ctx now secret id false v a) [
  | inl (e, q) ↦ e
  | inr (l, q) ↦ absurd (ground arith)
]

-- what ends for every key ends for one
narrowed :
    (t : Time) (id : Text) (d : Dict Text CacheEntry)
    → All (EndsBy (λ j. true) t) d
    → All (EndsBy (λ j. j == id) t) d
narrowed t id [] h = tt
narrowed t id (e ∷ d) (q, h) = (λ _. q refl, narrowed t id d h)

Gone-refused :
    {id : Text} {t : Time} {a : Authenticator} (k : AuthConfig) (ctx ctx' : Ctx) (now : Time)
    (secret : Text)
    → Gone id t a
    → parse_token k secret ≡ some id
    → t ≤ now
    → (x : AuthError) × ((verify_token k ctx ctx' now secret a).0 ≡ err x)
unfolding verify_token
Gone-refused {id} {t} {a} k ctx ctx' now secret g p l =
    let miss = Gone-missed now g l in
    elim (Result-cases (get_token_by_id ctx id a.store).0) [
      | inl (x, f) ↦ rw (p, miss, f, verify_token) (lookup_error x, refl)
      | inr (v, f) ↦
          rw (p, miss, f, verify_token)
            (dead_token k ctx' now secret id v (record a { tokens = (ttl_get now id a.tokens).1 })
              (ap revoked (
                  sym (
                    same_row id id g.row v a.store.tokens g.stored
                      (get_token_by_id-ok ctx id v a.store f) refl))
                ∙ g.dead))
    ]

-- A token that its owner revoked is refused from then on at every time that is at least the lifetime
-- of the cache later, whatever came before the revocation, at times up to it, and whatever comes
-- after: tokens verified, minted and revoked, with failures of the store or without.
pub revoked_refused :
    (k : AuthConfig) (m : MemStore) (before later : List Request) (t : Time) (id user : Text)
    (ctx ctx' : Ctx) (now : Time) (secret : Text)
    → All (λ (r : Request). time_of r ≤ t) before
    → (revoke_token live t id user (serve_requests k before (new_authenticator m)).store).0 ≡ ok tt
    → parse_token k secret ≡ some id
    → t + k.cache_ttl ≤ now
    → (x : AuthError) × ((verify_token k ctx ctx' now secret (
          serve_requests k later
            (revoke_at live t id user (serve_requests k before (new_authenticator m))))).0
        ≡ err x)
revoked_refused k m before later t id user ctx ctx' now secret q r p l =
    let a = serve_requests k before (new_authenticator m) in
    let (row, e, dead) = revoked_row t id user a.store tt r in
    Gone-refused k ctx ctx' now secret
      (serve_requests-Gone k later (record {
        row = row;
        stored = e;
        dead = dead;
        fading = narrowed (t + k.cache_ttl) id a.tokens (
            serve_requests-EndsBy k t before (new_authenticator m) q
              (unfold new_authenticator in tt));
      }))
      p l
