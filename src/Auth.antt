-- ===== src/Auth.antt =====
-- internal/auth: API tokens (apitoken.go), and the positive cache of the Authenticator
-- (authenticator.go). A call of the Authenticator is one step at one time; a cache is a dictionary,
-- and the order in which a sweep meets its entries is of no account.
pub mod Revocation
pub mod Propagation
mod Examples
use qurator.Common.{
  ℕ, zero, suc, ◌+◌, ◌-◌, ◌*◌, Bool, true, false, not, ◌&&◌, ◌||◌, Option, none, some, List, [],
  ◌∷◌, ◌++◌, Text, bytes, Dict, lookup, insert, delete, filter, Result, ok, err, length, take, drop,
  has_prefix, ltb, leb, ◌==◌, text_eq, nat_eq, if◌then◌else◌, to_lower,
}
use qurator.Domain.{Time, ApiToken, revoked}
use qurator.Store.State.{
  MemStore, Ctx, StoreError, not_found, conflict, alias_taken, client_ref_taken, invalid, cancelled,
}
use qurator.Store.Tokens.{get_token_by_id, create_token, touch_token_last_used}

-- The parameters: the encodings and the hash (base64, base32, SHA-256 or HMAC under the pepper), and
-- the configured time that an entry of the cache lives.
pub record AuthConfig : Type 0 where
  pub decode_base64 : Text → Option Text
  pub encode_base64 : Text → Text
  pub encode_base32 : Text → Text
  pub hash_token : Text → Text
  pub cache_ttl : ℕ

pub data AuthError : Type 0 where
  unauthorized token_revoked : AuthError
  lookup_failed : StoreError → AuthError

pub record CacheEntry : Type 0 where
  pub val : ApiToken
  pub exp : Time

pub record Authenticator : Type 0 where
  pub store : MemStore
  pub tokens : Dict Text CacheEntry
  pub last_touch : Dict Text Time

-- New, as far as tokens go
unfoldable pub new_authenticator : MemStore → Authenticator
new_authenticator m = record { store = m; tokens = []; last_touch = [] }

-- ttlCache.get
unfoldable pub ttl_get : Time → Text → Dict Text CacheEntry → Option ApiToken × Dict Text CacheEntry
ttl_get now key entries = elim (lookup key entries) [
  | none ↦ (none, entries)
  | some e ↦ if not (ltb now e.exp) then (none, delete key entries) else (some e.val, entries)
]

-- ttlCache.put
unfoldable pub ttl_put : ℕ → Time → Text → ApiToken → Dict Text CacheEntry → Dict Text CacheEntry
ttl_put ttl now key val entries =
    insert key (record { val = val; exp = now + ttl })
      (if leb 4096 (length entries) then filter (λ e. ltb now e.1.exp) entries else entries)

abbrev pub token_prefix : Text
token_prefix = bytes "qur_"

abbrev token_bytes : ℕ
token_bytes = 32

abbrev token_encoded_len : ℕ
token_encoded_len = 43

abbrev touch_interval : ℕ
touch_interval = 60 * 1000000000

-- encodeID: the first 10 bytes of the material
unfoldable pub encode_id : AuthConfig → Text → Text → Text
encode_id k prefix material = prefix ++ to_lower (k.encode_base32 (take 10 material))

unfoldable pub parse_token : AuthConfig → Text → Option Text
unfolding encode_id
parse_token k secret =
    if not (has_prefix token_prefix secret) || not (length secret == 4 + token_encoded_len)
    then none
    else elim (k.decode_base64 (drop 4 secret)) [
      | none ↦ none
      | some raw ↦
          if not (length raw == token_bytes) then none else some (encode_id k (bytes "tok_") raw)
    ]

-- touch; what TouchTokenLastUsed returns is logged
unfoldable pub touch : Ctx → Text → Time → Authenticator → Authenticator
touch ctx id now a =
    let recent : Bool = elim (lookup id a.last_touch) [
      | none ↦ false
      | some t ↦ ltb (now - t) touch_interval
    ] in
    let seen = insert id now a.last_touch in
    if recent then a else record a {
      last_touch =
          if ltb 8192 (length seen)
          then filter (λ e. ltb (now - e.1) touch_interval) seen
          else seen;
      store = (touch_token_last_used ctx id now a.store).1;
    }

abbrev pub without_hash : ApiToken → ApiToken
without_hash t = record t { secret_hash = [] }

abbrev pub expired : Time → ApiToken → Bool
expired now t = elim (t.expires_at) [ none ↦ false | some x ↦ not (ltb now x) ]

-- a token that came from the store goes into the cache
unfoldable pub keep_token :
    AuthConfig → Time → Text → Bool → ApiToken → Authenticator → Authenticator
keep_token k now id cached t a =
    if cached then a else record a { tokens = ttl_put k.cache_ttl now id t a.tokens }

-- the checks of a record, and what a success leaves behind
unfoldable pub check_token :
    AuthConfig
    → Ctx
    → Time
    → Text
    → Text
    → Bool
    → ApiToken
    → Authenticator
    → Result AuthError ApiToken × Authenticator
check_token k ctx now secret id cached t a =
    if not (k.hash_token secret == t.secret_hash)
    then (err unauthorized, a)
    else if revoked t
    then (err token_revoked, a)
    else if expired now t
    then (err unauthorized, a)
    else (ok (without_hash t), touch ctx id now (keep_token k now id cached t a))

-- the error of a failed lookup
unfoldable pub lookup_error : StoreError → AuthError
lookup_error not_found = unauthorized
lookup_error x = lookup_failed x

-- verifyToken; the two contexts are those of the lookup and of the touch
unfoldable pub verify_token :
    AuthConfig → Ctx → Ctx → Time → Text → Authenticator → Result AuthError ApiToken × Authenticator
unfolding parse_token ttl_get check_token lookup_error
verify_token k ctx ctx' now secret a = elim (parse_token k secret) [
  | none ↦ (err unauthorized, a)
  | some id ↦
      let (hit, entries) = ttl_get now id a.tokens in
      let a' = record a { tokens = entries } in
      elim hit [
        | some t ↦ check_token k ctx' now secret id true t a'
        | none ↦ elim (get_token_by_id ctx id a.store).0 [
          | err x ↦ (err (lookup_error x), a')
          | ok t ↦ check_token k ctx' now secret id false t a'
        ]
      ]
]

-- the record that CreateToken stores
unfoldable pub minted : AuthConfig → Time → Text → Text → Text → Option Time → ApiToken
unfolding encode_id
minted k now raw user_id name expires_at = record {
  id = encode_id k (bytes "tok_") raw;
  user_id = user_id;
  name = name;
  secret_hash = k.hash_token (token_prefix ++ k.encode_base64 raw);
  created_at = now;
  last_used_at = none;
  revoked_at = none;
  expires_at = expires_at;
}

-- CreateToken: the token without its hash, and the secret
unfoldable pub mint_token :
    AuthConfig
    → Ctx
    → Time
    → Time
    → Text
    → Text
    → Text
    → Option Time
    → Authenticator
    → Result StoreError (ApiToken × Text) × Authenticator
unfolding minted
mint_token k ctx now stored_at raw user_id name expires_at a =
    let t = minted k now raw user_id name expires_at in
    let (r, m) = create_token ctx stored_at t a.store in
    let a' = record a { store = m } in
    elim r [
      | err x ↦ (err x, a')
      | ok _ ↦ (ok (without_hash t, token_prefix ++ k.encode_base64 raw), a')
    ]
