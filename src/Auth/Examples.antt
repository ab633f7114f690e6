-- ===== src/Auth/Examples.antt =====
-- A token that is verified, revoked, verified from the cache, and then refused.
use qurator.Common.{
  ◌≡◌, refl, none, some, List, [], ◌∷◌, Text, bytes, take, lookup, insert, has_prefix, text_beq,
  to_lower, ok, err, arith,
}
use qurator.Domain.{ApiToken}
use qurator.Store.State.{MemStore, live, new_mem_store}
use qurator.Store.Tokens.{revoke_token, get_token_by_id, touch_token_last_used}
use qurator.Auth.{
  AuthConfig, AuthError, new_authenticator, parse_token, verify_token, touch, keep_token,
}
use qurator.Auth.Propagation.{
  Request, verifies, revoke_at, serve_request, serve_requests, revoked_refused,
}

abbrev plain : AuthConfig
plain = record {
  decode_base64 = λ s. some (take 32 s);
  encode_base64 = λ s. s;
  encode_base32 = λ s. s;
  hash_token = λ s. s;
  cache_ttl = 30;
}

abbrev secret : Text
secret = bytes "qur_aaaaaaaaaaaaaaaaaaaaaaaaaaaaaaaaaaaaaaaaaaa"

abbrev token_id : Text
token_id = bytes "tok_aaaaaaaaaa"

abbrev ci_token : ApiToken
ci_token = record {
  id = token_id;
  user_id = bytes "ann";
  name = bytes "ci";
  secret_hash = secret;
  created_at = 1;
  last_used_at = none;
  revoked_at = none;
  expires_at = none;
}

abbrev issued : MemStore
issued = record new_mem_store { tokens = (token_id, ci_token) ∷ [] }

-- answered by the store, and then kept in the cache
abbrev earlier : List Request
earlier = verifies live live 5 secret ∷ []

-- answered by the cache still
abbrev afterwards : List Request
afterwards = verifies live live 12 secret ∷ []

revocation :
    (revoke_token live 10 token_id
      (bytes "ann")
      (serve_requests plain earlier (new_authenticator issued)).store).0
    ≡ ok tt
unfolding serve_requests serve_request verify_token revoke_token lookup has_prefix new_authenticator
    get_token_by_id text_beq to_lower touch keep_token touch_token_last_used insert
revocation = refl

secret_id : parse_token plain secret ≡ some token_id
unfolding parse_token has_prefix to_lower
secret_id = refl

revoked_refused_example :
    (x : AuthError) × ((verify_token plain live live 40 secret (
        serve_requests plain afterwards (
          revoke_at live 10 token_id
            (bytes "ann")
            (serve_requests plain earlier (new_authenticator issued))))).0
      ≡ err x)
revoked_refused_example =
    revoked_refused plain issued earlier afterwards 10 token_id (bytes "ann") live live 40 secret
      (omega arith, tt) revocation secret_id (omega arith)
