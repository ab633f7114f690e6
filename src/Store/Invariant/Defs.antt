-- ===== src/Store/Invariant/Defs.antt =====
use qurator.Common.{◌≡◌, false, none, some, Text, lookup, to_lower, is_empty, text_eq}
use qurator.Domain.{Code, is_deleted}
use qurator.Store.State.{MemStore, Reservation, RefKey, ref_key_eq}
use qurator.Store.Codes.{ref_key}

pub record Inv (m : MemStore) : Type 0 where
  -- a row stands under its id, with its short code in lower case
  pub code_id : (id : Text) (c : Code) → lookup id m.codes ≡ some c → c.id ≡ id
  pub code_lower :
      (id : Text) (c : Code) → lookup id m.codes ≡ some c → to_lower c.short_code ≡ c.short_code
  -- the index of short codes leads to rows with that short code, to every row that is not deleted
  pub indexed :
      (k id : Text)
      → lookup k m.by_code ≡ some id
      → (c : Code) × (lookup id m.codes ≡ some c) × (c.short_code ≡ k)
  pub live_indexed :
      (id : Text) (c : Code)
      → lookup id m.codes ≡ some c
      → is_deleted c.state ≡ false
      → lookup c.short_code m.by_code ≡ some id
  -- a short code is in the index exactly while its reservation is not released
  pub index_held :
      (k id : Text)
      → lookup k m.by_code ≡ some id
      → (r : Reservation) × (lookup k m.reservations ≡ some r)
        × (r.code_id ≡ id)
        × (r.released_at ≡ none)
  pub held_indexed :
      (k : Text) (r : Reservation)
      → lookup k m.reservations ≡ some r
      → r.released_at ≡ none
      → lookup k m.by_code ≡ some r.code_id
  -- the index of client references leads to the rows that carry one, and to each of them
  pub ref_indexed :
      (id : Text) (c : Code)
      → lookup id m.codes ≡ some c
      → is_empty c.client_ref ≡ false
      → lookup (ref_key c) m.by_ref ≡ some id
  pub ref_at :
      (k : RefKey) (id : Text)
      → lookup k m.by_ref ≡ some id
      → (c : Code) × (lookup id m.codes ≡ some c)
        × (ref_key c ≡ k)
        × (is_empty c.client_ref ≡ false)
