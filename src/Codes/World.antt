-- ===== src/Codes/World.antt =====
-- What the service works on: the store, the objects of the blob store and the resolver cache
-- (cache.go), and the code outside the repository that it calls.
use qurator.Common.{
  ◌≡◌, Bool, false, ◌⊎◌, Option, none, some, List, [], ◌∷◌, ◌++◌, Text, bytes, Dict, insert, delete,
  is_empty, to_lower, trim_space, Result, ok, err, text_eq, if◌then◌else◌, ◌==◌,
}
use qurator.Domain.{Time, Code, CodeState, code_active, is_direct, EcLevel, ec_unset, Styling}
use qurator.Store.State.{MemStore}
use qurator.Codes.Keys.{blob_key_for, logo_blob_key_for}
use qurator.Codes.Destination.{Service}
use qurator.Codes.Prepare.{Prepared, CodesError, render_failed, blob_failed}

pub record Resolution : Type 0 where
  pub code_id : Text
  pub destination : Text
  pub state : CodeState
  pub found : Bool

unfoldable pub cache_key : Text → Text
cache_key short_code = to_lower (trim_space short_code)

pub record Blob : Type 0 where
  pub content : Text
  pub content_type : Text

-- The parameters: the cache (otter), the renderer (an interface of the package), the detection of
-- content types (net/http), and the faults and entity tags of the blob store.
pub record Env (C : Type 0) : Type 0 where
  -- GetIfPresent, Set, Invalidate
  pub cache_get : C → Text → Option Resolution
  pub cache_set : Text → Resolution → C → C
  pub cache_invalidate : Text → C → C
  -- content, styling, logo and auto-raise to the image and the effective level, none for an error
  pub render : Text → Styling → Text → Bool → Option (Text × EcLevel)
  pub detect : Text → Text
  -- does a Put, or a Delete, of this key fail?
  pub put_fails : Text → Bool
  pub delete_fails : Text → Bool
  pub etag : Text → Text

-- What the cache promises: it returns what was set and not invalidated since, or nothing, since it
-- may evict and expire entries at any time.
pub record CacheLaws {C : Type 0} (e : Env C) : Type 0 where
  pub get-set :
      (c : C) (j k : Text) (r x : Resolution)
      → e.cache_get (e.cache_set k r c) j ≡ some x
      → ((k ≡ j) × (r ≡ x)) ⊎ (e.cache_get c j ≡ some x)
  pub get-invalidate :
      (c : C) (j k : Text) (x : Resolution)
      → e.cache_get (e.cache_invalidate k c) j ≡ some x
      → ((k == j) ≡ false) × (e.cache_get c j ≡ some x)

pub record World (C : Type 0) : Type 0 where
  pub store : MemStore
  pub blobs : Dict Text Blob
  pub cache : C

unfoldable pub scan_url : Service → Text → Text
scan_url s short_code = s.base_raw ++ (bytes "/r/" ++ short_code)

-- what the image encodes
abbrev pub content_of : Service → Text → Prepared → Text
content_of s short_code p = if is_direct p.mode then p.destination else scan_url s short_code

module _ {C : Type 0} (e : Env C) where
  -- s.cache.Invalidate
  abbrev pub invalidate : Text → World C → World C
  invalidate short_code w = record w { cache = e.cache_invalidate (cache_key short_code) w.cache }

  -- s.cache.Set
  abbrev pub cache_put : Text → Resolution → World C → World C
  cache_put short_code r w = record w { cache = e.cache_set (cache_key short_code) r w.cache }

  -- removeBlobs: a key that is "" is skipped; a failing Delete is logged
  unfoldable pub remove_blobs : List Text → Dict Text Blob → Dict Text Blob
  remove_blobs [] b = b
  remove_blobs (k ∷ ks) b =
      remove_blobs ks (if is_empty k then b else if e.delete_fails k then b else delete k b)

  abbrev effective_level : EcLevel → EcLevel → EcLevel
  effective_level ec_unset d = d
  effective_level l d = l

  -- the row that materialise returns
  abbrev pub new_row : Time → Text → Text → Text → Prepared → Styling → Text → Text → Code
  new_row now user_id id short_code p styling blob_key etag = record {
    id = id;
    short_code = short_code;
    is_alias = p.is_alias;
    user_id = user_id;
    mode = p.mode;
    client_ref = p.client_ref;
    destination = p.destination;
    state = code_active;
    styling = styling;
    blob_key = blob_key;
    blob_etag = etag;
    version = 0;
    created_at = now;
    updated_at = now;
    deleted_at = none;
  }

  -- the part of materialise that stores the image, after the logo (`written` holds its key)
  unfoldable pub put_image :
      Time
      → Text
      → Text
      → Text
      → Prepared
      → Styling
      → Text
      → List Text
      → Dict Text Blob
      → Result CodesError Code × Dict Text Blob
  put_image now user_id id short_code p styling png written b =
      let key = blob_key_for id in
      if e.put_fails key then (err blob_failed, remove_blobs written b) else (
        ok (new_row now user_id id short_code p styling key (e.etag png)),
        insert key (record { content = png; content_type = bytes "image/png" }) b,
      )

  unfoldable pub materialise :
      Service
      → Time
      → Text
      → Text
      → Text
      → Prepared
      → Dict Text Blob
      → Result CodesError Code × Dict Text Blob
  unfolding put_image
  materialise s now user_id id short_code p b =
      let logo_key = logo_blob_key_for id in
      elim (e.render (content_of s short_code p) p.styling p.logo p.auto_raise) [
        | none ↦ (err render_failed, b)
        | some (png, effective) ↦
            let styling = record (p.styling) {
              ec_level_effective = effective_level effective p.styling.ec_level_effective;
            } in
            if is_empty p.logo
            then put_image now user_id id short_code p styling png [] b
            else if e.put_fails logo_key
            then (err blob_failed, b)
            else put_image now user_id id short_code p (record styling { logo_blob_key = logo_key })
                png (logo_key ∷ [])
                (insert logo_key (record { content = p.logo; content_type = e.detect p.logo }) b)
      ]

abbrev pub blob_keys_of : Code → List Text
blob_keys_of c = c.blob_key ∷ c.styling.logo_blob_key ∷ []
