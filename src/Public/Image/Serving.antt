-- ===== src/Public/Image/Serving.antt =====
-- The image that a new code was rendered to is the one that its address shows.
use qurator.Common.{
  ℕ, ◌≡◌, refl, inl, inr, false, some, List, [], ◌++◌, Text, bytes, Dict, lookup, lookup-insert,
  text_eq, text_beq, text_beq_iff, length, is_empty, ok, Option-cases, Bool-cases, if◌then◌else◌,
  arith,
}
use qurator.Domain.{Time, Code, Styling, EcLevel}
use qurator.Domain.Ids.{new_code_id, random_crockford, random_crockford-all, is_crockford}
use qurator.Codes.Keys.{blob_key_for, logo_blob_key_for}
use qurator.Codes.Destination.{Service}
use qurator.Codes.Prepare.{Prepared}
use qurator.Codes.World.{Env, Blob, content_of, put_image, materialise}
use qurator.Public.Image.{
  BlobInfo, BlobReader, not_modified, image_found, code_of_file, etag_matches, quoted, send_image,
  image,
}

code_of_file-new_code_id :
    (rand : ℕ → ℕ) → code_of_file (new_code_id rand ++ bytes ".png") ≡ some (new_code_id rand)
unfolding code_of_file new_code_id qurator.Domain.Ids.new_id random_crockford text_beq
code_of_file-new_code_id rand = rw (random_crockford-all 16 rand) refl

module _ {C : Type 0} (e : Env C) where
  abbrev pub info_of : Blob → BlobInfo
  info_of b = record {
    size = some (length b.content);
    content_type = b.content_type;
    etag = e.etag b.content;
  }

  -- The reader shows the objects of a blob store, as every driver has to.
  pub record Reads (blobs : BlobReader) (b : Dict Text Blob) : Type 0 where
    pub stat-stored :
        (key : Text) (o : Blob) → lookup key b ≡ some o → blobs.stat key ≡ ok (info_of o)
    pub get-stored :
        (key : Text) (o : Blob) → lookup key b ≡ some o → blobs.get key ≡ ok (info_of o, o.content)

  abbrev pub png_blob : Text → Blob
  png_blob png = record { content = png; content_type = bytes "image/png" }

  put_image-stored :
      (now : Time) (user id short_code : Text) (p : Prepared) (styling : Styling) (png : Text)
      (written : List Text) (b : Dict Text Blob) (c : Code)
      → (put_image e now user id short_code p styling png written b).0 ≡ ok c
      → lookup (blob_key_for id) (put_image e now user id short_code p styling png written b).1
        ≡ some (png_blob png)
  unfolding put_image
  put_image-stored now user id short_code p styling png written b c h = ground (
    arith,
    lookup-insert (blob_key_for id) (blob_key_for id) (png_blob png) b,
    text_beq_iff (blob_key_for id) (blob_key_for id),
  )

  module _ (s : Service) (now : Time) (user id short_code : Text) (p : Prepared)
      (b : Dict Text Blob) (c : Code) where
    rendered-stored :
        (png : Text) (level : EcLevel)
        → e.render (content_of s short_code p) p.styling p.logo p.auto_raise ≡ some (png, level)
        → (materialise e s now user id short_code p b).0 ≡ ok c
        → lookup (blob_key_for id) (materialise e s now user id short_code p b).1
          ≡ some (png_blob png)
    unfolding materialise
    rendered-stored png level q = elim (Bool-cases (is_empty p.logo)) [
      | inl t ↦ rw (q, t, materialise) (put_image-stored now user id short_code p _ png [] b c)
      | inr f ↦ elim (Bool-cases (e.put_fails (logo_blob_key_for id))) [
        | inl t ↦ rw (q, f, t, materialise) (λ h. absurd (ground arith))
        | inr g ↦ rw (q, f, g, materialise) (put_image-stored now user id short_code p _ png _ _ c)
      ]
    ]

    -- materialise stores the image that it rendered under the key of the id
    materialise-stored :
        (materialise e s now user id short_code p b).0 ≡ ok c
        → (png : Text) × (level : EcLevel) × (e.render
              (content_of s short_code p)
              p.styling
              p.logo
              p.auto_raise
            ≡ some (png, level))
          × (lookup (blob_key_for id) (materialise e s now user id short_code p b).1
              ≡ some (png_blob png))
    unfolding materialise
    materialise-stored h =
        elim (Option-cases (e.render (content_of s short_code p) p.styling p.logo p.auto_raise)) [
          | inl n ↦ absurd (ground arith)
          | inr ((png, level), q) ↦ (png, level, q, rendered-stored png level q h)
        ]

  -- a stored image is shown
  image-stored :
      (blobs : BlobReader) (b : Dict Text Blob) (rand : ℕ → ℕ) (png header : Text)
      → Reads blobs b
      → lookup (blob_key_for (new_code_id rand)) b ≡ some (png_blob png)
      → image blobs false (new_code_id rand ++ bytes ".png") header ≡ (
          if etag_matches header (quoted (e.etag png))
          then not_modified (quoted (e.etag png))
          else image_found (quoted (e.etag png)) (bytes "image/png") (some (length png)) png)
  unfolding image send_image
  image-stored blobs b rand png header r h = rw (
    code_of_file-new_code_id rand,
    r.stat-stored (blob_key_for (new_code_id rand)) (png_blob png) h,
    r.get-stored (blob_key_for (new_code_id rand)) (png_blob png) h,
  )

  -- Where materialise makes a code with a new id, it has rendered an image, and the handler of images
  -- shows that image under the id with ".png": in full, with its type and length, or as not modified
  -- if the client names its entity tag. The blob store keeps what was put.
  pub image-materialise :
      (s : Service) (now : Time) (user short_code : Text) (rand : ℕ → ℕ) (p : Prepared)
      (b : Dict Text Blob) (c : Code)
      → (materialise e s now user (new_code_id rand) short_code p b).0 ≡ ok c
      → (blobs : BlobReader) (header : Text)
      → Reads blobs (materialise e s now user (new_code_id rand) short_code p b).1
      → (png : Text) × (level : EcLevel) × (e.render
            (content_of s short_code p)
            p.styling
            p.logo
            p.auto_raise
          ≡ some (png, level))
        × (image blobs false (new_code_id rand ++ bytes ".png") header ≡ (
            if etag_matches header (quoted (e.etag png))
            then not_modified (quoted (e.etag png))
            else image_found (quoted (e.etag png)) (bytes "image/png") (some (length png)) png))
  image-materialise s now user short_code rand p b c h blobs header r =
      let (png, level, q, stored) =
        materialise-stored s now user (new_code_id rand) short_code p b c h in
      (png, level, q, image-stored blobs _ rand png header r stored)
