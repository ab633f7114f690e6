-- ===== src/Public/Image.antt =====
-- image.go of internal/httpapi/public: the handler of a code's image. A request is the name of the
-- file and its If-None-Match header. The store of images is what the handler uses of
-- internal/blob/blob.go: Stat and Get of a BlobStore.
mod Examples
pub mod Serving
use qurator.Common.{
  ℕ, Bool, true, false, ◌&&◌, ◌||◌, Option, none, some, List, [], ◌∷◌, ◌++◌, Text, bytes, take,
  drop, length, all, is_empty, trim_space, text_eq, nat_eq, ◌==◌, Result, ok, err, if◌then◌else◌,
}
use qurator.Domain.Ids.{is_crockford}
use qurator.Codes.Keys.{blob_key_for}

pub data BlobError : Type 0 where
  blob_not_found : BlobError
  invalid_key : BlobError
  blob_fault : BlobError

-- the fields that the handler reads; a size below 0 is none
pub record BlobInfo : Type 0 where
  pub size : Option ℕ
  pub content_type : Text
  pub etag : Text

-- Get with the bytes that its reader gives
pub record BlobReader : Type 0 where
  pub stat : Text → Result BlobError BlobInfo
  pub get : Text → Result BlobError (BlobInfo × Text)

-- What is written. `not_modified` and `image_found` have the ETag, and the Cache-Control of images;
-- `image_found` has the content type, the length where it is known, and the body.
pub data ImageResponse : Type 0 where
  no_such_image : ImageResponse
  internal_error : ImageResponse
  not_modified : Text → ImageResponse
  image_found : Text → Text → Option ℕ → Text → ImageResponse

-- fileRe, which keeps its first group
unfoldable pub code_of_file : Text → Option Text
code_of_file file =
    if length file == 24
      && take 4 file == bytes "cod_"
      && all is_crockford (drop 4 (take 20 file))
      && drop 20 file == bytes ".png"
    then some (take 20 file)
    else none

-- strings.Split at commas; `part` is the part that is being read
unfoldable pub split_commas : Text → Text → List Text
split_commas part [] = part ∷ []
split_commas part (c ∷ s) =
    let fresh = split_commas [] s in
    let longer = split_commas (part ++ (c ∷ [])) s in if c == b',' then part ∷ fresh else longer

-- strings.TrimPrefix of "W/"
unfoldable pub trim_weak : Text → Text
trim_weak s = if take 2 s == bytes "W/" then drop 2 s else s

unfoldable pub any_matches : Text → List Text → Bool
unfolding trim_weak
any_matches etag [] = false
any_matches etag (cand ∷ cands) =
    trim_space cand == bytes "*" || trim_weak (trim_space cand) == etag || any_matches etag cands

unfoldable pub etag_matches : Text → Text → Bool
unfolding any_matches split_commas
etag_matches header etag =
    if is_empty header then false else any_matches etag (split_commas [] header)

abbrev pub quoted : Text → Text
quoted s = b'"' ∷ (s ++ (b'"' ∷ []))

-- the handler after it has found the entity tag
unfoldable pub send_image : BlobReader → Text → Text → Text → ImageResponse
send_image blobs key etag header =
    if etag_matches header etag then not_modified etag else elim (blobs.get key) [
      | err blob_not_found ↦ no_such_image
      | err _ ↦ internal_error
      | ok (info, body) ↦
          image_found etag
            (if is_empty info.content_type then bytes "image/png" else info.content_type) info.size
            body
    ]

unfoldable pub image : BlobReader → Bool → Text → Text → ImageResponse
unfolding send_image
image blobs no_images file header = if no_images then no_such_image else elim (code_of_file file) [
  | none ↦ no_such_image
  | some id ↦ elim (blobs.stat (blob_key_for id)) [
    | err blob_not_found ↦ no_such_image
    | err invalid_key ↦ no_such_image
    | err blob_fault ↦ internal_error
    | ok info ↦ send_image blobs (blob_key_for id) (quoted info.etag) header
  ]
]
