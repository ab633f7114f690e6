-- ===== src/Codes/Urls.antt =====
-- service.go: the addresses of a code's image. The URLer of the blob store is an argument, with the
-- lifetime of its links left to it; it gives none for an error.
use qurator.Common.{
  ◌||◌, Option, none, some, ◌++◌, Text, bytes, is_empty, text_eq, ◌==◌, if◌then◌else◌,
}
use qurator.Domain.{Code}
use qurator.Codes.Destination.{Service}

pub record Urler : Type 0 where
  pub public_url : Text → Text → Option Text
  pub presigned_url : Text → Option Text

-- the fields of Service that its addresses need besides base_raw
pub record UrlConfig : Type 0 where
  pub url_mode : Text
  pub public_base : Text
  -- none where the blob store is no URLer
  pub urler : Option Urler

unfoldable pub instance_image_url : Service → Text → Text
instance_image_url s id = s.base_raw ++ (bytes "/i/" ++ (id ++ bytes ".png"))

unfoldable pub public_url : UrlConfig → Code → Option Text
public_url u c = elim u.urler [
  | none ↦ none
  | some urler ↦
      if is_empty u.public_base || is_empty c.blob_key
      then none
      else urler.public_url c.blob_key u.public_base
]

unfoldable pub presigned_url : UrlConfig → Code → Option Text
presigned_url u c = elim u.urler [
  | none ↦ none
  | some urler ↦ if is_empty c.blob_key then none else urler.presigned_url c.blob_key
]

-- ImageURL
unfoldable pub image_url : Service → UrlConfig → Code → Text
unfolding public_url presigned_url instance_image_url
image_url s u c =
    let configured =
      if u.url_mode == bytes "public"
      then public_url u c
      else if u.url_mode == bytes "presigned"
      then presigned_url u c
      else none in
    elim configured [ some url ↦ url | none ↦ instance_image_url s c.id ]

-- StorageURL
unfoldable pub storage_url : UrlConfig → Code → Option Text
unfolding public_url presigned_url
storage_url u c = elim u.urler [
  | none ↦ none
  | some urler ↦
      if is_empty c.blob_key
      then none
      else if is_empty u.public_base
      then presigned_url u c
      else public_url u c
]
