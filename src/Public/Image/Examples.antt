-- ===== src/Public/Image/Examples.antt =====
-- A code is rendered, and its image fetched from a store that holds it in memory.
use qurator.Common.{
  ℕ, ◌≡◌, refl, true, false, none, some, [], ◌++◌, Text, bytes, Dict, lookup, text_eq, length,
  Result, ok, err, if◌then◌else◌,
}
use qurator.Domain.{mode_dynamic, Code, EcLevel}
use qurator.Domain.Ids.{new_code_id}
use qurator.Domain.Samples.{styling, draft}
use qurator.Codes.Prepare.{Prepared, CodesError}
use qurator.Codes.World.{Blob, content_of, materialise}
use qurator.Codes.Samples.{env, service}
use qurator.Public.Image.{
  BlobReader, blob_not_found, not_modified, image_found, etag_matches, quoted, image,
}
use qurator.Public.Image.Serving.{Reads, info_of, image-materialise}

abbrev plan : Prepared
plan = record {
  mode = mode_dynamic;
  destination = bytes "https://a.example";
  styling = styling;
  is_alias = true;
  short_code = bytes "menu";
  logo = bytes "logo";
  auto_raise = false;
  client_ref = [];
}

abbrev zeros : ℕ → ℕ
zeros i = 0

abbrev made : Result CodesError Code × Dict Text Blob
made = materialise env service 10 (bytes "ann") (new_code_id zeros) (bytes "menu") plan []

abbrev code_of : Result CodesError Code → Code
code_of (ok c) = c
code_of (err x) = draft [] []

made-ok : made.0 ≡ ok (code_of made.0)
unfolding materialise qurator.Codes.World.put_image
made-ok = refl

abbrev in_memory : Dict Text Blob → BlobReader
in_memory b = record {
  stat = λ key. elim (lookup key b) [ none ↦ err blob_not_found | some o ↦ ok (info_of env o) ];
  get = λ key. elim (lookup key b) [
    | none ↦ err blob_not_found
    | some o ↦ ok (info_of env o, o.content)
  ];
}

in_memory-Reads : (b : Dict Text Blob) → Reads env (in_memory b) b
in_memory-Reads b = record {
  stat-stored = λ key o h. rw (in_memory, h);
  get-stored = λ key o h. rw (in_memory, h);
}

image-materialise_example :
    (png : Text) × (level : EcLevel) × (env.render
        (content_of service (bytes "menu") plan)
        plan.styling
        plan.logo
        plan.auto_raise
      ≡ some (png, level))
    × (image (in_memory made.1) false (new_code_id zeros ++ bytes ".png") (bytes "*") ≡ (
        if etag_matches (bytes "*") (quoted (env.etag png))
        then not_modified (quoted (env.etag png))
        else image_found (quoted (env.etag png)) (bytes "image/png") (some (length png)) png))
image-materialise_example =
    image-materialise env service 10 (bytes "ann") (bytes "menu") zeros plan [] (code_of made.0)
      made-ok (in_memory made.1) (bytes "*") (in_memory-Reads made.1)
