-- ===== src/Store/Listing/Examples.antt =====
-- The listing of two codes, one to a page, with a codec that writes a time as one byte.
use qurator.Common.{
  ◌+◌, ◌-◌, ◌≡◌, ◌↔◌, refl, Option, none, some, List, [], ◌∷◌, Text, bytes, ok, values, In,
  Ascending, text_beq, All, Distinct, text_eq, lookup, arith,
}
use qurator.Domain.{Time, Code, CodeFilter}
use qurator.Domain.Samples.{draft}
use qurator.Store.State.{MemStore, new_mem_store}
use qurator.Store.Listing.{CursorCodec, CursorLaws, CursorPos, encode_cursor, decode_cursor, newer}
use qurator.Store.Listing.Wanted.{Wanted}
use qurator.Store.Listing.Pages.{Listable, decode_cursor-encode_cursor}
use qurator.Store.Listing.Walk.{walk, walk_complete}

abbrev parse_byte : Text → Option Time
parse_byte [] = none
parse_byte (b ∷ []) = some (b - 1)
parse_byte (b ∷ c ∷ s) = none

abbrev codec : CursorCodec
codec = record {
  year_10000 = 255;
  format_time = λ t. (t + 1) ∷ [];
  parse_time = parse_byte;
  encode_base64 = λ s. s;
  decode_base64 = some;
}

codec-CursorLaws : CursorLaws codec
codec-CursorLaws = record {
  parse-format = λ t l. ground arith;
  format_printable = λ t. ground arith;
  decode-encode = λ s. refl;
  encode-is_empty = λ s. refl;
}

abbrev old_place : CursorPos
old_place = record { created_at = 7; id = bytes "cod_1" }

decode_cursor-encode_cursor_example :
    decode_cursor codec (encode_cursor codec old_place) ≡ ok old_place
decode_cursor-encode_cursor_example =
    decode_cursor-encode_cursor codec codec-CursorLaws old_place (omega arith) refl

abbrev shelf : MemStore
shelf = record new_mem_store {
  codes =
      (bytes "cod_1", draft (bytes "cod_1") (bytes "menu"))
      ∷ (bytes "cod_2", draft (bytes "cod_2") (bytes "shop"))
      ∷ [];
}

abbrev singles : CodeFilter
singles = record {
  user_id = bytes "ann";
  created_after = none;
  created_before = none;
  destination = [];
  limit = 1;
  cursor = [];
}

shelf_Distinct : Distinct shelf.codes
unfolding lookup text_beq
shelf_Distinct = (refl, (refl, tt))

shelf_Listable : All (Listable codec) shelf.codes
shelf_Listable = (
  record { code_id = refl; named = refl; timely = omega arith },
  (record { code_id = refl; named = refl; timely = omega arith }, tt),
)

walk_complete_example :
    (out : List Code) × (walk codec 3 singles shelf ≡ some out)
    × Ascending newer out
    × ((c : Code) → In c out ↔ (In c (values shelf.codes) × Wanted singles c))
walk_complete_example =
    walk_complete codec codec-CursorLaws shelf shelf_Distinct shelf_Listable 3 singles refl
      (omega arith)
