-- ===== src/Codes/Examples.antt =====
-- The theorems on the use cases of codes (internal/codes), applied to small inputs.
use qurator.Common.{
  ◌≡◌, ◌≢◌, ◌↔◌, refl, true, none, some, List, [], ◌∷◌, Text, bytes, Dict, lookup, insert, text_eq,
  text_beq, to_lower, trim_space, trim_left, trim_right, all, ok,
}
use qurator.Domain.{code_disabled}
use qurator.Domain.Samples.{draft}
use qurator.Store.State.{live, new_mem_store}
use qurator.Codes.Keys.{blob_key_for, logo_blob_key_for, keys_apart}
use qurator.Codes.World.{World, Resolution}
use qurator.Codes.Resolve.{answer, unknown, resolve}
use qurator.Codes.Create.{create}
use qurator.Codes.Prepare.{CodesError, from_store}
use qurator.Codes.Failure.{create_failed}
use qurator.Codes.Success.{create_stored}
use qurator.Codes.Resolve.{resolution_of}
use qurator.Domain.{Code}
use qurator.Store.State.{cancelled, done}
use qurator.Common.{Result, err}
use qurator.Codes.Samples.{env, env-CacheLaws, service, dice, menu}
use qurator.Codes.Sessions.{
  Use, creates, switches, scans, is_trimmed, serve_all, empty_world, serve_all-answer,
  padded_scan_hides,
}

keys_apart_example :
    ((blob_key_for (bytes "cod_a") ≡ blob_key_for (bytes "cod_b"))
      ↔ (bytes "cod_a" ≡ bytes "cod_b"))
    × ((logo_blob_key_for (bytes "cod_a") ≡ logo_blob_key_for (bytes "cod_b"))
        ↔ (bytes "cod_a" ≡ bytes "cod_b"))
    × (blob_key_for (bytes "cod_a") ≢ logo_blob_key_for (bytes "cod_b"))
keys_apart_example = keys_apart (bytes "cod_a") (bytes "cod_b")

abbrev day : List Use
day =
    scans live (bytes "menu")
    ∷ creates live dice menu
    ∷ scans live (bytes "MENU")
    ∷ switches live 12 (bytes "cod_0000000000000000") (bytes "ann") code_disabled
    ∷ []

day-is_trimmed : all is_trimmed day ≡ true
unfolding is_trimmed trim_space trim_left trim_right text_beq
day-is_trimmed = refl

menu_trimmed : trim_space (bytes "menu") ≡ bytes "menu"
unfolding trim_space trim_left trim_right
menu_trimmed = refl

nothing_cached : (k : Text) → env.cache_get [] k ≡ none
unfolding lookup
nothing_cached k = refl

serve_all-answer_example :
    (resolve env live (bytes "menu") (serve_all env service day (empty_world env service []))).0
    ≡ ok (
        answer
          (serve_all env service day (empty_world env service [])).store
          (to_lower (bytes "menu")))
serve_all-answer_example =
    serve_all-answer env service env-CacheLaws day [] (bytes "menu") nothing_cached day-is_trimmed
      menu_trimmed

-- a world with one live code, and nothing in the cache
abbrev stocked : World (Dict Text Resolution)
stocked = record {
  store = record new_mem_store {
    codes = (bytes "cod_1", draft (bytes "cod_1") (bytes "menu")) ∷ [];
    by_code = (bytes "menu", bytes "cod_1") ∷ [];
  };
  blobs = [];
  cache = [];
}

padded_misses : lookup (to_lower (b' ' ∷ bytes "menu")) stocked.store.by_code ≡ none
unfolding lookup to_lower text_beq
padded_misses = refl

kept_entry :
    env.cache_get
      (env.cache_set (to_lower (bytes "menu")) unknown stocked.cache)
      (to_lower (bytes "menu"))
    ≡ some unknown
unfolding lookup insert to_lower text_beq
kept_entry = refl

padded_scan_hides_example :
    (resolve env live (bytes "menu") (resolve env live (b' ' ∷ bytes "menu") stocked).1).0
    ≡ ok unknown
padded_scan_hides_example =
    padded_scan_hides env stocked (bytes "menu") menu_trimmed padded_misses
      (nothing_cached (to_lower (bytes "menu"))) kept_entry

create_cancelled :
    (create env service done dice menu (empty_world env service [])).0 ≡ err (from_store cancelled)
unfolding create qurator.Codes.Prepare.prepare qurator.Codes.Destination.validate_destination
    trim_space qurator.Common.rune_count qurator.Codes.Destination.check_url
    qurator.Codes.Destination.is_self_referential qurator.Codes.Destination.on_scan_path text_beq
    to_lower qurator.Codes.Destination.clean_rooted qurator.Common.has_prefix qurator.Common.member
    qurator.Codes.Prepare.with_alias qurator.Shortcode.Alias.normalize_alias
    qurator.Shortcode.Alias.validate_alias qurator.Shortcode.Alias.check_alias
    qurator.Shortcode.Alias.is_alphanumeric qurator.Shortcode.Alias.is_alias_char
    qurator.Common.contains qurator.Shortcode.Reserved.is_reserved
    qurator.Shortcode.Reserved.reserved qurator.Shortcode.Generate.is_generated_shape
    qurator.Codes.Create.create_loop qurator.Codes.World.materialise qurator.Store.Codes.create_code
    qurator.Store.Codes.create_codes qurator.Codes.Create.final_error qurator.Codes.Create.retries
    new_mem_store lookup qurator.Store.Codes.check_row qurator.Domain.Ids.new_code_id
    qurator.Store.State.has qurator.Store.State.held
create_cancelled = refl

create_failed_example :
    (create env service done dice menu (empty_world env service [])).1.store
    ≡ (empty_world env service []).store
create_failed_example =
    create_failed env service done dice menu (empty_world env service []) (from_store cancelled)
      create_cancelled

abbrev created : Result CodesError Code → Code
created (ok c) = c
created (err x) = draft [] []

abbrev new_code : Code
new_code = created (create env service live dice menu (empty_world env service [])).0

create_succeeds : (create env service live dice menu (empty_world env service [])).0 ≡ ok new_code
unfolding create qurator.Codes.Prepare.prepare qurator.Codes.Destination.validate_destination
    trim_space qurator.Common.rune_count qurator.Codes.Destination.check_url
    qurator.Codes.Destination.is_self_referential qurator.Codes.Destination.on_scan_path text_beq
    to_lower qurator.Codes.Destination.clean_rooted qurator.Common.has_prefix qurator.Common.member
    qurator.Codes.Prepare.with_alias qurator.Shortcode.Alias.normalize_alias
    qurator.Shortcode.Alias.validate_alias qurator.Shortcode.Alias.check_alias
    qurator.Shortcode.Alias.is_alphanumeric qurator.Shortcode.Alias.is_alias_char
    qurator.Common.contains qurator.Shortcode.Reserved.is_reserved
    qurator.Shortcode.Reserved.reserved qurator.Shortcode.Generate.is_generated_shape
    qurator.Codes.Create.create_loop qurator.Codes.World.materialise qurator.Store.Codes.create_code
    qurator.Store.Codes.create_codes qurator.Codes.Create.final_error qurator.Codes.Create.retries
    new_mem_store lookup qurator.Store.Codes.check_row qurator.Domain.Ids.new_code_id
    qurator.Store.State.has qurator.Store.State.held
create_succeeds = refl

create_stored_example :
    answer
      (create env service live dice menu (empty_world env service [])).1.store
      new_code.short_code
    ≡ resolution_of new_code
create_stored_example =
    create_stored env service live dice menu (empty_world env service []) new_code create_succeeds
