-- ===== src/Codes/Prepare.antt =====
-- service.go: what Create and CreateBatch check before they touch the store or the blob store.
use qurator.Common.{
  ℕ, Bool, true, false, not, ◌&&◌, Option, none, some, Text, bytes, is_empty, trim_space, length,
  ltb, ◌==◌, nat_eq, Result, ok, err, if◌then◌else◌,
}
use qurator.Domain.{
  CodeMode, mode_unset, mode_dynamic, mode_direct, mode_other, is_direct, EcLevel, ec_unset, ec_low,
  ec_medium, ec_quartile, ec_high, ModuleShape, shape_unset, shape_square, Styling, is_some,
}
use qurator.Shortcode.Alias.{AliasError, reserved_word, normalize_alias, validate_alias}
use qurator.Store.State.{StoreError}
use qurator.Codes.Destination.{Service, DestinationError, validate_destination}

-- the errors of the package; `vErr` details are the arguments
pub data CodesError : Type 0 where
  from_store : StoreError → CodesError
  user_required invalid_mode scan_url_not_configured client_ref_too_long : CodesError
  client_ref_duplicate : Text → CodesError
  bad_destination : DestinationError → CodesError
  -- limit and actual size
  content_too_large : ℕ → ℕ → EcLevel → CodesError
  alias_reserved : Text → CodesError
  alias_invalid : Text → AliasError → CodesError
  alias_in_use : Text → CodesError
  -- an error of the renderer, or of a Put of the blob store
  render_failed blob_failed : CodesError
  direct_immutable kept_losing : CodesError
  -- expected and actual version
  version_conflict : ℕ → ℕ → CodesError
  client_ref_conflict : Text → Text → CodesError
  lost_race : StoreError → CodesError

-- qr.Capacity (internal/qr/encode.go)
unfoldable pub capacity : EcLevel → ℕ
capacity ec_low = 2953
capacity ec_medium = 2331
capacity ec_quartile = 1663
capacity ec_high = 1273
capacity _ = 0

abbrev or_text : Text → Text → Text
or_text s d = if is_empty s then d else s

abbrev or_nat : ℕ → ℕ → ℕ
or_nat n d = if n == 0 then d else n

abbrev or_shape : ModuleShape → ModuleShape → ModuleShape
or_shape shape_unset d = d
or_shape s d = s

abbrev or_level : EcLevel → EcLevel → EcLevel
or_level ec_unset d = d
or_level l d = l

-- fillStyling, with the values of DefaultStyling
unfoldable pub fill_styling : Styling → Styling
fill_styling s =
    let level = or_level s.ec_level ec_medium in
    record s {
      fg_color = or_text s.fg_color (bytes "#000000");
      bg_color = or_text s.bg_color (bytes "#FFFFFF");
      module_shape = or_shape s.module_shape shape_square;
      margin_modules = or_nat s.margin_modules 4;
      size_px = or_nat s.size_px 512;
      ec_level = level;
      ec_level_effective = or_level s.ec_level_effective level;
    }

-- DefaultLogoScale, 0.15
abbrev pub default_logo_scale : ℕ
default_logo_scale = 150000

abbrev pub max_client_ref_len : ℕ
max_client_ref_len = 128

pub record CreateInput : Type 0 where
  pub user_id : Text
  pub mode : CodeMode
  pub destination : Text
  pub alias : Text
  pub styling : Styling
  pub logo : Text
  pub logo_auto_raise : Bool
  pub client_ref : Text

pub record Prepared : Type 0 where
  pub mode : CodeMode
  pub destination : Text
  pub styling : Styling
  pub is_alias : Bool
  pub short_code : Text
  pub logo : Text
  pub auto_raise : Bool
  pub client_ref : Text

-- the switch on the mode: none for one that the program does not know
unfoldable pub checked_mode : CodeMode → Option CodeMode
checked_mode mode_unset = some mode_dynamic
checked_mode mode_dynamic = some mode_dynamic
checked_mode mode_direct = some mode_direct
checked_mode (mode_other t) = none

-- the styling of a prepared code
unfoldable pub prepared_styling : CreateInput → Styling
unfolding fill_styling
prepared_styling input =
    let s = fill_styling input.styling in
    record s {
      logo_blob_key = bytes "";
      logo_scale = if is_empty input.logo then 0 else or_nat s.logo_scale default_logo_scale;
    }

-- the last step of prepare: the alias, if there is one
unfoldable pub with_alias : Text → Prepared → Result CodesError Prepared
with_alias alias p =
    let code = normalize_alias alias in
    if is_empty alias then ok p else elim (validate_alias code) [
      | none ↦ ok (record p { is_alias = true; short_code = code })
      | some reserved_word ↦ err (alias_reserved code)
      | some e ↦ err (alias_invalid code e)
    ]

-- prepare after the checks of the user and the mode
unfoldable pub prepare_mode : Service → CreateInput → CodeMode → Result CodesError Prepared
unfolding with_alias prepared_styling
prepare_mode s input mode =
    let styling = prepared_styling input in
    let dest = trim_space input.destination in
    if not (is_direct mode) && not (is_some s.base)
    then err scan_url_not_configured
    else if ltb max_client_ref_len (length input.client_ref)
    then err client_ref_too_long
    else elim (validate_destination s input.destination) [
      | some e ↦ err (bad_destination e)
      | none ↦
          if is_direct mode && ltb (capacity styling.ec_level) (length dest)
          then err (content_too_large (capacity styling.ec_level) (length dest) styling.ec_level)
          else with_alias input.alias (record {
            mode = mode;
            destination = dest;
            styling = styling;
            is_alias = false;
            short_code = bytes "";
            logo = input.logo;
            auto_raise = input.logo_auto_raise;
            client_ref = input.client_ref;
          })
    ]

unfoldable pub prepare : Service → CreateInput → Result CodesError Prepared
unfolding prepare_mode checked_mode
prepare s input =
    if is_empty input.user_id then err user_required else elim (checked_mode input.mode) [
      | none ↦ err invalid_mode
      | some mode ↦ prepare_mode s input mode
    ]
