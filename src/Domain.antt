-- ===== src/Domain.antt =====
-- internal/domain: the types that every part of the program shares (types.go) and, in the child
-- module, the generation of identifiers (ids.go).
--
-- Time is the number of nanoseconds since Go's zero time, so that 0 is `IsZero` and `UTC()` is the
-- identity. An `int64` counter that the program compares and increments is its 64-bit pattern. A
-- string-typed enumeration has a constructor for each constant, one for "", and one for the rest;
-- but a DeviceCategory is one of its constants, and a Bucket one of its constants or "".
-- A logo scale is a number of millionths.
pub mod Ids
pub mod Samples
use qurator.Common.{
  ℕ, ◌+◌, ◌%◌, ◌^◌, ◌≡◌, ◌↔◌, refl, Bool, true, false, ◌||◌, Option, none, some, List, Text, Eq,
  ◌==◌, text_eq, nat_eq, leb, text_beq_iff, arith,
}

abbrev pub Time : Type 0
Time = ℕ

abbrev pub is_zero_time : Time → Bool
is_zero_time t = t == 0

-- x++ on an int64, as a bit pattern
unfoldable pub incr64 : ℕ → ℕ
incr64 v = (v + 1) % 2 ^ 64

-- x <= 0 on an int64, as a bit pattern
unfoldable pub nonpositive64 : ℕ → Bool
nonpositive64 v = v == 0 || leb (2 ^ 63) v

pub data UserSource : Type 0 where
  source_local source_forward_auth : UserSource
  source_other : Text → UserSource

pub record User : Type 0 where
  pub id : Text
  pub email : Text
  pub password_hash : Text
  pub is_admin : Bool
  pub token_version : ℕ
  pub source : UserSource
  pub created_at : Time
  pub last_login_at : Option Time

pub record ApiToken : Type 0 where
  pub id : Text
  pub user_id : Text
  pub name : Text
  pub secret_hash : Text
  pub created_at : Time
  pub last_used_at : Option Time
  pub revoked_at : Option Time
  pub expires_at : Option Time

abbrev pub is_some {ℓ} : {A : Type ℓ} → Option A → Bool
is_some none = false
is_some (some a) = true

-- (*APIToken).Revoked
unfoldable pub revoked : ApiToken → Bool
revoked t = is_some t.revoked_at

pub data CodeState : Type 0 where
  state_unset code_active code_disabled code_deleted : CodeState
  state_other : Text → CodeState

abbrev pub is_deleted : CodeState → Bool
is_deleted code_deleted = true
is_deleted _ = false

abbrev pub is_active : CodeState → Bool
is_active code_active = true
is_active _ = false

pub data CodeMode : Type 0 where
  mode_unset mode_dynamic mode_direct : CodeMode
  mode_other : Text → CodeMode

abbrev pub is_direct : CodeMode → Bool
is_direct mode_direct = true
is_direct _ = false

-- `==` on CodeMode
abbrev pub mode_beq : CodeMode → CodeMode → Bool
mode_beq mode_unset mode_unset = true
mode_beq mode_dynamic mode_dynamic = true
mode_beq mode_direct mode_direct = true
mode_beq (mode_other s) (mode_other t) = s == t
mode_beq _ _ = false

pub data EcLevel : Type 0 where
  ec_unset ec_low ec_medium ec_quartile ec_high : EcLevel
  ec_other : Text → EcLevel

pub data ModuleShape : Type 0 where
  shape_unset shape_square shape_dot shape_rounded : ModuleShape
  shape_other : Text → ModuleShape

pub record Styling : Type 0 where
  pub id : Text
  pub fg_color : Text
  pub bg_color : Text
  pub module_shape : ModuleShape
  pub margin_modules : ℕ
  pub size_px : ℕ
  pub ec_level : EcLevel
  pub ec_level_effective : EcLevel
  pub logo_blob_key : Text
  pub logo_scale : ℕ

pub record Code : Type 0 where
  pub id : Text
  pub short_code : Text
  pub is_alias : Bool
  pub user_id : Text
  pub mode : CodeMode
  pub client_ref : Text
  pub destination : Text
  pub state : CodeState
  pub styling : Styling
  pub blob_key : Text
  pub blob_etag : Text
  pub version : ℕ
  pub created_at : Time
  pub updated_at : Time
  pub deleted_at : Option Time

pub data DeviceCategory : Type 0 where
  device_desktop device_mobile device_tablet device_tv device_bot device_unknown : DeviceCategory

pub record ScanEvent : Type 0 where
  pub code_id : Text
  pub occurred_at : Time
  pub ua_family : Text
  pub device_category : DeviceCategory
  pub referrer_host : Text
  pub is_bot : Bool

pub data Dimension : Type 0 where
  dim_unset dim_total dim_ua_family dim_device_category dim_referrer_host dim_is_bot : Dimension
  dim_other : Text → Dimension

abbrev pub dim_beq : Dimension → Dimension → Bool
dim_beq dim_unset dim_unset = true
dim_beq dim_total dim_total = true
dim_beq dim_ua_family dim_ua_family = true
dim_beq dim_device_category dim_device_category = true
dim_beq dim_referrer_host dim_referrer_host = true
dim_beq dim_is_bot dim_is_bot = true
dim_beq (dim_other s) (dim_other t) = s == t
dim_beq _ _ = false

pub dim_beq_iff : (a b : Dimension) → (dim_beq a b ≡ true) ↔ (a ≡ b)
dim_beq_iff (dim_other s) (dim_other t) = ground (arith, text_beq_iff s t)
dim_beq_iff a b = ground arith

instance abbrev pub dim_eq : Eq Dimension
dim_eq = record { beq = dim_beq; beq_iff = dim_beq_iff }

pub record RollupDelta : Type 0 where
  pub code_id : Text
  pub hour_bucket : Time
  pub dimension : Dimension
  pub value : Text
  pub count : ℕ

pub record ScanBatch : Type 0 where
  pub events : List ScanEvent
  pub rollups : List RollupDelta

pub data Bucket : Type 0 where
  bucket_unset bucket_hour bucket_day bucket_week : Bucket

pub record AnalyticsQuery : Type 0 where
  pub code_id : Text
  pub from : Time
  pub to : Time
  pub bucket : Bucket

pub record SeriesPoint : Type 0 where
  pub start : Time
  pub count : ℕ

pub record BreakdownValue : Type 0 where
  pub value : Text
  pub count : ℕ

pub record AnalyticsResult : Type 0 where
  pub total : ℕ
  pub series : List SeriesPoint
  pub breakdowns : List (Dimension × List BreakdownValue)

pub record CodeFilter : Type 0 where
  pub user_id : Text
  pub created_after : Option Time
  pub created_before : Option Time
  pub destination : Text
  pub limit : ℕ
  pub cursor : Text

pub record AliasReservation : Type 0 where
  pub short_code : Text
  pub code_id : Text
  pub reserved_at : Time
  pub released_at : Option Time
