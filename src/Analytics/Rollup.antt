-- ===== src/Analytics/Rollup.antt =====
-- internal/analytics/rollup.go: BuildRollups
use qurator.Common.{
  ℕ, Bool, not, List, [], ◌∷◌, map, Text, bytes, Dict, bump, sort_by, text_ltb, ◌==◌, nat_eq,
  text_eq, ltb, if◌then◌else◌,
}
use qurator.Domain.{
  ScanEvent, RollupDelta, Dimension, dim_unset, dim_total, dim_ua_family, dim_device_category,
  dim_referrer_host, dim_is_bot, dim_other, dim_eq, DeviceCategory, device_desktop, device_mobile,
  device_tablet, device_tv, device_bot, device_unknown,
}
use qurator.Store.State.{RollupKey, rollup_key_eq}
use qurator.Store.Scans.{truncate_hour}

-- the texts of the enumerations (internal/domain/types.go)
abbrev pub dim_text : Dimension → Text
dim_text dim_unset = []
dim_text dim_total = bytes "total"
dim_text dim_ua_family = bytes "ua_family"
dim_text dim_device_category = bytes "device_category"
dim_text dim_referrer_host = bytes "referrer_host"
dim_text dim_is_bot = bytes "is_bot"
dim_text (dim_other s) = s

abbrev pub device_text : DeviceCategory → Text
device_text device_desktop = bytes "desktop"
device_text device_mobile = bytes "mobile"
device_text device_tablet = bytes "tablet"
device_text device_tv = bytes "tv"
device_text device_bot = bytes "bot"
device_text device_unknown = bytes "unknown"

-- the key of one event in one dimension, at the event's hour
abbrev pub event_key : ScanEvent → Dimension → Text → RollupKey
event_key ev d v = record {
  code_id = ev.code_id;
  hour = truncate_hour ev.occurred_at;
  dim = d;
  value = v;
}

-- one round of the loop: five counters go up
unfoldable pub count_event : ScanEvent → Dict RollupKey ℕ → Dict RollupKey ℕ
count_event ev counts =
    let bot = if ev.is_bot then bytes "true" else bytes "false" in
    bump (event_key ev dim_is_bot bot) 1 (
      bump (event_key ev dim_referrer_host ev.referrer_host) 1 (
        bump (event_key ev dim_device_category (device_text ev.device_category)) 1 (
          bump (event_key ev dim_ua_family ev.ua_family) 1
            (bump (event_key ev dim_total []) 1 counts))))

unfoldable pub count_events : List ScanEvent → Dict RollupKey ℕ → Dict RollupKey ℕ
unfolding count_event
count_events [] counts = counts
count_events (ev ∷ evs) counts = count_events evs (count_event ev counts)

abbrev pub to_delta : RollupKey × ℕ → RollupDelta
to_delta p = record {
  code_id = p.0.code_id;
  hour_bucket = p.0.hour;
  dimension = p.0.dim;
  value = p.0.value;
  count = p.1;
}

unfoldable pub rollup_less : RollupDelta → RollupDelta → Bool
rollup_less a b =
    if not (a.code_id == b.code_id)
    then text_ltb a.code_id b.code_id
    else if not (a.hour_bucket == b.hour_bucket)
    then ltb a.hour_bucket b.hour_bucket
    else if not (a.dimension == b.dimension)
    then text_ltb (dim_text a.dimension) (dim_text b.dimension)
    else text_ltb a.value b.value

unfoldable pub build_rollups : List ScanEvent → List RollupDelta
unfolding count_events
build_rollups events = sort_by rollup_less (map to_delta (count_events events []))
