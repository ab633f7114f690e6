-- ===== src/Public.antt =====
-- internal/httpapi/public: the handler of a scan (redirect.go). A request is what the handler reads
-- of it, a response what it writes. The User-Agent parser and url.Parse with Hostname are arguments.
pub mod Image
pub mod Redirect
mod Examples
use qurator.Common.{
  ℕ, Bool, true, false, not, ◌&&◌, Option, none, some, List, [], ◌∷◌, Text, is_empty, to_lower,
  trim_space, Result, ok, err, if◌then◌else◌,
}
use qurator.Domain.{Time, DeviceCategory, ScanEvent, is_active, is_deleted}
use qurator.Store.State.{Ctx}
use qurator.Codes.World.{Env, World, Resolution}
use qurator.Codes.Resolve.{resolve}

pub record Handler : Type 0 where
  pub fallback : Text
  pub classify : Text → Text × DeviceCategory × Bool
  -- url.Parse and Hostname, none for an error
  pub parse_hostname : Text → Option Text

-- NewPublicHandler
unfoldable pub new_handler :
    Text → (Text → Text × DeviceCategory × Bool) → (Text → Option Text) → Handler
new_handler fallback classify parse_hostname = record {
  fallback = trim_space fallback;
  classify = classify;
  parse_hostname = parse_hostname;
}

pub record Request : Type 0 where
  pub code : Text
  pub user_agent : Text
  pub referer : Text

-- The status, the Location header, and whether the landing page is written. Each response has the
-- headers of setNoStore.
pub data Response : Type 0 where
  found_at : Text → Response
  landing_page : Response

-- referrerHost
unfoldable pub referrer_host : Handler → Text → Text
referrer_host h referer =
    if is_empty referer
    then []
    else elim (h.parse_hostname referer) [ none ↦ [] | some host ↦ to_lower host ]

-- what record hands to the recorder
unfoldable pub scan_event : Handler → Time → Request → Text → ScanEvent
unfolding referrer_host
scan_event h now r code_id = record {
  code_id = code_id;
  occurred_at = now;
  ua_family = (h.classify r.user_agent).0;
  device_category = (h.classify r.user_agent).1;
  referrer_host = referrer_host h r.referer;
  is_bot = (h.classify r.user_agent).2;
}

unfoldable pub landing : Handler → Response
landing h = if is_empty h.fallback then landing_page else found_at h.fallback

-- redirect after Resolve: the events handed to the recorder, and the response
unfoldable pub answer_scan : Handler → Time → Request → Resolution → List ScanEvent × Response
unfolding landing
answer_scan h now r res = (
  if res.found && not (is_deleted res.state) then scan_event h now r res.code_id ∷ [] else [],
  if res.found && is_active res.state then found_at res.destination else landing h,
)

module _ {C : Type 0} (e : Env C) where
  unfoldable pub redirect :
      Handler → Ctx → Time → Request → World C → (List ScanEvent × Response) × World C
  unfolding answer_scan
  redirect h ctx now r w =
      let (res, w') = resolve e ctx r.code w in
      elim res [ err x ↦ (([], landing h), w') | ok a ↦ (answer_scan h now r a, w') ]
