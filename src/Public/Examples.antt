-- ===== src/Public/Examples.antt =====
-- The theorems on the scan handler (internal/httpapi/public), applied to one scan.
use qurator.Common.{
  ◌≡◌, refl, true, false, not, ◌&&◌, none, List, [], ◌∷◌, Text, bytes, Dict, lookup, all, to_lower,
  trim_space, trim_left, trim_right, text_beq, if◌then◌else◌, text_eq,
}
use qurator.Domain.{is_active, is_deleted, device_mobile}
use qurator.Store.State.{live}
use qurator.Codes.World.{World, Resolution}
use qurator.Codes.Resolve.{answer}
use qurator.Codes.Coherence.{Sound}
use qurator.Codes.Samples.{env, env-CacheLaws, service, dice, menu}
use qurator.Codes.Sessions.{
  Use, creates, scans, is_trimmed, serve_all, serve_all-Sound, empty_world, empty-Sound,
}
use qurator.Public.{Handler, Request, found_at, landing, scan_event, redirect}
use qurator.Public.Redirect.{redirect_response, redirect_recorded}

abbrev handler : Handler
handler = record {
  fallback = [];
  classify = λ ua. (ua, device_mobile, false);
  parse_hostname = λ referer. none;
}

abbrev request : Request
request = record { code = bytes "menu"; user_agent = bytes "Firefox"; referer = [] }

abbrev uses : List Use
uses = creates live dice menu ∷ scans live (bytes "menu") ∷ []

abbrev world : World (Dict Text Resolution)
world = serve_all env service uses (empty_world env service [])

uses-is_trimmed : all is_trimmed uses ≡ true
unfolding is_trimmed trim_space trim_left trim_right text_beq
uses-is_trimmed = refl

nothing_cached : (k : Text) → env.cache_get [] k ≡ none
unfolding lookup
nothing_cached k = refl

request_trimmed : trim_space request.code ≡ request.code
unfolding trim_space trim_left trim_right
request_trimmed = refl

world-Sound : Sound env world
world-Sound =
    serve_all-Sound env service env-CacheLaws uses uses-is_trimmed
      (empty-Sound env service [] nothing_cached)

redirect_response_example : (redirect env handler live 20 request world).0.1 ≡ (
    if (answer world.store (to_lower request.code)).found
      && is_active (answer world.store (to_lower request.code)).state
    then found_at (answer world.store (to_lower request.code)).destination
    else landing handler)
redirect_response_example =
    redirect_response env env-CacheLaws world-Sound handler 20 request request_trimmed

redirect_recorded_example : (redirect env handler live 20 request world).0.0 ≡ (
    if (answer world.store (to_lower request.code)).found
      && not (is_deleted (answer world.store (to_lower request.code)).state)
    then scan_event handler 20 request (answer world.store (to_lower request.code)).code_id ∷ []
    else [])
redirect_recorded_example =
    redirect_recorded env env-CacheLaws world-Sound handler 20 request request_trimmed
