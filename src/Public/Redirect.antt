-- ===== src/Public/Redirect.antt =====
-- A scan is redirected as the tables say, and whoever scans learns nothing of a code that is not
-- active.
use qurator.Common.{◌≡◌, refl, ap, not, ◌&&◌, [], ◌∷◌, to_lower, trim_space, text_eq, if◌then◌else◌}
use qurator.Domain.{Time, is_active, is_deleted}
use qurator.Store.State.{live}
use qurator.Codes.World.{Env, CacheLaws, World}
use qurator.Codes.Resolve.{answer}
use qurator.Codes.Coherence.{Sound}
use qurator.Codes.Scan.{resolve-answer}
use qurator.Public.{Handler, Request, found_at, landing, scan_event, answer_scan, redirect}

module _ {C : Type 0} (e : Env C) (laws : CacheLaws e) {w : World C} (s : Sound e w) (h : Handler)
    (now : Time) (r : Request) (t : trim_space r.code ≡ r.code) where
  redirect_answered :
      (redirect e h live now r w).0 ≡ answer_scan h now r (answer w.store (to_lower r.code))
  unfolding redirect
  redirect_answered = rw ((resolve-answer e laws s r.code t).0, redirect) refl

  -- In a sound state, be the cache warm or not: a scan of a code that is active by the tables is
  -- redirected to its destination, and one of any other, unknown, disabled or deleted, gets the one
  -- landing response. The short code has no white space at its ends.
  pub redirect_response : (redirect e h live now r w).0.1 ≡ (
      if (answer w.store (to_lower r.code)).found
        && is_active (answer w.store (to_lower r.code)).state
      then found_at (answer w.store (to_lower r.code)).destination
      else landing h)
  unfolding answer_scan
  redirect_response = ap (λ p. p.1) redirect_answered

  -- In a sound state a scan of a code that the tables have and that is not deleted is recorded once,
  -- under the id of that code, and any other is not recorded. The short code has no white space at
  -- its ends.
  pub redirect_recorded : (redirect e h live now r w).0.0 ≡ (
      if (answer w.store (to_lower r.code)).found
        && not (is_deleted (answer w.store (to_lower r.code)).state)
      then scan_event h now r (answer w.store (to_lower r.code)).code_id ∷ []
      else [])
  unfolding answer_scan
  redirect_recorded = ap (λ p. p.0) redirect_answered
