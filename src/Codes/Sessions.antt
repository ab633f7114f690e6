-- ===== src/Codes/Sessions.antt =====
-- Use cases one after the other, from an empty service.
use qurator.Common.{
  ◌≡◌, refl, ap, ℕ, Bool, true, none, some, List, [], ◌∷◌, Text, lookup, to_lower, trim_space, all,
  text_eq, text_beq_iff, ◌==◌, ok, arith,
}
use qurator.Domain.{Time, CodeState}
use qurator.Store.State.{Ctx, live, done, new_mem_store}
use qurator.Store.Codes.{get_code_by_short_code}
use qurator.Store.Invariant.Batch.{Inv-new_mem_store}
use qurator.Codes.Destination.{Service}
use qurator.Codes.Prepare.{CreateInput}
use qurator.Codes.World.{Env, CacheLaws, World, cache_key}
use qurator.Codes.Create.{Chance, create}
use qurator.Codes.Change.{update, set_state, delete_one}
use qurator.Codes.Resolve.{answer, unknown, resolve, resolve_cold}
use qurator.Codes.Coherence.{Sound}
use qurator.Codes.Soundness.{quiet, update-Sound, set_state-Sound, delete_one-Sound}
use qurator.Codes.Creation.{create-Sound}
use qurator.Codes.Batch.{Insertion, create_batch}
use qurator.Codes.Batch.Soundness.{create_batch-Sound}
use qurator.Codes.Scan.{resolve-answer, resolve-Sound_done}

pub data Use : Type 0 where
  creates : Ctx → (ℕ → Chance) → CreateInput → Use
  batches : (ℕ → Ctx) → (ℕ → Chance) → Insertion → Text → List CreateInput → Use
  updates : Ctx → Time → Text → Text → Text → ℕ → Use
  switches : Ctx → Time → Text → Text → CodeState → Use
  deletes : Ctx → Time → Text → Text → Use
  scans : Ctx → Text → Use

-- a scan has no white space at the ends of its short code
unfoldable pub is_trimmed : Use → Bool
is_trimmed (scans ctx sc) = trim_space sc == sc
is_trimmed _ = true

module _ {C : Type 0} (e : Env C) (sv : Service) where
  unfoldable pub serve : Use → World C → World C
  serve (creates ctx dice input) w = (create e sv ctx dice input w).1
  serve (batches ctx dice ins user items) w = (create_batch e sv ctx dice ins user items w).1
  serve (updates ctx now id u dest v) w = (update e sv ctx now quiet id u dest v w).1
  serve (switches ctx now id u s) w = (set_state e ctx now id u s w).1
  serve (deletes ctx now id u) w = (delete_one e ctx now id u w).1
  serve (scans ctx sc) w = (resolve e ctx sc w).1

  unfoldable pub serve_all : List Use → World C → World C
  serve_all [] w = w
  serve_all (u ∷ us) w = serve_all us (serve u w)

  serve-Sound :
      CacheLaws e → (u : Use) {w : World C} → is_trimmed u ≡ true → Sound e w → Sound e (serve u w)
  unfolding serve is_trimmed
  serve-Sound laws (creates ctx dice input) t s = create-Sound e laws sv ctx dice input s
  serve-Sound laws (batches ctx dice ins user items) t s =
      create_batch-Sound e laws sv ctx dice ins user items s
  serve-Sound laws (updates ctx now id u dest v) t s = update-Sound e laws sv ctx now id u dest v s
  serve-Sound laws (switches ctx now id u state) t s = set_state-Sound e laws ctx now id u state s
  serve-Sound laws (deletes ctx now id u) t s = delete_one-Sound e laws ctx now id u s
  serve-Sound laws (scans live sc) t s =
      (resolve-answer e laws s sc ((text_beq_iff (trim_space sc) sc).0 t)).1
  serve-Sound laws (scans done sc) t s = resolve-Sound_done e laws s sc

  pub serve_all-Sound :
      CacheLaws e
      → (us : List Use) {w : World C} → all is_trimmed us ≡ true
      → Sound e w
      → Sound e (serve_all us w)
  unfolding serve_all
  serve_all-Sound laws [] t s = s
  serve_all-Sound laws (u ∷ us) t s =
      serve_all-Sound laws us (ground arith) (serve-Sound laws u (ground arith) s)

  abbrev pub empty_world : C → World C
  empty_world c = record { store = new_mem_store; blobs = []; cache = c }

  pub empty-Sound : (c : C) → ((k : Text) → e.cache_get c k ≡ none) → Sound e (empty_world c)
  unfolding new_mem_store lookup
  empty-Sound c h = record {
    inv = unfold new_mem_store in Inv-new_mem_store;
    trimmed = λ id d at. absurd (ground arith);
    coherent = λ k r got. absurd (ground (arith, h k));
  }

  -- After any creations, batches of creations, updates, state changes, deletions and scans, one after the other and
  -- failed ones included, starting with empty tables and an empty cache, a scan is answered as the
  -- tables answer it at that moment: the cache, whatever it evicts, is never stale. Scans have no
  -- white space at the ends of the short code.
  pub serve_all-answer :
      CacheLaws e
      → (us : List Use) (c : C) (sc : Text) → ((k : Text) → e.cache_get c k ≡ none)
      → all is_trimmed us ≡ true
      → trim_space sc ≡ sc
      → (resolve e live sc (serve_all us (empty_world c))).0
        ≡ ok (answer (serve_all us (empty_world c)).store (to_lower sc))
  serve_all-answer laws us c sc h t q =
      (resolve-answer e laws (serve_all-Sound laws us t (empty-Sound c h)) sc q).0

padded_key : (sc : Text) → trim_space sc ≡ sc → cache_key (b' ' ∷ sc) ≡ to_lower sc
unfolding cache_key trim_space
padded_key sc t = ap to_lower t

own_key : (sc : Text) → trim_space sc ≡ sc → cache_key sc ≡ to_lower sc
unfolding cache_key
own_key sc t = ap to_lower t

padded_scan :
    {C : Type 0} (e : Env C) (w : World C) (sc : Text)
    → trim_space sc ≡ sc
    → lookup (to_lower (b' ' ∷ sc)) w.store.by_code ≡ none
    → e.cache_get w.cache (to_lower sc) ≡ none
    → resolve e live (b' ' ∷ sc) w
      ≡ (ok unknown, record w { cache = e.cache_set (to_lower sc) unknown w.cache })
unfolding resolve resolve_cold get_code_by_short_code
padded_scan e w sc t l n = ground (arith, padded_key sc t)

-- A scan whose short code has a space before it looks up the short code with the space, and keeps
-- its failure under the short code without: as long as the cache keeps that entry, the next scan
-- of the short code itself is answered as unknown, even where the tables have it.
pub padded_scan_hides :
    {C : Type 0} (e : Env C) (w : World C) (sc : Text)
    → trim_space sc ≡ sc
    → lookup (to_lower (b' ' ∷ sc)) w.store.by_code ≡ none
    → e.cache_get w.cache (to_lower sc) ≡ none
    → e.cache_get (e.cache_set (to_lower sc) unknown w.cache) (to_lower sc) ≡ some unknown
    → (resolve e live sc (resolve e live (b' ' ∷ sc) w).1).0 ≡ ok unknown
unfolding resolve
padded_scan_hides e w sc t l n k = rw (padded_scan e w sc t l n, own_key sc t, k, resolve) refl
