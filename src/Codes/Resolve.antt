-- ===== src/Codes/Resolve.antt =====
-- service.go: Resolve, which answers a scan
use qurator.Common.{true, false, none, some, Text, bytes, lookup, text_eq, Result, ok, err}
use qurator.Domain.{Code, state_unset}
use qurator.Store.State.{Ctx, MemStore, not_found}
use qurator.Store.Codes.{get_code_by_short_code}
use qurator.Codes.Prepare.{CodesError, from_store}
use qurator.Codes.World.{Env, World, Resolution, cache_key, cache_put}

abbrev pub unknown : Resolution
unknown = record { code_id = bytes ""; destination = bytes ""; state = state_unset; found = false }

abbrev pub resolution_of : Code → Resolution
resolution_of c = record {
  code_id = c.id;
  destination = c.destination;
  state = c.state;
  found = true;
}

module _ {C : Type 0} (e : Env C) where
  -- Resolve when the cache has nothing
  unfoldable pub resolve_cold : Ctx → Text → World C → Result CodesError Resolution × World C
  resolve_cold ctx short_code w = elim (get_code_by_short_code ctx short_code w.store).0 [
    | ok c ↦ (ok (resolution_of c), cache_put e c.short_code (resolution_of c) w)
    | err not_found ↦ (ok unknown, cache_put e short_code unknown w)
    | err x ↦ (err (from_store x), w)
  ]

  unfoldable pub resolve : Ctx → Text → World C → Result CodesError Resolution × World C
  unfolding resolve_cold
  resolve ctx short_code w = elim (e.cache_get w.cache (cache_key short_code)) [
    | some r ↦ (ok r, w)
    | none ↦ resolve_cold ctx short_code w
  ]

-- What the tables say of a short code in lower case.
unfoldable pub answer : MemStore → Text → Resolution
answer m k = elim (lookup k m.by_code) [
  | none ↦ unknown
  | some id ↦ elim (lookup id m.codes) [ none ↦ unknown | some c ↦ resolution_of c ]
]
