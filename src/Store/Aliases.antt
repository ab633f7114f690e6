-- ===== src/Store/Aliases.antt =====
-- memstore.go, aliases
use qurator.Common.{
  Bool, true, false, not, none, some, Text, Dict, lookup, insert, delete, to_lower, ok, err,
  text_eq, if◌then◌else◌,
}
use qurator.Domain.{Time, is_deleted}
use qurator.Store.State.{
  MemStore, Op, Ctx, has, held, taken, not_found, conflict, cancelled, live, done,
}

unfoldable pub is_alias_available : Ctx → Text → Op Bool
is_alias_available done short_code m = (err cancelled, m)
is_alias_available live short_code m =
    if has (to_lower short_code) m.by_code
    then (ok false, m)
    else if held (to_lower short_code) m
    then (ok false, m)
    else (ok true, m)

-- `c, live := m.codes[id]; live && c.State != domain.CodeDeleted`
unfoldable pub owner_lives : Text → MemStore → Bool
owner_lives id m = elim (lookup id m.codes) [ none ↦ false | some c ↦ not (is_deleted c.state) ]

-- the index after a release: the entry goes if it leads to a deleted row
unfoldable pub unindexed : Text → MemStore → Dict Text Text
unindexed key m = elim (lookup key m.by_code) [
  | none ↦ m.by_code
  | some id ↦ elim (lookup id m.codes) [
    | none ↦ m.by_code
    | some c ↦ if is_deleted c.state then delete key m.by_code else m.by_code
  ]
]

unfoldable pub release_alias : Ctx → Time → Text → Op (Unit {0})
release_alias done now short_code m = (err cancelled, m)
release_alias live now short_code m = elim (lookup (to_lower short_code) m.reservations) [
  | none ↦ (err not_found, m)
  | some r ↦
      if not (taken r)
      then (err not_found, m)
      else if owner_lives r.code_id m
      then (err conflict, m)
      else (
        ok tt,
        record m {
          reservations =
              insert (to_lower short_code) (record r { released_at = some now }) m.reservations;
          by_code = unindexed (to_lower short_code) m;
        },
      )
]
