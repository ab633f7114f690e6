-- ===== src/Store/Tokens.antt =====
-- memstore.go, tokens
use qurator.Common.{
  Bool, not, ◌||◌, none, some, List, Text, lookup, insert, values, filter, sort_by, text_ltb,
  is_empty, ok, err, ◌==◌, nat_eq, text_eq, ltb, if◌then◌else◌,
}
use qurator.Domain.{Time, ApiToken, is_zero_time, revoked}
use qurator.Store.State.{Op, Ctx, has, not_found, conflict, invalid, cancelled, live, done}

unfoldable pub create_token : Ctx → Time → ApiToken → Op (Unit {0})
create_token done now t m = (err cancelled, m)
create_token live now t m =
    if is_empty t.id || is_empty t.user_id
    then (err invalid, m)
    else if has t.id m.tokens
    then (err conflict, m)
    else let created = if is_zero_time t.created_at then now else t.created_at in
      (ok tt, record m { tokens = insert t.id (record t { created_at = created }) m.tokens })

unfoldable pub get_token_by_id : Ctx → Text → Op ApiToken
get_token_by_id done id m = (err cancelled, m)
get_token_by_id live id m = elim (lookup id m.tokens) [
  | none ↦ (err not_found, m)
  | some t ↦ (ok t, m)
]

-- oldest first, and by id among those of one instant
abbrev pub older : ApiToken → ApiToken → Bool
older a b =
    if not (a.created_at == b.created_at) then ltb a.created_at b.created_at else text_ltb a.id b.id

unfoldable pub list_tokens : Ctx → Text → Op (List ApiToken)
list_tokens done user_id m = (err cancelled, m)
list_tokens live user_id m =
    (ok (sort_by older (filter (λ t. t.user_id == user_id) (values m.tokens))), m)

unfoldable pub revoke_token : Ctx → Time → Text → Text → Op (Unit {0})
unfolding revoked
revoke_token done now id user_id m = (err cancelled, m)
revoke_token live now id user_id m = elim (lookup id m.tokens) [
  | none ↦ (err not_found, m)
  | some t ↦
      if not (t.user_id == user_id)
      then (err not_found, m)
      else if revoked t
      then (ok tt, m)
      else (ok tt, record m { tokens = insert id (record t { revoked_at = some now }) m.tokens })
]

unfoldable pub touch_token_last_used : Ctx → Text → Time → Op (Unit {0})
touch_token_last_used done id at m = (err cancelled, m)
touch_token_last_used live id at m = elim (lookup id m.tokens) [
  | none ↦ (err not_found, m)
  | some t ↦ (ok tt, record m { tokens = insert id (record t { last_used_at = some at }) m.tokens })
]
