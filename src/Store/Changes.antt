-- ===== src/Store/Changes.antt =====
-- memstore.go, codes: changes of a row
use qurator.Common.{ℕ, not, none, some, Text, insert, ok, err, ◌==◌, nat_eq, text_eq, if◌then◌else◌}
use qurator.Domain.{
  Time, Code, CodeState, code_active, code_disabled, code_deleted, is_deleted, incr64,
}
use qurator.Store.State.{Op, Ctx, not_found, conflict, invalid, cancelled, live, done}
use qurator.Store.Codes.{owned}

-- what UpdateDestination writes
unfoldable pub redirected : Time → Text → Code → Code
redirected now dest c = record c {
  destination = dest;
  version = incr64 c.version;
  updated_at = now;
}

unfoldable pub update_destination : Ctx → Time → Text → Text → Text → ℕ → Op (Unit {0})
update_destination done now id user_id dest expected m = (err cancelled, m)
update_destination live now id user_id dest expected m = elim (owned m id user_id) [
  | none ↦ (err not_found, m)
  | some c ↦
      if is_deleted c.state
      then (err conflict, m)
      else if not (c.version == expected)
      then (err conflict, m)
      else (ok tt, record m { codes = insert id (redirected now dest c) m.codes })
]

-- what SetCodeState writes
unfoldable pub with_state : Time → CodeState → Code → Code
with_state now s c = record c { state = s; version = incr64 c.version; updated_at = now }

-- SetCodeState after its switch on the state
unfoldable pub put_state : Time → Text → Text → CodeState → Op (Unit {0})
put_state now id user_id s m = elim (owned m id user_id) [
  | none ↦ (err not_found, m)
  | some c ↦
      if is_deleted c.state
      then (err conflict, m)
      else (ok tt, record m { codes = insert id (with_state now s c) m.codes })
]

unfoldable pub set_code_state : Ctx → Time → Text → Text → CodeState → Op (Unit {0})
unfolding put_state
set_code_state done now id user_id s m = (err cancelled, m)
set_code_state live now id user_id code_active m = put_state now id user_id code_active m
set_code_state live now id user_id code_disabled m = put_state now id user_id code_disabled m
set_code_state live now id user_id s m = (err invalid, m)

-- what DeleteCode writes
unfoldable pub buried : Time → Code → Code
buried now c = record c {
  state = code_deleted;
  deleted_at = some now;
  version = incr64 c.version;
  updated_at = now;
}

unfoldable pub delete_code : Ctx → Time → Text → Text → Op (Unit {0})
delete_code done now id user_id m = (err cancelled, m)
delete_code live now id user_id m = elim (owned m id user_id) [
  | none ↦ (err not_found, m)
  | some c ↦
      if is_deleted c.state
      then (ok tt, m)
      else (ok tt, record m { codes = insert id (buried now c) m.codes })
]
