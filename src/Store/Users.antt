-- ===== src/Store/Users.antt =====
-- memstore.go, users
use qurator.Common.{
  ℕ, ◌||◌, none, some, Text, lookup, insert, length, to_lower, is_empty, ok, err, text_eq,
  if◌then◌else◌,
}
use qurator.Domain.{Time, User, is_zero_time, incr64}
use qurator.Store.State.{Op, Ctx, has, not_found, conflict, invalid, cancelled, live, done}

abbrev created_or : Time → Time → Time
created_or t now = if is_zero_time t then now else t

unfoldable pub create_user : Ctx → Time → User → Op (Unit {0})
create_user done now u m = (err cancelled, m)
create_user live now u m =
    if is_empty u.id || is_empty u.email
    then (err invalid, m)
    else if has u.id m.users
    then (err conflict, m)
    else if has (to_lower u.email) m.emails
    then (err conflict, m)
    else (
      ok tt,
      record m {
        users = insert u.id (record u { created_at = created_or u.created_at now }) m.users;
        emails = insert (to_lower u.email) u.id m.emails;
      },
    )

unfoldable pub get_user_by_id : Ctx → Text → Op User
get_user_by_id done id m = (err cancelled, m)
get_user_by_id live id m = elim (lookup id m.users) [
  | none ↦ (err not_found, m)
  | some u ↦ (ok u, m)
]

-- `copyUser(m.users[id])` reads through a nil pointer where the map lacks the id: the program
-- would panic, which the invariant of the store excludes; here it is `not_found`.
unfoldable pub get_user_by_email : Ctx → Text → Op User
get_user_by_email done email m = (err cancelled, m)
get_user_by_email live email m = elim (lookup (to_lower email) m.emails) [
  | none ↦ (err not_found, m)
  | some id ↦ elim (lookup id m.users) [ none ↦ (err not_found, m) | some u ↦ (ok u, m) ]
]

unfoldable pub bump_token_version : Ctx → Text → Op ℕ
bump_token_version done id m = (err cancelled, m)
bump_token_version live id m = elim (lookup id m.users) [
  | none ↦ (err not_found, m)
  | some u ↦
      let u' = record u { token_version = incr64 u.token_version } in
      (ok u'.token_version, record m { users = insert id u' m.users })
]

unfoldable pub count_users : Ctx → Op ℕ
count_users done m = (err cancelled, m)
count_users live m = (ok (length m.users), m)
