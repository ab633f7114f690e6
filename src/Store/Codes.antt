-- ===== src/Store/Codes.antt =====
-- memstore.go, codes: creation and lookup
use qurator.Common.{
  ℕ, suc, ◌||◌, Option, none, some, List, [], ◌∷◌, Text, bytes, lookup, insert, member, to_lower,
  is_empty, Result, ok, err, ◌==◌, text_eq, if◌then◌else◌,
}
use qurator.Domain.{
  Time, Code, CodeState, CodeMode, state_unset, code_active, mode_unset, mode_dynamic, is_zero_time,
}
use qurator.Domain.Ids.{new_id}
use qurator.Store.State.{
  MemStore, Op, Ctx, has, held, RefKey, ref_key_eq, StoreError, not_found, conflict, alias_taken,
  client_ref_taken, invalid, cancelled, live, done,
}

-- the maps that the validation loop of CreateCodes fills
pub record Seen : Type 0 where
  pub ids : List Text
  pub codes : List Text
  pub refs : List RefKey

abbrev pub nothing_seen : Seen
nothing_seen = record { ids = []; codes = []; refs = [] }

abbrev pub ref_key : Code → RefKey
ref_key c = (c.user_id, c.client_ref)

-- one round of the validation loop
unfoldable pub check_row : MemStore → Seen → Code → Result StoreError Seen
check_row m seen c =
    let key = to_lower c.short_code in
    let ids = c.id ∷ seen.ids in
    let codes = key ∷ seen.codes in
    if is_empty c.id || is_empty c.short_code || is_empty c.user_id
    then err invalid
    else if has c.id m.codes || member c.id seen.ids
    then err conflict
    else if has key m.by_code || member key seen.codes
    then err alias_taken
    else if held key m
    then err alias_taken
    else if is_empty c.client_ref
    then ok (record { ids = ids; codes = codes; refs = seen.refs })
    else if has (ref_key c) m.by_ref || member (ref_key c) seen.refs
    then err client_ref_taken
    else ok (record { ids = ids; codes = codes; refs = ref_key c ∷ seen.refs })

unfoldable pub check_rows : MemStore → Seen → List Code → Option StoreError
check_rows m seen [] = none
check_rows m seen (c ∷ cs) = elim (check_row m seen c) [
  | err e ↦ some e
  | ok seen' ↦ check_rows m seen' cs
]

abbrev default_state : CodeState → CodeState
default_state state_unset = code_active
default_state s = s

abbrev default_mode : CodeMode → CodeMode
default_mode mode_unset = mode_dynamic
default_mode s = s

abbrev default_time : Time → Time → Time
default_time t d = if is_zero_time t then d else t

-- the row that is stored, with every default applied
unfoldable pub persisted : Time → (ℕ → ℕ) → Code → Code
persisted now rand c =
    let created = default_time c.created_at now in
    record c {
      short_code = to_lower c.short_code;
      created_at = created;
      updated_at = default_time c.updated_at created;
      state = default_state c.state;
      mode = default_mode c.mode;
      styling = record (c.styling) {
        id = if is_empty c.styling.id then new_id (bytes "sty") rand else c.styling.id;
      };
      version = 1;
      deleted_at = none;
    }

-- one round of the insertion loop
unfoldable pub store_row : Time → MemStore → Code → MemStore
store_row now m cp = record m {
  codes = insert cp.id cp m.codes;
  by_code = insert cp.short_code cp.id m.by_code;
  by_ref = if is_empty cp.client_ref then m.by_ref else insert (ref_key cp) cp.id m.by_ref;
  reservations =
      insert cp.short_code (record { code_id = cp.id; reserved_at = now; released_at = none })
        m.reservations;
}

-- `rand i` gives the random bytes for row i
unfoldable pub persist_rows : Time → (ℕ → ℕ → ℕ) → List Code → List Code
unfolding persisted
persist_rows now rand [] = []
persist_rows now rand (c ∷ cs) = persisted now (rand 0) c ∷ persist_rows now (λ i. rand (suc i)) cs

unfoldable pub store_rows : Time → MemStore → List Code → MemStore
unfolding store_row
store_rows now m [] = m
store_rows now m (cp ∷ cps) = store_rows now (store_row now m cp) cps

-- the caller's rows after the loop, which writes back all that it set but the deletion time
unfoldable pub reflect_rows : Time → (ℕ → ℕ → ℕ) → List Code → List Code
unfolding persisted
reflect_rows now rand [] = []
reflect_rows now rand (c ∷ cs) =
    record (persisted now (rand 0) c) { deleted_at = c.deleted_at }
    ∷ reflect_rows now (λ i. rand (suc i)) cs

-- CreateCodes; the result is the caller's rows
unfoldable pub create_codes : Ctx → Time → (ℕ → ℕ → ℕ) → List Code → Op (List Code)
unfolding check_rows persist_rows store_rows reflect_rows
create_codes done now rand cs m = (err cancelled, m)
create_codes live now rand cs m = elim (check_rows m nothing_seen cs) [
  | some e ↦ (err e, m)
  | none ↦ (ok (reflect_rows now rand cs), store_rows now m (persist_rows now rand cs))
]

abbrev first_row : Result StoreError (List Code) → Result StoreError Code
first_row (ok (c ∷ cs)) = ok c
first_row (ok []) = err invalid
first_row (err e) = err e

-- CreateCode: `m.CreateCodes(ctx, []*domain.Code{c})`
unfoldable pub create_code : Ctx → Time → (ℕ → ℕ) → Code → Op Code
unfolding create_codes
create_code ctx now rand c m =
    let (r, m') = create_codes ctx now (λ i. rand) (c ∷ []) m in (first_row r, m')

-- the row behind an id that an index holds
abbrev row : Text → Op Code
row id m = elim (lookup id m.codes) [ none ↦ (err not_found, m) | some c ↦ (ok c, m) ]

unfoldable pub get_code_by_client_ref : Ctx → Text → Text → Op Code
get_code_by_client_ref done user_id ref m = (err cancelled, m)
get_code_by_client_ref live user_id ref m = elim (lookup (user_id, ref) m.by_ref) [
  | none ↦ (err not_found, m)
  | some id ↦ if is_empty ref then (err not_found, m) else row id m
]

unfoldable pub get_code_by_short_code : Ctx → Text → Op Code
get_code_by_short_code done short_code m = (err cancelled, m)
get_code_by_short_code live short_code m = elim (lookup (to_lower short_code) m.by_code) [
  | none ↦ (err not_found, m)
  | some id ↦ row id m
]

-- owned: anything but a row of this user is `not_found`
unfoldable pub owned : MemStore → Text → Text → Option Code
owned m id user_id = elim (lookup id m.codes) [
  | none ↦ none
  | some c ↦ if c.user_id == user_id then some c else none
]

unfoldable pub get_code_by_id : Ctx → Text → Text → Op Code
get_code_by_id done id user_id m = (err cancelled, m)
get_code_by_id live id user_id m = elim (owned m id user_id) [
  | none ↦ (err not_found, m)
  | some c ↦ (ok c, m)
]
