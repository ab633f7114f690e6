-- ===== src/Store/Walkers.antt =====
-- memstore.go, the ForEach walkers: a snapshot of a table, sorted by key, is handed to a callback row
-- by row. What the callback works on is a state of its own, which may hold the store too.
mod Examples
pub mod Visits
use qurator.Common.{
  ℕ, suc, ◌≡◌, Bool, not, List, [], ◌∷◌, Text, Dict, values, map, Result, ok, err, sort_by,
  text_ltb, ltb, ◌==◌, text_eq, nat_eq, if◌then◌else◌,
}
use qurator.Domain.{
  User, Code, RollupDelta, AliasReservation, Dimension, dim_ua_family, dim_device_category,
  dim_referrer_host, dim_is_bot, dim_eq,
}
use qurator.Store.State.{MemStore, Ctx, live, done, RollupKey, Reservation}
use qurator.Analytics.Rollup.{to_delta, rollup_less}

pub data WalkError (E : Type 0) : Type 0 where
  ended : WalkError E
  failed : E → WalkError E

abbrev pub Callback : Type 0 → Type 0 → Type 0 → Type 0
Callback A S E = A → S → Result E (Unit {0}) × S

module _ {A S E : Type 0} where
  -- the loop over the snapshot; `ctx i` is what its i-th look at the context finds
  unfoldable pub for_rows :
      (ℕ → Ctx) → Callback A S E → List A → S → Result (WalkError E) (Unit {0}) × S
  for_rows ctx fn [] s = (ok tt, s)
  for_rows ctx fn (row ∷ rows) s = elim (ctx 0) [
    | done ↦ (err ended, s)
    | live ↦
        let (r, s') = fn row s in
        elim r [ err e ↦ (err (failed e), s') | ok _ ↦ for_rows (λ i. ctx (suc i)) fn rows s' ]
  ]

  unfoldable pub walk_table :
      (ℕ → Ctx) → Callback A S E → List A → S → Result (WalkError E) (Unit {0}) × S
  unfolding for_rows
  walk_table ctx fn rows s = elim (ctx 0) [
    | done ↦ (err ended, s)
    | live ↦ for_rows (λ i. ctx (suc i)) fn rows s
  ]

-- the rows by their first key
unfoldable pub user_before : User → User → Bool
user_before a b = text_ltb a.id b.id

unfoldable pub code_before : Code → Code → Bool
code_before a b = text_ltb a.id b.id

unfoldable pub reservation_before : AliasReservation → AliasReservation → Bool
reservation_before a b = text_ltb a.short_code b.short_code

-- an entry of the table of reservations, with its key
abbrev pub to_reservation : Text × Reservation → AliasReservation
to_reservation (short_code, r) = record {
  short_code = short_code;
  code_id = r.code_id;
  reserved_at = r.reserved_at;
  released_at = r.released_at;
}

module _ {S E : Type 0} where
  -- ForEachUser
  unfoldable pub for_each_user :
      (ℕ → Ctx) → Callback User S E → MemStore → S → Result (WalkError E) (Unit {0}) × S
  unfolding walk_table
  for_each_user ctx fn m s = walk_table ctx fn (sort_by user_before (values m.users)) s

  -- ForEachCode
  unfoldable pub for_each_code :
      (ℕ → Ctx) → Callback Code S E → MemStore → S → Result (WalkError E) (Unit {0}) × S
  unfolding walk_table
  for_each_code ctx fn m s = walk_table ctx fn (sort_by code_before (values m.codes)) s

  -- ForEachRollup, which sorts as BuildRollups does
  unfoldable pub for_each_rollup :
      (ℕ → Ctx) → Callback RollupDelta S E → MemStore → S → Result (WalkError E) (Unit {0}) × S
  unfolding walk_table
  for_each_rollup ctx fn m s = walk_table ctx fn (sort_by rollup_less (map to_delta m.rollups)) s

  -- ForEachReservation
  unfoldable pub for_each_reservation :
      (ℕ → Ctx) → Callback AliasReservation S E → MemStore → S → Result (WalkError E) (Unit {0}) × S
  unfolding walk_table
  for_each_reservation ctx fn m s =
      walk_table ctx fn (sort_by reservation_before (map to_reservation m.reservations)) s
