-- ===== src/Store/Examples.antt =====
-- Runs of the in-memory store (internal/store/memstore) on small tables, and the theorems applied
-- to them.
use qurator.Common.{
  ◌≡◌, ◌≢◌, ◌↔◌, ◌⊎◌, refl, ℕ, true, false, some, List, [], ◌∷◌, bytes, lookup, insert, member,
  to_lower, text_beq, text_eq, ok, err, if◌then◌else◌, arith,
}
use qurator.Domain.{Code, code_active, code_disabled, is_deleted}
use qurator.Domain.Samples.{draft}
use qurator.Store.State.{
  MemStore, live, new_mem_store, has, held, not_found, conflict, alias_taken, ref_key_eq,
}
use qurator.Store.Codes.{
  create_codes, create_code, check_rows, check_row, persist_rows, persisted, store_rows, store_row,
  reflect_rows, get_code_by_id, owned,
}
use qurator.Store.Changes.{update_destination, set_code_state, delete_code, buried}
use qurator.Store.Aliases.{is_alias_available, release_alias}
use qurator.Store.Invariant.{Inv}
use qurator.Store.Atomic.{create_each, create_codes-create_each}
use qurator.Store.Calls.{
  Call, call_create, call_update, call_put, call_bury, apply, run, run-Inv, run-short_code_unique,
}
use qurator.Store.Evolution.{SameRow, Evolves, apply-Evolves, run-deleted, run-SameRow}
use qurator.Store.Concurrency.{update_destination-ok_iff, second_update_conflicts, not_owner}
use qurator.Store.Availability.{
  IsInsertable, is_alias_available-create_code, delete_code-reserved, release_alias_frees,
}

abbrev zeros : ℕ → ℕ → ℕ
zeros i j = 0

abbrev one : Code
one = draft (bytes "cod_1") (bytes "Menu")

abbrev two : Code
two = draft (bytes "cod_2") (bytes "shop")

-- a row is made, redirected and switched off
abbrev busy : List Call
busy =
    call_create live 10 zeros (one ∷ two ∷ [])
    ∷ call_update live 11 (bytes "cod_1") (bytes "ann") (bytes "https://b.example") 1
    ∷ call_put live 12 (bytes "cod_1") (bytes "ann") code_disabled
    ∷ []

-- both rows are made
abbrev made : List Call
made = call_create live 10 zeros (one ∷ two ∷ []) ∷ []

-- the first row is made and deleted
abbrev gone : List Call
gone = call_create live 10 zeros (one ∷ []) ∷ call_bury live 11 (bytes "cod_1") (bytes "ann") ∷ []

abbrev row_one : Code
row_one = persisted 10 (zeros 0) one

abbrev made_store : MemStore
made_store = run made new_mem_store

abbrev gone_store : MemStore
gone_store = run gone new_mem_store

made_one : lookup (bytes "cod_1") made_store.codes ≡ some row_one
unfolding run apply create_codes check_rows check_row persist_rows store_rows store_row has held
    lookup insert member text_beq to_lower persisted new_mem_store
made_one = refl

abbrev row_gone : Code
row_gone = buried 11 row_one

gone_one : lookup (bytes "cod_1") gone_store.codes ≡ some row_gone
unfolding run apply create_codes check_rows check_row persist_rows store_rows store_row has held
    lookup insert member text_beq delete_code owned new_mem_store
gone_one = refl

gone_deleted : is_deleted row_gone.state ≡ true
unfolding buried
gone_deleted = refl

gone_short_code : row_gone.short_code ≡ bytes "menu"
unfolding buried persisted to_lower
gone_short_code = refl

made_live : is_deleted row_one.state ≡ false
unfolding persisted
made_live = refl

made_owned : owned made_store (bytes "cod_1") (bytes "ann") ≡ some row_one
unfolding owned persisted text_beq lookup to_lower run apply create_codes check_rows check_row
    persist_rows store_rows store_row has new_mem_store member held insert
made_owned = refl

run-Inv_example : Inv (run busy new_mem_store)
run-Inv_example = run-Inv busy

run-short_code_unique_example : bytes "cod_1" ≡ bytes "cod_1"
run-short_code_unique_example =
    run-short_code_unique made (bytes "cod_1") (bytes "cod_1") row_one row_one made_one made_one
      made_live made_live refl

-- the second row's short code is taken, so neither row is made
create_codes-create_each_example :
    create_codes live 10 zeros
      (draft (bytes "cod_3") (bytes "new") ∷ draft (bytes "cod_4") (bytes "MENU") ∷ [])
      made_store
    ≡ elim (create_each 10 zeros
        (draft (bytes "cod_3") (bytes "new") ∷ draft (bytes "cod_4") (bytes "MENU") ∷ [])
        made_store) [
          | ok m ↦ (
            ok (
                reflect_rows 10 zeros (
                  draft (bytes "cod_3") (bytes "new") ∷ draft (bytes "cod_4") (bytes "MENU") ∷ [])),
            m,
          )
          | err e ↦ (err e, made_store)
        ]
create_codes-create_each_example =
    create_codes-create_each 10 zeros
      (draft (bytes "cod_3") (bytes "new") ∷ draft (bytes "cod_4") (bytes "MENU") ∷ []) made_store

apply-Evolves_example :
    (d : Code) × (lookup
        (bytes "cod_1")
        (apply (call_put live 12 (bytes "cod_1") (bytes "ann") code_disabled) made_store).codes
      ≡ some d)
    × Evolves row_one d
apply-Evolves_example =
    apply-Evolves (call_put live 12 (bytes "cod_1") (bytes "ann") code_disabled) made_store
      (bytes "cod_1") row_one made_one

run-deleted_example : lookup (bytes "cod_1") (run busy gone_store).codes ≡ some row_gone
run-deleted_example = run-deleted busy gone_store (bytes "cod_1") row_gone gone_one gone_deleted

run-SameRow_example :
    (d : Code) × (lookup (bytes "cod_1") (run busy made_store).codes ≡ some d) × SameRow row_one d
run-SameRow_example = run-SameRow busy made_store (bytes "cod_1") row_one made_one

update_destination-ok_iff_example :
    ((update_destination live 11
        (bytes "cod_1")
        (bytes "ann")
        (bytes "https://b.example")
        1
        made_store).0
      ≡ ok tt)
    ↔ ((c : Code) × (owned made_store (bytes "cod_1") (bytes "ann") ≡ some c)
        × (is_deleted c.state ≡ false)
        × (c.version ≡ 1))
update_destination-ok_iff_example =
    update_destination-ok_iff 11 (bytes "cod_1") (bytes "ann") (bytes "https://b.example") 1
      made_store

update_succeeds :
    (update_destination live 11
      (bytes "cod_1")
      (bytes "ann")
      (bytes "https://b.example")
      1
      made_store).0
    ≡ ok tt
unfolding persisted
update_succeeds =
    (update_destination-ok_iff 11 (bytes "cod_1") (bytes "ann") (bytes "https://b.example") 1
        made_store).1
      (row_one, made_owned, made_live, refl)

second_update_conflicts_example :
    update_destination live 12
      (bytes "cod_1")
      (bytes "ann")
      (bytes "https://c.example")
      1
      (update_destination live 11
        (bytes "cod_1")
        (bytes "ann")
        (bytes "https://b.example")
        1
        made_store).1
    ≡ (
      err conflict,
      (update_destination live 11
          (bytes "cod_1")
          (bytes "ann")
          (bytes "https://b.example")
          1
          made_store).1,
    )
second_update_conflicts_example =
    second_update_conflicts 11 12 (bytes "cod_1") (bytes "ann") (bytes "https://b.example")
      (bytes "https://c.example") 1 made_store update_succeeds

bob_owns_nothing :
    (c : Code) → lookup (bytes "cod_1") made_store.codes ≡ some c → c.user_id ≢ bytes "bob"
unfolding persisted
bob_owns_nothing c e n = ground (arith, made_one)

not_owner_example :
    (get_code_by_id live (bytes "cod_1") (bytes "bob") made_store ≡ (err not_found, made_store))
    × (update_destination live 11
          (bytes "cod_1")
          (bytes "bob")
          (bytes "https://b.example")
          1
          made_store
        ≡ (err not_found, made_store))
    × (set_code_state live 11 (bytes "cod_1") (bytes "bob") code_active made_store
        ≡ (err not_found, made_store))
    × (set_code_state live 11 (bytes "cod_1") (bytes "bob") code_disabled made_store
        ≡ (err not_found, made_store))
    × (delete_code live 11 (bytes "cod_1") (bytes "bob") made_store ≡ (err not_found, made_store))
not_owner_example =
    not_owner 11 (bytes "cod_1") (bytes "bob") (bytes "https://b.example") 1 made_store
      bob_owns_nothing

four_IsInsertable : IsInsertable made_store (draft (bytes "cod_4") (bytes "MENU"))
unfolding has run apply create_codes check_rows check_row persist_rows persisted store_rows
    store_row held lookup insert member text_beq to_lower new_mem_store
four_IsInsertable = record {
  has_id = refl;
  has_short_code = refl;
  has_user = refl;
  new_id = refl;
  no_ref = refl;
}

is_alias_available-create_code_example :
    ((is_alias_available live (bytes "MENU") made_store ≡ (ok true, made_store))
      × ((c : Code) × ((create_code live 12
              (zeros 0)
              (draft (bytes "cod_4") (bytes "MENU"))
              made_store).0
            ≡ ok c)))
    ⊎ ((is_alias_available live (bytes "MENU") made_store ≡ (ok false, made_store))
        × (create_code live 12 (zeros 0) (draft (bytes "cod_4") (bytes "MENU")) made_store
            ≡ (err alias_taken, made_store)))
is_alias_available-create_code_example =
    is_alias_available-create_code 12 (zeros 0) made_store (draft (bytes "cod_4") (bytes "MENU"))
      four_IsInsertable

delete_code-reserved_example :
    is_alias_available live
      (bytes "menu")
      (delete_code live 12 (bytes "cod_1") (bytes "ann") made_store).1
    ≡ (
      (is_alias_available live (bytes "menu") made_store).0,
      (delete_code live 12 (bytes "cod_1") (bytes "ann") made_store).1,
    )
delete_code-reserved_example =
    delete_code-reserved 12 (bytes "cod_1") (bytes "ann") made_store (bytes "menu")

gone_indexed : lookup row_gone.short_code gone_store.by_code ≡ some (bytes "cod_1")
unfolding run apply create_codes check_rows check_row persist_rows persisted store_rows store_row
    has delete_code owned buried held lookup insert member text_beq to_lower new_mem_store
gone_indexed = refl

release_alias_frees_example :
    ((release_alias live 12 row_gone.short_code gone_store).0
      ≡ (if is_deleted row_gone.state then ok tt else err conflict))
    × (is_alias_available live row_gone.short_code
          (release_alias live 12 row_gone.short_code gone_store).1
        ≡ (
          ok (is_deleted row_gone.state),
          (release_alias live 12 row_gone.short_code gone_store).1,
        ))
release_alias_frees_example =
    release_alias_frees 12 gone_store (bytes "cod_1") row_gone (run-Inv gone) gone_indexed gone_one
