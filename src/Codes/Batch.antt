-- ===== src/Codes/Batch.antt =====
-- service.go: CreateBatch, which keeps a list of results and writes them by index. Its goroutines
-- render different items under different keys, and each writes its own results only, so they are
-- modelled one after the other; what an item gets from outside goes by its index. An error detail that holds
-- the `reason` of a failure is the constructor of the error.
pub mod Positions
pub mod Writes
pub mod Indices
pub mod Slots
pub mod Atomic
pub mod Soundness
pub mod Fitting
pub mod Answers
mod Examples
use qurator.Common.{
  ℕ, zero, suc, ◌+◌, ◌*◌, Bool, true, false, not, ◌&&◌, ◌||◌, Option, none, some, List, [], ◌∷◌,
  ◌++◌, map, Text, Dict, Result, ok, err, length, replace, ltb, is_empty, trim_space, member, ◌==◌,
  text_eq, nat_eq, if◌then◌else◌,
}
use qurator.Domain.{Time, Code, CodeMode, mode_unset, mode_dynamic, mode_beq}
use qurator.Domain.Ids.{new_code_id}
use qurator.Store.State.{MemStore, Ctx, StoreError, not_found, alias_taken, client_ref_taken}
use qurator.Store.Codes.{create_codes, get_code_by_client_ref}
use qurator.Store.Aliases.{is_alias_available}
use qurator.Codes.Destination.{Service}
use qurator.Codes.Prepare.{
  CreateInput, Prepared, prepare, max_client_ref_len, CodesError, from_store, user_required,
  client_ref_duplicate, client_ref_conflict, alias_in_use, lost_race,
}
use qurator.Codes.World.{Env, World, Blob, invalidate, remove_blobs, materialise, blob_keys_of}
use qurator.Codes.Create.{Chance, chosen}

-- The status of a BatchResult, with what belongs to it. Every result begins as an error with no Err,
-- `unset`.
pub data Outcome : Type 0 where
  created existing : Code → Outcome
  failed : CodesError → Outcome
  unset : Outcome

pub record BatchResult : Type 0 where
  pub index : ℕ
  pub outcome : Outcome

-- An item between the phases: its result stands, or it waits to be rendered; Positions also has those
-- that wait to be inserted.
pub data Slot : Type 0 where
  settled : Outcome → Slot
  pending : Prepared → Slot
  rendered : Code → Slot

-- modeOf
abbrev pub mode_of : CodeMode → CodeMode
mode_of mode_unset = mode_dynamic
mode_of m = m

-- seenRef and seenAlias
pub record SeenItems : Type 0 where
  pub refs : List Text
  pub aliases : List Text

-- is the client_ref looked at in the first phase?
abbrev pub uses_ref : CreateInput → Bool
uses_ref input =
    not (is_empty input.client_ref) && not (ltb max_client_ref_len (length input.client_ref))

-- what the store knows of a client_ref: none where the item goes on
unfoldable pub known_ref : CreateInput → Result StoreError Code → Option Outcome
known_ref input (ok c) =
    if c.destination == trim_space input.destination
      && mode_beq (mode_of c.mode) (mode_of input.mode)
    then some (existing c)
    else some (failed (client_ref_conflict input.client_ref c.id))
known_ref input (err not_found) = none
known_ref input (err x) = some (failed (from_store x))

-- Phase 1, the client_ref of an item.
unfoldable pub resolve_ref : Ctx → Text → CreateInput → List Text → MemStore → Option Outcome
unfolding known_ref
resolve_ref ctx user input refs m =
    if not (uses_ref input)
    then none
    else if member input.client_ref refs
    then some (failed (client_ref_duplicate input.client_ref))
    else known_ref input (get_code_by_client_ref ctx user input.client_ref m).0

-- Phase 2, the alias of a prepared item.
unfoldable pub check_batch_alias : Ctx → Prepared → List Text → MemStore → Slot
check_batch_alias ctx p aliases m =
    if not p.is_alias
    then pending p
    else if member p.short_code aliases
    then settled (failed (alias_in_use p.short_code))
    else elim (is_alias_available ctx p.short_code m).0 [
      | err x ↦ settled (failed (from_store x))
      | ok true ↦ pending p
      | ok false ↦ settled (failed (alias_in_use p.short_code))
    ]

-- Phases 1 and 2 of an item; the two contexts are those of its two reads
unfoldable pub plan_item : Service → Ctx → Ctx → Text → CreateInput → SeenItems → MemStore → Slot
unfolding resolve_ref check_batch_alias
plan_item s ctx ctx' user input seen m = elim (resolve_ref ctx user input seen.refs m) [
  | some o ↦ settled o
  | none ↦ elim (prepare s input) [
    | err x ↦ settled (failed x)
    | ok p ↦ check_batch_alias ctx' p seen.aliases m
  ]
]

abbrev pub seen_alias : Slot → List Text → List Text
seen_alias (pending p) aliases = if p.is_alias then p.short_code ∷ aliases else aliases
seen_alias s aliases = aliases

abbrev pub seen_ref : CreateInput → List Text → List Text
seen_ref input refs = if uses_ref input then input.client_ref ∷ refs else refs

-- pendingItem
pub record PendingItem : Type 0 where
  pub idx : ℕ
  pub p : Prepared

-- the results at the start, from an index on
unfoldable pub fresh_results : ℕ → List CreateInput → List BatchResult
fresh_results i [] = []
fresh_results i (item ∷ items) = record { index = i; outcome = unset } ∷ fresh_results (suc i) items

-- results[i].Err = x
unfoldable pub set_err : ℕ → CodesError → List BatchResult → List BatchResult
set_err i x [] = []
set_err zero x (r ∷ rs) = record r { outcome = failed x } ∷ rs
set_err (suc i) x (r ∷ rs) = r ∷ set_err i x rs

-- results[i] = BatchResult{Index: i, ...}
abbrev pub put_result : ℕ → Outcome → List BatchResult → List BatchResult
put_result i o = replace i (record { index = i; outcome = o })

unfoldable pub write_settled : ℕ → Outcome → List BatchResult → List BatchResult
unfolding set_err
write_settled i (failed x) rs = set_err i x rs
write_settled i o rs = put_result i o rs

-- what an item leaves behind in the first loop: its result, or an entry of `pending`
unfoldable pub write_slot :
    ℕ → Slot → List BatchResult × List PendingItem → List BatchResult × List PendingItem
unfolding write_settled
write_slot i (settled o) (rs, ps) = (write_settled i o rs, ps)
write_slot i (pending p) (rs, ps) = (rs, ps ++ (record { idx = i; p = p } ∷ []))
write_slot i slot (rs, ps) = (rs, ps)

-- The loop over the items, which writes the user into each.
unfoldable pub plan_loop :
    Service
    → (ℕ → Ctx)
    → Text
    → ℕ
    → List CreateInput
    → SeenItems
    → MemStore
    → List BatchResult × List PendingItem
    → List BatchResult × List PendingItem
unfolding plan_item write_slot
plan_loop s ctx user i [] seen m st = st
plan_loop s ctx user i (item ∷ items) seen m st =
    let input = record item { user_id = user } in
    let slot = plan_item s (ctx 0) (ctx 1) user input seen m in
    plan_loop s (λ j. ctx (j + 2)) user (suc i) items
      (record { refs = seen_ref input seen.refs; aliases = seen_alias slot seen.aliases }) m
      (write_slot i slot st)

module _ {C : Type 0} (e : Env C) where
  -- what the loop after the failed insertion removes
  unfoldable pub remove_all : List Code → Dict Text Blob → Dict Text Blob
  remove_all [] b = b
  remove_all (c ∷ cs) b = remove_all cs (remove_blobs e (blob_keys_of c) b)

  unfoldable pub invalidate_all : List Code → World C → World C
  invalidate_all [] w = w
  invalidate_all (c ∷ cs) w = invalidate_all cs (invalidate e c.short_code w)

  -- Phase 3: rendered, the results and the blobs.
  unfoldable pub render_pending :
      Service
      → Text
      → (ℕ → Chance)
      → List PendingItem
      → List BatchResult
      → Dict Text Blob
      → List (Option Code) × List BatchResult × Dict Text Blob
  unfolding set_err
  render_pending s user dice [] rs b = ([], rs, b)
  render_pending s user dice (pe ∷ pes) rs b =
      let d = dice pe.idx in
      let (r, b') = materialise e s d.at user (new_code_id d.id_bytes) (chosen pe.p d) pe.p b in
      elim r [
        | err x ↦
            let (cs, rs', b'') = render_pending s user dice pes (set_err pe.idx x rs) b' in
            (none ∷ cs, rs', b'')
        | ok c ↦
            let (cs, rs', b'') = render_pending s user dice pes rs b' in (some c ∷ cs, rs', b'')
      ]

-- toInsert
unfoldable pub codes_to_insert : List (Option Code) → List Code
codes_to_insert [] = []
codes_to_insert (none ∷ cs) = codes_to_insert cs
codes_to_insert (some c ∷ cs) = c ∷ codes_to_insert cs

-- insertIdx
unfoldable pub insert_idx : List PendingItem → List (Option Code) → List ℕ
insert_idx (pe ∷ pes) (none ∷ cs) = insert_idx pes cs
insert_idx (pe ∷ pes) (some c ∷ cs) = pe.idx ∷ insert_idx pes cs
insert_idx _ _ = []

-- the loops that end the last phase, where the insertion failed and where it gave the rows as they
-- are stored
unfoldable pub fail_inserts : CodesError → List ℕ → List BatchResult → List BatchResult
unfolding set_err
fail_inserts x [] rs = rs
fail_inserts x (i ∷ is) rs = fail_inserts x is (set_err i x rs)

unfoldable pub write_created : List ℕ → List Code → List BatchResult → List BatchResult
write_created (i ∷ is) (c ∷ cs) rs = write_created is cs (put_result i (created c) rs)
write_created _ _ rs = rs

unfoldable pub insert_error : StoreError → CodesError
insert_error alias_taken = lost_race alias_taken
insert_error client_ref_taken = lost_race client_ref_taken
insert_error x = from_store x

-- what the last phase gets from outside
pub record Insertion : Type 0 where
  pub ctx : Ctx
  pub at : Time
  pub styling_bytes : ℕ → ℕ → ℕ

module _ {C : Type 0} (e : Env C) where
  -- Phase 4. With nothing to insert, CreateBatch returns before.
  unfoldable pub insert_batch :
      Insertion → List ℕ → List Code → List BatchResult → World C → List BatchResult × World C
  unfolding fail_inserts write_created insert_error
  insert_batch ins idx [] rs w = (rs, w)
  insert_batch ins idx (c ∷ cs) rs w =
      let (r, m) = create_codes ins.ctx ins.at ins.styling_bytes (c ∷ cs) w.store in
      elim r [
        | err x ↦ (
          fail_inserts (insert_error x) idx rs,
          record w { store = m; blobs = remove_all e (c ∷ cs) w.blobs },
        )
        | ok rows ↦ (write_created idx rows rs, invalidate_all e rows (record w { store = m }))
      ]

  -- CreateBatch
  unfoldable pub create_batch :
      Service
      → (ℕ → Ctx)
      → (ℕ → Chance)
      → Insertion
      → Text
      → List CreateInput
      → World C
      → List BatchResult × World C
  unfolding fresh_results plan_loop render_pending codes_to_insert insert_idx insert_batch
  create_batch s ctx dice ins user items w =
      if is_empty user
      then (
        map (λ (r : BatchResult). record r { outcome = failed user_required })
            (fresh_results 0 items),
        w,
      )
      else let (rs, ps) =
          plan_loop s ctx user 0 items (record { refs = []; aliases = [] }) w.store
            (fresh_results 0 items, []) in
        let (cs, rs', b) = render_pending e s user dice ps rs w.blobs in
        insert_batch ins (insert_idx ps cs) (codes_to_insert cs) rs' (record w { blobs = b })
