-- ===== src/Store/Calls.antt =====
-- Any sequence of calls on the tables of codes, with any arguments, from any callers: each call
-- holds the mutex, so an interleaving of clients is a list of calls.
use qurator.Common.{◌≡◌, ℕ, false, some, List, [], ◌∷◌, Text, lookup, text_eq}
use qurator.Domain.{Time, Code, CodeState, is_deleted}
use qurator.Store.State.{MemStore, Ctx, new_mem_store}
use qurator.Store.Codes.{create_codes}
use qurator.Store.Changes.{update_destination, set_code_state, delete_code}
use qurator.Store.Aliases.{release_alias}
use qurator.Store.Invariant.{Inv}
use qurator.Store.Invariant.Methods.{update_destination-Inv, set_code_state-Inv, delete_code-Inv}
use qurator.Store.Invariant.Release.{release_alias-Inv}
use qurator.Store.Invariant.Batch.{create_codes-Inv, Inv-new_mem_store}

pub data Call : Type 0 where
  call_create : Ctx → Time → (ℕ → ℕ → ℕ) → List Code → Call
  call_update : Ctx → Time → Text → Text → Text → ℕ → Call
  call_put : Ctx → Time → Text → Text → CodeState → Call
  call_bury : Ctx → Time → Text → Text → Call
  call_release : Ctx → Time → Text → Call

-- the store after a call; what it returns is dropped
unfoldable pub apply : Call → MemStore → MemStore
apply (call_create ctx now rand cs) m = (create_codes ctx now rand cs m).1
apply (call_update ctx now id u dest v) m = (update_destination ctx now id u dest v m).1
apply (call_put ctx now id u s) m = (set_code_state ctx now id u s m).1
apply (call_bury ctx now id u) m = (delete_code ctx now id u m).1
apply (call_release ctx now k) m = (release_alias ctx now k m).1

unfoldable pub run : List Call → MemStore → MemStore
run [] m = m
run (c ∷ cs) m = run cs (apply c m)

pub apply-Inv : (c : Call) {m : MemStore} → Inv m → Inv (apply c m)
unfolding apply
apply-Inv (call_create ctx now rand cs) h = create_codes-Inv h ctx now rand cs
apply-Inv (call_update ctx now id u dest v) h = update_destination-Inv h now id u ctx dest v
apply-Inv (call_put ctx now id u s) h = set_code_state-Inv h now id u ctx s
apply-Inv (call_bury ctx now id u) h = delete_code-Inv h now id u ctx
apply-Inv (call_release ctx now k) h = release_alias-Inv h now k ctx

run-Inv_from : (cs : List Call) {m : MemStore} → Inv m → Inv (run cs m)
unfolding run
run-Inv_from [] h = h
run-Inv_from (c ∷ cs) h = run-Inv_from cs (apply-Inv c h)

-- After any calls on a new store, failed ones included, the indexes of short codes and client
-- references and the reservations agree with the rows.
pub run-Inv : (cs : List Call) → Inv (run cs new_mem_store)
run-Inv cs = run-Inv_from cs Inv-new_mem_store

-- After any calls on a new store, two rows that are not deleted and have one short code are one row.
pub run-short_code_unique :
    (cs : List Call) (i j : Text) (c d : Code)
    → lookup i (run cs new_mem_store).codes ≡ some c
    → lookup j (run cs new_mem_store).codes ≡ some d
    → is_deleted c.state ≡ false
    → is_deleted d.state ≡ false
    → c.short_code ≡ d.short_code
    → i ≡ j
run-short_code_unique cs i j c d p q l k e =
    let h = run-Inv cs in cc (h.live_indexed i c p l, h.live_indexed j d q k, e)
