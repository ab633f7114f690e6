-- ===== src/Codes/Batch/Writes.antt =====
-- The writes of CreateBatch by index, in the list of results.
use mathlib.Core.Path.{subst}
use mathlib.Core.List.{append-nil, append_assoc}
use qurator.Common.{
  ℕ, suc, ◌+◌, ◌≡◌, refl, ap, sym, ◌∙◌, List, [], ◌∷◌, ◌++◌, Text, length, length-append, replace,
  arith,
}
use qurator.Domain.{Code}
use qurator.Store.State.{MemStore, Ctx}
use qurator.Codes.Destination.{Service}
use qurator.Codes.Prepare.{CreateInput, CodesError}
use qurator.Codes.Batch.{
  Outcome, created, existing, failed, unset, BatchResult, Slot, settled, pending, rendered,
  SeenItems, plan_item, seen_alias, seen_ref, PendingItem, fresh_results, set_err, put_result,
  write_settled, write_slot, plan_loop, fail_inserts, write_created,
}
use qurator.Codes.Batch.Positions.{
  plan_items, settled_results, failed_results, created_results, numbered,
}

abbrev pub result : ℕ → Outcome → BatchResult
result i o = record { index = i; outcome = o }

-- a list with the results that stand before, and one more of them
pub shift :
    (pre : List BatchResult) (r : BatchResult) (rest : List BatchResult)
    → pre ++ (r ∷ rest) ≡ (pre ++ (r ∷ [])) ++ rest
shift [] r rest = refl
shift (x ∷ pre) r rest = ap (◌∷◌ x) (shift pre r rest)

set_err-at :
    (pre rest : List BatchResult) (x : CodesError) (r : BatchResult)
    → set_err (length pre) x (pre ++ (r ∷ rest)) ≡ pre ++ (result r.index (failed x) ∷ rest)
unfolding set_err
set_err-at [] rest x r = refl
set_err-at (y ∷ pre) rest x r = ap (◌∷◌ y) (set_err-at pre rest x r)

replace-at :
    (pre rest : List BatchResult) (y r : BatchResult)
    → replace (length pre) y (pre ++ (r ∷ rest)) ≡ pre ++ (y ∷ rest)
unfolding replace
replace-at [] rest y r = refl
replace-at (z ∷ pre) rest y r = ap (◌∷◌ z) (replace-at pre rest y r)

length-snoc :
    (pre : List BatchResult) (r : BatchResult) → length (pre ++ (r ∷ [])) ≡ suc (length pre)
length-snoc pre r = omega (arith, length-append pre (r ∷ []))

-- the entries of `pending` that slots have, from an index on
unfoldable pub pendings : ℕ → List Slot → List PendingItem
pendings i [] = []
pendings i (pending p ∷ slots) = record { idx = i; p = p } ∷ pendings (suc i) slots
pendings i (slot ∷ slots) = pendings (suc i) slots

-- the indices of the slots with a row
unfoldable pub rendered_idx : ℕ → List Slot → List ℕ
rendered_idx i [] = []
rendered_idx i (rendered c ∷ slots) = i ∷ rendered_idx (suc i) slots
rendered_idx i (slot ∷ slots) = rendered_idx (suc i) slots

-- a write of the result that stands behind the first ones
pub fails-at :
    (pre rest : List BatchResult) (i : ℕ) (x : CodesError) (u : Outcome)
    → length pre ≡ i
    → set_err i x (pre ++ (result i u ∷ rest)) ≡ (pre ++ (result i (failed x) ∷ [])) ++ rest
fails-at pre rest i x u e =
    subst (λ j. set_err j x (pre ++ (result i u ∷ rest)) ≡ pre ++ (result i (failed x) ∷ rest)) e
      (set_err-at pre rest x (result i u))
    ∙ shift pre (result i (failed x)) rest

puts-at :
    (pre rest : List BatchResult) (i : ℕ) (o u : Outcome)
    → length pre ≡ i
    → put_result i o (pre ++ (result i u ∷ rest)) ≡ (pre ++ (result i o ∷ [])) ++ rest
puts-at pre rest i o u e =
    subst (λ j. replace j (result i o) (pre ++ (result i u ∷ rest)) ≡ pre ++ (result i o ∷ rest)) e
      (replace-at pre rest (result i o) (result i u))
    ∙ shift pre (result i o) rest

settles-at :
    (pre rest : List BatchResult) (i : ℕ) (o u : Outcome)
    → length pre ≡ i
    → write_settled i o (pre ++ (result i u ∷ rest)) ≡ (pre ++ (result i o ∷ [])) ++ rest
unfolding write_settled
settles-at pre rest i (created c) u e = puts-at pre rest i (created c) u e
settles-at pre rest i (existing c) u e = puts-at pre rest i (existing c) u e
settles-at pre rest i (failed x) u e = fails-at pre rest i x u e
settles-at pre rest i unset u e = puts-at pre rest i unset u e

pub next :
    (pre : List BatchResult) (i : ℕ) (r : BatchResult)
    → length pre ≡ i
    → length (pre ++ (r ∷ [])) ≡ suc i
next pre i r e = length-snoc pre r ∙ ap suc e

abbrev Plan : Type 0
Plan = List BatchResult × List PendingItem

-- the first loop, for the first of some items and then, in `k`, for the rest
plan_step :
    (k : Plan → Plan) (i : ℕ) (slot : Slot) (slots : List Slot) (pre fresh : List BatchResult)
    (ps : List PendingItem)
    → length pre ≡ i
    → ((pre' : List BatchResult) (ps' : List PendingItem)
        → length pre' ≡ suc i
        → k (pre' ++ fresh, ps')
          ≡ (pre' ++ numbered (suc i) (settled_results slots), ps' ++ pendings (suc i) slots))
    → k (write_slot i slot (pre ++ (result i unset ∷ fresh), ps))
      ≡ (pre ++ numbered i (settled_results (slot ∷ slots)), ps ++ pendings i (slot ∷ slots))
unfolding write_slot settled_results numbered pendings
plan_step k i (settled o) slots pre fresh ps e h =
    ap (λ l. k (l, ps)) (settles-at pre fresh i o unset e)
    ∙ h (pre ++ (result i o ∷ [])) ps (next pre i (result i o) e)
    ∙ ap (λ l. (l, ps ++ pendings (suc i) slots))
        (sym (shift pre (result i o) (numbered (suc i) (settled_results slots))))
plan_step k i (pending p) slots pre fresh ps e h =
    let ps' = ps ++ (record { idx = i; p = p } ∷ []) in
    ap (λ l. k (l, ps')) (shift pre (result i unset) fresh)
    ∙ h (pre ++ (result i unset ∷ [])) ps' (next pre i (result i unset) e)
    ∙ ap (λ l. (l, ps' ++ pendings (suc i) slots))
        (sym (shift pre (result i unset) (numbered (suc i) (settled_results slots))))
    ∙ ap (λ l. (pre ++ (result i unset ∷ numbered (suc i) (settled_results slots)), l))
        (append_assoc ps (record { idx = i; p = p } ∷ []) (pendings (suc i) slots))
plan_step k i (rendered c) slots pre fresh ps e h =
    ap (λ l. k (l, ps)) (shift pre (result i unset) fresh)
    ∙ h (pre ++ (result i unset ∷ [])) ps (next pre i (result i unset) e)
    ∙ ap (λ l. (l, ps ++ pendings (suc i) slots))
        (sym (shift pre (result i unset) (numbered (suc i) (settled_results slots))))

pub plan_loop-slots :
    (s : Service) (ctx : ℕ → Ctx) (user : Text) (i : ℕ) (items : List CreateInput)
    (seen : SeenItems) (m : MemStore) (pre : List BatchResult) (ps : List PendingItem)
    → length pre ≡ i
    → plan_loop s ctx user i items seen m (pre ++ fresh_results i items, ps) ≡ (
      pre ++ numbered i (settled_results (plan_items s ctx user items seen m)),
      ps ++ pendings i (plan_items s ctx user items seen m),
    )
unfolding plan_loop plan_items fresh_results settled_results numbered pendings
plan_loop-slots s ctx user i [] seen m pre ps e = ap (λ l. (pre ++ [], l)) (sym (append-nil ps))
plan_loop-slots s ctx user i (item ∷ items) seen m pre ps e =
    let input = record item { user_id = user } in
    let slot = plan_item s (ctx 0) (ctx 1) user input seen m in
    let seen' : SeenItems = record {
      refs = seen_ref input seen.refs;
      aliases = seen_alias slot seen.aliases;
    } in
    plan_step (plan_loop s (λ j. ctx (j + 2)) user (suc i) items seen' m) i slot
      (plan_items s (λ j. ctx (j + 2)) user items seen' m) pre (fresh_results (suc i) items) ps e
      (λ pre' ps' e'. plan_loop-slots s (λ j. ctx (j + 2)) user (suc i) items seen' m pre' ps' e')

-- the last loops
pub fail_inserts-slots :
    (x : CodesError) (i : ℕ) (slots : List Slot) (pre : List BatchResult)
    → length pre ≡ i
    → fail_inserts x (rendered_idx i slots) (pre ++ numbered i (settled_results slots))
      ≡ pre ++ numbered i (failed_results x slots)
unfolding fail_inserts rendered_idx settled_results failed_results numbered
fail_inserts-slots x i [] pre e = refl
fail_inserts-slots x i (settled o ∷ slots) pre e =
    ap (fail_inserts x (rendered_idx (suc i) slots)) (shift pre (result i o) _)
    ∙ fail_inserts-slots x (suc i) slots (pre ++ (result i o ∷ [])) (next pre i (result i o) e)
    ∙ sym (shift pre (result i o) _)
fail_inserts-slots x i (pending p ∷ slots) pre e =
    ap (fail_inserts x (rendered_idx (suc i) slots)) (shift pre (result i unset) _)
    ∙ fail_inserts-slots x (suc i) slots (pre ++ (result i unset ∷ []))
        (next pre i (result i unset) e)
    ∙ sym (shift pre (result i unset) _)
fail_inserts-slots x i (rendered c ∷ slots) pre e =
    ap (fail_inserts x (rendered_idx (suc i) slots))
      (fails-at pre (numbered (suc i) (settled_results slots)) i x unset e)
    ∙ fail_inserts-slots x (suc i) slots (pre ++ (result i (failed x) ∷ []))
        (next pre i (result i (failed x)) e)
    ∙ sym (shift pre (result i (failed x)) _)

write_created-nil : (is : List ℕ) (rs : List BatchResult) → write_created is [] rs ≡ rs
unfolding write_created
write_created-nil [] rs = refl
write_created-nil (i ∷ is) rs = refl

created_results-nil : (slots : List Slot) → created_results [] slots ≡ settled_results slots
unfolding created_results settled_results
created_results-nil [] = refl
created_results-nil (settled o ∷ slots) = ap (◌∷◌ o) (created_results-nil slots)
created_results-nil (pending p ∷ slots) = ap (◌∷◌ unset) (created_results-nil slots)
created_results-nil (rendered c ∷ slots) = ap (◌∷◌ unset) (created_results-nil slots)

pub write_created-slots :
    (rows : List Code) (i : ℕ) (slots : List Slot) (pre : List BatchResult)
    → length pre ≡ i
    → write_created (rendered_idx i slots) rows (pre ++ numbered i (settled_results slots))
      ≡ pre ++ numbered i (created_results rows slots)
unfolding write_created rendered_idx settled_results created_results numbered
write_created-slots [] i slots pre e =
    write_created-nil (rendered_idx i slots) _
    ∙ ap (λ l. pre ++ numbered i l) (sym (created_results-nil slots))
write_created-slots (r ∷ rows) i [] pre e = refl
write_created-slots (r ∷ rows) i (settled o ∷ slots) pre e =
    ap (write_created (rendered_idx (suc i) slots) (r ∷ rows)) (shift pre (result i o) _)
    ∙ write_created-slots (r ∷ rows) (suc i) slots (pre ++ (result i o ∷ []))
        (next pre i (result i o) e)
    ∙ sym (shift pre (result i o) _)
write_created-slots (r ∷ rows) i (pending p ∷ slots) pre e =
    ap (write_created (rendered_idx (suc i) slots) (r ∷ rows)) (shift pre (result i unset) _)
    ∙ write_created-slots (r ∷ rows) (suc i) slots (pre ++ (result i unset ∷ []))
        (next pre i (result i unset) e)
    ∙ sym (shift pre (result i unset) _)
write_created-slots (r ∷ rows) i (rendered c ∷ slots) pre e =
    ap (write_created (rendered_idx (suc i) slots) rows)
      (puts-at pre (numbered (suc i) (settled_results slots)) i (created r) unset e)
    ∙ write_created-slots rows (suc i) slots (pre ++ (result i (created r) ∷ []))
        (next pre i (result i (created r)) e)
    ∙ sym (shift pre (result i (created r)) _)
