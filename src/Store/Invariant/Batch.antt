-- ===== src/Store/Invariant/Batch.antt =====
-- CreateCodes keeps the invariant. The validation loop reads the store as it was and the maps that
-- it fills; `Agrees` says that these answer like the store with the rows inserted so far.
use qurator.Common.{
  ◌≡◌, inl, inr, ℕ, suc, ◌||◌, none, List, [], ◌∷◌, Text, lookup, lookup-insert, member, to_lower,
  ok, text_eq, Option-cases, Result-cases, to_lower_idem, ◌==◌, arith,
}
use qurator.Domain.{Time, Code}
use qurator.Store.State.{MemStore, has, held, RefKey, ref_key_eq, Ctx, live, done, new_mem_store}
use qurator.Store.Codes.{
  Seen, nothing_seen, ref_key, check_row, check_rows, persisted, store_row, persist_rows,
  store_rows, create_codes,
}
use qurator.Store.Invariant.Defs.{Inv}
use qurator.Store.Invariant.Create.{has-insert, Fresh, store_row-Inv}

pub record Agrees (m₀ m : MemStore) (s : Seen) : Type 0 where
  pub ids : (k : Text) → has k m.codes ≡ (has k m₀.codes || member k s.ids)
  pub codes : (k : Text) → has k m.by_code ≡ (has k m₀.by_code || member k s.codes)
  pub refs : (k : RefKey) → has k m.by_ref ≡ (has k m₀.by_ref || member k s.refs)
  pub holds : (k : Text) → held k m ≡ (held k m₀ || member k s.codes)

held-store_row :
    (now : Time) (m : MemStore) (c : Code) (k : Text)
    → held k (store_row now m c) ≡ ((c.short_code == k) || held k m)
unfolding store_row held
held-store_row now m c k = ground (
  arith,
  lookup-insert k c.short_code (record { code_id = c.id; reserved_at = now; released_at = none })
      m.reservations,
)

module _ (now : Time) (rand : ℕ → ℕ) {m₀ m : MemStore} {s s' : Seen} (a : Agrees m₀ m s) (c : Code)
    (passed : check_row m₀ s c ≡ ok s') where
  pub check_row-Fresh : Fresh m (persisted now rand c)
  unfolding check_row persisted
  check_row-Fresh = record {
    id = ground (arith, a.ids c.id);
    short_code = ground (arith, a.codes (to_lower c.short_code));
    not_held = ground (arith, a.codes (to_lower c.short_code), a.holds (to_lower c.short_code));
    ref = λ n. ground (arith, a.refs (ref_key c));
    lower = to_lower_idem c.short_code;
  }

  pub check_row-Agrees : Agrees m₀ (store_row now m (persisted now rand c)) s'
  check_row-Agrees = record {
    ids = λ k.
        unfold check_row persisted store_row member in
        ground (arith, a.ids k, has-insert k c.id (persisted now rand c) m.codes);
    codes = λ k.
        unfold check_row persisted store_row member in
        ground (arith, a.codes k, has-insert k (to_lower c.short_code) c.id m.by_code);
    refs = λ k.
        unfold check_row persisted store_row member in
        ground (arith, a.refs k, has-insert k (ref_key c) c.id m.by_ref);
    holds = λ k.
        unfold check_row persisted member in
        ground (arith, a.holds k, held-store_row now m (persisted now rand c) k);
  }

pub check_rows_step :
    (m₀ : MemStore) (s : Seen) (c : Code) (cs : List Code)
    → check_rows m₀ s (c ∷ cs) ≡ none
    → (s' : Seen) × (check_row m₀ s c ≡ ok s') × (check_rows m₀ s' cs ≡ none)
unfolding check_rows
check_rows_step m₀ s c cs e = elim (Result-cases (check_row m₀ s c)) [
  | inl (x, p) ↦ absurd (ground arith)
  | inr (s', p) ↦ (s', p, ground arith)
]

check_rows-Inv :
    (now : Time) (rand : ℕ → ℕ → ℕ) (m₀ m : MemStore) (s : Seen) (cs : List Code)
    → Agrees m₀ m s
    → Inv m
    → check_rows m₀ s cs ≡ none
    → Inv (store_rows now m (persist_rows now rand cs))
unfolding store_rows persist_rows
check_rows-Inv now rand m₀ m s [] a h e = h
check_rows-Inv now rand m₀ m s (c ∷ cs) a h e =
    let (s', p, e') = check_rows_step m₀ s c cs e in
    check_rows-Inv now (λ i. rand (suc i)) m₀ (store_row now m (persisted now (rand 0) c)) s' cs
      (check_row-Agrees now (rand 0) a c p)
      (store_row-Inv h now (persisted now (rand 0) c) (check_row-Fresh now (rand 0) a c p)) e'

pub Agrees-nothing_seen : (m : MemStore) → Agrees m m nothing_seen
unfolding member
Agrees-nothing_seen m = record {
  ids = λ k. ground arith;
  codes = λ k. ground arith;
  refs = λ k. ground arith;
  holds = λ k. ground arith;
}

pub create_codes-Inv :
    {m : MemStore} (h : Inv m) (ctx : Ctx) (now : Time) (rand : ℕ → ℕ → ℕ) (cs : List Code)
    → Inv (create_codes ctx now rand cs m).1
unfolding create_codes
create_codes-Inv h done now rand cs = h
create_codes-Inv {m} h live now rand cs = elim (Option-cases (check_rows m nothing_seen cs)) [
  | inl n ↦
      rw (n, create_codes) (check_rows-Inv now rand m m nothing_seen cs (Agrees-nothing_seen m) h n)
  | inr (e, p) ↦ rw (p, create_codes) h
]

-- The tables of a new store agree.
pub Inv-new_mem_store : Inv new_mem_store
unfolding new_mem_store
Inv-new_mem_store = record {
  code_id = λ j d e. unfold lookup in cc e;
  code_lower = λ j d e. unfold lookup in cc e;
  indexed = λ k j e. absurd (unfold lookup in cc e);
  live_indexed = λ j d e l. unfold lookup in cc e;
  index_held = λ k j e. absurd (unfold lookup in cc e);
  held_indexed = λ k r e n. unfold lookup in cc e;
  ref_indexed = λ j d e l. unfold lookup in cc e;
  ref_at = λ k j e. absurd (unfold lookup in cc e);
}
