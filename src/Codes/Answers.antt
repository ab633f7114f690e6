-- ===== src/Codes/Answers.antt =====
-- How a write to the tables changes what they say of a short code, and how the cache follows.
use qurator.Common.{
  ◌≡◌, ◌≢◌, refl, inl, inr, false, some, Text, lookup, insert, lookup-insert, text_eq, text_beq_iff,
  Option-cases, arith,
}
use qurator.Domain.{Time, Code}
use qurator.Store.State.{MemStore, has}
use qurator.Store.Codes.{store_row}
use qurator.Store.Invariant.{Inv}
use qurator.Codes.Resolve.{answer}

-- a write to the row of one id
pub answer-put :
    {m : MemStore} (h : Inv m) (id k : Text) (c c' : Code)
    → lookup id m.codes ≡ some c
    → c.short_code ≢ k
    → answer (record m { codes = insert id c' m.codes }) k ≡ answer m k
unfolding answer
answer-put {m} h id k c c' at ne = elim (Option-cases (lookup k m.by_code)) [
  | inl n ↦ rw (n, answer) refl
  | inr (j, p) ↦
      let (d, q, s) = h.indexed k j p in
      ground (arith, lookup-insert j id c' m.codes, text_beq_iff id j, text_beq_iff c.short_code k)
]

-- the insertion of a row with a new id
pub answer-store_row :
    {m : MemStore} (h : Inv m) (now : Time) (c : Code) (k : Text)
    → has c.id m.codes ≡ false
    → c.short_code ≢ k
    → answer (store_row now m c) k ≡ answer m k
unfolding answer store_row has
answer-store_row {m} h now c k fresh ne = elim (Option-cases (lookup k m.by_code)) [
  | inl n ↦ ground (arith, lookup-insert k c.short_code c.id m.by_code, text_beq_iff c.short_code k)
  | inr (j, p) ↦
      let (d, q, s) = h.indexed k j p in
      ground (
        arith,
        lookup-insert k c.short_code c.id m.by_code,
        lookup-insert j c.id c m.codes,
        text_beq_iff c.id j,
        text_beq_iff c.short_code k,
      )
]
