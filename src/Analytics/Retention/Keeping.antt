-- ===== src/Analytics/Retention/Keeping.antt =====
-- What a pruning keeps: the counts, and the events inside of the window.
use qurator.Common.{
  ◌≡◌, refl, inl, inr, ℕ, zero, suc, ◌+◌, ◌≤◌, true, false, List, [], ◌∷◌, take, any, In, here,
  there, of_sort_by, of_filter, any→in, Bool-cases, ◌==◌, nat_eq, arith,
}
use qurator.Domain.{Time, AnalyticsQuery}
use qurator.Store.State.{MemStore, ScanRow, Ctx, live, done}
use qurator.Store.Scans.{indexed, older_row, victims, keep_rows, prune_scan_events, query_analytics}
use qurator.Analytics.Retention.Counting.{is_old}

of_take : {A : Type 0} {a : A} (n : ℕ) (xs : List A) → In a (take n xs) → In a xs
of_take zero xs p = elim p [ ]
of_take (suc n) [] p = elim p [ ]
of_take (suc n) (x ∷ xs) here = here
of_take (suc n) (x ∷ xs) (there i) = there (of_take n xs i)

In-indexed-le : (v : ℕ × ScanRow) (i : ℕ) (rows : List ScanRow) → In v (indexed i rows) → i ≤ v.0
unfolding indexed
In-indexed-le v i [] p = elim p [ ]
In-indexed-le v i (r ∷ rows) here = omega arith
In-indexed-le v i (r ∷ rows) (there p) = omega (arith, In-indexed-le v (i + 1) rows p)

-- dropped indexes are those of old rows
abbrev Drops : Time → List (ℕ × ScanRow) → ℕ → List ScanRow → Type 0
Drops before drop i rows =
    (v : ℕ × ScanRow) → In v drop → i ≤ v.0 → In v (indexed i rows) × (is_old before v.1 ≡ true)

head_old :
    (before : Time) (v : ℕ × ScanRow) (i : ℕ) (r : ScanRow) (rows : List ScanRow)
    → In v (indexed i (r ∷ rows))
    → is_old before v.1 ≡ true
    → v.0 ≡ i
    → is_old before r ≡ true
unfolding indexed
head_old before v i r rows here o e = o
head_old before v i r rows (there p) o e = absurd (omega (arith, In-indexed-le v (i + 1) rows p))

In-further :
    (v : ℕ × ScanRow) (i : ℕ) (r : ScanRow) (rows : List ScanRow)
    → In v (indexed i (r ∷ rows))
    → i + 1 ≤ v.0
    → In v (indexed (i + 1) rows)
unfolding indexed
In-further v i r rows here l = absurd (omega arith)
In-further v i r rows (there p) l = p

tail_Drops :
    (before : Time) (drop : List (ℕ × ScanRow)) (i : ℕ) (r : ScanRow) (rows : List ScanRow)
    → Drops before drop i (r ∷ rows)
    → Drops before drop (i + 1) rows
tail_Drops before drop i r rows h v p l =
    let (q, o) = h v p (omega arith) in (In-further v i r rows q l, o)

keep_rows-keeps :
    (before : Time) (drop : List (ℕ × ScanRow)) (i : ℕ) (rows : List ScanRow)
    → Drops before drop i rows
    → (r : ScanRow) → In r rows
    → is_old before r ≡ false
    → In r (keep_rows drop i rows)
unfolding keep_rows
keep_rows-keeps before drop i [] h r p f = elim p [ ]
keep_rows-keeps before drop i (x ∷ rows) h r here f = elim (Bool-cases (any (λ v. v.0 == i) drop)) [
  | inr n ↦ rw (n, keep_rows) here
  | inl t ↦
      let (v, p, e) = any→in (λ (u : ℕ × ScanRow). u.0 == i) drop t in
      let (q, o) = h v p (ground arith) in
      absurd (ground (arith, head_old before v i x rows q o (ground arith)))
]
keep_rows-keeps before drop i (x ∷ rows) h r (there p) f =
    let kept = keep_rows-keeps before drop (i + 1) rows (tail_Drops before drop i x rows h) r p f in
    elim (Bool-cases (any (λ v. v.0 == i) drop)) [
      | inr n ↦ rw (n, keep_rows) (there kept)
      | inl t ↦ rw (t, keep_rows) kept
    ]

victims-Drops :
    (before : Time) (limit : ℕ) (rows : List ScanRow)
    → Drops before (victims before limit rows) 0 rows
unfolding victims
victims-Drops before limit rows v p l =
    of_filter (λ (u : ℕ × ScanRow). is_old before u.1) (indexed 0 rows)
      (of_sort_by older_row _ (of_take limit _ p))

-- PruneScanEvents changes no answer of QueryAnalytics, and keeps each event that is not older than the
-- time it is given, whatever its limit and whether or not its context has ended.
pub prune_scan_events-keeps :
    (ctx : Ctx) (before : Time) (limit : ℕ) (m : MemStore)
    → ((q : AnalyticsQuery)
        → (query_analytics live q (prune_scan_events ctx before limit m).1).0
          ≡ (query_analytics live q m).0)
      × ((r : ScanRow)
          → In r m.events
          → is_old before r ≡ false
          → In r (prune_scan_events ctx before limit m).1.events)
unfolding prune_scan_events query_analytics
prune_scan_events-keeps done before limit m = (λ q. refl, λ r i f. i)
prune_scan_events-keeps live before limit m = elim (Bool-cases (limit == 0)) [
  | inl t ↦ rw (t, prune_scan_events) (λ q. refl, λ r i f. i)
  | inr f ↦
      rw (f, prune_scan_events)
        (
          λ q. refl,
          keep_rows-keeps before (victims before limit m.events) 0 m.events
              (victims-Drops before limit m.events),
        )
]
