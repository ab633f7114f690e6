-- ===== src/Analytics/Query.antt =====
-- The breakdowns that QueryAnalytics reports add up to its total.
use mathlib.Core.Path.{subst}
use qurator.Common.{
  ◌≡◌, ◌≢◌, refl, ◌∙◌, ℕ, ◌+◌, Bool, true, not, ◌&&◌, none, some, List, [], ◌∷◌, map, Text, Dict,
  lookup, insert, lookup-insert, Distinct, insert-Distinct, bump, mass, mass-bump, sum_where,
  sum_where-sort_by, sort_by, Bool-cases, Option-cases, inl, inr, ok, ◌==◌, nat_eq, text_eq, ltb,
  if◌then◌else◌, Eq, arith,
}
use qurator.Domain.{
  Time, Dimension, dim_total, dim_ua_family, dim_device_category, dim_referrer_host, dim_is_bot,
  dim_eq, dim_beq_iff, AnalyticsQuery, AnalyticsResult, BreakdownValue, SeriesPoint,
}
use qurator.Store.State.{MemStore, RollupKey, rollup_key_eq, live}
use qurator.Store.Scans.{
  Tally, empty_tally, values_of, in_query, tally_one, tally, bucket_start, series_list,
  breakdown_list, breakdown_lists, empty_breakdowns, default_bucket, query_analytics,
}
use qurator.Analytics.Balance.{
  slice, Counted, ua_family, device_category, referrer_host, is_bot, dim_of, IsBalanced,
}

-- the codes and hours that a query asks for
abbrev pub asked : AnalyticsQuery → Text → Time → Bool
asked q c t = c == q.code_id && not (ltb t q.from) && ltb t q.to

abbrev any_key {ℓ} : {K : Type ℓ} → K → Bool
any_key k = true

abbrev pub sum_values {ℓ} : {K : Type ℓ} → Dict K ℕ → ℕ
sum_values = sum_where (λ x. true) (λ x. x.1)

sum_values-bump {ℓ} :
    {K : Type ℓ} ⦃e : Eq K⦄ (k : K) (n : ℕ) (m : Dict K ℕ)
    → sum_values (bump k n m) ≡ sum_values m + n
sum_values-bump k n m = mass-bump any_key k n m

mass-cons {ℓ} :
    {K : Type ℓ} (p : K → Bool) (k : K) (n : ℕ) (m : Dict K ℕ)
    → mass p ((k, n) ∷ m) ≡ mass p m + (if p k then n else 0)
unfolding sum_where
mass-cons p k n m = ground arith

module _ (q : AnalyticsQuery) where
  tally_one-total :
      (k : RollupKey) (n : ℕ) (t : Tally)
      → (tally_one q k n t).total ≡ t.total + (if slice (asked q) dim_total k then n else 0)
  unfolding tally_one
  tally_one-total k n t = ground arith

  tally_one-series :
      (k : RollupKey) (n : ℕ) (t : Tally)
      → sum_values (tally_one q k n t).series
        ≡ sum_values t.series + (if slice (asked q) dim_total k then n else 0)
  unfolding tally_one
  tally_one-series k n t = ground (arith, sum_values-bump (bucket_start k.hour q.bucket) n t.series)

  tally_one-breakdown :
      (d : Dimension)
      → d ≢ dim_total
      → (k : RollupKey) (n : ℕ) (t : Tally)
      → sum_values (values_of d (tally_one q k n t).breakdown)
        ≡ sum_values (values_of d t.breakdown) + (if slice (asked q) d k then n else 0)
  unfolding tally_one
  tally_one-breakdown d ne k n t = ground (
    arith,
    dim_beq_iff k.dim dim_total,
    dim_beq_iff k.dim d,
    sum_values-bump k.value n (values_of k.dim t.breakdown),
    lookup-insert d k.dim (bump k.value n (values_of k.dim t.breakdown)) t.breakdown,
  )

  tally_one-Distinct :
      (k : RollupKey) (n : ℕ) (t : Tally)
      → Distinct t.breakdown
      → Distinct (tally_one q k n t).breakdown
  unfolding tally_one
  tally_one-Distinct k n t h = elim (Bool-cases (in_query q k)) [
    | inl a ↦
        rw (a, tally_one)
          (elim (Bool-cases (k.dim == dim_total)) [
            | inl b ↦ rw (b, tally_one) h
            | inr b ↦
                rw (b, tally_one)
                  (insert-Distinct k.dim (bump k.value n (values_of k.dim t.breakdown)) t.breakdown
                    h)
          ])
    | inr a ↦ rw (a, tally_one) h
  ]

  tally-total :
      (m : Dict RollupKey ℕ) (t : Tally)
      → (tally q m t).total ≡ t.total + mass (slice (asked q) dim_total) m
  unfolding tally sum_where
  tally-total [] t = omega arith
  tally-total ((k, n) ∷ m) t =
      ground (arith, tally_one-total k n t, tally-total m (tally_one q k n t))

  tally-series :
      (m : Dict RollupKey ℕ) (t : Tally)
      → sum_values (tally q m t).series ≡ sum_values t.series + mass (slice (asked q) dim_total) m
  unfolding tally
  tally-series [] t = unfold sum_where in omega arith
  tally-series ((k, n) ∷ m) t = ground (
    arith,
    mass-cons (slice (asked q) dim_total) k n m,
    tally_one-series k n t,
    tally-series m (tally_one q k n t),
  )

  tally-breakdown :
      (d : Dimension)
      → d ≢ dim_total
      → (m : Dict RollupKey ℕ) (t : Tally)
      → sum_values (values_of d (tally q m t).breakdown)
        ≡ sum_values (values_of d t.breakdown) + mass (slice (asked q) d) m
  unfolding tally
  tally-breakdown d ne [] t = unfold sum_where in omega arith
  tally-breakdown d ne ((k, n) ∷ m) t = ground (
    arith,
    mass-cons (slice (asked q) d) k n m,
    tally_one-breakdown d ne k n t,
    tally-breakdown d ne m (tally_one q k n t),
  )

  tally-Distinct :
      (m : Dict RollupKey ℕ) (t : Tally) → Distinct t.breakdown → Distinct (tally q m t).breakdown
  unfolding tally
  tally-Distinct [] t h = h
  tally-Distinct ((k, n) ∷ m) t h =
      tally-Distinct m (tally_one q k n t) (tally_one-Distinct k n t h)

pub sum_counts : List BreakdownValue → ℕ
sum_counts = sum_where (λ v. true) (λ v. v.count)

pub sum_points : List SeriesPoint → ℕ
sum_points = sum_where (λ p. true) (λ p. p.count)

-- the breakdown of a result in one dimension; empty where the result has none
pub breakdown_of : Dimension → AnalyticsResult → List BreakdownValue
breakdown_of d r = elim (lookup d r.breakdowns) [ none ↦ [] | some l ↦ l ]

sum_values-nil : sum_values {K = Text} [] ≡ 0
unfolding sum_where
sum_values-nil = refl

sum_times-nil : sum_values {K = Time} [] ≡ 0
unfolding sum_where
sum_times-nil = refl

sum_counts-sort_by :
    (less : BreakdownValue → BreakdownValue → Bool) (l : List BreakdownValue)
    → sum_counts (sort_by less l) ≡ sum_counts l
unfolding sum_counts
sum_counts-sort_by less l = sum_where-sort_by less _ _ l

sum_points-sort_by :
    (less : SeriesPoint → SeriesPoint → Bool) (l : List SeriesPoint)
    → sum_points (sort_by less l) ≡ sum_points l
unfolding sum_points
sum_points-sort_by less l = sum_where-sort_by less _ _ l

sum_counts-map :
    (v : Dict Text ℕ) → sum_counts (map (λ p. record { value = p.0; count = p.1 }) v) ≡ sum_values v
unfolding sum_counts sum_where
sum_counts-map [] = refl
sum_counts-map ((k, n) ∷ v) = ground (arith, sum_counts-map v)

sum_counts-breakdown_list : (v : Dict Text ℕ) → sum_counts (breakdown_list v) ≡ sum_values v
unfolding breakdown_list
sum_counts-breakdown_list v = sum_counts-sort_by _ _ ∙ sum_counts-map v

sum_points-map :
    (s : Dict Time ℕ) → sum_points (map (λ p. record { start = p.0; count = p.1 }) s) ≡ sum_values s
unfolding sum_points sum_where
sum_points-map [] = refl
sum_points-map ((k, n) ∷ v) = ground (arith, sum_points-map v)

sum_points-series_list : (s : Dict Time ℕ) → sum_points (series_list s) ≡ sum_values s
unfolding series_list
sum_points-series_list s = sum_points-sort_by _ _ ∙ sum_points-map s

lookup-breakdown_lists :
    (d : Dimension) (b : Dict Dimension (Dict Text ℕ)) (out : Dict Dimension (List BreakdownValue))
    → Distinct b
    → lookup d (breakdown_lists b out)
      ≡ elim (lookup d b) [ none ↦ lookup d out | some v ↦ some (breakdown_list v) ]
unfolding breakdown_lists lookup
lookup-breakdown_lists d [] out h = refl
lookup-breakdown_lists d ((k, v) ∷ b) out h = ground (
  arith,
  dim_beq_iff k d,
  lookup-insert d k (breakdown_list v) out,
  lookup-breakdown_lists d b (insert k (breakdown_list v) out) h.1,
)

sum_counts-nil : sum_counts [] ≡ 0
unfolding sum_counts sum_where
sum_counts-nil = refl

-- the breakdown in a dimension, of the tables that the loop left
breakdown_of_tally :
    (d : Dimension) (t : Tally) (n : ℕ) (s : List SeriesPoint)
    → Distinct t.breakdown
    → lookup d empty_breakdowns ≡ some []
    → sum_counts (
        breakdown_of d (record {
          total = n;
          series = s;
          breakdowns = breakdown_lists t.breakdown empty_breakdowns;
        }))
      ≡ sum_values (values_of d t.breakdown)
unfolding breakdown_of
breakdown_of_tally d t n s h e = elim (Option-cases (lookup d t.breakdown)) [
  | inl p ↦ ground (
    arith,
    e,
    sum_counts-nil,
    lookup-breakdown_lists d t.breakdown empty_breakdowns h,
    sum_values-nil,
  )
  | inr (v, p) ↦
      ground (
        arith,
        sum_counts-breakdown_list v,
        lookup-breakdown_lists d t.breakdown empty_breakdowns h,
      )
]

module _ (q : AnalyticsQuery) (m : MemStore) (h : IsBalanced m) where
  asking : AnalyticsQuery
  asking = record q { bucket = default_bucket q.bucket }

  result : Tally
  result = tally asking m.rollups empty_tally

  report : AnalyticsResult
  report = record {
    total = result.total;
    series = series_list result.series;
    breakdowns = breakdown_lists result.breakdown empty_breakdowns;
  }

  report-series : sum_points report.series ≡ report.total
  unfolding report result
  report-series = ground (
    arith,
    sum_points-series_list result.series,
    tally-series asking m.rollups empty_tally,
    tally-total asking m.rollups empty_tally,
    sum_times-nil,
  )

  report-breakdown :
      (b : Counted)
      → dim_of b ≢ dim_total
      → lookup (dim_of b) empty_breakdowns ≡ some []
      → sum_counts (breakdown_of (dim_of b) report) ≡ report.total
  unfolding report result lookup
  report-breakdown b ne e = ground (
    arith,
    breakdown_of_tally (dim_of b) result result.total (series_list result.series)
        (tally-Distinct asking m.rollups empty_tally tt) e,
    tally-breakdown asking (dim_of b) ne m.rollups empty_tally,
    tally-total asking m.rollups empty_tally,
    h (asked asking) b,
    sum_values-nil,
  )

  Sums : AnalyticsResult → Type 0
  Sums r =
      (sum_points r.series ≡ r.total)
      × (sum_counts (breakdown_of dim_ua_family r) ≡ r.total)
      × (sum_counts (breakdown_of dim_device_category r) ≡ r.total)
      × (sum_counts (breakdown_of dim_referrer_host r) ≡ r.total)
      × (sum_counts (breakdown_of dim_is_bot r) ≡ r.total)

  report-Sums : Sums report
  unfolding Sums lookup
  report-Sums = (
    report-series,
    report-breakdown ua_family (λ e. cc) refl,
    report-breakdown device_category (λ e. cc) refl,
    report-breakdown referrer_host (λ e. cc) refl,
    report-breakdown is_bot (λ e. cc) refl,
  )

  report_lem : (r : AnalyticsResult) → query_analytics live q m ≡ (ok r, m) → report ≡ r
  unfolding query_analytics report result asking
  report_lem r e = cc

-- In a store whose counts agree, what QueryAnalytics reports agrees: its time series and each of
-- its four breakdowns add up to its total.
pub query_analytics_balanced :
    (q : AnalyticsQuery) (m : MemStore) (r : AnalyticsResult)
    → IsBalanced m
    → query_analytics live q m ≡ (ok r, m)
    → (sum_points r.series ≡ r.total)
      × (sum_counts (breakdown_of dim_ua_family r) ≡ r.total)
      × (sum_counts (breakdown_of dim_device_category r) ≡ r.total)
      × (sum_counts (breakdown_of dim_referrer_host r) ≡ r.total)
      × (sum_counts (breakdown_of dim_is_bot r) ≡ r.total)
unfolding Sums
query_analytics_balanced q m r h e = subst (Sums q m h) (report_lem q m h r e) (report-Sums q m h)
