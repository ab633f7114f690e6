-- ===== src/Analytics/Retention/Counting.antt =====
-- How many rows PruneScanEvents takes out of a list.
use qurator.Common.{
  ◌≡◌, refl, ℕ, zero, suc, ◌+◌, ◌≤◌, ◌<◌, Bool, true, false, not, ◌&&◌, List, [], ◌∷◌, take, filter,
  length, any, sort_by, sum_where, sum_where-sort_by, Bool-cases, inl, inr, ◌⊎◌, ltb, leb, ◌==◌,
  nat_eq, arith,
}
use qurator.Domain.{Time}
use qurator.Store.State.{ScanRow}
use qurator.Store.Scans.{indexed, older_row, victims, keep_rows}

-- the number of elements that pass a test
abbrev pub count {ℓ} : {A : Type ℓ} → (A → Bool) → List A → ℕ
count p = sum_where p (λ x. 1)

module _ {ℓ} {A : Type ℓ} where
  count-take-le : (p : A → Bool) (n : ℕ) (xs : List A) → count p (take n xs) ≤ count p xs
  unfolding sum_where
  count-take-le p zero xs = omega arith
  count-take-le p (suc n) [] = omega arith
  count-take-le p (suc n) (x ∷ xs) = ground (arith, count-take-le p n xs)

  count-filter-le : (p q : A → Bool) (xs : List A) → count p (filter q xs) ≤ count p xs
  unfolding sum_where filter
  count-filter-le p q [] = omega arith
  count-filter-le p q (x ∷ xs) = ground (arith, count-filter-le p q xs)

  count-true : (xs : List A) → count (λ x. true) xs ≡ length xs
  unfolding sum_where
  count-true [] = refl
  count-true (x ∷ xs) = omega (arith, count-true xs)

  count-complement :
      (p : A → Bool) (xs : List A) → count p xs + count (λ x. not (p x)) xs ≡ length xs
  unfolding sum_where
  count-complement p [] = refl
  count-complement p (x ∷ xs) = ground (arith, count-complement p xs)

  any-count :
      (p : A → Bool) (xs : List A)
      → (any p xs ≡ true) × (1 ≤ count p xs) ⊎ (any p xs ≡ false) × (count p xs ≡ 0)
  unfolding sum_where
  any-count p [] = inr (refl, refl)
  any-count p (x ∷ xs) = elim (Bool-cases (p x)) [
    | inl t ↦ inl (ground arith, ground arith)
    | inr f ↦ elim (any-count p xs) [
      | inl (a, c) ↦ inl (ground arith, ground arith)
      | inr (a, c) ↦ inr (ground arith, ground arith)
    ]
  ]

abbrev at_index : ℕ → ℕ × ScanRow → Bool
at_index j v = v.0 == j

abbrev inside : ℕ → ℕ → ℕ × ScanRow → Bool
inside i n v = leb i v.0 && ltb v.0 (i + n)

count-indexed_below :
    (j i : ℕ) (rows : List ScanRow) → j < i → count (at_index j) (indexed i rows) ≡ 0
unfolding indexed sum_where
count-indexed_below j i [] l = refl
count-indexed_below j i (r ∷ rows) l = ground (arith, count-indexed_below j (i + 1) rows)

count-indexed-le : (j i : ℕ) (rows : List ScanRow) → count (at_index j) (indexed i rows) ≤ 1
unfolding indexed sum_where
count-indexed-le j i [] = omega arith
count-indexed-le j i (r ∷ rows) = elim (Bool-cases (i == j)) [
  | inl t ↦ ground (arith, count-indexed_below j (i + 1) rows (ground arith))
  | inr f ↦ ground (arith, count-indexed-le j (i + 1) rows)
]

count-outside :
    (lo n i : ℕ) (rows : List ScanRow)
    → lo ≤ i
    → i + length rows ≤ lo + n
    → count (λ v. not (inside lo n v)) (indexed i rows) ≡ 0
unfolding indexed sum_where
count-outside lo n i [] l h = refl
count-outside lo n i (r ∷ rows) l h = ground (arith, count-outside lo n (i + 1) rows)

count-inside-suc :
    (i n : ℕ) (drop : List (ℕ × ScanRow))
    → count (inside i (suc n)) drop ≡ count (at_index i) drop + count (inside (i + 1) n) drop
unfolding sum_where
count-inside-suc i n [] = refl
count-inside-suc i n (v ∷ drop) = ground (arith, count-inside-suc i n drop)

count-inside_zero : (i : ℕ) (drop : List (ℕ × ScanRow)) → count (inside i 0) drop ≡ 0
unfolding sum_where
count-inside_zero i [] = refl
count-inside_zero i (v ∷ drop) = ground (arith, count-inside_zero i drop)

-- Each index that is dropped takes out one row.
length-keep_rows :
    (drop : List (ℕ × ScanRow))
    → ((j : ℕ) → count (at_index j) drop ≤ 1)
    → (i : ℕ) (rows : List ScanRow)
    → length (keep_rows drop i rows) + count (inside i (length rows)) drop ≡ length rows
unfolding keep_rows
length-keep_rows drop h i [] = omega (arith, count-inside_zero i drop)
length-keep_rows drop h i (r ∷ rows) = elim (any-count (at_index i) drop) [
  | inl (a, c) ↦ ground (
    arith,
    a,
    c,
    h i,
    count-inside-suc i (length rows) drop,
    length-keep_rows drop h (i + 1) rows,
  )
  | inr (a, c) ↦
      ground
        (arith, a, c, count-inside-suc i (length rows) drop, length-keep_rows drop h (i + 1) rows)
]

-- Of the rows with their indexes, the victims are some.
count-victims-le :
    (p : ℕ × ScanRow → Bool) (before : Time) (limit : ℕ) (rows : List ScanRow)
    → count p (victims before limit rows) ≤ count p (indexed 0 rows)
unfolding victims
count-victims-le p before limit rows =
    let old : List (ℕ × ScanRow) = filter (λ r. ltb r.1.ev.occurred_at before) (indexed 0 rows) in
    omega (
      arith,
      count-take-le p limit (sort_by older_row old),
      sum_where-sort_by older_row p (λ x. 1) old,
      count-filter-le p (λ r. ltb r.1.ev.occurred_at before) (indexed 0 rows),
    )

-- PruneScanEvents takes out as many rows as it reports.
pub length-victims :
    (before : Time) (limit : ℕ) (rows : List ScanRow)
    → length (keep_rows (victims before limit rows) 0 rows) + length (victims before limit rows)
      ≡ length rows
length-victims before limit rows =
    let drop : List (ℕ × ScanRow) = victims before limit rows in
    omega (
      arith,
      length-keep_rows drop
          (λ j.
            omega
              (arith, count-victims-le (at_index j) before limit rows, count-indexed-le j 0 rows))
          0 rows,
      count-complement (inside 0 (length rows)) drop,
      count-victims-le (λ v. not (inside 0 (length rows) v)) before limit rows,
      count-outside 0 (length rows) 0 rows (omega arith) (omega arith),
    )

-- is a row older than the window?
abbrev pub is_old : Time → ScanRow → Bool
is_old before r = ltb r.ev.occurred_at before

count-indexed :
    (p : ScanRow → Bool) (i : ℕ) (rows : List ScanRow)
    → length (filter (λ v. p v.1) (indexed i rows)) ≡ count p rows
unfolding indexed filter sum_where
count-indexed p i [] = refl
count-indexed p i (r ∷ rows) = ground (arith, count-indexed p (i + 1) rows)

length-take : {A : Type 0} (n : ℕ) (xs : List A) → 0 < n → length (take n xs) ≡ 0 → length xs ≡ 0
length-take zero xs l h = absurd (omega arith)
length-take (suc n) [] l h = refl
length-take (suc n) (x ∷ xs) l h = absurd (omega (arith, h))

-- PruneScanEvents finds nothing exactly when no row is older than the window.
pub no_victims :
    (before : Time) (limit : ℕ) (rows : List ScanRow)
    → 0 < limit
    → length (victims before limit rows) ≡ 0
    → count (is_old before) rows ≡ 0
unfolding victims
no_victims before limit rows l h =
    let old : List (ℕ × ScanRow) = filter (λ r. is_old before r.1) (indexed 0 rows) in
    omega (
      arith,
      length-take limit (sort_by older_row old) l h,
      sum_where-sort_by older_row (λ x. true) (λ x. 1) old,
      count-true (sort_by older_row old),
      count-true old,
      count-indexed (is_old before) 0 rows,
    )

pub count-keep_rows-le :
    (p : ScanRow → Bool) (drop : List (ℕ × ScanRow)) (i : ℕ) (rows : List ScanRow)
    → count p (keep_rows drop i rows) ≤ count p rows
unfolding keep_rows sum_where
count-keep_rows-le p drop i [] = omega arith
count-keep_rows-le p drop i (r ∷ rows) = ground (arith, count-keep_rows-le p drop (i + 1) rows)
