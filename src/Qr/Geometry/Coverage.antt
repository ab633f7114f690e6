-- ===== src/Qr/Geometry/Coverage.antt =====
-- The runs and dots of a geometry draw each dark module once, and nothing else.
use qurator.Common.{
  ℕ, zero, suc, ◌+◌, ◌-◌, ◌≤◌, ◌<◌, ◌≡◌, ◌∙◌, refl, ap, inl, inr, Bool, true, false, not, ◌&&◌,
  ◌||◌, Option, none, some, List, ltb, leb, ◌==◌, nat_eq, if◌then◌else◌, sum_where,
  sum_where-append, Bool-cases, arith,
}
use qurator.Domain.{ModuleShape}
use qurator.Qr.Geometry.{
  Symbol, Rectangle, dark_module, in_finder, Run, Dot, Pieces, extends, run_width, run_at, dot_at,
  scan_row, scan_rows, compute_geometry, is_dot, add_run, add_dot, no_pieces,
}

abbrev pub run_covers : ℕ → ℕ → Run → Bool
run_covers x y r = r.y == y && leb r.x x && ltb x (r.x + r.w)

abbrev pub dot_covers : ℕ → ℕ → Dot → Bool
dot_covers x y d = d.y == y && d.x == x

-- how many runs and dots cover a module
abbrev pub covered : ℕ → ℕ → List Run → List Dot → ℕ
covered x y runs dots =
    sum_where (run_covers x y) (λ r. 1) runs + sum_where (dot_covers x y) (λ d. 1) dots

abbrev once_if : Bool → ℕ
once_if b = if b then 1 else 0

abbrev drawn : ℕ → ℕ → Pieces → ℕ
drawn x y p = covered x y p.runs p.dots

module _ (n margin : ℕ) (shape : ModuleShape) (dark finder : ℕ → ℕ → Bool) where
  run_width-le : (fuel x y w : ℕ) → w ≤ run_width n margin shape dark finder fuel x y w
  unfolding run_width
  run_width-le zero x y w = omega arith
  run_width-le (suc fuel) x y w = ground (arith, run_width-le fuel x y (suc w))

  extends-dark :
      (x y w i : ℕ)
      → extends n margin shape dark finder x y w ≡ true
      → i ≡ x + w
      → (dark i y ≡ true) × (i < n)
  unfolding extends
  extends-dark x y w i h e =
      let d : dark (x + w) y ≡ true = ground arith in (ap (λ j. dark j y) e ∙ d, ground arith)

  -- all modules of a run are dark ones of the row
  run_width-dark :
      (fuel x y w i : ℕ)
      → x + w ≤ i
      → i < x + run_width n margin shape dark finder fuel x y w
      → (dark i y ≡ true) × (i < n)
  unfolding run_width
  run_width-dark zero x y w i l u = absurd (omega arith)
  run_width-dark (suc fuel) x y w i l u =
      elim (Bool-cases (extends n margin shape dark finder x y w)) [
        | inr f ↦ absurd (ground arith)
        | inl t ↦ elim (Bool-cases (i == x + w)) [
          | inl q ↦ extends-dark x y w i t (ground arith)
          | inr q ↦ run_width-dark fuel x y (suc w) i (ground arith) (ground arith)
        ]
      ]

  row_end :
      (fuel y x : ℕ)
      → ltb x n ≡ false
      → scan_row n margin shape dark finder (suc fuel) y x ≡ no_pieces
  unfolding scan_row
  row_end fuel y x e = ground arith

  row_light :
      (fuel y x : ℕ)
      → ltb x n ≡ true
      → dark x y ≡ false
      → scan_row n margin shape dark finder (suc fuel) y x
        ≡ scan_row n margin shape dark finder fuel y (x + 1)
  unfolding scan_row
  row_light fuel y x e d = ground arith

  row_dot :
      (fuel y x : ℕ)
      → ltb x n ≡ true
      → dark x y ≡ true
      → (is_dot shape && not (finder x y)) ≡ true
      → scan_row n margin shape dark finder (suc fuel) y x
        ≡ add_dot
            (dot_at n margin shape dark finder x y)
            (scan_row n margin shape dark finder fuel y (x + 1))
  unfolding scan_row
  row_dot fuel y x e d f = rw (e, d, f, scan_row) refl

  row_run :
      (fuel y x : ℕ)
      → ltb x n ≡ true
      → dark x y ≡ true
      → (is_dot shape && not (finder x y)) ≡ false
      → scan_row n margin shape dark finder (suc fuel) y x
        ≡ add_run
            (run_at n margin shape dark finder x y (run_width n margin shape dark finder n x y 1))
            (scan_row n margin shape dark finder fuel y
              (x + run_width n margin shape dark finder n x y 1))
  unfolding scan_row
  row_run fuel y x e d f = rw (e, d, f, scan_row) refl

  scan_row-drawn :
      (fuel y x i : ℕ)
      → n ≤ x + fuel
      → drawn (i + margin) (y + margin) (scan_row n margin shape dark finder fuel y x)
        ≡ once_if (leb x i && ltb i n && dark i y)
  unfolding sum_where dot_at run_at
  scan_row-drawn zero y x i l = unfold scan_row in ground arith
  scan_row-drawn (suc fuel) y x i l = elim (Bool-cases (ltb x n)) [
    | inr e ↦ rw (row_end fuel y x e) (ground arith)
    | inl e ↦ elim (Bool-cases (dark x y)) [
      | inr d ↦ rw (row_light fuel y x e d) (
          ground (
            arith,
            λ (q : i ≡ x). ap (λ j. dark j y) q,
            scan_row-drawn fuel y (x + 1) i (omega arith),
          ))
      | inl d ↦ elim (Bool-cases (is_dot shape && not (finder x y))) [
        | inl f ↦ rw (row_dot fuel y x e d f) (
            ground (
              arith,
              λ (q : i ≡ x). ap (λ j. dark j y) q,
              scan_row-drawn fuel y (x + 1) i (omega arith),
            ))
        | inr f ↦ rw (row_run fuel y x e d f) (
            ground (
              arith,
              λ (q : i ≡ x). ap (λ j. dark j y) q,
              run_width-le n x y 1,
              λ (a : x + 1 ≤ i) (b : i < x + run_width n margin shape dark finder n x y 1).
                  run_width-dark n x y 1 i a b,
              scan_row-drawn fuel y (x + run_width n margin shape dark finder n x y 1) i
                  (omega (arith, l, run_width-le n x y 1)),
            ))
      ]
    ]
  ]

  -- no piece of a row lies in another one, or to the left of the symbol
  scan_row-blank :
      (fuel y x i j : ℕ)
      → (ltb i margin || not (j == y + margin)) ≡ true
      → drawn i j (scan_row n margin shape dark finder fuel y x) ≡ 0
  unfolding sum_where dot_at run_at
  scan_row-blank zero y x i j h = unfold scan_row in ground arith
  scan_row-blank (suc fuel) y x i j h = elim (Bool-cases (ltb x n)) [
    | inr e ↦ rw (row_end fuel y x e) (ground arith)
    | inl e ↦ elim (Bool-cases (dark x y)) [
      | inr d ↦ rw (row_light fuel y x e d) (scan_row-blank fuel y (x + 1) i j h)
      | inl d ↦ elim (Bool-cases (is_dot shape && not (finder x y))) [
        | inl f ↦ rw (row_dot fuel y x e d f) (ground (arith, scan_row-blank fuel y (x + 1) i j h))
        | inr f ↦ rw (row_run fuel y x e d f) (
            ground (
              arith,
              scan_row-blank fuel y (x + run_width n margin shape dark finder n x y 1) i j h,
            ))
      ]
    ]
  ]

  drawn-scan_rows :
      (k y i j : ℕ)
      → drawn i j (scan_rows n margin shape dark finder (suc k) y)
        ≡ drawn i j (scan_row n margin shape dark finder n y 0)
          + drawn i j (scan_rows n margin shape dark finder k (suc y))
  unfolding scan_rows
  drawn-scan_rows k y i j =
      let row = scan_row n margin shape dark finder n y 0 in
      let rest = scan_rows n margin shape dark finder k (suc y) in
      omega (
        arith,
        sum_where-append (run_covers i j) (λ r. 1) row.runs rest.runs,
        sum_where-append (dot_covers i j) (λ d. 1) row.dots rest.dots,
      )

  scan_rows-drawn :
      (k y i j : ℕ)
      → drawn (i + margin) (j + margin) (scan_rows n margin shape dark finder k y)
        ≡ once_if (leb y j && ltb j (y + k) && ltb i n && dark i j)
  scan_rows-drawn zero y i j = unfold scan_rows in unfold sum_where in ground arith
  scan_rows-drawn (suc k) y i j = elim (Bool-cases (j == y)) [
    | inl q ↦
        let e : y ≡ j = ground arith in
        ground (
          arith,
          drawn-scan_rows k y (i + margin) (j + margin),
          scan_rows-drawn k (suc y) i j,
          scan_row-drawn n j 0 i (omega arith),
          ap (λ t. drawn (i + margin) (j + margin) (scan_row n margin shape dark finder n t 0)) e,
        )
    | inr q ↦ ground (
      arith,
      drawn-scan_rows k y (i + margin) (j + margin),
      scan_rows-drawn k (suc y) i j,
      scan_row-blank n y 0 (i + margin) (j + margin) (ground arith),
    )
  ]

  scan_rows-blank :
      (k y i j : ℕ)
      → (ltb i margin || ltb j (y + margin)) ≡ true
      → drawn i j (scan_rows n margin shape dark finder k y) ≡ 0
  scan_rows-blank zero y i j h = unfold scan_rows in unfold sum_where in ground arith
  scan_rows-blank (suc k) y i j h = ground (
    arith,
    drawn-scan_rows k y i j,
    scan_rows-blank k (suc y) i j (ground arith),
    scan_row-blank n y 0 i j (ground arith),
  )

dark_module-inside :
    (s : Symbol) (hole : Option Rectangle) (x y : ℕ)
    → dark_module s hole x y ≡ true
    → (x < s.size) × (y < s.size)
unfolding dark_module
dark_module-inside s none x y h = ground arith
dark_module-inside s (some r) x y h = ground arith

-- In a geometry, each place of the drawing, the quiet zone included, is covered by exactly one run
-- or dot if it shows a dark module outside of the hole, and by none otherwise, in every shape.
pub compute_geometry_covers :
    (s : Symbol) (shape : ModuleShape) (margin : ℕ) (hole : Option Rectangle) (x y : ℕ)
    → covered x y
        (compute_geometry s shape margin hole).runs
        (compute_geometry s shape margin hole).dots
      ≡ (if leb margin x && leb margin y && dark_module s hole (x - margin) (y - margin)
          then 1
          else 0)
unfolding compute_geometry
compute_geometry_covers s shape margin hole x y = elim (Bool-cases (ltb x margin || ltb y margin)) [
  | inl out ↦ ground (
    arith,
    scan_rows-blank s.size margin shape (dark_module s hole) (in_finder s.size) s.size 0 x y
        (ground arith),
  )
  | inr within ↦
      let across : (x - margin) + margin ≡ x = ground arith in
      let down : (y - margin) + margin ≡ y = ground arith in
      ground (
        arith,
        scan_rows-drawn s.size margin shape (dark_module s hole) (in_finder s.size) s.size 0
            (x - margin) (y - margin),
        dark_module-inside s hole (x - margin) (y - margin),
        ap
            (λ t.
              covered t ((y - margin) + margin) (compute_geometry s shape margin hole).runs
                (compute_geometry s shape margin hole).dots)
            across,
        ap
            (λ t.
              covered x t (compute_geometry s shape margin hole).runs
                (compute_geometry s shape margin hole).dots)
            down,
      )
]
