-- ===== src/Qr/Geometry.antt =====
-- encode.go, Symbol, and shape.go, computeGeometry: the dark modules of a symbol as runs and dots.
-- Coordinates are 0 or more; the module above the first row is written as a light one.
pub mod Coverage
use qurator.Common.{
  ℕ, zero, suc, ◌+◌, ◌-◌, ◌*◌, ◌≡◌, Bool, true, false, not, ◌&&◌, ◌||◌, Option, none, some, List,
  [], ◌∷◌, ◌++◌, get_or, ltb, leb, ◌==◌, nat_eq, if◌then◌else◌,
}
use qurator.Domain.{EcLevel, ModuleShape, shape_unset, shape_square, shape_dot, shape_rounded}

pub record Symbol : Type 0 where
  pub size : ℕ
  pub version : ℕ
  pub level : EcLevel
  -- row by row
  pub dark : List Bool

-- Module
unfoldable pub symbol_module : Symbol → ℕ → ℕ → Bool
symbol_module s x y =
    if leb s.size x || leb s.size y then false else get_or s.dark (y * s.size + x) false

-- image.Rectangle: the upper bounds do not belong to it
pub record Rectangle : Type 0 where
  pub min_x : ℕ
  pub min_y : ℕ
  pub max_x : ℕ
  pub max_y : ℕ

unfoldable pub in_rectangle : Rectangle → ℕ → ℕ → Bool
in_rectangle r x y = leb r.min_x x && ltb x r.max_x && leb r.min_y y && ltb y r.max_y

unfoldable pub shifted : ℕ → Rectangle → Rectangle
shifted margin r = record {
  min_x = r.min_x + margin;
  min_y = r.min_y + margin;
  max_x = r.max_x + margin;
  max_y = r.max_y + margin;
}

pub record Run : Type 0 where
  pub x : ℕ
  pub y : ℕ
  pub w : ℕ
  pub corners : ℕ

pub record Dot : Type 0 where
  pub x : ℕ
  pub y : ℕ

-- the empty rectangle of a geometry without a hole is none
pub record Geometry : Type 0 where
  pub total : ℕ
  pub runs : List Run
  pub dots : List Dot
  pub hole : Option Rectangle

abbrev is_square : ModuleShape → Bool
is_square shape_square = true
is_square _ = false

abbrev is_dot : ModuleShape → Bool
is_dot shape_dot = true
is_dot _ = false

abbrev is_rounded : ModuleShape → Bool
is_rounded shape_rounded = true
is_rounded _ = false

-- the closures of computeGeometry
unfoldable pub dark_module : Symbol → Option Rectangle → ℕ → ℕ → Bool
unfolding symbol_module in_rectangle
dark_module s none x y = symbol_module s x y
dark_module s (some r) x y = if in_rectangle r x y then false else symbol_module s x y

unfoldable pub in_finder : ℕ → ℕ → ℕ → Bool
in_finder n x y = (ltb x 7 && ltb y 7) || (leb (n - 7) x && ltb y 7) || (ltb x 7 && leb (n - 7) y)

-- the drawing of some rows
pub record Pieces : Type 0 where
  pub runs : List Run
  pub dots : List Dot

abbrev pub no_pieces : Pieces
no_pieces = record { runs = []; dots = [] }

abbrev pub add_run : Run → Pieces → Pieces
add_run r p = record p { runs = r ∷ p.runs }

abbrev pub add_dot : Dot → Pieces → Pieces
add_dot d p = record p { dots = d ∷ p.dots }

module _ (n margin : ℕ) (shape : ModuleShape) (dark finder : ℕ → ℕ → Bool) where
  -- dark(x, y-1)
  unfoldable pub dark_above : ℕ → ℕ → Bool
  dark_above x zero = false
  dark_above x (suc y) = dark x y

  -- does the run at x reach over its first w modules?
  unfoldable pub extends : ℕ → ℕ → ℕ → Bool
  extends x y w =
      ltb (x + w) n
      && dark (x + w) y
      && (is_square shape
          || ((finder (x + w) y && finder x y) || (not (finder (x + w) y) && not (finder x y))))

  -- the loop that counts w up
  unfoldable pub run_width : ℕ → ℕ → ℕ → ℕ → ℕ
  unfolding extends
  run_width zero x y w = w
  run_width (suc fuel) x y w = elim (extends x y w) [
    | true ↦ run_width fuel x y (suc w)
    | false ↦ w
  ]

  -- the flags of different corners, so that `|=` adds them
  unfoldable pub corner_flags : ℕ → ℕ → ℕ → ℕ
  unfolding dark_above
  corner_flags x y w =
      if is_rounded shape && not (finder x y)
      then (if not (dark_above x y) then 1 else 0)
        + (if not (dark_above (x + w - 1) y) then 2 else 0)
        + (if not (dark (x + w - 1) (y + 1)) then 4 else 0)
        + (if not (dark x (y + 1)) then 8 else 0)
      else 0

  unfoldable pub run_at : ℕ → ℕ → ℕ → Run
  unfolding corner_flags
  run_at x y w = record { x = x + margin; y = y + margin; w = w; corners = corner_flags x y w }

  unfoldable pub dot_at : ℕ → ℕ → Dot
  dot_at x y = record { x = x + margin; y = y + margin }

  -- the loop over a row, from x on
  unfoldable pub scan_row : ℕ → ℕ → ℕ → Pieces
  unfolding run_width run_at dot_at
  scan_row zero y x = no_pieces
  scan_row (suc fuel) y x = elim (ltb x n) [
    | false ↦ no_pieces
    | true ↦ elim (dark x y) [
      | false ↦ scan_row fuel y (x + 1)
      | true ↦ elim (is_dot shape && not (finder x y)) [
        | true ↦ add_dot (dot_at x y) (scan_row fuel y (x + 1))
        | false ↦ let w = run_width n x y 1 in add_run (run_at x y w) (scan_row fuel y (x + w))
      ]
    ]
  ]

  -- so many rows, from y on
  unfoldable pub scan_rows : ℕ → ℕ → Pieces
  unfolding scan_row
  scan_rows zero y = no_pieces
  scan_rows (suc k) y =
      let row = scan_row n y 0 in
      let rest = scan_rows k (suc y) in
      record { runs = row.runs ++ rest.runs; dots = row.dots ++ rest.dots }

-- computeGeometry; its counter of calls is read by tests only
unfoldable pub compute_geometry : Symbol → ModuleShape → ℕ → Option Rectangle → Geometry
unfolding scan_rows dark_module in_finder shifted
compute_geometry sym shape margin hole =
    let n = sym.size in
    let p = scan_rows n margin shape (dark_module sym hole) (in_finder n) n 0 in
    record {
      total = n + 2 * margin;
      runs = p.runs;
      dots = p.dots;
      hole = elim hole [ none ↦ none | some r ↦ some (shifted margin r) ];
    }

-- hasSquareAt
unfoldable pub has_square_at : List Run → ℕ → ℕ → Bool
has_square_at [] x y = false
has_square_at (r ∷ rs) x y =
    (r.corners == 0 && r.y == y && leb r.x x && ltb x (r.x + r.w)) || has_square_at rs x y
