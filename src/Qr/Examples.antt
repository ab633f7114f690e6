-- ===== src/Qr/Examples.antt =====
-- The theorems on the renderer (internal/qr), applied to a small symbol, a colour and a logo.
use qurator.Common.{
  ◌≡◌, ◌↔◌, ◌-◌, ◌<◌, refl, true, false, ◌&&◌, none, some, [], ◌∷◌, bytes, to_lower, leb,
  if◌then◌else◌, arith,
}
use qurator.Domain.{ec_low, ec_medium, shape_rounded}
use qurator.Qr.Geometry.{Symbol, dark_module, compute_geometry}
use qurator.Qr.Geometry.Coverage.{covered, compute_geometry_covers}
use qurator.Qr.Colors.{
  Color, hex_channel, hex_nibble, parse_hex_color, hex_string, IsColor, parse_hex_color_iff,
}
use qurator.Qr.Levels.{LevelFor, level_rank, resolve_logo_level, resolve_logo_level-LevelFor}

-- two dark modules above one
abbrev corner : Symbol
corner = record { size = 2; version = 1; level = ec_low; dark = true ∷ true ∷ false ∷ true ∷ [] }

compute_geometry_covers_example :
    covered 5 4
      (compute_geometry corner shape_rounded 4 none).runs
      (compute_geometry corner shape_rounded 4 none).dots
    ≡ (if leb 4 5 && leb 4 4 && dark_module corner none (5 - 4) (4 - 4) then 1 else 0)
compute_geometry_covers_example = compute_geometry_covers corner shape_rounded 4 none 5 4

abbrev slate : Color
slate = record { r = 0x1A; g = 0x2B; b = 0x3C }

parse_hex_color_iff_example :
    (parse_hex_color (bytes "#1A2b3C") ≡ some slate)
    ↔ (IsColor slate × (hex_string slate ≡ to_lower (bytes "#1A2b3C")))
parse_hex_color_iff_example = parse_hex_color_iff (bytes "#1A2b3C") slate

slate_read : parse_hex_color (bytes "#1A2b3C") ≡ some slate
unfolding parse_hex_color hex_channel hex_nibble
slate_read = refl

medium_known : 0 < level_rank ec_medium
unfolding level_rank
medium_known = omega arith

resolve_logo_level-LevelFor_example :
    LevelFor ec_medium 150000 true (resolve_logo_level ec_medium 150000 true)
resolve_logo_level-LevelFor_example = resolve_logo_level-LevelFor ec_medium 150000 true medium_known
