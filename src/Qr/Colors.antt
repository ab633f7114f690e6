-- ===== src/Qr/Colors.antt =====
-- render.go: ParseHexColor, hexNibble and hexString. A colour is opaque, so its alpha is left out.
use qurator.Common.{
  ℕ, suc, ◌+◌, ◌-◌, ◌*◌, ◌/◌, ◌%◌, ◌<◌, ◌≡◌, ◌↔◌, ap, ◌∙◌, inl, inr, not, ◌&&◌, ◌||◌, Option, none,
  some, [], ◌∷◌, Text, length, get_or, lower_byte, to_lower, ltb, leb, ◌==◌, nat_eq, if◌then◌else◌,
  Option-cases, arith,
}

-- the three channels of color.NRGBA, each below 256
pub record Color : Type 0 where
  pub r : ℕ
  pub g : ℕ
  pub b : ℕ

unfoldable pub hex_nibble : ℕ → Option ℕ
hex_nibble c =
    if leb b'0' c && leb c b'9'
    then some (c - b'0')
    else if leb b'a' c && leb c b'f'
    then some (c - b'a' + 10)
    else if leb b'A' c && leb c b'F'
    then some (c - b'A' + 10)
    else none

-- a round of the loop: hi<<4 | lo, from the i-th byte on
unfoldable pub hex_channel : Text → ℕ → Option ℕ
hex_channel s i = elim (hex_nibble (get_or s i 0)) [
  | none ↦ none
  | some hi ↦ elim (hex_nibble (get_or s (suc i) 0)) [ none ↦ none | some lo ↦ some (16 * hi + lo) ]
]

unfoldable pub parse_hex_color : Text → Option Color
parse_hex_color s =
    if not (length s == 7) || not (get_or s 0 0 == b'#') then none else elim (hex_channel s 1) [
      | none ↦ none
      | some r ↦ elim (hex_channel s 3) [
        | none ↦ none
        | some g ↦ elim (hex_channel s 5) [
          | none ↦ none
          | some b ↦ some (record { r = r; g = g; b = b })
        ]
      ]
    ]

-- %02x of a byte
unfoldable pub hex_digit : ℕ → ℕ
hex_digit v = if ltb v 10 then b'0' + v else b'a' + v - 10

unfoldable pub hex_string : Color → Text
unfolding hex_digit
hex_string c =
    b'#'
    ∷ hex_digit (c.r / 16)
    ∷ hex_digit (c.r % 16)
    ∷ hex_digit (c.g / 16)
    ∷ hex_digit (c.g % 16)
    ∷ hex_digit (c.b / 16)
    ∷ hex_digit (c.b % 16)
    ∷ []

hex_nibble-digit : (c v : ℕ) → hex_nibble c ≡ some v → (hex_digit v ≡ lower_byte c) × (v < 16)
unfolding hex_nibble hex_digit
hex_nibble-digit c v h = ground arith

digit-hex_nibble : (c v : ℕ) → v < 16 → hex_digit v ≡ lower_byte c → hex_nibble c ≡ some v
unfolding hex_nibble hex_digit
digit-hex_nibble c v l h = ground arith

-- the byte that two characters stand for
channel_there :
    (s : Text) (i v : ℕ)
    → hex_channel s i ≡ some v
    → (v < 256)
      × (hex_digit (v / 16) ≡ lower_byte (get_or s i 0))
      × (hex_digit (v % 16) ≡ lower_byte (get_or s (suc i) 0))
unfolding hex_channel
channel_there s i v h = elim (Option-cases (hex_nibble (get_or s i 0))) [
  | inl n ↦ absurd (ground arith)
  | inr (hi, p) ↦ elim (Option-cases (hex_nibble (get_or s (suc i) 0))) [
    | inl n ↦ absurd (ground arith)
    | inr (lo, q) ↦
        let e : 16 * hi + lo ≡ v = ground arith in
        let (d, l) = hex_nibble-digit (get_or s i 0) hi p in
        let (d', l') = hex_nibble-digit (get_or s (suc i) 0) lo q in
        let high : v / 16 ≡ hi = omega (arith, e, l, l') in
        let low : v % 16 ≡ lo = omega (arith, e, l, l') in
        (omega (arith, e, l, l'), ap hex_digit high ∙ d, ap hex_digit low ∙ d')
  ]
]

channel_back :
    (s : Text) (i v : ℕ)
    → v < 256
    → hex_digit (v / 16) ≡ lower_byte (get_or s i 0)
    → hex_digit (v % 16) ≡ lower_byte (get_or s (suc i) 0)
    → hex_channel s i ≡ some v
unfolding hex_channel
channel_back s i v l p q =
    let hi : hex_nibble (get_or s i 0) ≡ some (v / 16) =
      digit-hex_nibble (get_or s i 0) (v / 16) (omega arith) p in
    let lo : hex_nibble (get_or s (suc i) 0) ≡ some (v % 16) =
      digit-hex_nibble (get_or s (suc i) 0) (v % 16) (omega arith) q in
    ground arith

pub record IsColor (c : Color) : Type 0 where
  pub r : c.r < 256
  pub g : c.g < 256
  pub b : c.b < 256

parse_there :
    (s : Text) (c : Color)
    → parse_hex_color s ≡ some c
    → (length s ≡ 7)
      × (get_or s 0 0 ≡ b'#')
      × (hex_channel s 1 ≡ some c.r)
      × (hex_channel s 3 ≡ some c.g)
      × (hex_channel s 5 ≡ some c.b)
unfolding parse_hex_color
parse_there s c h = ground arith

parse_back :
    (s : Text) (c : Color)
    → length s ≡ 7
    → get_or s 0 0 ≡ b'#'
    → hex_channel s 1 ≡ some c.r
    → hex_channel s 3 ≡ some c.g
    → hex_channel s 5 ≡ some c.b
    → parse_hex_color s ≡ some c
unfolding parse_hex_color
parse_back s c l f r g b = ground arith

hex_string_of :
    (s : Text) (c : Color)
    → length s ≡ 7
    → get_or s 0 0 ≡ b'#'
    → hex_digit (c.r / 16) ≡ lower_byte (get_or s 1 0)
    → hex_digit (c.r % 16) ≡ lower_byte (get_or s 2 0)
    → hex_digit (c.g / 16) ≡ lower_byte (get_or s 3 0)
    → hex_digit (c.g % 16) ≡ lower_byte (get_or s 4 0)
    → hex_digit (c.b / 16) ≡ lower_byte (get_or s 5 0)
    → hex_digit (c.b % 16) ≡ lower_byte (get_or s 6 0)
    → hex_string c ≡ to_lower s
unfolding hex_string to_lower
hex_string_of [] c l f p q p' q' p'' q'' = absurd (omega arith)
hex_string_of (x1 ∷ []) c l f p q p' q' p'' q'' = absurd (omega arith)
hex_string_of (x1 ∷ x2 ∷ []) c l f p q p' q' p'' q'' = absurd (omega arith)
hex_string_of (x1 ∷ x2 ∷ x3 ∷ []) c l f p q p' q' p'' q'' = absurd (omega arith)
hex_string_of (x1 ∷ x2 ∷ x3 ∷ x4 ∷ []) c l f p q p' q' p'' q'' = absurd (omega arith)
hex_string_of (x1 ∷ x2 ∷ x3 ∷ x4 ∷ x5 ∷ []) c l f p q p' q' p'' q'' = absurd (omega arith)
hex_string_of (x1 ∷ x2 ∷ x3 ∷ x4 ∷ x5 ∷ x6 ∷ []) c l f p q p' q' p'' q'' = absurd (omega arith)
hex_string_of (x1 ∷ x2 ∷ x3 ∷ x4 ∷ x5 ∷ x6 ∷ x7 ∷ []) c l f p q p' q' p'' q'' = ground arith
hex_string_of (x1 ∷ x2 ∷ x3 ∷ x4 ∷ x5 ∷ x6 ∷ x7 ∷ x8 ∷ s) c l f p q p' q' p'' q'' =
    absurd (omega arith)

of_hex_string :
    (s : Text) (c : Color)
    → hex_string c ≡ to_lower s
    → (length s ≡ 7)
      × (get_or s 0 0 ≡ b'#')
      × (hex_digit (c.r / 16) ≡ lower_byte (get_or s 1 0))
      × (hex_digit (c.r % 16) ≡ lower_byte (get_or s 2 0))
      × (hex_digit (c.g / 16) ≡ lower_byte (get_or s 3 0))
      × (hex_digit (c.g % 16) ≡ lower_byte (get_or s 4 0))
      × (hex_digit (c.b / 16) ≡ lower_byte (get_or s 5 0))
      × (hex_digit (c.b % 16) ≡ lower_byte (get_or s 6 0))
unfolding hex_string to_lower
of_hex_string [] c h = absurd (ground arith)
of_hex_string (x1 ∷ []) c h = absurd (ground arith)
of_hex_string (x1 ∷ x2 ∷ []) c h = absurd (ground arith)
of_hex_string (x1 ∷ x2 ∷ x3 ∷ []) c h = absurd (ground arith)
of_hex_string (x1 ∷ x2 ∷ x3 ∷ x4 ∷ []) c h = absurd (ground arith)
of_hex_string (x1 ∷ x2 ∷ x3 ∷ x4 ∷ x5 ∷ []) c h = absurd (ground arith)
of_hex_string (x1 ∷ x2 ∷ x3 ∷ x4 ∷ x5 ∷ x6 ∷ []) c h = absurd (ground arith)
of_hex_string (x1 ∷ x2 ∷ x3 ∷ x4 ∷ x5 ∷ x6 ∷ x7 ∷ []) c h = ground arith
of_hex_string (x1 ∷ x2 ∷ x3 ∷ x4 ∷ x5 ∷ x6 ∷ x7 ∷ x8 ∷ s) c h = absurd (ground arith)

-- ParseHexColor reads a text as a colour exactly when hexString writes that colour, in lower case, as
-- the text in lower case; and only colours of three bytes are read.
pub parse_hex_color_iff :
    (s : Text) (c : Color)
    → (parse_hex_color s ≡ some c) ↔ (IsColor c × (hex_string c ≡ to_lower s))
parse_hex_color_iff s c = (
  λ h.
      let (l, f, r, g, b) = parse_there s c h in
      let (rl, r1, r2) = channel_there s 1 c.r r in
      let (gl, g1, g2) = channel_there s 3 c.g g in
      let (bl, b1, b2) = channel_there s 5 c.b b in
      (record { r = rl; g = gl; b = bl }, hex_string_of s c l f r1 r2 g1 g2 b1 b2),
  λ h.
      let (l, f, r1, r2, g1, g2, b1, b2) = of_hex_string s c h.1 in
      parse_back s c l f (channel_back s 1 c.r h.0.r r1 r2) (channel_back s 3 c.g h.0.g g1 g2)
        (channel_back s 5 c.b h.0.b b1 b2),
)
