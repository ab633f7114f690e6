-- ===== src/Shortcode/Generate.antt =====
-- internal/shortcode/generate.go
use qurator.Common.{ℕ, Bool, ◌&&◌, Text, all, length, ◌==◌, nat_eq}
use qurator.Domain.Ids.{random_crockford, is_crockford}

abbrev pub generated_len : ℕ
generated_len = 12

-- Generate, on the bytes of crypto/rand
unfoldable pub generate : (ℕ → ℕ) → Text
generate rand = random_crockford generated_len rand

-- IsGeneratedShape: the regular expression ^[0-9a-hjkmnp-tv-z]{12}$
unfoldable pub is_generated_shape : Text → Bool
is_generated_shape s = length s == 12 && all is_crockford s
