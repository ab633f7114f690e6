-- ===== src/Shortcode/Examples.antt =====
-- The theorems on short codes and aliases (internal/shortcode), applied to small texts.
use qurator.Common.{◌≡◌, ◌↔◌, true, none, some, bytes}
use qurator.Shortcode.Generate.{generate, is_generated_shape}
use qurator.Shortcode.Alias.{looks_generated, normalize_alias, validate_alias}
use qurator.Shortcode.Valid.{IsValidAlias, validate_alias-IsValidAlias}
use qurator.Shortcode.Namespace.{generate-looks_generated}

validate_alias-IsValidAlias_example :
    (validate_alias (bytes " Summer-Menu ") ≡ none)
    ↔ IsValidAlias (normalize_alias (bytes " Summer-Menu "))
validate_alias-IsValidAlias_example = validate_alias-IsValidAlias (bytes " Summer-Menu ")

generate-looks_generated_example :
    (is_generated_shape (generate (λ i. 200)) ≡ true)
    × (validate_alias (generate (λ i. 200)) ≡ some looks_generated)
generate-looks_generated_example = generate-looks_generated (λ i. 200)
