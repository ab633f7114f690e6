-- ===== src/Shortcode/Alias.antt =====
-- internal/shortcode/alias.go. The errors that wrap ErrAliasInvalid are the constructors of a type.
use qurator.Common.{
  ℕ, ◌-◌, Bool, not, ◌&&◌, ◌||◌, Option, none, some, Text, bytes, length, get_or, all, contains,
  to_lower, trim_space, leb, ltb, ◌==◌, nat_eq, if◌then◌else◌,
}
use qurator.Shortcode.Generate.{is_generated_shape}
use qurator.Shortcode.Reserved.{is_reserved}

pub data AliasError : Type 0 where
  too_short too_long bad_char bad_edge double_hyphen reserved_word looks_generated : AliasError

abbrev pub alias_min_len : ℕ
alias_min_len = 3

abbrev pub alias_max_len : ℕ
alias_max_len = 64

unfoldable pub is_alphanumeric : ℕ → Bool
is_alphanumeric c = (leb b'a' c && leb c b'z') || (leb b'0' c && leb c b'9')

unfoldable pub is_alias_char : ℕ → Bool
unfolding is_alphanumeric
is_alias_char c = is_alphanumeric c || c == b'-'

unfoldable pub normalize_alias : Text → Text
normalize_alias s = to_lower (trim_space s)

-- the checks of ValidateAlias after its first line, which normalises
unfoldable pub check_alias : Text → Option AliasError
check_alias a =
    if ltb (length a) alias_min_len
    then some too_short
    else if ltb alias_max_len (length a)
    then some too_long
    else if not (all is_alias_char a)
    then some bad_char
    else if not (is_alphanumeric (get_or a 0 0))
        || not (is_alphanumeric (get_or a (length a - 1) 0))
    then some bad_edge
    else if contains (bytes "--") a
    then some double_hyphen
    else if is_reserved a
    then some reserved_word
    else if is_generated_shape a
    then some looks_generated
    else none

unfoldable pub validate_alias : Text → Option AliasError
unfolding check_alias normalize_alias
validate_alias s = check_alias (normalize_alias s)
