-- ===== src/Codes/Destination.antt =====
-- service.go: validation of destinations. url.Parse is a parameter: `parse_url` returns the parts
-- that the code reads, none for an error.
use qurator.Common.{
  ℕ, Bool, true, false, not, ◌&&◌, ◌||◌, Option, none, some, List, [], ◌∷◌, ◌++◌, Text, bytes,
  is_empty, to_lower, trim_space, has_prefix, rune_count, member, ltb, ◌==◌, nat_eq, text_eq,
  if◌then◌else◌, sort_by, text_ltb,
}

-- what the code reads of a *url.URL: Scheme, Host, Hostname(), Port(), Path
pub record Url : Type 0 where
  pub scheme : Text
  pub host : Text
  pub hostname : Text
  pub port : Text
  pub path : Text

-- the fields of Service that do not change after NewService
pub record Service : Type 0 where
  pub base : Option Url
  pub base_raw : Text
  pub schemes : List Text
  pub parse_url : Text → Option Url
  pub batch_max : ℕ

pub record Config : Type 0 where
  pub base_url : Text
  pub allowed_schemes : List Text
  pub batch_max : ℕ

abbrev pub default_batch_max : ℕ
default_batch_max = 500

-- the keys of the map of schemes
unfoldable pub scheme_set : List Text → List Text
scheme_set [] = []
scheme_set (s ∷ ss) =
    let rest = scheme_set ss in
    let key = to_lower (trim_space s) in if member key rest then rest else key ∷ rest

-- NewService, for these fields: domain.ParseScanOrigin, URL.String and url.Parse are arguments. A
-- configured batch size is 0 or more.
unfoldable pub new_service :
    (Text → Option Url) → (Url → Text) → (Text → Option Url) → Config → Service
unfolding scheme_set
new_service parse_scan_origin url_string parse_url cfg =
    let base = parse_scan_origin cfg.base_url in
    let schemes = scheme_set cfg.allowed_schemes in
    record {
      base = base;
      base_raw = elim base [ none ↦ [] | some u ↦ url_string u ];
      schemes = elim schemes [ [] ↦ bytes "http" ∷ bytes "https" ∷ [] | s ∷ ss ↦ s ∷ ss ];
      parse_url = parse_url;
      batch_max = if cfg.batch_max == 0 then default_batch_max else cfg.batch_max;
    }

pub data DestinationError : Type 0 where
  invalid_destination destination_too_long self_referential : DestinationError
  unsupported_scheme : Text → List Text → DestinationError

abbrev pub max_destination_length : ℕ
max_destination_length = 2048

-- the segments of a path between its slashes
unfoldable pub segments : Text → Text → List Text
segments acc [] = acc ∷ []
segments acc (c ∷ s) = if c == b'/' then acc ∷ segments [] s else segments (acc ++ (c ∷ [])) s

abbrev pop : List Text → List Text
pop [] = []
pop (s ∷ stack) = stack

-- path.Clean of a rooted path, on its segments: the stack holds the last segment first
unfoldable pub clean_segments : List Text → List Text → List Text
clean_segments stack [] = stack
clean_segments stack (s ∷ ss) =
    clean_segments
      (if is_empty s || s == bytes "."
        then stack
        else if s == bytes ".."
        then pop stack
        else s ∷ stack)
      ss

unfoldable pub join_rooted : List Text → Text
join_rooted [] = []
join_rooted (s ∷ stack) = join_rooted stack ++ (b'/' ∷ s)

-- path.Clean("/" + p)
unfoldable pub clean_rooted : Text → Text
unfolding segments clean_segments join_rooted
clean_rooted p =
    let out = join_rooted (clean_segments [] (segments [] p)) in
    if is_empty out then bytes "/" else out

unfoldable pub effective_port : Url → Text
effective_port u =
    let scheme = to_lower u.scheme in
    if not (is_empty u.port)
    then u.port
    else if scheme == bytes "http" || is_empty scheme
    then bytes "80"
    else if scheme == bytes "https"
    then bytes "443"
    else []

-- sameOrigin; strings.EqualFold is equality of the lower-case texts
unfoldable pub same_origin : Url → Url → Bool
same_origin a b =
    let pa = if is_empty a.scheme && is_empty a.port then effective_port b else effective_port a in
    if not (to_lower a.hostname == to_lower b.hostname) then false else pa == effective_port b

unfoldable pub on_scan_path : Url → Bool
on_scan_path u =
    let p = to_lower (clean_rooted u.path) in p == bytes "/r" || has_prefix (bytes "/r/") p

unfoldable pub is_self_referential : Service → Url → Bool
is_self_referential s u =
    if not (on_scan_path u)
    then false
    else if is_empty u.host
    then true
    else elim (s.base) [ none ↦ false | some b ↦ same_origin u b ]

-- AllowedSchemes, sorted for the error details
unfoldable pub allowed_schemes : Service → List Text
allowed_schemes s = sort_by text_ltb s.schemes

unfoldable pub check_url : Service → Url → Option DestinationError
check_url s u =
    let scheme = to_lower u.scheme in
    if is_self_referential s u
    then some self_referential
    else if not (member scheme s.schemes)
    then some (unsupported_scheme scheme (allowed_schemes s))
    else if is_empty u.host
    then some invalid_destination
    else none

unfoldable pub validate_destination : Service → Text → Option DestinationError
validate_destination s raw =
    let d = trim_space raw in
    if is_empty d
    then some invalid_destination
    else if ltb max_destination_length (rune_count d)
    then some destination_too_long
    else elim (s.parse_url d) [ none ↦ some invalid_destination | some u ↦ check_url s u ]
