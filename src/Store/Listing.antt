-- ===== src/Store/Listing.antt =====
-- memstore.go, ListCodes: one page of a user's codes, newest first, and the cursor to the next one.
pub mod Wanted
pub mod Pages
pub mod Walk
mod Examples
use qurator.Common.{
  ℕ, ◌≡◌, ◌<◌, Bool, true, false, not, ◌&&◌, Option, none, some, List, [], ◌∷◌, ◌++◌, Text, Result,
  ok, err, length, take, filter, sort_by, values, contains, to_lower, is_empty, text_ltb, ltb, ◌==◌,
  text_eq, nat_eq, if◌then◌else◌, all,
}
use qurator.Domain.{Time, Code, CodeFilter, is_deleted}
use qurator.Store.State.{MemStore, Ctx, live, done}

-- What the cursors use of the packages time and encoding/base64. A time before `year_10000` has
-- four digits for its year.
pub record CursorCodec : Type 0 where
  pub year_10000 : Time
  pub format_time : Time → Text
  pub parse_time : Text → Option Time
  pub encode_base64 : Text → Text
  pub decode_base64 : Text → Option Text

-- what their documentation says: a layout with all fields and base64 lose nothing
pub record CursorLaws (k : CursorCodec) : Type 0 where
  pub parse-format : (t : Time) → t < k.year_10000 → k.parse_time (k.format_time t) ≡ some t
  pub format_printable : (t : Time) → all (λ b. not (b == 0)) (k.format_time t) ≡ true
  pub decode-encode : (s : Text) → k.decode_base64 (k.encode_base64 s) ≡ some s
  pub encode-is_empty : (s : Text) → is_empty (k.encode_base64 s) ≡ is_empty s

pub data ListError : Type 0 where
  ended invalid_cursor : ListError

pub record CursorPos : Type 0 where
  pub created_at : Time
  pub id : Text

-- strings.Cut at one byte
unfoldable pub cut : ℕ → Text → Option (Text × Text)
cut b [] = none
cut b (c ∷ s) =
    if c == b
    then some ([], s)
    else elim (cut b s) [ none ↦ none | some (before, rest) ↦ some (c ∷ before, rest) ]

unfoldable pub encode_cursor : CursorCodec → CursorPos → Text
encode_cursor k p = k.encode_base64 (k.format_time p.created_at ++ (0 ∷ p.id))

-- the time and the id that a decoded cursor names
unfoldable pub cursor_pos : CursorCodec → Text × Text → Result ListError CursorPos
cursor_pos k (ts, id) = if is_empty id then err invalid_cursor else elim (k.parse_time ts) [
  | none ↦ err invalid_cursor
  | some at ↦ ok (record { created_at = at; id = id })
]

unfoldable pub decode_cursor : CursorCodec → Text → Result ListError CursorPos
unfolding cut cursor_pos
decode_cursor k s = elim (k.decode_base64 s) [
  | none ↦ err invalid_cursor
  | some raw ↦ elim (cut 0 raw) [ none ↦ err invalid_cursor | some parts ↦ cursor_pos k parts ]
]

-- the order of the listing: the later first, and at one time the larger id first
unfoldable pub newer : Code → Code → Bool
newer c d =
    if not (c.created_at == d.created_at) then ltb d.created_at c.created_at else text_ltb d.id c.id

-- beforeInListing
unfoldable pub before_in_listing : Code → CursorPos → Bool
before_in_listing c p =
    if not (c.created_at == p.created_at) then ltb c.created_at p.created_at else text_ltb c.id p.id

-- the filters of the loop over the rows, but the cursor
unfoldable pub matches : CodeFilter → Code → Bool
matches f c =
    let dest = to_lower f.destination in
    c.user_id == f.user_id
    && not (is_deleted c.state)
    && (elim f.created_after [ none ↦ true | some t ↦ ltb t c.created_at ])
    && (elim f.created_before [ none ↦ true | some t ↦ ltb c.created_at t ])
    && (if is_empty dest then true else contains dest (to_lower c.destination))

unfoldable pub past : Option CursorPos → Code → Bool
unfolding before_in_listing
past none c = true
past (some p) c = before_in_listing c p

-- The sorted rows. No two rows have one id, so the order in which a map is read is of no account.
unfoldable pub listed : CodeFilter → Option CursorPos → MemStore → List Code
unfolding matches past
listed f after m = sort_by newer (filter (λ c. matches f c && past after c) (values m.codes))

unfoldable pub last_of : List Code → Option Code
last_of [] = none
last_of (c ∷ []) = some c
last_of (c ∷ d ∷ cs) = last_of (d ∷ cs)

-- the first rows, with the cursor at the last of them if there are more
unfoldable pub page : CursorCodec → ℕ → List Code → List Code × Text
unfolding last_of encode_cursor
page k limit rows =
    if ltb limit (length rows)
    then (
      take limit rows,
      elim (last_of (take limit rows)) [
        | none ↦ []
        | some c ↦ encode_cursor k (record { created_at = c.created_at; id = c.id })
      ],
    )
    else (rows, [])

-- the limit of a page; the model has no limit below 0, which the code takes for 0
unfoldable pub list_limit : CodeFilter → ℕ
list_limit f = if f.limit == 0 then 50 else f.limit

-- the position that the filter's cursor stands for, if it has one
unfoldable pub start_of : CursorCodec → CodeFilter → Result ListError (Option CursorPos)
unfolding decode_cursor
start_of k f =
    if is_empty f.cursor
    then ok none
    else elim (decode_cursor k f.cursor) [ err e ↦ err e | ok p ↦ ok (some p) ]

-- ListCodes
unfoldable pub list_codes :
    CursorCodec → Ctx → CodeFilter → MemStore → Result ListError (List Code × Text)
unfolding start_of listed page list_limit
list_codes k done f m = err ended
list_codes k live f m = elim (start_of k f) [
  | err e ↦ err e
  | ok after ↦ ok (page k (list_limit f) (listed f after m))
]
