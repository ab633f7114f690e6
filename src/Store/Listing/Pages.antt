-- ===== src/Store/Listing/Pages.antt =====
-- The order of a listing is strict, a cursor leads back to its row, and a page after a row is the
-- rest of the listing.
use qurator.Common.{
  ℕ, zero, suc, ◌<◌, ◌≡◌, ◌≢◌, ◌⊎◌, refl, ap, sym, ◌∙◌, true, false, not, ◌&&◌, none, some, List,
  [], ◌∷◌, ◌++◌, Text, ok, length, take, filter, sort_by, Dict, values, Distinct, is_empty,
  text_ltb_trans, text_ltb_asym, text_ltb_total, ◌==◌, text_eq, nat_eq, all, All, arith, Apart,
  Ascending, sort_by-Ascending, filter-sort_by, filter_rest, filter_both, filter_congr,
  filter-Apart, nat_beq_iff,
}
use mathlib.Core.Path.{subst}
use qurator.Domain.{Code, CodeFilter}
use qurator.Store.State.{MemStore}
use qurator.Store.Rows.{OwnId, values-Apart}
use qurator.Store.Listing.{
  CursorCodec, CursorLaws, CursorPos, cut, encode_cursor, cursor_pos, decode_cursor, newer,
  before_in_listing, matches, past, listed, last_of,
}

pub newer_trans : (a b c : Code) → newer a b ≡ true → newer b c ≡ true → newer a c ≡ true
unfolding newer
newer_trans a b c p q = ground (
  arith,
  nat_beq_iff a.created_at b.created_at,
  nat_beq_iff b.created_at c.created_at,
  nat_beq_iff a.created_at c.created_at,
  text_ltb_trans c.id b.id a.id,
)

pub newer_asym : (a b : Code) → newer a b ≡ true → newer b a ≡ false
unfolding newer
newer_asym a b p = ground (arith, text_ltb_asym b.id a.id)

newer_comparable : (a b : Code) → a.id ≢ b.id → (newer a b ≡ true) ⊎ (newer b a ≡ true)
unfolding newer
newer_comparable a b n = ground (arith, text_ltb_total a.id b.id, λ (e : a.id ≡ b.id). n e)

-- A row that can be listed: it stands under its id, and the cursors can write its time.
pub record Listable (k : CursorCodec) (row : Text × Code) : Type 0 where
  pub code_id : row.1.id ≡ row.0
  pub named : is_empty row.1.id ≡ false
  pub timely : row.1.created_at < k.year_10000

Listable-OwnId : (k : CursorCodec) (m : Dict Text Code) → All (Listable k) m → All OwnId m
Listable-OwnId k [] h = tt
Listable-OwnId k (row ∷ m) (l, h) = (l.code_id, Listable-OwnId k m h)

rows-Apart :
    (k : CursorCodec) (m : Dict Text Code)
    → Distinct m
    → All (Listable k) m
    → Apart newer (values m)
rows-Apart k m d h = values-Apart newer newer_comparable m d (Listable-OwnId k m h)

cut-append : (s t : Text) → all (λ b. not (b == 0)) s ≡ true → cut 0 (s ++ (0 ∷ t)) ≡ some (s, t)
unfolding cut
cut-append [] t h = refl
cut-append (b ∷ s) t h = ground (arith, cut-append s t)

-- A cursor that was handed out is read back as the position of its row: the id is not empty, and the
-- year of the time has four digits.
pub decode_cursor-encode_cursor :
    (k : CursorCodec) (laws : CursorLaws k) (p : CursorPos)
    → p.created_at < k.year_10000
    → is_empty p.id ≡ false
    → decode_cursor k (encode_cursor k p) ≡ ok p
unfolding decode_cursor encode_cursor cursor_pos
decode_cursor-encode_cursor k laws p t n = ground (
  arith,
  laws.decode-encode (k.format_time p.created_at ++ (0 ∷ p.id)),
  cut-append (k.format_time p.created_at) p.id (laws.format_printable p.created_at),
  laws.parse-format p.created_at t,
)

abbrev pub place : Code → CursorPos
place c = record { created_at = c.created_at; id = c.id }

before-newer : (a c : Code) → before_in_listing c (place a) ≡ newer a c
unfolding before_in_listing newer
before-newer a c =
    ground (arith, nat_beq_iff a.created_at c.created_at, nat_beq_iff c.created_at a.created_at)

module _ (k : CursorCodec) (f : CodeFilter) (m : MemStore) (d : Distinct m.codes)
    (rows : All (Listable k) m.codes) where
  pub listed-Ascending : Ascending newer (listed f none m)
  unfolding listed
  listed-Ascending =
      sort_by-Ascending newer newer_trans newer_asym _
        (filter-Apart newer _ (values m.codes) (rows-Apart k m.codes d rows))

  -- The rows past a row of the listing are those that follow it there.
  pub listed-past :
      (pre post : List Code) (a : Code)
      → listed f none m ≡ pre ++ (a ∷ post)
      → listed f (some (place a)) m ≡ post
  unfolding listed past
  listed-past pre post a e =
      ap (sort_by newer) (filter_congr _ _ (λ c. ground (arith, before-newer a c)) (values m.codes))
      ∙ ap (sort_by newer) (sym (filter_both (λ c. matches f c && true) (newer a) (values m.codes)))
      ∙ sym (
          filter-sort_by newer newer_trans newer_asym (newer a) _
            (filter-Apart newer _ (values m.codes) (rows-Apart k m.codes d rows)))
      ∙ ap (filter (newer a)) e
      ∙ filter_rest newer newer_trans newer_asym pre post a
          (subst (Ascending newer) e listed-Ascending)

-- A full page ends with a row, and the rest of the rows follow that one.
pub page_split :
    (n : ℕ) (rows : List Code)
    → n < length rows
    → (pre : List Code) × (a : Code) × (post : List Code) × (rows ≡ pre ++ (a ∷ post))
      × (take (suc n) rows ≡ pre ++ (a ∷ []))
      × (last_of (take (suc n) rows) ≡ some a)
unfolding last_of
page_split n [] h = absurd (omega arith)
page_split zero (c ∷ rows) h = ([], c, rows, refl, refl, refl)
page_split (suc n) (c ∷ []) h = absurd (omega arith)
page_split (suc n) (c ∷ d ∷ rows) h =
    let (pre, a, post, e, t, l) = page_split n (d ∷ rows) (omega arith) in
    (c ∷ pre, a, post, ap (◌∷◌ c) e, ap (◌∷◌ c) t, l)
