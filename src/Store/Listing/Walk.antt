-- ===== src/Store/Listing/Walk.antt =====
-- A client that asks for page after page, as the cursors tell it, sees the whole listing.
use mathlib.Core.Path.{subst}
use qurator.Common.{
  ℕ, zero, suc, ◌≤◌, ◌<◌, ◌≡◌, ◌↔◌, inl, inr, refl, ap, sym, ◌∙◌, true, false, ◌&&◌, Option, none,
  some, List, [], ◌∷◌, ◌++◌, Text, ok, err, length, length-append, length-sort_by, length-filter-le,
  take, filter, Dict, values, Distinct, is_empty, ltb, ◌==◌, text_eq, nat_eq, if◌then◌else◌, All,
  All-in, In, Bool-cases, arith, Ascending, In-middle, of_sort_by, of_filter, In-sort_by, In-filter,
}
use qurator.Domain.{Code, CodeFilter}
use qurator.Store.State.{MemStore, live}
use qurator.Store.Listing.{
  CursorCodec, CursorLaws, CursorPos, encode_cursor, newer, matches, past, listed, last_of, page,
  list_limit, start_of, list_codes,
}
use qurator.Store.Listing.Wanted.{Wanted, matches→Wanted, Wanted→matches}
use qurator.Store.Listing.Pages.{
  Listable, decode_cursor-encode_cursor, place, listed-Ascending, listed-past, page_split,
}

-- all the rows that a client collects in so many pages, none where that is not enough
unfoldable pub walk : CursorCodec → ℕ → CodeFilter → MemStore → Option (List Code)
walk k zero f m = none
walk k (suc fuel) f m = elim (list_codes k live f m) [
  | err e ↦ none
  | ok (rows, next) ↦ elim (is_empty next) [
    | true ↦ some rows
    | false ↦ elim (walk k fuel (record f { cursor = next }) m) [
      | none ↦ none
      | some rest ↦ some (rows ++ rest)
    ]
  ]
]

encode_cursor-is_empty :
    (k : CursorCodec) (laws : CursorLaws k) (p : CursorPos) → is_empty (encode_cursor k p) ≡ false
unfolding encode_cursor
encode_cursor-is_empty k laws p =
    laws.encode-is_empty (k.format_time p.created_at ++ (0 ∷ p.id))
    ∙ nonempty (k.format_time p.created_at) p.id
  where
    nonempty : (s t : Text) → is_empty (s ++ (0 ∷ t)) ≡ false
    nonempty [] t = refl
    nonempty (b ∷ s) t = refl

list_limit_positive : (f : CodeFilter) → (n : ℕ) × (list_limit f ≡ suc n)
unfolding list_limit
list_limit_positive f = limit_of f.limit
  where
    limit_of : (l : ℕ) → (n : ℕ) × ((if l == 0 then 50 else l) ≡ suc n)
    limit_of zero = (49, refl)
    limit_of (suc n) = (n, ground arith)

append_middle :
    (us pre post : List Code) (a : Code) → us ++ (pre ++ (a ∷ post)) ≡ (us ++ pre) ++ (a ∷ post)
append_middle [] pre post a = refl
append_middle (u ∷ us) pre post a = ap (◌∷◌ u) (append_middle us pre post a)

append_one : (pre post : List Code) (a : Code) → (pre ++ (a ∷ [])) ++ post ≡ pre ++ (a ∷ post)
append_one [] post a = refl
append_one (x ∷ pre) post a = ap (◌∷◌ x) (append_one pre post a)

start_without : (k : CursorCodec) (f : CodeFilter) → f.cursor ≡ [] → start_of k f ≡ ok none
unfolding start_of
start_without k f e = ground arith

module _ (k : CursorCodec) (laws : CursorLaws k) (m : MemStore) (d : Distinct m.codes)
    (rows : All (Listable k) m.codes) where
  last_page :
      (fuel : ℕ) (f : CodeFilter) (after : Option CursorPos)
      → start_of k f ≡ ok after
      → ltb (list_limit f) (length (listed f after m)) ≡ false
      → walk k (suc fuel) f m ≡ some (listed f after m)
  unfolding walk list_codes page
  last_page fuel f after s l = ground arith

  more_pages :
      (fuel : ℕ) (f : CodeFilter) (after : Option CursorPos) (n : ℕ) (pre : List Code) (a : Code)
      (rest : List Code)
      → start_of k f ≡ ok after
      → list_limit f ≡ suc n
      → suc n < length (listed f after m)
      → take (suc n) (listed f after m) ≡ pre ++ (a ∷ [])
      → last_of (take (suc n) (listed f after m)) ≡ some a
      → walk k fuel (record f { cursor = encode_cursor k (place a) }) m ≡ some rest
      → walk k (suc fuel) f m ≡ some ((pre ++ (a ∷ [])) ++ rest)
  unfolding walk list_codes page
  more_pages fuel f after n pre a rest s l more t last w =
      ground (arith, encode_cursor-is_empty k laws (place a))

  timely_row :
      (f : CodeFilter) (pre post : List Code) (a : Code)
      → listed f none m ≡ pre ++ (a ∷ post)
      → (a.created_at < k.year_10000) × (is_empty a.id ≡ false)
  unfolding listed
  timely_row f pre post a e =
      All-in (λ c. (c.created_at < k.year_10000) × (is_empty c.id ≡ false))
        (of_filter _ (values m.codes)
          (of_sort_by newer _ (subst (In a) (sym e) (In-middle pre post a)))).0
        (All-values m.codes rows)
    where
      All-values :
          (t : Dict Text Code)
          → All (Listable k) t
          → All (λ c. (c.created_at < k.year_10000) × (is_empty c.id ≡ false)) (values t)
      All-values [] h = tt
      All-values ((id, c) ∷ t) (l, h) = ((l.timely, l.named), All-values t h)

  resumed :
      (f : CodeFilter) (pre post : List Code) (a : Code)
      → listed f none m ≡ pre ++ (a ∷ post)
      → start_of k (record f { cursor = encode_cursor k (place a) }) ≡ ok (some (place a))
  unfolding start_of
  resumed f pre post a e =
      let (t, n) = timely_row f pre post a e in
      ground (
        arith,
        encode_cursor-is_empty k laws (place a),
        decode_cursor-encode_cursor k laws (place a) t n,
      )

  next_listed :
      (f : CodeFilter) (next : Text) (after : Option CursorPos)
      → listed (record f { cursor = next }) after m ≡ listed f after m
  unfolding listed matches
  next_listed f next after = refl

  -- from a place in the listing on, with what stands before it
  walk_from :
      (fuel : ℕ) (f : CodeFilter) (after : Option CursorPos) (seen : List Code)
      → start_of k f ≡ ok after
      → listed f none m ≡ seen ++ listed f after m
      → length (listed f after m) < fuel
      → walk k fuel f m ≡ some (listed f after m)
  walk_from zero f after seen s e l = absurd (omega arith)
  walk_from (suc fuel) f after seen s e l =
      elim (Bool-cases (ltb (list_limit f) (length (listed f after m)))) [
        | inr stop ↦ last_page fuel f after s stop
        | inl more ↦
            let (n, b) = list_limit_positive f in
            let longer : suc n < length (listed f after m) = ground (arith, b) in
            let (pre, a, post, split, full, last) =
              page_split n (listed f after m) (omega (arith, longer)) in
            let whole : listed f none m ≡ (seen ++ pre) ++ (a ∷ post) =
              e ∙ ap (λ t. seen ++ t) split ∙ append_middle seen pre post a in
            let tail : listed f (some (place a)) m ≡ post =
              listed-past k f m d rows (seen ++ pre) post a whole in
            let next = encode_cursor k (place a) in
            let left : listed (record f { cursor = next }) (some (place a)) m ≡ post =
              next_listed f next (some (place a)) ∙ tail in
            more_pages fuel f after n pre a post s b longer full last (
              walk_from fuel (record f { cursor = next }) (some (place a))
                ((seen ++ pre) ++ (a ∷ [])) (resumed f (seen ++ pre) post a whole)
                (next_listed f next none
                  ∙ whole
                  ∙ sym (append_one (seen ++ pre) post a)
                  ∙ ap (λ t. ((seen ++ pre) ++ (a ∷ [])) ++ t) (sym left))
                (omega (arith, ap length left, ap length split, length-append pre (a ∷ post)))
              ∙ ap some left)
            ∙ ap some (append_one pre post a ∙ sym split)
      ]

of_listed :
    (f : CodeFilter) (m : MemStore) (c : Code)
    → In c (listed f none m)
    → In c (values m.codes) × Wanted f c
unfolding listed past
of_listed f m c i =
    let (j, h) = of_filter _ (values m.codes) (of_sort_by newer _ i) in
    (j, matches→Wanted f c (ground arith))

In-listed :
    (f : CodeFilter) (m : MemStore) (c : Code)
    → In c (values m.codes) × Wanted f c
    → In c (listed f none m)
unfolding listed past
In-listed f m c (i, w) =
    In-sort_by newer _ (In-filter _ (values m.codes) i (ground (arith, Wanted→matches f c w)))

length-listed-le :
    (f : CodeFilter) (m : MemStore) → length (listed f none m) ≤ length (values m.codes)
unfolding listed
length-listed-le f m =
    let kept = filter (λ c. matches f c && past none c) (values m.codes) in
    omega (
      arith,
      length-sort_by newer kept,
      length-filter-le (λ c. matches f c && past none c) (values m.codes),
    )

-- A client that starts without a cursor and follows the cursors, in a store that does not change
-- meanwhile, collects the rows that its filter asks for, each of them, and no other, in strict order
-- from the newest to the oldest, so none twice; one page more than there are rows is enough. Each row
-- of the store stands under its id, which is not empty, and the years of the times have four digits.
pub walk_complete :
    (k : CursorCodec) (laws : CursorLaws k) (m : MemStore)
    → Distinct m.codes
    → All (Listable k) m.codes
    → (fuel : ℕ) (f : CodeFilter) → f.cursor ≡ []
    → length (values m.codes) < fuel
    → (out : List Code) × (walk k fuel f m ≡ some out)
      × Ascending newer out
      × ((c : Code) → In c out ↔ (In c (values m.codes) × Wanted f c))
walk_complete k laws m d rows fuel f e l = (
  listed f none m,
  walk_from k laws m d rows fuel f none [] (start_without k f e) refl
      (omega (arith, l, length-listed-le f m)),
  listed-Ascending k f m d rows,
  λ c. (of_listed f m c, In-listed f m c),
)
