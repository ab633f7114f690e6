-- ===== src/Common/Sorting.antt =====
-- Lists in strict order: what sorting by a strict order gives, and what a filter leaves of it.
use Prim.Native.Nat.{suc}
use mathlib.Core.Path.{◌≡◌, refl, ap, ◌∙◌}
use mathlib.Core.Logic.{◌⊎◌, inl, inr}
use mathlib.Core.Bool.{Bool, true, false, ◌&&◌}
use mathlib.Core.List.{List, [], ◌∷◌, ◌++◌}
use native.Mathlib.Omega.{arith}
use qurator.Common.Tests.{Bool-cases, if◌then◌else◌}
use qurator.Common.Strings.{Text, text_ltb}
use qurator.Common.Lists.{length, filter, insert_by, sort_by, All, In, here, there}

module _ {ℓ} {A : Type ℓ} (less : A → A → Bool) where
  -- each element before all that follow it
  abbrev pub Ascending : List A → Type 0
  Ascending [] = Unit
  Ascending (x ∷ xs) = All (λ y. less x y ≡ true) xs × Ascending xs

  -- any two are in order, one way or the other
  abbrev pub Comparable : A → List A → Type 0
  Comparable a xs = All (λ y. (less a y ≡ true) ⊎ (less y a ≡ true)) xs

  abbrev pub Apart : List A → Type 0
  Apart [] = Unit
  Apart (x ∷ xs) = Comparable x xs × Apart xs

  module _ (less_trans : (a b c : A) → less a b ≡ true → less b c ≡ true → less a c ≡ true)
      (less_asym : (a b : A) → less a b ≡ true → less b a ≡ false) where
    All-less_trans :
        (a x : A) (xs : List A)
        → less a x ≡ true
        → All (λ y. less x y ≡ true) xs
        → All (λ y. less a y ≡ true) xs
    All-less_trans a x [] l h = tt
    All-less_trans a x (y ∷ xs) l (k, h) = (less_trans a x y l k, All-less_trans a x xs l h)

    All-insert_by {κ} :
        (P : A → Type κ) (a : A) (xs : List A) → P a → All P xs → All P (insert_by less a xs)
    unfolding insert_by
    All-insert_by P a [] p h = (p, tt)
    All-insert_by P a (x ∷ xs) p (q, h) = elim (Bool-cases (less x a)) [
      | inl t ↦ rw t (q, All-insert_by P a xs p h)
      | inr f ↦ rw f (p, (q, h))
    ]

    insert_by-Ascending :
        (a : A) (xs : List A) → Comparable a xs → Ascending xs → Ascending (insert_by less a xs)
    unfolding insert_by
    insert_by-Ascending a [] c h = (tt, tt)
    insert_by-Ascending a (x ∷ xs) (o, c) (k, h) = elim (Bool-cases (less x a)) [
      | inl t ↦ rw t (All-insert_by (λ y. less x y ≡ true) a xs t k, insert_by-Ascending a xs c h)
      | inr f ↦
          let l : less a x ≡ true = elim o [ inl l ↦ l | inr r ↦ absurd (ground arith) ] in
          rw f ((l, All-less_trans a x xs l k), (k, h))
    ]

    All-sort_by {κ} : (P : A → Type κ) (xs : List A) → All P xs → All P (sort_by less xs)
    unfolding sort_by
    All-sort_by P [] h = tt
    All-sort_by P (x ∷ xs) (p, h) = All-insert_by P x (sort_by less xs) p (All-sort_by P xs h)

    pub sort_by-Ascending : (xs : List A) → Apart xs → Ascending (sort_by less xs)
    unfolding sort_by
    sort_by-Ascending [] h = tt
    sort_by-Ascending (x ∷ xs) (c, h) =
        insert_by-Ascending x (sort_by less xs) (All-sort_by _ xs c) (sort_by-Ascending xs h)

    filter_none : (p : A → Bool) (xs : List A) → All (λ y. p y ≡ false) xs → filter p xs ≡ []
    unfolding filter
    filter_none p [] h = refl
    filter_none p (x ∷ xs) (q, h) = rw (q, filter_none p xs h)

    filter-All : (p : A → Bool) (xs : List A) → All (λ y. p y ≡ true) xs → filter p xs ≡ xs
    unfolding filter
    filter-All p [] h = refl
    filter-All p (x ∷ xs) (q, h) = rw (q, filter-All p xs h)

    -- an element that stands before all of a list is put in front of what a filter leaves of it
    insert_by_first :
        (p : A → Bool) (a : A) (xs : List A)
        → All (λ y. less a y ≡ true) xs
        → insert_by less a (filter p xs) ≡ a ∷ filter p xs
    unfolding insert_by filter
    insert_by_first p a [] h = refl
    insert_by_first p a (x ∷ xs) (l, h) = elim (Bool-cases (p x)) [
      | inl t ↦ rw (t, less_asym a x l) refl
      | inr f ↦ rw f (insert_by_first p a xs h)
    ]

    filter-insert_by :
        (p : A → Bool) (a : A) (xs : List A)
        → Comparable a xs
        → Ascending xs
        → filter p (insert_by less a xs)
          ≡ (if p a then insert_by less a (filter p xs) else filter p xs)
    unfolding insert_by filter
    filter-insert_by p a [] c h = ground arith
    filter-insert_by p a (x ∷ xs) (o, c) (k, h) = elim (Bool-cases (less x a)) [
      | inl t ↦ ground (arith, filter-insert_by p a xs c h)
      | inr f ↦
          let l : less a x ≡ true = elim o [ inl l ↦ l | inr r ↦ absurd (ground arith) ] in
          ground (arith, insert_by_first p a xs (All-less_trans a x xs l k))
    ]

    -- Sorting and filtering commute.
    pub filter-sort_by :
        (p : A → Bool) (xs : List A)
        → Apart xs
        → filter p (sort_by less xs) ≡ sort_by less (filter p xs)
    unfolding filter sort_by
    filter-sort_by p [] h = refl
    filter-sort_by p (x ∷ xs) (c, h) = ground (
      arith,
      filter-insert_by p x (sort_by less xs) (All-sort_by _ xs c) (sort_by-Ascending xs h),
      filter-sort_by p xs h,
    )

    All-middle {κ} : (P : A → Type κ) (pre post : List A) (a : A) → All P (pre ++ (a ∷ post)) → P a
    All-middle P [] post a h = h.0
    All-middle P (x ∷ pre) post a h = All-middle P pre post a h.1

    -- What comes after an element of a list in order is the rest of the list.
    pub filter_rest :
        (pre post : List A) (a : A)
        → Ascending (pre ++ (a ∷ post))
        → filter (λ y. less a y) (pre ++ (a ∷ post)) ≡ post
    unfolding filter
    filter_rest [] post a (k, h) =
        let s : less a a ≡ false = elim (Bool-cases (less a a)) [
          | inl t ↦ less_asym a a t
          | inr f ↦ f
        ] in
        rw s (filter-All (λ y. less a y) post k)
    filter_rest (x ∷ pre) post a (k, h) =
        rw (less_asym x a (All-middle _ pre post a k)) (filter_rest pre post a h)

module _ {ℓ} {A : Type ℓ} where
  In-swapped :
      {b x y : A} {xs ys : List A} → (In b (x ∷ xs) → In b ys) → In b (x ∷ y ∷ xs) → In b (y ∷ ys)
  In-swapped f here = there (f here)
  In-swapped f (there here) = here
  In-swapped f (there (there i)) = there (f (there i))

  one_down : {b x y : A} {xs : List A} → In b (x ∷ xs) → In b (x ∷ y ∷ xs)
  one_down here = here
  one_down (there i) = there (there i)

  of_swapped :
      {b x y : A} {xs ys : List A} → (In b ys → In b (x ∷ xs)) → In b (y ∷ ys) → In b (x ∷ y ∷ xs)
  of_swapped f here = there here
  of_swapped f (there i) = one_down (f i)

  In-tail : {b x : A} {xs ys : List A} → (In b xs → In b ys) → In b (x ∷ xs) → In b (x ∷ ys)
  In-tail f here = here
  In-tail f (there i) = there (f i)

  module _ (less : A → A → Bool) where
    In-insert_by : {b : A} (a : A) (xs : List A) → In b (a ∷ xs) → In b (insert_by less a xs)
    unfolding insert_by
    In-insert_by a [] i = i
    In-insert_by a (x ∷ xs) i = elim (Bool-cases (less x a)) [
      | inl t ↦ rw t (In-swapped (In-insert_by a xs) i)
      | inr f ↦ rw f i
    ]

    of_insert_by : {b : A} (a : A) (xs : List A) → In b (insert_by less a xs) → In b (a ∷ xs)
    unfolding insert_by
    of_insert_by a [] i = i
    of_insert_by a (x ∷ xs) i = elim (Bool-cases (less x a)) [
      | inl t ↦ of_swapped (of_insert_by a xs) (rw t at i)
      | inr f ↦ rw f at i
    ]

    -- Sorting keeps the elements.
    pub In-sort_by : {b : A} (xs : List A) → In b xs → In b (sort_by less xs)
    unfolding sort_by
    In-sort_by [] i = i
    In-sort_by (x ∷ xs) here = In-insert_by x (sort_by less xs) here
    In-sort_by (x ∷ xs) (there i) = In-insert_by x (sort_by less xs) (there (In-sort_by xs i))

    pub of_sort_by : {b : A} (xs : List A) → In b (sort_by less xs) → In b xs
    unfolding sort_by
    of_sort_by [] i = i
    of_sort_by (x ∷ xs) i = In-tail (of_sort_by xs) (of_insert_by x (sort_by less xs) i)

  pub In-filter : (p : A → Bool) {b : A} (xs : List A) → In b xs → p b ≡ true → In b (filter p xs)
  unfolding filter
  In-filter p [] i t = i
  In-filter p (x ∷ xs) here t = rw t here
  In-filter p (x ∷ xs) (there i) t = elim (Bool-cases (p x)) [
    | inl u ↦ rw u (there (In-filter p xs i t))
    | inr u ↦ rw u (In-filter p xs i t)
  ]

  passed_tail :
      (p : A → Bool) {b x : A} {xs ys : List A}
      → p x ≡ true
      → (In b xs → In b ys × (p b ≡ true))
      → In b (x ∷ xs)
      → In b (x ∷ ys) × (p b ≡ true)
  passed_tail p u f here = (here, u)
  passed_tail p u f (there i) = let (j, t) = f i in (there j, t)

  pub of_filter : (p : A → Bool) {b : A} (xs : List A) → In b (filter p xs) → In b xs × (p b ≡ true)
  unfolding filter
  of_filter p [] i = elim i [ ]
  of_filter p (x ∷ xs) i = elim (Bool-cases (p x)) [
    | inl u ↦ passed_tail p u (of_filter p xs) (rw u at i)
    | inr u ↦ let (l, t) = of_filter p xs (rw u at i) in (there l, t)
  ]

pub text_ltb_trans :
    (s t u : Text) → text_ltb s t ≡ true → text_ltb t u ≡ true → text_ltb s u ≡ true
unfolding text_ltb
text_ltb_trans [] [] [] p q = p
text_ltb_trans [] (b ∷ t) [] p q = q
text_ltb_trans [] t (c ∷ u) p q = refl
text_ltb_trans (a ∷ s) [] u p q = absurd (ground arith)
text_ltb_trans (a ∷ s) (b ∷ t) [] p q = absurd (ground arith)
text_ltb_trans (a ∷ s) (b ∷ t) (c ∷ u) p q = ground (arith, text_ltb_trans s t u)

pub text_ltb_asym : (s t : Text) → text_ltb s t ≡ true → text_ltb t s ≡ false
unfolding text_ltb
text_ltb_asym [] [] p = refl
text_ltb_asym [] (b ∷ t) p = refl
text_ltb_asym (a ∷ s) [] p = absurd (ground arith)
text_ltb_asym (a ∷ s) (b ∷ t) p = ground (arith, text_ltb_asym s t)

pub text_ltb_total : (s t : Text) → text_ltb s t ≡ false → text_ltb t s ≡ false → s ≡ t
unfolding text_ltb
text_ltb_total [] [] p q = refl
text_ltb_total [] (b ∷ t) p q = absurd (ground arith)
text_ltb_total (a ∷ s) [] p q = absurd (ground arith)
text_ltb_total (a ∷ s) (b ∷ t) p q = ground (arith, text_ltb_total s t)

module _ {ℓ} {A : Type ℓ} where
  pub filter_both :
      (p q : A → Bool) (xs : List A) → filter q (filter p xs) ≡ filter (λ x. p x && q x) xs
  unfolding filter
  filter_both p q [] = refl
  filter_both p q (x ∷ xs) = ground (arith, filter_both p q xs)

  pub filter_congr :
      (p q : A → Bool) → ((x : A) → p x ≡ q x) → (xs : List A) → filter p xs ≡ filter q xs
  unfolding filter
  filter_congr p q h [] = refl
  filter_congr p q h (x ∷ xs) = ground (arith, h x, filter_congr p q h xs)

  pub All-filter {κ} :
      (P : A → Type κ) (p : A → Bool) (xs : List A) → All P xs → All P (filter p xs)
  unfolding filter
  All-filter P p [] h = tt
  All-filter P p (x ∷ xs) (q, h) = elim (Bool-cases (p x)) [
    | inl t ↦ rw t (q, All-filter P p xs h)
    | inr f ↦ rw f (All-filter P p xs h)
  ]

  pub filter-Apart :
      (less : A → A → Bool) (p : A → Bool) (xs : List A) → Apart less xs → Apart less (filter p xs)
  unfolding filter
  filter-Apart less p [] h = tt
  filter-Apart less p (x ∷ xs) (c, h) = elim (Bool-cases (p x)) [
    | inl t ↦ rw t (All-filter _ p xs c, filter-Apart less p xs h)
    | inr f ↦ rw f (filter-Apart less p xs h)
  ]

  pub In-middle : (pre post : List A) (a : A) → In a (pre ++ (a ∷ post))
  In-middle [] post a = here
  In-middle (x ∷ pre) post a = there (In-middle pre post a)

  length-insert_by :
      (less : A → A → Bool) (a : A) (xs : List A) → length (insert_by less a xs) ≡ suc (length xs)
  unfolding insert_by
  length-insert_by less a [] = refl
  length-insert_by less a (x ∷ xs) = ground (arith, length-insert_by less a xs)

  pub length-sort_by : (less : A → A → Bool) (xs : List A) → length (sort_by less xs) ≡ length xs
  unfolding sort_by
  length-sort_by less [] = refl
  length-sort_by less (x ∷ xs) =
      length-insert_by less x (sort_by less xs) ∙ ap suc (length-sort_by less xs)
