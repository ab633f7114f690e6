-- ===== src/Common/Lists.antt =====
-- Lists measured by native numbers, under the library's names, with predicates by recursion.
use Prim.Native.Nat.{ℕ, zero, suc, ◌+◌, ◌≤◌, ◌<◌}
use mathlib.Core.Path.{◌≡◌, refl, ap}
use mathlib.Core.Bool.{Bool, true, false, ◌&&◌, ◌||◌}
use mathlib.Core.List.{List, [], ◌∷◌, ◌++◌}
use native.Mathlib.Omega.{arith}
use qurator.Common.Tests.{if◌then◌else◌}

module _ {ℓ} {A : Type ℓ} where
  abbrev pub length : List A → ℕ
  length [] = 0
  length (x ∷ xs) = suc (length xs)

  abbrev pub take : ℕ → List A → List A
  take zero xs = []
  take (suc n) [] = []
  take (suc n) (x ∷ xs) = x ∷ take n xs

  abbrev pub drop : ℕ → List A → List A
  drop zero xs = xs
  drop (suc n) [] = []
  drop (suc n) (x ∷ xs) = drop n xs

  abbrev pub get_or : List A → ℕ → A → A
  get_or [] i d = d
  get_or (x ∷ xs) zero d = x
  get_or (x ∷ xs) (suc i) d = get_or xs i d

  abbrev pub all : (A → Bool) → List A → Bool
  all p [] = true
  all p (x ∷ xs) = p x && all p xs

  abbrev pub any : (A → Bool) → List A → Bool
  any p [] = false
  any p (x ∷ xs) = p x || any p xs

  -- The elements that pass a Boolean test.
  unfoldable pub filter : (A → Bool) → List A → List A
  filter p [] = []
  filter p (x ∷ xs) = let rest = filter p xs in if p x then x ∷ rest else rest

  pub length-append : (xs ys : List A) → length (xs ++ ys) ≡ length xs + length ys
  length-append [] ys = omega arith
  length-append (x ∷ xs) ys = omega (arith, length-append xs ys)

  pub length-take-le : (n : ℕ) (xs : List A) → length (take n xs) ≤ n
  length-take-le zero xs = omega arith
  length-take-le (suc n) [] = omega arith
  length-take-le (suc n) (x ∷ xs) = omega (arith, length-take-le n xs)

  pub length-filter-le : (p : A → Bool) (xs : List A) → length (filter p xs) ≤ length xs
  unfolding filter
  length-filter-le p [] = omega arith
  length-filter-le p (x ∷ xs) = ground (arith, length-filter-le p xs)

  pub take-append : (xs ys : List A) → take (length xs) (xs ++ ys) ≡ xs
  take-append [] ys = refl
  take-append (x ∷ xs) ys = ap (◌∷◌ x) (take-append xs ys)

  pub drop-append : (xs ys : List A) → drop (length xs) (xs ++ ys) ≡ ys
  drop-append [] ys = refl
  drop-append (x ∷ xs) ys = drop-append xs ys

module _ {ℓ κ} {A : Type ℓ} (P : A → Type κ) where
  abbrev pub All : List A → Type κ
  All [] = Unit
  All (x ∷ xs) = P x × All xs

  pub All-append : (xs ys : List A) → All xs → All ys → All (xs ++ ys)
  All-append [] ys h k = k
  All-append (x ∷ xs) ys (p, h) k = (p, All-append xs ys h k)

-- An element of a list, at a position that can be matched.
module _ {ℓ} {A : Type ℓ} where
  pub data In (a : A) : List A → Type ℓ where
    here : {xs : List A} → In a (a ∷ xs)
    there : {x : A} {xs : List A} → In a xs → In a (x ∷ xs)

  pub All-in {κ} : (P : A → Type κ) {a : A} {xs : List A} → In a xs → All P xs → P a
  All-in P here h = h.0
  All-in P (there i) h = All-in P i h.1

-- Over a small range, a test is proved by evaluation.
unfoldable pub holds_below : (ℕ → Bool) → ℕ → Bool
holds_below test zero = true
holds_below test (suc bound) = holds_below test bound && test bound

pub holds_below_sound :
    (test : ℕ → Bool) (bound : ℕ)
    → holds_below test bound ≡ true
    → (c : ℕ) → c < bound
    → test c ≡ true
unfolding holds_below
holds_below_sound test zero all_hold c small = absurd (omega arith)
holds_below_sound test (suc bound) all_hold c small =
    ground
      (arith, λ (earlier : holds_below test bound ≡ true). holds_below_sound test bound earlier c)

-- sort.Slice by a strict order, as an insertion sort.
module _ {ℓ} {A : Type ℓ} (less : A → A → Bool) where
  unfoldable pub insert_by : A → List A → List A
  insert_by a [] = a ∷ []
  insert_by a (x ∷ xs) = let rest = insert_by a xs in if less x a then x ∷ rest else a ∷ x ∷ xs

  unfoldable pub sort_by : List A → List A
  unfolding insert_by
  sort_by [] = []
  sort_by (x ∷ xs) = insert_by x (sort_by xs)

-- The sum of a weight over the elements that pass a test.
module _ {ℓ} {A : Type ℓ} where
  unfoldable pub sum_where : (A → Bool) → (A → ℕ) → List A → ℕ
  sum_where p w [] = 0
  sum_where p w (x ∷ xs) = let rest = sum_where p w xs in if p x then w x + rest else rest

  pub sum_where-append :
      (p : A → Bool) (w : A → ℕ) (xs ys : List A)
      → sum_where p w (xs ++ ys) ≡ sum_where p w xs + sum_where p w ys
  unfolding sum_where
  sum_where-append p w [] ys = omega arith
  sum_where-append p w (x ∷ xs) ys = ground (arith, sum_where-append p w xs ys)

  sum_where-insert_by :
      (less : A → A → Bool) (p : A → Bool) (w : A → ℕ) (a : A) (xs : List A)
      → sum_where p w (insert_by less a xs) ≡ sum_where p w (a ∷ xs)
  unfolding sum_where insert_by
  sum_where-insert_by less p w a [] = refl
  sum_where-insert_by less p w a (x ∷ xs) = ground (arith, sum_where-insert_by less p w a xs)

  pub sum_where-sort_by :
      (less : A → A → Bool) (p : A → Bool) (w : A → ℕ) (xs : List A)
      → sum_where p w (sort_by less xs) ≡ sum_where p w xs
  unfolding sum_where sort_by
  sum_where-sort_by less p w [] = refl
  sum_where-sort_by less p w (x ∷ xs) =
      ground
        (arith, sum_where-insert_by less p w x (sort_by less xs), sum_where-sort_by less p w xs)

  pub sum_where_congr :
      (p q : A → Bool) (w : A → ℕ)
      → ((x : A) → p x ≡ q x)
      → (xs : List A) → sum_where p w xs ≡ sum_where q w xs
  unfolding sum_where
  sum_where_congr p q w h [] = refl
  sum_where_congr p q w h (x ∷ xs) = ground (arith, h x, sum_where_congr p q w h xs)
