-- ===== src/Common/Places.antt =====
-- Lists by position: the elements of a fixed number of parties, one of which changes.
use Prim.Native.Nat.{ℕ, zero, suc, ◌+◌, ◌≤◌}
use mathlib.Core.Path.{◌≡◌, refl, ap, subst}
use mathlib.Core.Option.{Option, none, some}
use mathlib.Core.List.{List, [], ◌∷◌}
use native.Mathlib.Omega.{arith}
use qurator.Common.Lists.{length, All}

module _ {ℓ} {A : Type ℓ} where
  unfoldable pub at : ℕ → List A → Option A
  at i [] = none
  at zero (x ∷ xs) = some x
  at (suc i) (x ∷ xs) = at i xs

  unfoldable pub replace : ℕ → A → List A → List A
  replace i y [] = []
  replace zero y (x ∷ xs) = y ∷ xs
  replace (suc i) y (x ∷ xs) = x ∷ replace i y xs

  unfoldable pub copies : ℕ → A → List A
  copies zero x = []
  copies (suc n) x = x ∷ copies n x

  unfoldable pub total : (A → ℕ) → List A → ℕ
  total w [] = 0
  total w (x ∷ xs) = w x + total w xs

  pub total-replace :
      (w : A → ℕ) (i : ℕ) (x y : A) (xs : List A)
      → at i xs ≡ some x
      → total w (replace i y xs) + w x ≡ total w xs + w y
  unfolding at replace total
  total-replace w i x y [] e = absurd (ground arith)
  total-replace w zero x y (z ∷ xs) e = ground arith
  total-replace w (suc i) x y (z ∷ xs) e = omega (arith, total-replace w i x y xs e)

  pub total-le : (w : A → ℕ) (i : ℕ) (x : A) (xs : List A) → at i xs ≡ some x → w x ≤ total w xs
  unfolding at total
  total-le w i x [] e = absurd (ground arith)
  total-le w zero x (z ∷ xs) e = ground arith
  total-le w (suc i) x (z ∷ xs) e = omega (arith, total-le w i x xs e)

  pub total-copies : (w : A → ℕ) (n : ℕ) (x : A) → w x ≡ 0 → total w (copies n x) ≡ 0
  unfolding copies total
  total-copies w zero x e = refl
  total-copies w (suc n) x e = omega (arith, total-copies w n x e, e)

  pub length-replace : (i : ℕ) (y : A) (xs : List A) → length (replace i y xs) ≡ length xs
  unfolding replace
  length-replace i y [] = refl
  length-replace zero y (x ∷ xs) = refl
  length-replace (suc i) y (x ∷ xs) = omega (arith, length-replace i y xs)

  pub total-eq-zero :
      (w : A → ℕ) (xs : List A) → ((i : ℕ) (x : A) → at i xs ≡ some x → w x ≡ 0) → total w xs ≡ 0
  unfolding at total
  total-eq-zero w [] h = refl
  total-eq-zero w (x ∷ xs) h = omega (arith, h zero x refl, total-eq-zero w xs (λ i. h (suc i)))

  pub length-copies : (n : ℕ) (x : A) → length (copies n x) ≡ n
  unfolding copies
  length-copies zero x = refl
  length-copies (suc n) x = ap suc (length-copies n x)

module _ {ℓ κ} {A : Type ℓ} (P : A → Type κ) where
  pub All-at : (i : ℕ) (x : A) (xs : List A) → at i xs ≡ some x → All P xs → P x
  unfolding at
  All-at i x [] e h = absurd (ground arith)
  All-at zero x (z ∷ xs) e h = let q : z ≡ x = cc in subst P q h.0
  All-at (suc i) x (z ∷ xs) e h = All-at i x xs e h.1

  pub All-replace : (i : ℕ) (y : A) (xs : List A) → P y → All P xs → All P (replace i y xs)
  unfolding replace
  All-replace i y [] p h = tt
  All-replace zero y (x ∷ xs) p h = (p, h.1)
  All-replace (suc i) y (x ∷ xs) p h = (h.0, All-replace i y xs p h.1)

  pub All-copies : (n : ℕ) (x : A) → P x → All P (copies n x)
  unfolding copies
  All-copies zero x p = tt
  All-copies (suc n) x p = (p, All-copies n x p)

-- A property of the value of an option, if it has one.
module _ {ℓ κ} {A : Type ℓ} (P : A → Type κ) where
  abbrev pub IfSome : Option A → Type κ
  IfSome none = Unit
  IfSome (some a) = P a

  pub IfSome-elim : (o : Option A) (a : A) → IfSome o → o ≡ some a → P a
  IfSome-elim none a h e = absurd (ground arith)
  IfSome-elim (some b) a h e = let q : b ≡ a = cc in subst P q h
