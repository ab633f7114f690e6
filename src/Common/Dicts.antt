-- ===== src/Common/Dicts.antt =====
-- Go maps as association lists: the order is not observable in the program, which sorts whatever
-- it lists. A write to a key that is there replaces its value.
use mathlib.Core.Path.{◌≡◌, refl}
use mathlib.Core.Option.{Option, none, some, get_or}
use Prim.Native.Nat.{ℕ, ◌+◌}
use mathlib.Core.Bool.{Bool}
use qurator.Common.Lists.{sum_where}
use mathlib.Core.List.{List, [], ◌∷◌}
use native.Mathlib.Omega.{arith}
use mathlib.Core.Logic.{◌⊎◌, inl, inr}
use mathlib.Core.Bool.{false}
use qurator.Common.Tests.{Bool-cases, Eq, ◌==◌, if◌then◌else◌}

abbrev pub Dict {ℓ κ} : Type ℓ → Type κ → Type (ℓ ⊔ κ)
Dict K V = List (K × V)

module _ {ℓ κ} {K : Type ℓ} {V : Type κ} ⦃e : Eq K⦄ where
  -- m[k], none where Go's second result is false
  unfoldable pub lookup : K → Dict K V → Option V
  lookup k [] = none
  lookup k ((j, v) ∷ m) = if j == k then some v else lookup k m

  -- m[k] = v
  unfoldable pub insert : K → V → Dict K V → Dict K V
  insert k v [] = (k, v) ∷ []
  insert k v ((j, w) ∷ m) = if j == k then (k, v) ∷ m else (j, w) ∷ insert k v m

  -- delete(m, k)
  unfoldable pub delete : K → Dict K V → Dict K V
  delete k [] = []
  delete k ((j, v) ∷ m) = let rest = delete k m in if j == k then rest else (j, v) ∷ rest

  pub lookup-insert :
      (j k : K) (v : V) (m : Dict K V)
      → lookup j (insert k v m) ≡ (if k == j then some v else lookup j m)
  unfolding lookup insert
  lookup-insert j k v [] = refl
  lookup-insert j k v ((i, w) ∷ m) =
      ground (arith, e.beq_iff k j, e.beq_iff i k, e.beq_iff i j, lookup-insert j k v m)

  pub lookup-delete :
      (j k : K) (m : Dict K V) → lookup j (delete k m) ≡ (if k == j then none else lookup j m)
  unfolding lookup delete
  lookup-delete j k [] = ground arith
  lookup-delete j k ((i, w) ∷ m) =
      ground (arith, e.beq_iff k j, e.beq_iff i k, e.beq_iff i j, lookup-delete j k m)

abbrev pub values {ℓ κ} : {K : Type ℓ} {V : Type κ} → Dict K V → List V
values [] = []
values ((k, v) ∷ m) = v ∷ values m

module _ {ℓ κ} {K : Type ℓ} {V : Type κ} ⦃e : Eq K⦄ where
  pub lookup-insert_self : (k : K) (v : V) (m : Dict K V) → lookup k (insert k v m) ≡ some v
  lookup-insert_self k v m = ground (arith, lookup-insert k k v m, e.beq_iff k k)

  -- What a lookup after a write found is the value written, or was there before.
  pub lookup-insert-some :
      (j k : K) (v w : V) (m : Dict K V)
      → lookup j (insert k v m) ≡ some w
      → ((k ≡ j) × (v ≡ w)) ⊎ (((k == j) ≡ false) × (lookup j m ≡ some w))
  lookup-insert-some j k v w m h = elim (Bool-cases (k == j)) [
    | inl t ↦ inl ((e.beq_iff k j).0 t, ground (arith, lookup-insert j k v m))
    | inr f ↦ inr (f, ground (arith, lookup-insert j k v m))
  ]

  pub lookup-delete-some :
      (j k : K) (w : V) (m : Dict K V)
      → lookup j (delete k m) ≡ some w
      → ((k == j) ≡ false) × (lookup j m ≡ some w)
  lookup-delete-some j k w m h = ground (arith, lookup-delete j k m)

abbrev pub mass {ℓ} : {K : Type ℓ} → (K → Bool) → Dict K ℕ → ℕ
mass p = sum_where (λ x. p x.0) (λ x. x.1)

-- m[k] += n, and the sum of the values at the keys that pass a test
module _ {ℓ} {K : Type ℓ} ⦃e : Eq K⦄ where
  unfoldable pub bump : K → ℕ → Dict K ℕ → Dict K ℕ
  bump k n m = insert k (get_or (lookup k m) 0 + n) m

  mass-insert :
      (p : K → Bool) (k : K) (v : ℕ) (m : Dict K ℕ)
      → mass p (insert k v m) + (if p k then get_or (lookup k m) 0 else 0)
        ≡ mass p m + (if p k then v else 0)
  unfolding sum_where insert lookup
  mass-insert p k v [] = ground arith
  mass-insert p k v ((j, w) ∷ m) = ground (arith, e.beq_iff j k, mass-insert p k v m)

  pub mass-bump :
      (p : K → Bool) (k : K) (n : ℕ) (m : Dict K ℕ)
      → mass p (bump k n m) ≡ mass p m + (if p k then n else 0)
  unfolding bump
  mass-bump p k n m = ground (arith, mass-insert p k (get_or (lookup k m) 0 + n) m)

-- No key stands twice.
module _ {ℓ κ} {K : Type ℓ} {V : Type κ} ⦃e : Eq K⦄ where
  abbrev pub Distinct : Dict K V → Type κ
  Distinct [] = Unit
  Distinct ((k, v) ∷ m) = (lookup k m ≡ none) × Distinct m

  pub insert-Distinct : (k : K) (v : V) (m : Dict K V) → Distinct m → Distinct (insert k v m)
  unfolding insert lookup
  insert-Distinct k v [] h = (refl, tt)
  insert-Distinct k v ((j, w) ∷ m) (f, h) = elim (Bool-cases (j == k)) [
    | inl t ↦ rw t (ground (arith, e.beq_iff j k), h)
    | inr n ↦ rw n (
      ground (arith, e.beq_iff j k, lookup-insert j k v m, e.beq_iff k j),
      insert-Distinct k v m h,
    )
  ]
