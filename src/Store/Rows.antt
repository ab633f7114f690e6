-- ===== src/Store/Rows.antt =====
-- The rows of a table whose keys are the ids of its rows.
use qurator.Common.{
  ◌≡◌, ◌≢◌, ◌⊎◌, inl, inr, Bool, true, none, [], ◌∷◌, Text, Dict, lookup, values, Distinct, All,
  Apart, Comparable, text_eq, text_beq_iff, ◌==◌, Bool-cases, arith,
}
use qurator.Domain.{Code}

abbrev pub OwnId : Text × Code → Type 0
OwnId row = row.1.id ≡ row.0

-- an order that tells rows with different ids apart
module _ (less : Code → Code → Bool)
    (total : (a b : Code) → a.id ≢ b.id → (less a b ≡ true) ⊎ (less b a ≡ true)) where
  Comparable-values :
      (id : Text) (c : Code) (m : Dict Text Code)
      → c.id ≡ id
      → lookup id m ≡ none
      → All OwnId m
      → Comparable less c (values m)
  unfolding lookup
  Comparable-values id c [] e n h = tt
  Comparable-values id c ((j, d) ∷ m) e n (l, h) = elim (Bool-cases (j == id)) [
    | inl t ↦ absurd (ground arith)
    | inr f ↦ (
      total c d (λ (q : c.id ≡ d.id). ground (arith, text_beq_iff j id)),
      Comparable-values id c m e (ground arith) h,
    )
  ]

  pub values-Apart : (m : Dict Text Code) → Distinct m → All OwnId m → Apart less (values m)
  values-Apart [] d h = tt
  values-Apart ((id, c) ∷ m) (n, d) (l, h) = (Comparable-values id c m l n h, values-Apart m d h)
