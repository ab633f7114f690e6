-- ===== src/Common/Searching.antt =====
-- What the Boolean searches through lists and texts find.
use Prim.Native.Nat.{zero, suc, ◌<◌, ◌-◌, ℕ}
use mathlib.Core.Path.{subst, ◌≡◌, refl, ap}
use mathlib.Core.Logic.{inl, inr}
use mathlib.Core.Bool.{Bool, true}
use mathlib.Core.List.{List, [], ◌∷◌, ◌++◌}
use native.Mathlib.Omega.{arith}
use native.Mathlib.Numerals.{unary_clauses}
use qurator.Common.Tests.{Eq, ◌==◌, nat_beq_iff, Bool-cases}
use qurator.Common.Lists.{all, any, In, here, there, length, get_or}
use qurator.Common.Strings.{Text, has_prefix, contains}

module _ {ℓ} {A : Type ℓ} (p : A → Bool) where
  pub all→in : (xs : List A) → all p xs ≡ true → (x : A) → In x xs → p x ≡ true
  all→in [] h x i = elim i [ ]
  all→in (y ∷ xs) h x here = ground arith
  all→in (y ∷ xs) h x (there i) = all→in xs (ground arith) x i

  pub in→all : (xs : List A) → ((x : A) → In x xs → p x ≡ true) → all p xs ≡ true
  in→all [] h = refl
  in→all (y ∷ xs) h = ground (arith, h y here, in→all xs (λ x i. h x (there i)))

  pub any→in : (xs : List A) → any p xs ≡ true → (x : A) × In x xs × (p x ≡ true)
  any→in [] h = absurd (ground arith)
  any→in (y ∷ xs) h = elim (Bool-cases (p y)) [
    | inl t ↦ (y, here, t)
    | inr f ↦ let (x, i, t) = any→in xs (ground arith) in (x, there i, t)
  ]

  pub in→any : (x : A) (xs : List A) → In x xs → p x ≡ true → any p xs ≡ true
  in→any x [] i h = elim i [ ]
  in→any x (y ∷ xs) here h = ground arith
  in→any x (y ∷ xs) (there i) h = ground (arith, in→any x xs i h)

module _ {ℓ} {A : Type ℓ} ⦃e : Eq A⦄ where
  -- Membership, as a lookup in a Go map used as a set.
  unfoldable pub member : A → List A → Bool
  member a xs = any (λ x. x == a) xs

  pub member→in : (a : A) (xs : List A) → member a xs ≡ true → In a xs
  unfolding member
  member→in a xs h =
      let (x, i, t) = any→in (λ y. y == a) xs h in subst (λ y. In y xs) ((e.beq_iff x a).0 t) i

  pub in→member : (a : A) (xs : List A) → In a xs → member a xs ≡ true
  unfolding member
  in→member a xs i = in→any (λ y. y == a) a xs i ((e.beq_iff a a).1 refl)

pub has_prefix→split : (p s : Text) → has_prefix p s ≡ true → (rest : Text) × (s ≡ p ++ rest)
unfolding has_prefix
has_prefix→split [] s h = (s, refl)
has_prefix→split (a ∷ p) [] h = absurd (ground arith)
has_prefix→split (a ∷ p) (c ∷ s) h =
    let (rest, e) = has_prefix→split p s (ground arith) in (rest, ground arith)

pub has_prefix-append : (p rest : Text) → has_prefix p (p ++ rest) ≡ true
unfolding has_prefix
has_prefix-append [] rest = refl
has_prefix-append (a ∷ p) rest = ground (arith, nat_beq_iff a a, has_prefix-append p rest)

pub contains→split :
    (p s : Text) → contains p s ≡ true → (before after : Text) × (s ≡ before ++ (p ++ after))
unfolding contains
contains→split [] [] h = ([], [], refl)
contains→split (a ∷ p) [] h = absurd (ground arith)
contains→split p (c ∷ s) h = elim (Bool-cases (has_prefix p (c ∷ s))) [
  | inl t ↦ let (rest, e) = has_prefix→split p (c ∷ s) t in ([], rest, e)
  | inr f ↦
      let (before, after, e) = contains→split p s (ground arith) in
      (c ∷ before, after, ap (◌∷◌ c) e)
]

pub contains-append : (p before after : Text) → contains p (before ++ (p ++ after)) ≡ true
unfolding contains
contains-append [] [] [] = refl
contains-append [] [] (c ∷ after) = ground (arith, has_prefix-append [] (c ∷ after))
contains-append (a ∷ p) [] after = ground (arith, has_prefix-append (a ∷ p) after)
contains-append p (c ∷ before) after = ground (arith, contains-append p before after)

-- The byte at index `len(s)-1`.
pub get_or-last :
    (s : Text) (d : ℕ)
    → 0 < length s
    → (init : Text) × (s ≡ init ++ (get_or s (length s - 1) d ∷ []))
get_or-last [] d h = absurd (omega arith)
get_or-last (c ∷ []) d h = ([], refl)
get_or-last (c ∷ b ∷ s) d h =
    let (init, e) = get_or-last (b ∷ s) d (omega arith) in (c ∷ init, ground arith)

pub get_or-last_append :
    (init : Text) (c d : ℕ) → get_or (init ++ (c ∷ [])) (length (init ++ (c ∷ [])) - 1) d ≡ c
get_or-last_append [] c d = refl
get_or-last_append (b ∷ []) c d = refl
get_or-last_append (b ∷ b' ∷ init) c d =
    simp unary_clauses (simp unary_clauses at (get_or-last_append (b' ∷ init) c d))

pub In-append_last : (init : Text) (c : ℕ) → In c (init ++ (c ∷ []))
In-append_last [] c = here
In-append_last (b ∷ init) c = there (In-append_last init c)

pub all→get_or {ℓ} :
    {A : Type ℓ} (p : A → Bool) (xs : List A) (i : ℕ) (d : A)
    → all p xs ≡ true
    → i < length xs
    → p (get_or xs i d) ≡ true
all→get_or p [] i d h lt = absurd (omega arith)
all→get_or p (x ∷ xs) zero d h lt = ground arith
all→get_or p (x ∷ xs) (suc i) d h lt = all→get_or p xs i d (ground arith) (omega arith)
