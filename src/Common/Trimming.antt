-- ===== src/Common/Trimming.antt =====
-- How strings.ToLower and strings.TrimSpace act on one another, and when they change nothing.
use Prim.Native.Nat.{ℕ}
use mathlib.Core.Path.{◌≡◌, refl, ap, ◌∙◌}
use mathlib.Core.Bool.{Bool, true, not, ◌&&◌}
use mathlib.Core.List.{[], ◌∷◌}
use native.Mathlib.Omega.{arith}
use qurator.Common.Lists.{all}
use qurator.Common.Strings.{
  Text, is_space, is_upper, is_empty, lower_byte, to_lower, trim_left, trim_right, trim_space,
  trim_right_idem,
}

lower-space : (c : ℕ) → is_space (lower_byte c) ≡ is_space c
lower-space c = ground arith

is_empty-to_lower : (s : Text) → is_empty (to_lower s) ≡ is_empty s
unfolding to_lower
is_empty-to_lower [] = refl
is_empty-to_lower (c ∷ s) = refl

trim_left-to_lower : (s : Text) → trim_left (to_lower s) ≡ to_lower (trim_left s)
unfolding trim_left to_lower
trim_left-to_lower [] = refl
trim_left-to_lower (c ∷ s) = ground (arith, lower-space c, trim_left-to_lower s)

trim_right-to_lower : (s : Text) → trim_right (to_lower s) ≡ to_lower (trim_right s)
unfolding trim_right to_lower
trim_right-to_lower [] = refl
trim_right-to_lower (c ∷ s) =
    ground (arith, lower-space c, trim_right-to_lower s, is_empty-to_lower (trim_right s))

pub trim_space-to_lower : (s : Text) → trim_space (to_lower s) ≡ to_lower (trim_space s)
unfolding trim_space
trim_space-to_lower s = ap trim_right (trim_left-to_lower s) ∙ trim_right-to_lower (trim_left s)

-- What `trim_left` leaves does not begin with white space.
abbrev starts_clean : Text → Bool
starts_clean [] = true
starts_clean (c ∷ s) = not (is_space c)

starts_clean-trim_left : (s : Text) → starts_clean (trim_left s) ≡ true
unfolding trim_left
starts_clean-trim_left [] = refl
starts_clean-trim_left (c ∷ s) = ground (arith, starts_clean-trim_left s)

starts_clean-trim_right : (s : Text) → starts_clean s ≡ true → starts_clean (trim_right s) ≡ true
unfolding trim_right
starts_clean-trim_right [] h = refl
starts_clean-trim_right (c ∷ s) h = ground arith

trim_left-eq_self : (s : Text) → starts_clean s ≡ true → trim_left s ≡ s
unfolding trim_left
trim_left-eq_self [] h = refl
trim_left-eq_self (c ∷ s) h = ground arith

pub trim_space_idem : (s : Text) → trim_space (trim_space s) ≡ trim_space s
unfolding trim_space
trim_space_idem s =
    ap trim_right (
      trim_left-eq_self (trim_right (trim_left s))
        (starts_clean-trim_right (trim_left s) (starts_clean-trim_left s)))
    ∙ trim_right_idem (trim_left s)

-- A text of characters that are neither white space nor upper-case letters.
abbrev pub is_plain : ℕ → Bool
is_plain c = not (is_space c) && not (is_upper c)

pub to_lower-eq_self : (s : Text) → all is_plain s ≡ true → to_lower s ≡ s
unfolding to_lower
to_lower-eq_self [] h = refl
to_lower-eq_self (c ∷ s) h = ground (arith, to_lower-eq_self s)

trim_right-eq_self : (s : Text) → all is_plain s ≡ true → trim_right s ≡ s
unfolding trim_right
trim_right-eq_self [] h = refl
trim_right-eq_self (c ∷ s) h = ground (arith, trim_right-eq_self s)

trim_left-eq_plain : (s : Text) → all is_plain s ≡ true → trim_left s ≡ s
unfolding trim_left
trim_left-eq_plain [] h = refl
trim_left-eq_plain (c ∷ s) h = ground arith

pub trim_space-eq_self : (s : Text) → all is_plain s ≡ true → trim_space s ≡ s
unfolding trim_space
trim_space-eq_self s h = ap trim_right (trim_left-eq_plain s h) ∙ trim_right-eq_self s h
