-- ===== src/Shortcode/Namespace.antt =====
-- Generated codes and aliases are disjoint.
use qurator.Common.{
  trim_space, ℕ, ◌-◌, ◌≡◌, refl, ap, ◌∙◌, inl, inr, true, false, some, [], ◌∷◌, Text, bytes, length,
  get_or, all, any, contains, to_lower, nat_eq, text_eq, Bool-cases, in→any, member, member→in,
  to_lower-eq_self, trim_space-eq_self, is_plain, trim_space_idem, trim_space-to_lower, all→get_or,
  arith,
}
use qurator.Domain.Ids.{
  is_crockford, random_crockford, random_crockford-all, length-random_crockford,
}
use qurator.Shortcode.Generate.{is_generated_shape, generate}
use qurator.Shortcode.Reserved.{is_reserved, reserved}
use qurator.Shortcode.Alias.{
  looks_generated, is_alphanumeric, is_alias_char, normalize_alias, validate_alias,
}

crockford-alphanumeric : (c : ℕ) → is_crockford c ≡ true → is_alphanumeric c ≡ true
unfolding is_alphanumeric
crockford-alphanumeric c h = ground arith

all-is_alias_char : (s : Text) → all is_crockford s ≡ true → all is_alias_char s ≡ true
unfolding is_alias_char
all-is_alias_char [] h = refl
all-is_alias_char (c ∷ s) h = ground (arith, crockford-alphanumeric c, all-is_alias_char s)

all-is_plain : (s : Text) → all is_crockford s ≡ true → all is_plain s ≡ true
all-is_plain [] h = refl
all-is_plain (c ∷ s) h = ground (arith, all-is_plain s)

no_hyphens : (s : Text) → all is_crockford s ≡ true → contains (bytes "--") s ≡ false
unfolding contains
no_hyphens [] h = refl
no_hyphens (c ∷ s) h = ground (arith, no_hyphens s)

reserved_shapes : any is_generated_shape reserved ≡ false
unfolding reserved is_generated_shape
reserved_shapes = refl

normalize_alias-crockford : (s : Text) → all is_crockford s ≡ true → normalize_alias s ≡ s
unfolding normalize_alias
normalize_alias-crockford s h =
    ap to_lower (trim_space-eq_self s (all-is_plain s h)) ∙ to_lower-eq_self s (all-is_plain s h)

generated-not-reserved : (s : Text) → is_generated_shape s ≡ true → is_reserved s ≡ false
unfolding is_reserved
generated-not-reserved s h =
    let plain : all is_plain s ≡ true =
      all-is_plain s (unfold is_generated_shape in ground arith) in
    rw (to_lower-eq_self s plain) (elim (Bool-cases (member s reserved)) [
      | inl t ↦
          cc (reserved_shapes, in→any is_generated_shape s reserved (member→in s reserved t) h)
      | inr f ↦ f
    ])

generated_refused :
    (s : Text) → is_generated_shape s ≡ true → validate_alias s ≡ some looks_generated
unfolding validate_alias
generated_refused s h =
    let crockford : all is_crockford s ≡ true = unfold is_generated_shape in ground arith in
    let twelve : length s ≡ 12 = unfold is_generated_shape in ground arith in
    rw (normalize_alias-crockford s crockford) (
      ground (
        arith,
        twelve,
        h,
        all-is_alias_char s crockford,
        crockford-alphanumeric (get_or s 0 0)
            (all→get_or is_crockford s 0 0 crockford (omega arith)),
        crockford-alphanumeric (get_or s (length s - 1) 0)
            (all→get_or is_crockford s (length s - 1) 0 crockford (omega arith)),
        no_hyphens s crockford,
        generated-not-reserved s h,
      ))

-- Whatever crypto/rand returns, a generated code has the generated shape, and it is refused as an
-- alias for that reason and no other.
pub generate-looks_generated :
    (rand : ℕ → ℕ)
    → (is_generated_shape (generate rand) ≡ true)
      × (validate_alias (generate rand) ≡ some looks_generated)
unfolding generate
generate-looks_generated rand =
    let shape : is_generated_shape (random_crockford 12 rand) ≡ true =
      unfold is_generated_shape in
      ground (arith, random_crockford-all 12 rand, length-random_crockford 12 rand) in
    (shape, generated_refused (random_crockford 12 rand) shape)

-- Neither a normalised alias nor a generated code has white space at an end.
pub trim_space-normalize_alias : (s : Text) → trim_space (normalize_alias s) ≡ normalize_alias s
unfolding normalize_alias
trim_space-normalize_alias s = trim_space-to_lower _ ∙ ap to_lower (trim_space_idem s)

pub trim_space-generate : (rand : ℕ → ℕ) → trim_space (generate rand) ≡ generate rand
unfolding generate
trim_space-generate rand =
    trim_space-eq_self (random_crockford 12 rand)
      (all-is_plain (random_crockford 12 rand) (random_crockford-all 12 rand))
