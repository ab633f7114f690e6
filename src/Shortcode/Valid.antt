-- ===== src/Shortcode/Valid.antt =====
-- ValidateAlias accepts exactly the aliases that the rules describe.
use mathlib.Core.Path.{subst}
use qurator.Common.{
  ℕ, ◌-◌, ◌≤◌, ◌<◌, ◌≡◌, sym, ap, ◌∙◌, ◌≢◌, ◌↔◌, ◌⊎◌, inl, inr, true, false, ◌&&◌, none, [], ◌∷◌,
  ◌++◌, Text, bytes, length, get_or, all, In, here, contains, to_lower, trim_space, ◌==◌, nat_eq,
  text_eq, Bool-cases, all→in, in→all, in→member, member→in, member, get_or-last_append,
  In-append_last, contains→split, contains-append, get_or-last, to_lower_idem, arith,
}
use qurator.Domain.Ids.{is_crockford}
use qurator.Shortcode.Generate.{is_generated_shape}
use qurator.Shortcode.Reserved.{is_reserved, reserved}
use qurator.Shortcode.Alias.{
  is_alphanumeric, is_alias_char, normalize_alias, check_alias, validate_alias,
}

-- A lower-case letter, a digit or a hyphen.
abbrev pub IsAliasChar : ℕ → Type 0
IsAliasChar c = ((b'a' ≤ c) × (c ≤ b'z')) ⊎ (((b'0' ≤ c) × (c ≤ b'9')) ⊎ (c ≡ b'-'))

-- The rules of the alias namespace, without the order in which the code checks them.
pub record IsValidAlias (a : Text) : Type 0 where
  pub long_enough : 3 ≤ length a
  pub short_enough : length a ≤ 64
  pub chars : (c : ℕ) → In c a → IsAliasChar c
  pub no_first_hyphen : (rest : Text) → a ≢ b'-' ∷ rest
  pub no_last_hyphen : (init : Text) → a ≢ init ++ (b'-' ∷ [])
  pub no_double_hyphen : (before after : Text) → a ≢ before ++ (bytes "--" ++ after)
  pub not_reserved : ¬ In a reserved
  pub not_generated : ¬ ((length a ≡ 12) × ((c : ℕ) → In c a → is_crockford c ≡ true))

is_alias_char_iff : (c : ℕ) → (is_alias_char c ≡ true) ↔ IsAliasChar c
unfolding is_alias_char
is_alias_char_iff c = (ground arith, ground arith)

alphanumeric-or-hyphen : (c : ℕ) → is_alias_char c ≡ true → is_alphanumeric c ≡ false → c ≡ b'-'
unfolding is_alias_char
alphanumeric-or-hyphen c h k = ground arith

hyphen-not-alphanumeric : (c : ℕ) → c ≡ b'-' → is_alphanumeric c ≡ false
unfolding is_alphanumeric
hyphen-not-alphanumeric c h = ground arith

normalize_alias-lower : (s : Text) → to_lower (normalize_alias s) ≡ normalize_alias s
unfolding normalize_alias
normalize_alias-lower s = to_lower_idem (trim_space s)

-- What follows is about an alias in its normal form.
module _ (a : Text) (lower : to_lower a ≡ a) where
  reserved_iff : (is_reserved a ≡ false) ↔ (¬ In a reserved)
  unfolding is_reserved
  reserved_iff = rw lower (
    λ h i. cc (in→member a reserved i),
    λ h. elim (Bool-cases (member a reserved)) [
      | inl t ↦ absurd (h (member→in a reserved t))
      | inr f ↦ f
    ],
  )

  generated_iff :
      (is_generated_shape a ≡ false)
      ↔ (¬ ((length a ≡ 12) × ((c : ℕ) → In c a → is_crockford c ≡ true)))
  unfolding is_generated_shape
  generated_iff = (
    λ h k. ground (arith, in→all is_crockford a k.1),
    λ h. elim (Bool-cases (length a == 12 && all is_crockford a)) [
      | inl t ↦ absurd (h (ground arith, all→in is_crockford a (ground arith)))
      | inr f ↦ f
    ],
  )

  hyphens_iff :
      (contains (bytes "--") a ≡ false)
      ↔ ((before after : Text) → a ≢ before ++ (bytes "--" ++ after))
  hyphens_iff = (
    λ h before after e. cc (contains-append (bytes "--") before after),
    λ h. elim (Bool-cases (contains (bytes "--") a)) [
      | inl t ↦
          let (before, after, e) = contains→split (bytes "--") a t in absurd (h before after e)
      | inr f ↦ f
    ],
  )

  chars_iff : (all is_alias_char a ≡ true) ↔ ((c : ℕ) → In c a → IsAliasChar c)
  chars_iff = (
    λ h c i. (is_alias_char_iff c).0 (all→in is_alias_char a h c i),
    λ h. in→all is_alias_char a (λ c i. (is_alias_char_iff c).1 (h c i)),
  )

first_iff :
    (a : Text)
    → 0 < length a
    → all is_alias_char a ≡ true
    → (is_alphanumeric (get_or a 0 0) ≡ true) ↔ ((rest : Text) → a ≢ b'-' ∷ rest)
first_iff [] h k = absurd (omega arith)
first_iff (c ∷ s) h k = (
  λ t rest e. cc (hyphen-not-alphanumeric c (ap (λ (x : Text). get_or x 0 0) e)),
  λ n. elim (Bool-cases (is_alphanumeric c)) [
    | inl t ↦ t
    | inr f ↦
        absurd (
          n s
            (ap (λ x. x ∷ s) (alphanumeric-or-hyphen c (all→in is_alias_char (c ∷ s) k c here) f)))
  ],
)

last_iff :
    (a : Text)
    → 0 < length a
    → all is_alias_char a ≡ true
    → (is_alphanumeric (get_or a (length a - 1) 0) ≡ true)
      ↔ ((init : Text) → a ≢ init ++ (b'-' ∷ []))
last_iff a h k = (forth, back)
  where
    last : ℕ
    last = get_or a (length a - 1) 0

    forth : is_alphanumeric last ≡ true → (init : Text) → a ≢ init ++ (b'-' ∷ [])
    forth t init e = cc (
        hyphen-not-alphanumeric last
          (ap (λ (x : Text). get_or x (length x - 1) 0) e ∙ get_or-last_append init b'-' 0))

    back : ((init : Text) → a ≢ init ++ (b'-' ∷ [])) → is_alphanumeric last ≡ true
    back n =
        let (init, e) = get_or-last a 0 h in
        elim (Bool-cases (is_alphanumeric last)) [
          | inl t ↦ t
          | inr f ↦
              let l : In last a = subst (λ x. In last x) (sym e) (In-append_last init last) in
              let c : last ≡ b'-' =
                alphanumeric-or-hyphen last (all→in is_alias_char a k last l) f in
              absurd (n init (e ∙ ap (λ x. init ++ (x ∷ [])) c))
        ]

check_alias→IsValidAlias : (a : Text) → to_lower a ≡ a → check_alias a ≡ none → IsValidAlias a
unfolding check_alias
check_alias→IsValidAlias a lower h = record {
  long_enough = ground arith;
  short_enough = ground arith;
  chars = (chars_iff a lower).0 (ground arith);
  no_first_hyphen = (first_iff a (ground arith) (ground arith)).0 (ground arith);
  no_last_hyphen = (last_iff a (ground arith) (ground arith)).0 (ground arith);
  no_double_hyphen = (hyphens_iff a lower).0 (ground arith);
  not_reserved = (reserved_iff a lower).0 (ground arith);
  not_generated = (generated_iff a lower).0 (ground arith);
}

IsValidAlias→check_alias : (a : Text) → to_lower a ≡ a → IsValidAlias a → check_alias a ≡ none
unfolding check_alias
IsValidAlias→check_alias a lower v =
    let chars : all is_alias_char a ≡ true = (chars_iff a lower).1 v.chars in
    let l : 0 < length a = omega (arith, v.long_enough) in
    ground (
      arith,
      chars,
      (first_iff a l chars).1 v.no_first_hyphen,
      (last_iff a l chars).1 v.no_last_hyphen,
      (hyphens_iff a lower).1 v.no_double_hyphen,
      (reserved_iff a lower).1 v.not_reserved,
      (generated_iff a lower).1 v.not_generated,
    )

-- ValidateAlias returns no error exactly when the normalised text is an alias that the rules
-- allow: 3 to 64 characters, each a lower-case letter, a digit or a hyphen, no hyphen at either
-- end or after a hyphen, no reserved word, and not of the shape of a generated code.
pub validate_alias-IsValidAlias :
    (s : Text) → (validate_alias s ≡ none) ↔ IsValidAlias (normalize_alias s)
unfolding validate_alias
validate_alias-IsValidAlias s = (
  check_alias→IsValidAlias (normalize_alias s) (normalize_alias-lower s),
  IsValidAlias→check_alias (normalize_alias s) (normalize_alias-lower s),
)
