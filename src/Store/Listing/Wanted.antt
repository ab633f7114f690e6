-- ===== src/Store/Listing/Wanted.antt =====
-- What a filter of ListCodes asks for, apart from the code that tests it.
use qurator.Common.{
  ◌<◌, ◌≡◌, refl, ap, ◌∙◌, true, false, Option, none, some, [], ◌∷◌, ◌++◌, Text, is_empty, to_lower,
  contains, contains→split, contains-append, ltb, text_eq, nat_eq, text_beq_iff, if◌then◌else◌,
  IfSome, arith,
}
use qurator.Domain.{Time, Code, CodeFilter, is_deleted}
use qurator.Store.Listing.{matches}

-- The owner's rows that are not deleted, created strictly between the two times, with the text
-- somewhere in the destination, whatever the case of its letters.
pub record Wanted (f : CodeFilter) (c : Code) : Type 0 where
  pub owner : c.user_id ≡ f.user_id
  pub standing : is_deleted c.state ≡ false
  pub created_after : IfSome (λ (t : Time). t < c.created_at) f.created_after
  pub created_before : IfSome (λ (t : Time). c.created_at < t) f.created_before
  pub destination :
      (before after : Text) × (to_lower c.destination ≡ before ++ (to_lower f.destination ++ after))

after_of :
    (o : Option Time) (x : Time)
    → (elim o [ none ↦ true | some t ↦ ltb t x ]) ≡ true
    → IfSome (λ (t : Time). t < x) o
after_of none x h = tt
after_of (some t) x h = ground arith

of_after :
    (o : Option Time) (x : Time)
    → IfSome (λ (t : Time). t < x) o
    → (elim o [ none ↦ true | some t ↦ ltb t x ]) ≡ true
of_after none x h = refl
of_after (some t) x h = ground arith

before_of :
    (o : Option Time) (x : Time)
    → (elim o [ none ↦ true | some t ↦ ltb x t ]) ≡ true
    → IfSome (λ (t : Time). x < t) o
before_of none x h = tt
before_of (some t) x h = ground arith

of_before :
    (o : Option Time) (x : Time)
    → IfSome (λ (t : Time). x < t) o
    → (elim o [ none ↦ true | some t ↦ ltb x t ]) ≡ true
of_before none x h = refl
of_before (some t) x h = ground arith

part_of :
    (p s : Text)
    → (if is_empty p then true else contains p s) ≡ true
    → (before after : Text) × (s ≡ before ++ (p ++ after))
part_of [] s h = ([], s, refl)
part_of (b ∷ p) s h = contains→split (b ∷ p) s h

of_part :
    (p s before after : Text)
    → s ≡ before ++ (p ++ after)
    → (if is_empty p then true else contains p s) ≡ true
of_part [] s before after e = refl
of_part (b ∷ p) s before after e = ap (contains (b ∷ p)) e ∙ contains-append (b ∷ p) before after

pub matches→Wanted : (f : CodeFilter) (c : Code) → matches f c ≡ true → Wanted f c
unfolding matches
matches→Wanted f c h = record {
  owner = (text_beq_iff c.user_id f.user_id).0 (ground arith);
  standing = ground arith;
  created_after = after_of f.created_after c.created_at (ground arith);
  created_before = before_of f.created_before c.created_at (ground arith);
  destination = part_of (to_lower f.destination) (to_lower c.destination) (ground arith);
}

pub Wanted→matches : (f : CodeFilter) (c : Code) → Wanted f c → matches f c ≡ true
unfolding matches
Wanted→matches f c w = ground (
  arith,
  (text_beq_iff c.user_id f.user_id).1 w.owner,
  of_after f.created_after c.created_at w.created_after,
  of_before f.created_before c.created_at w.created_before,
  of_part (to_lower f.destination) (to_lower c.destination) w.destination.0 w.destination.1
      w.destination.2,
  w.standing,
)
