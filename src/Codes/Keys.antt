-- ===== src/Codes/Keys.antt =====
-- service.go: the blob keys of a code's image and of its logo, and their laws.
use mathlib.Core.List.{append_cancel_right}
use qurator.Common.{
  ◌≡◌, refl, ap, ◌∙◌, sym, ℕ, zero, suc, ◌+◌, ◌<◌, [], ◌∷◌, ◌++◌, Text, bytes, take, drop, length,
  length-append, get_or, ltb, ◌==◌, nat_eq, if◌then◌else◌, ◌≢◌, ◌↔◌, arith,
}

-- id[i+1:] for the first index i of '_' in id, else id
unfoldable pub after_underscore : Text → Text → Text
after_underscore whole [] = whole
after_underscore whole (c ∷ s) =
    let rest = after_underscore whole s in if c == b'_' then s else rest

-- for len(rnd) < 4 { rnd += "0" }, which takes at most four rounds
unfoldable pub pad_to : ℕ → Text → Text
pad_to zero rnd = rnd
pad_to (suc fuel) rnd =
    let rest = pad_to fuel (rnd ++ bytes "0") in if ltb (length rnd) 4 then rest else rnd

unfoldable pub shard : Text → Text
unfolding after_underscore pad_to
shard id = pad_to 4 (after_underscore id id)

unfoldable pub blob_key_for : Text → Text
blob_key_for id =
    let rnd = shard id in
    bytes "codes/"
    ++ (take 2 rnd ++ (bytes "/" ++ (take 2 (drop 2 rnd) ++ (bytes "/" ++ (id ++ bytes ".png")))))

unfoldable pub logo_blob_key_for : Text → Text
logo_blob_key_for id =
    let rnd = shard id in
    bytes "logos/" ++ (take 2 rnd ++ (bytes "/" ++ (take 2 (drop 2 rnd) ++ (bytes "/" ++ id))))

pad_to-length : (fuel : ℕ) (rnd : Text) → 4 < length rnd + fuel + 1 → 3 < length (pad_to fuel rnd)
unfolding pad_to
pad_to-length zero rnd h = omega arith
pad_to-length (suc fuel) rnd h =
    ground (arith, length-append rnd (bytes "0"), pad_to-length fuel (rnd ++ bytes "0"))

-- a text of four characters or more
long_text : (s : Text) → 3 < length s → (a b c d : ℕ) × (rest : Text) × (s ≡ a ∷ b ∷ c ∷ d ∷ rest)
long_text (a ∷ b ∷ c ∷ d ∷ rest) h = (a, b, c, d, rest, refl)
long_text _ h = absurd (omega arith)

shard-long : (id : Text) → (a b c d : ℕ) × (rest : Text) × (shard id ≡ a ∷ b ∷ c ∷ d ∷ rest)
unfolding shard
shard-long id = long_text _ (pad_to-length 4 (after_underscore id id) (omega arith))

-- behind its first twelve characters a key ends in the id
blob_key_for-drop : (id : Text) → drop 12 (blob_key_for id) ≡ id ++ bytes ".png"
unfolding blob_key_for
blob_key_for-drop id = let (a, b, c, d, rest, e) = shard-long id in rw e

logo_blob_key_for-drop : (id : Text) → drop 12 (logo_blob_key_for id) ≡ id
unfolding logo_blob_key_for
logo_blob_key_for-drop id = let (a, b, c, d, rest, e) = shard-long id in rw e

blob_key_for-injective : (i j : Text) → blob_key_for i ≡ blob_key_for j → i ≡ j
blob_key_for-injective i j e =
    append_cancel_right i j (bytes ".png")
      (sym (blob_key_for-drop i) ∙ ap (drop 12) e ∙ blob_key_for-drop j)

logo_blob_key_for-injective : (i j : Text) → logo_blob_key_for i ≡ logo_blob_key_for j → i ≡ j
logo_blob_key_for-injective i j e =
    sym (logo_blob_key_for-drop i) ∙ ap (drop 12) e ∙ logo_blob_key_for-drop j

blob_key-ne-logo_key : (i j : Text) → blob_key_for i ≢ logo_blob_key_for j
unfolding blob_key_for logo_blob_key_for
blob_key-ne-logo_key i j e = absurd (omega (arith, ap (λ (t : Text). get_or t 0 0) e))

-- Two image keys are equal exactly if their ids are, two logo keys likewise, and an image key is never
-- the key of a logo.
pub keys_apart :
    (i j : Text)
    → ((blob_key_for i ≡ blob_key_for j) ↔ (i ≡ j))
      × ((logo_blob_key_for i ≡ logo_blob_key_for j) ↔ (i ≡ j))
      × (blob_key_for i ≢ logo_blob_key_for j)
keys_apart i j = (
  (blob_key_for-injective i j, ap blob_key_for),
  (logo_blob_key_for-injective i j, ap logo_blob_key_for),
  blob_key-ne-logo_key i j,
)
