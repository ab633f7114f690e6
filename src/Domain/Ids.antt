-- ===== src/Domain/Ids.antt =====
-- internal/domain/ids.go: identifiers from random bytes. What crypto/rand returns is an argument;
-- its failure panics in the program, and is not modelled.
use qurator.Common.{
  ℕ, zero, suc, ◌%◌, ◌≡◌, refl, ap, Bool, true, ◌&&◌, ◌||◌, [], ◌∷◌, ◌++◌, Text, bytes, leb, get_or,
  length, all, arith, holds_below, holds_below_sound, nat_eq, ◌==◌,
}

abbrev pub id_alphabet : Text
id_alphabet = bytes "0123456789abcdefghjkmnpqrstvwxyz"

abbrev pub id_random_len : ℕ
id_random_len = 16

-- one byte, masked to 5 bits (b & 0x1f)
unfoldable pub crockford_char : ℕ → ℕ
crockford_char b = get_or id_alphabet (b % 32) 0

-- RandomCrockford: `rand i` is the byte that crypto/rand put at index i of the buffer
unfoldable pub random_crockford : ℕ → (ℕ → ℕ) → Text
unfolding crockford_char
random_crockford zero rand = []
random_crockford (suc n) rand = crockford_char (rand 0) ∷ random_crockford n (λ i. rand (suc i))

-- NewID
unfoldable pub new_id : Text → (ℕ → ℕ) → Text
new_id prefix rand = prefix ++ (bytes "_" ++ random_crockford id_random_len rand)

unfoldable pub new_code_id : (ℕ → ℕ) → Text
unfolding new_id
new_code_id rand = new_id (bytes "cod") rand

-- 0-9, a-h, j, k, m, n, p-t, v-z
abbrev pub is_crockford : ℕ → Bool
is_crockford c =
    (leb b'0' c && leb c b'9')
    || (leb b'a' c && leb c b'h')
    || c == b'j'
    || c == b'k'
    || c == b'm'
    || c == b'n'
    || (leb b'p' c && leb c b't')
    || (leb b'v' c && leb c b'z')

abbrev masked_is_crockford : ℕ → Bool
masked_is_crockford n = is_crockford (get_or id_alphabet n 0)

masked_table : holds_below masked_is_crockford 32 ≡ true
unfolding holds_below
masked_table = refl

pub crockford_char-is_crockford : (b : ℕ) → is_crockford (crockford_char b) ≡ true
unfolding crockford_char
crockford_char-is_crockford b =
    holds_below_sound masked_is_crockford 32 masked_table (b % 32) (omega arith)

pub random_crockford-all :
    (n : ℕ) (rand : ℕ → ℕ) → all is_crockford (random_crockford n rand) ≡ true
unfolding random_crockford
random_crockford-all zero rand = refl
random_crockford-all (suc n) rand =
    ground (arith, crockford_char-is_crockford (rand 0), random_crockford-all n (λ i. rand (suc i)))

pub length-random_crockford : (n : ℕ) (rand : ℕ → ℕ) → length (random_crockford n rand) ≡ n
unfolding random_crockford
length-random_crockford zero rand = refl
length-random_crockford (suc n) rand = ap suc (length-random_crockford n (λ i. rand (suc i)))
