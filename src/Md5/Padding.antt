-- ===== src/Md5/Padding.antt =====
-- The padding of `update`, as RFC 1321 describes it: the bytes, 0x80, zeros, and the length.
use gamespy_emulator.Md5.{
  Words, word, hash_chunk, bytes_to_m_array, true_bit_to_m_array, length_words,
}
use gamespy_emulator.Prelude.Masks.{bit_or-zero}
use gamespy_emulator.Prelude.{
  ℕ, zero, suc, ◌+◌, ◌-◌, ◌*◌, ◌/◌, ◌%◌, ◌^◌, ◌<◌, ◌≡◌, refl, ap, Bytes, List, [], ◌∷◌, ◌++◌,
  length, take, drop, replicate, bit_or, arith,
}

-- The words of the bytes, four for each.
unfoldable pub words_of : Bytes → List ℕ
words_of (b₀ ∷ b₁ ∷ b₂ ∷ b₃ ∷ rest) = word b₀ b₁ b₂ b₃ ∷ words_of rest
words_of _ = []

-- How many zeros lead to 56 bytes behind the last whole block.
abbrev pub zeros_for : ℕ → ℕ
zeros_for len = (119 - len % 64) % 64

-- The words of the padded message, the two of its length in bits at the end.
abbrev pub padded : ℕ → Bytes → List ℕ
padded bits bytes =
    words_of (bytes ++ (0x80 ∷ replicate (zeros_for (length bytes)) 0)) ++ length_words bits

-- The blocks of sixteen words, one after the other.
unfoldable pub hash_blocks : ℕ → List ℕ → Words → Words
hash_blocks zero words w = w
hash_blocks (suc n) words w = hash_blocks n (drop 16 words) (hash_chunk (take 16 words) w)

-- The number of blocks of a padded message.
abbrev pub blocks_for : ℕ → ℕ
blocks_for len = (len + 72) / 64

pub length-words_of : (n : ℕ) (a : Bytes) → length a ≡ 4 * n → length (words_of a) ≡ n
unfolding words_of
length-words_of zero [] h = refl
length-words_of zero (b₀ ∷ a) h = absurd (omega arith)
length-words_of (suc n) (b₀ ∷ b₁ ∷ b₂ ∷ b₃ ∷ a) h = ap suc (length-words_of n a (omega arith))
length-words_of (suc n) [] h = absurd (omega arith)
length-words_of (suc n) (b₀ ∷ []) h = absurd (omega arith)
length-words_of (suc n) (b₀ ∷ b₁ ∷ []) h = absurd (omega arith)
length-words_of (suc n) (b₀ ∷ b₁ ∷ b₂ ∷ []) h = absurd (omega arith)

pub words_of-append :
    (n : ℕ) (a b : Bytes) → length a ≡ 4 * n → words_of (a ++ b) ≡ words_of a ++ words_of b
unfolding words_of
words_of-append zero [] b h = refl
words_of-append zero (b₀ ∷ a) b h = absurd (omega arith)
words_of-append (suc n) (b₀ ∷ b₁ ∷ b₂ ∷ b₃ ∷ a) b h =
    ap (λ t. word b₀ b₁ b₂ b₃ ∷ t) (words_of-append n a b (omega arith))
words_of-append (suc n) [] b h = absurd (omega arith)
words_of-append (suc n) (b₀ ∷ []) b h = absurd (omega arith)
words_of-append (suc n) (b₀ ∷ b₁ ∷ []) b h = absurd (omega arith)
words_of-append (suc n) (b₀ ∷ b₁ ∷ b₂ ∷ []) b h = absurd (omega arith)

pub bytes_to_m_array-append :
    (n : ℕ) (a b : Bytes) → length a ≡ 4 * n → bytes_to_m_array n (a ++ b) ≡ (words_of a, b)
unfolding words_of bytes_to_m_array
bytes_to_m_array-append zero [] b h = refl
bytes_to_m_array-append zero (b₀ ∷ a) b h = absurd (omega arith)
bytes_to_m_array-append (suc n) (b₀ ∷ b₁ ∷ b₂ ∷ b₃ ∷ a) b h =
    rw (bytes_to_m_array-append n a b (omega arith)) refl
bytes_to_m_array-append (suc n) [] b h = absurd (omega arith)
bytes_to_m_array-append (suc n) (b₀ ∷ []) b h = absurd (omega arith)
bytes_to_m_array-append (suc n) (b₀ ∷ b₁ ∷ []) b h = absurd (omega arith)
bytes_to_m_array-append (suc n) (b₀ ∷ b₁ ∷ b₂ ∷ []) b h = absurd (omega arith)

words_of-zeros : (n k : ℕ) → k ≡ 4 * n → words_of (replicate k 0) ≡ replicate n 0
unfolding words_of
words_of-zeros zero zero h = refl
words_of-zeros zero (suc k) h = absurd (omega arith)
words_of-zeros (suc n) (suc (suc (suc (suc k)))) h =
    ap (λ t. 0 ∷ t) (words_of-zeros n k (omega arith))
words_of-zeros (suc n) zero h = absurd (omega arith)
words_of-zeros (suc n) (suc zero) h = absurd (omega arith)
words_of-zeros (suc n) (suc (suc zero)) h = absurd (omega arith)
words_of-zeros (suc n) (suc (suc (suc zero))) h = absurd (omega arith)

-- The bytes left over, the byte 0x80 and zeros.
pub words_of-tail :
    (k z : ℕ) (left : Bytes)
    → length left < 4
    → length left + 1 + z ≡ 4 * suc k
    → words_of (left ++ (0x80 ∷ replicate z 0)) ≡ true_bit_to_m_array left ∷ replicate k 0
unfolding words_of true_bit_to_m_array
words_of-tail k (suc (suc (suc z))) [] l h = ap (λ t. 0x80 ∷ t) (words_of-zeros k z (omega arith))
words_of-tail k (suc (suc z)) (b₀ ∷ []) l h =
    rw
      (
        bit_or-zero (bit_or b₀ 0x8000),
        bit_or-zero (bit_or b₀ 0x8000),
        words_of-zeros k z (omega arith),
      )
      refl
words_of-tail k (suc z) (b₀ ∷ b₁ ∷ []) l h =
    rw (bit_or-zero (bit_or (bit_or b₀ (b₁ * 2 ^ 8)) 0x800000), words_of-zeros k z (omega arith))
      refl
words_of-tail k z (b₀ ∷ b₁ ∷ b₂ ∷ []) l h = rw (words_of-zeros k z (omega arith)) refl
words_of-tail k zero [] l h = absurd (omega arith)
words_of-tail k (suc zero) [] l h = absurd (omega arith)
words_of-tail k (suc (suc zero)) [] l h = absurd (omega arith)
words_of-tail k zero (b₀ ∷ []) l h = absurd (omega arith)
words_of-tail k (suc zero) (b₀ ∷ []) l h = absurd (omega arith)
words_of-tail k zero (b₀ ∷ b₁ ∷ []) l h = absurd (omega arith)
words_of-tail k z (b₀ ∷ b₁ ∷ b₂ ∷ b₃ ∷ left) l h = absurd (omega arith)
