-- ===== src/Md5/Blocks.antt =====
-- `md5::update` hashes the blocks of the padded message.
use mathlib.Core.List.{append_assoc}
use mathlib.Core.Path.{subst}
use gamespy_emulator.Md5.Padding.{
  words_of, zeros_for, padded, hash_blocks, blocks_for, length-words_of, words_of-append,
  bytes_to_m_array-append, words_of-tail,
}
use gamespy_emulator.Md5.{
  Words, hash_chunk, bytes_to_m_array, true_bit_to_m_array, zeros_to_m_array, length_words,
  finish_words, finish,
}
use gamespy_emulator.Prelude.{
  ℕ, zero, suc, ◌+◌, ◌-◌, ◌*◌, ◌/◌, ◌≤◌, ◌<◌, ◌≡◌, refl, sym, ap, ap₂, ◌∙◌, Bytes, List, [], ◌∷◌,
  ◌++◌, length, take, drop, replicate, length-append, length-replicate, take-append_length,
  drop-append_length, leb, inl, inr, Bool-cases, arith, tests,
}

pub take-at {ℓ} : {A : Type ℓ} (n : ℕ) (xs ys : List A) → length xs ≡ n → take n (xs ++ ys) ≡ xs
take-at n xs ys h = subst (λ m. take m (xs ++ ys) ≡ xs) h (take-append_length xs ys)

pub drop-at {ℓ} : {A : Type ℓ} (n : ℕ) (xs ys : List A) → length xs ≡ n → drop n (xs ++ ys) ≡ ys
drop-at n xs ys h = subst (λ m. drop m (xs ++ ys) ≡ ys) h (drop-append_length xs ys)

take-all {ℓ} : {A : Type ℓ} (n : ℕ) (xs : List A) → length xs ≡ n → take n xs ≡ xs
take-all zero [] h = refl
take-all zero (x ∷ xs) h = absurd (omega arith)
take-all (suc n) [] h = refl
take-all (suc n) (x ∷ xs) h = ap (λ t. x ∷ t) (take-all n xs (omega arith))

replicate-append {ℓ} :
    {A : Type ℓ} (m n : ℕ) (x : A) → replicate (m + n) x ≡ replicate m x ++ replicate n x
replicate-append zero n x = ap (λ k. replicate k x) (omega arith)
replicate-append (suc m) n x =
    let e : suc m + n ≡ suc (m + n) = omega arith in rw e (ap (λ t. x ∷ t) (replicate-append m n x))

-- The words of a message of whole words, the bytes left over, and the padding.
padded-split :
    (bits q k : ℕ) (a left : Bytes)
    → length a ≡ 4 * q
    → length left < 4
    → length left + 1 + zeros_for (length (a ++ left)) ≡ 4 * suc k
    → padded bits (a ++ left)
      ≡ (words_of a ++ (true_bit_to_m_array left ∷ replicate k 0)) ++ length_words bits
padded-split bits q k a left ha hl h =
    ap (λ t. t ++ length_words bits)
      (ap words_of (append_assoc a left _)
        ∙ words_of-append q a _ ha
        ∙ ap (λ t. words_of a ++ t) (words_of-tail k _ left hl h))

-- One block is enough for the padding.
short-words :
    (q bit : ℕ) (ws ls : List ℕ)
    → length ws ≡ q
    → zeros_to_m_array 14 (ws ++ bit ∷ []) ++ ls ≡ (ws ++ (bit ∷ replicate (13 - q) 0)) ++ ls
short-words q bit ws ls h =
    let e : 14 - length (ws ++ bit ∷ []) ≡ 13 - q = omega (arith, length-append ws (bit ∷ [])) in
    rw e (ap (λ t. t ++ ls) (append_assoc ws (bit ∷ []) (replicate (13 - q) 0)))

-- The padding takes a second block.
long-words :
    (q bit : ℕ) (ws ls : List ℕ)
    → length ws ≡ q
    → q < 16
    → (ws ++ (bit ∷ replicate (29 - q) 0)) ++ ls
      ≡ zeros_to_m_array 16 (ws ++ bit ∷ []) ++ (zeros_to_m_array 14 [] ++ ls)
long-words q bit ws ls h l =
    let e : 16 - length (ws ++ bit ∷ []) ≡ 15 - q = omega (arith, length-append ws (bit ∷ [])) in
    let f : 29 - q ≡ (15 - q) + 14 = omega arith in
    let first = ws ++ bit ∷ [] in
    let zeros : List ℕ = replicate (15 - q) 0 in
    let more : List ℕ = replicate 14 0 in
    rw (e, f, replicate-append {A = ℕ} (15 - q) 14 0)
      (ap (λ t. t ++ ls)
          (sym (append_assoc ws (bit ∷ []) (zeros ++ more)) ∙ sym (append_assoc first zeros more))
        ∙ append_assoc (first ++ zeros) more ls)

length-zeros_to_m_array :
    (n q : ℕ) (bit : ℕ) (ws : List ℕ)
    → length ws ≡ q
    → q < n
    → length (zeros_to_m_array n (ws ++ bit ∷ [])) ≡ n
length-zeros_to_m_array n q bit ws h l =
    let e : length (ws ++ bit ∷ []) ≡ q + 1 = omega (arith, length-append ws (bit ∷ [])) in
    rw
      (
        length-append (ws ++ bit ∷ []) (replicate (n - length (ws ++ bit ∷ [])) 0),
        length-replicate {A = ℕ} (n - length (ws ++ bit ∷ [])) 0,
        e,
      )
      (omega arith)

short-chunk :
    (bits q bit : ℕ) (ws : List ℕ) (w : Words)
    → length ws ≡ q
    → q < 14
    → hash_chunk (zeros_to_m_array 14 (ws ++ bit ∷ []) ++ length_words bits) w
      ≡ hash_blocks 1 ((ws ++ (bit ∷ replicate (13 - q) 0)) ++ length_words bits) w
unfolding hash_blocks
short-chunk bits q bit ws w h l =
    let all = zeros_to_m_array 14 (ws ++ bit ∷ []) ++ length_words bits in
    let n : length all ≡ 16 =
      length-append (zeros_to_m_array 14 (ws ++ bit ∷ [])) (length_words bits)
      ∙ ap (λ m. m + 2) (length-zeros_to_m_array 14 q bit ws h l) in
    ap (λ m. hash_chunk m w) (sym (take-all 16 all n))
    ∙ ap (λ ws'. hash_blocks 1 ws' w) (short-words q bit ws (length_words bits) h)

long-chunks :
    (bits q bit : ℕ) (ws : List ℕ) (w : Words)
    → length ws ≡ q
    → q < 16
    → hash_chunk
        (zeros_to_m_array 14 [] ++ length_words bits)
        (hash_chunk (zeros_to_m_array 16 (ws ++ bit ∷ [])) w)
      ≡ hash_blocks 2 ((ws ++ (bit ∷ replicate (29 - q) 0)) ++ length_words bits) w
unfolding hash_blocks
long-chunks bits q bit ws w h l =
    let first = zeros_to_m_array 16 (ws ++ bit ∷ []) in
    let second = zeros_to_m_array 14 [] ++ length_words bits in
    let n = length-zeros_to_m_array 16 q bit ws h l in
    ap₂ (λ s f. hash_chunk (take 16 s) (hash_chunk f w)) (sym (drop-at 16 first second n))
      (sym (take-at 16 first second n))
    ∙ ap (λ ws'. hash_blocks 2 ws' w) (sym (long-words q bit ws (length_words bits) h l))

-- The last bytes of a message, fewer than 64.
pub finish-split :
    (bits q : ℕ) (a left : Bytes) (w : Words)
    → length a ≡ 4 * q
    → length left < 4
    → 4 * q + length left < 64
    → finish bits (a ++ left) w
      ≡ hash_blocks (blocks_for (length (a ++ left))) (padded bits (a ++ left)) w
unfolding finish finish_words hash_blocks
finish-split bits q a left w ha hl hs =
    let len : length (a ++ left) ≡ 4 * q + length left = omega (arith, length-append a left) in
    let words : length (a ++ left) / 4 ≡ q = omega arith in
    let split =
      ap (λ n. bytes_to_m_array n (a ++ left)) words ∙ bytes_to_m_array-append q a left ha in
    let n = length-words_of q a ha in
    let bit = true_bit_to_m_array left in
    elim (Bool-cases (leb 56 (length (a ++ left)))) [
      | inr short ↦
          let le : length (a ++ left) < 56 = ground arith in
          let one : blocks_for (length (a ++ left)) ≡ 1 = omega arith in
          let k : length left + 1 + zeros_for (length (a ++ left)) ≡ 4 * suc (13 - q) =
            omega arith in
          ap₂ (λ b p. finish_words bits b p w) short split
          ∙ short-chunk bits q bit (words_of a) w n (omega arith)
          ∙ ap₂ (λ m ws. hash_blocks m ws w) (sym one)
              (sym (padded-split bits q (13 - q) a left ha hl k))
      | inl long ↦
          let le : 56 ≤ length (a ++ left) = omega tests in
          let two : blocks_for (length (a ++ left)) ≡ 2 = omega arith in
          let k : length left + 1 + zeros_for (length (a ++ left)) ≡ 4 * suc (29 - q) =
            omega arith in
          ap₂ (λ b p. finish_words bits b p w) long split
          ∙ long-chunks bits q bit (words_of a) w n (omega arith)
          ∙ ap₂ (λ m ws. hash_blocks m ws w) (sym two)
              (sym (padded-split bits q (29 - q) a left ha hl k))
    ]
