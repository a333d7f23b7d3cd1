-- ===== src/Md5/Rounds.antt =====
-- The loop of `md5::update`, a block at a time.
use mathlib.Core.List.{append_assoc}
use mathlib.Core.Path.{subst}
use gamespy_emulator.Md5.Blocks.{take-at, drop-at, finish-split}
use gamespy_emulator.Md5.Padding.{
  words_of, zeros_for, padded, hash_blocks, blocks_for, length-words_of, words_of-append,
  bytes_to_m_array-append,
}
use gamespy_emulator.Md5.{
  Words, initial, hash_chunk, bytes_to_m_array, length_words, finish, chunks, update,
}
use gamespy_emulator.Prelude.{
  ℕ, zero, suc, ◌+◌, ◌*◌, ◌/◌, ◌%◌, ◌^◌, ◌≤◌, ◌<◌, ◌≡◌, sym, ap, ap₂, ◌∙◌, Bytes, ◌∷◌, ◌++◌, length,
  take, drop, replicate, length-append, length-take, length-drop, take-append-drop, if◌then◌else◌,
  leb, Bool, inl, inr, Bool-cases, arith, tests,
}

finish-padded :
    (bits : ℕ) (bytes : Bytes) (w : Words)
    → length bytes < 64
    → finish bits bytes w ≡ hash_blocks (blocks_for (length bytes)) (padded bits bytes) w
finish-padded bits bytes w h =
    let q = length bytes / 4 in
    let n : length (take (4 * q) bytes) ≡ 4 * q = omega (arith, length-take (4 * q) bytes) in
    let l = length-drop (4 * q) bytes in
    subst (λ b. finish bits b w ≡ hash_blocks (blocks_for (length b)) (padded bits b) w)
      (take-append-drop (4 * q) bytes)
      (finish-split bits q (take (4 * q) bytes) (drop (4 * q) bytes) w n (omega arith)
        (omega arith))

padded-append :
    (bits : ℕ) (a b : Bytes) → length a ≡ 64 → padded bits (a ++ b) ≡ words_of a ++ padded bits b
padded-append bits a b h =
    let len : length (a ++ b) ≡ 64 + length b = omega (arith, length-append a b) in
    let z : zeros_for (length (a ++ b)) ≡ zeros_for (length b) = omega arith in
    ap (λ k. words_of ((a ++ b) ++ (0x80 ∷ replicate k 0)) ++ length_words bits) z
    ∙ ap (λ t. words_of t ++ length_words bits) (append_assoc a b _)
    ∙ ap (λ t. t ++ length_words bits) (words_of-append 16 a _ (omega arith))
    ∙ append_assoc (words_of a) _ (length_words bits)

first_block :
    (bits : ℕ) (a b : Bytes) (w : Words)
    → length a ≡ 64
    → hash_blocks (blocks_for (length b)) (padded bits b) (hash_chunk (words_of a) w)
      ≡ hash_blocks (blocks_for (length (a ++ b))) (padded bits (a ++ b)) w
unfolding hash_blocks
first_block bits a b w h =
    let len : length (a ++ b) ≡ 64 + length b = omega (arith, length-append a b) in
    let more : blocks_for (length (a ++ b)) ≡ suc (blocks_for (length b)) = omega arith in
    let n = length-words_of 16 a (omega arith) in
    let rest = padded bits b in
    ap₂ (λ ws block. hash_blocks (blocks_for (length b)) ws (hash_chunk block w))
      (sym (drop-at 16 (words_of a) rest n)) (sym (take-at 16 (words_of a) rest n))
    ∙ ap₂ (λ m ws. hash_blocks m ws w) (sym more) (sym (padded-append bits a b h))

-- With a round for each 64 bytes, the loop hashes the blocks of the padded bytes.
chunks-padded :
    (fuel bits : ℕ) (bytes : Bytes) (w : Words)
    → length bytes < 64 * suc fuel
    → chunks fuel bits bytes w ≡ hash_blocks (blocks_for (length bytes)) (padded bits bytes) w
unfolding chunks
chunks-padded zero bits bytes w h = finish-padded bits bytes w (omega arith)
chunks-padded (suc fuel) bits bytes w h =
    let choose : Bool → Words = λ b.
      if b
      then chunks fuel bits (bytes_to_m_array 16 bytes).1
          (hash_chunk (bytes_to_m_array 16 bytes).0 w)
      else finish bits bytes w in
    elim (Bool-cases (leb 64 (length bytes))) [
      | inr last ↦ ap choose last ∙ finish-padded bits bytes w (ground arith)
      | inl whole ↦
          let le : 64 ≤ length bytes = omega tests in
          let a = take 64 bytes in
          let b = drop 64 bytes in
          let n : length a ≡ 64 = omega (arith, length-take 64 bytes) in
          let m = length-drop 64 bytes in
          let same = take-append-drop 64 bytes in
          ap choose whole
          ∙ ap (λ p. chunks fuel bits p.1 (hash_chunk p.0 w))
              (ap (bytes_to_m_array 16) (sym same) ∙ bytes_to_m_array-append 16 a b (omega arith))
          ∙ chunks-padded fuel bits b (hash_chunk (words_of a) w) (omega arith)
          ∙ first_block bits a b w n
          ∙ ap (λ t. hash_blocks (blocks_for (length t)) (padded bits t) w) same
    ]

-- The state behind `update` is that of RFC 1321: the message is followed by the byte 0x80 and by
-- zeros up to 56 bytes in the last block, then by its length in bits as two words, and the blocks
-- of sixteen words are hashed one after the other.
pub update-padded :
    (bytes : Bytes)
    → update bytes
      ≡ hash_blocks (blocks_for (length bytes)) (padded (length bytes * 8 % 2 ^ 64) bytes) initial
unfolding update
update-padded bytes =
    chunks-padded (length bytes) (length bytes * 8 % 2 ^ 64) bytes initial (omega arith)
