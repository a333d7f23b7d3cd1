-- ===== src/Md5.antt =====
-- emulator/md5.h and emulator/md5.cpp: the digest. A word is a number below 2 ^ 32, additions wrap.
-- `m_array_` is the list of the words stored so far, in front of `m_array_first_`; every pass
-- fills all sixteen before `hash_chunk` reads them.
pub mod Padding
pub mod Blocks
pub mod Rounds
mod Tests
use gamespy_emulator.Prelude.{
  Bool, true, false, ℕ, zero, suc, ◌+◌, ◌-◌, ◌*◌, ◌/◌, ◌%◌, ◌^◌, Bytes, [], ◌∷◌, ◌++◌, bit_and,
  bit_or, bit_xor, ltb, leb, if◌then◌else◌, length, replicate, List,
}
use gamespy_emulator.Prelude.Deck.{at}

abbrev pub u32 : ℕ → ℕ
u32 n = n % 2 ^ 32

-- `~` on a word.
abbrev pub complement : ℕ → ℕ
complement x = 2 ^ 32 - 1 - x

abbrev pub k_array : List ℕ
k_array =
    0xd76aa478 ∷ 0xe8c7b756 ∷ 0x242070db ∷ 0xc1bdceee ∷ 0xf57c0faf ∷ 0x4787c62a ∷ 0xa8304613
    ∷ 0xfd469501 ∷ 0x698098d8 ∷ 0x8b44f7af ∷ 0xffff5bb1 ∷ 0x895cd7be ∷ 0x6b901122 ∷ 0xfd987193
    ∷ 0xa679438e ∷ 0x49b40821 ∷ 0xf61e2562 ∷ 0xc040b340 ∷ 0x265e5a51 ∷ 0xe9b6c7aa ∷ 0xd62f105d
    ∷ 0x02441453 ∷ 0xd8a1e681 ∷ 0xe7d3fbc8 ∷ 0x21e1cde6 ∷ 0xc33707d6 ∷ 0xf4d50d87 ∷ 0x455a14ed
    ∷ 0xa9e3e905 ∷ 0xfcefa3f8 ∷ 0x676f02d9 ∷ 0x8d2a4c8a ∷ 0xfffa3942 ∷ 0x8771f681 ∷ 0x6d9d6122
    ∷ 0xfde5380c ∷ 0xa4beea44 ∷ 0x4bdecfa9 ∷ 0xf6bb4b60 ∷ 0xbebfbc70 ∷ 0x289b7ec6 ∷ 0xeaa127fa
    ∷ 0xd4ef3085 ∷ 0x04881d05 ∷ 0xd9d4d039 ∷ 0xe6db99e5 ∷ 0x1fa27cf8 ∷ 0xc4ac5665 ∷ 0xf4292244
    ∷ 0x432aff97 ∷ 0xab9423a7 ∷ 0xfc93a039 ∷ 0x655b59c3 ∷ 0x8f0ccc92 ∷ 0xffeff47d ∷ 0x85845dd1
    ∷ 0x6fa87e4f ∷ 0xfe2ce6e0 ∷ 0xa3014314 ∷ 0x4e0811a1 ∷ 0xf7537e82 ∷ 0xbd3af235 ∷ 0x2ad7d2bb
    ∷ 0xeb86d391 ∷ []

abbrev pub s_array : List ℕ
s_array =
    7 ∷ 12 ∷ 17 ∷ 22 ∷ 7 ∷ 12 ∷ 17 ∷ 22 ∷ 7 ∷ 12 ∷ 17 ∷ 22 ∷ 7 ∷ 12 ∷ 17 ∷ 22 ∷ 5 ∷ 9 ∷ 14 ∷ 20 ∷ 5
    ∷ 9 ∷ 14 ∷ 20 ∷ 5 ∷ 9 ∷ 14 ∷ 20 ∷ 5 ∷ 9 ∷ 14 ∷ 20 ∷ 4 ∷ 11 ∷ 16 ∷ 23 ∷ 4 ∷ 11 ∷ 16 ∷ 23 ∷ 4 ∷ 11
    ∷ 16 ∷ 23 ∷ 4 ∷ 11 ∷ 16 ∷ 23 ∷ 6 ∷ 10 ∷ 15 ∷ 21 ∷ 6 ∷ 10 ∷ 15 ∷ 21 ∷ 6 ∷ 10 ∷ 15 ∷ 21 ∷ 6 ∷ 10
    ∷ 15 ∷ 21 ∷ []

-- The four words `a0_`, `b0_`, `c0_`, `d0_`, and the copies of them in `hash_chunk`.
pub record Words : Type 0 where
  pub a : ℕ
  pub b : ℕ
  pub c : ℕ
  pub d : ℕ

abbrev pub initial : Words
initial = record { a = 0x67452301; b = 0xefcdab89; c = 0x98badcfe; d = 0x10325476 }

unfoldable pub left_rotate : ℕ → ℕ → ℕ
left_rotate x c = bit_or (u32 (x * 2 ^ c)) (x / 2 ^ (32 - c))

-- `F` at round `i`.
unfoldable pub mix : ℕ → Words → ℕ
mix i w =
    if ltb i 16
    then bit_or (bit_and w.b w.c) (bit_and (complement w.b) w.d)
    else if ltb i 32
    then bit_or (bit_and w.d w.b) (bit_and (complement w.d) w.c)
    else if ltb i 48
    then bit_xor (bit_xor w.b w.c) w.d
    else bit_xor w.c (bit_or w.b (complement w.d))

-- `g` at round `i`.
unfoldable pub message_index : ℕ → ℕ
message_index i =
    if ltb i 16
    then i
    else if ltb i 32
    then bit_and (5 * i + 1) 0xf
    else if ltb i 48
    then bit_and (3 * i + 5) 0xf
    else bit_and (7 * i) 0xf

unfoldable pub hash_round : List ℕ → ℕ → Words → Words
unfolding mix message_index left_rotate
hash_round m_array i w =
    let sum = u32 (w.a + mix i w + at k_array i + at m_array (message_index i)) in
    record { a = w.d; b = u32 (w.b + left_rotate sum (at s_array i)); c = w.b; d = w.c }

-- The loop of `hash_chunk` from round `i` on, with `left` rounds to go.
unfoldable pub hash_rounds : ℕ → ℕ → List ℕ → Words → Words
unfolding hash_round
hash_rounds zero i m_array w = w
hash_rounds (suc left) i m_array w = hash_rounds left (i + 1) m_array (hash_round m_array i w)

unfoldable pub hash_chunk : List ℕ → Words → Words
unfolding hash_rounds
hash_chunk m_array w =
    let r = hash_rounds 64 0 m_array w in
    record { a = u32 (w.a + r.a); b = u32 (w.b + r.b); c = u32 (w.c + r.c); d = u32 (w.d + r.d) }

-- A little-endian word from four bytes.
abbrev pub word : ℕ → ℕ → ℕ → ℕ → ℕ
word b₀ b₁ b₂ b₃ = bit_or (bit_or (bit_or b₀ (b₁ * 2 ^ 8)) (b₂ * 2 ^ 16)) (b₃ * 2 ^ 24)

-- `bytes_to_m_array` for `n` words: the words, and the bytes behind them. It is called with at
-- least four bytes for each word, so the last clause is not reached.
unfoldable pub bytes_to_m_array : ℕ → Bytes → List ℕ × Bytes
bytes_to_m_array zero bytes = ([], bytes)
bytes_to_m_array (suc n) (b₀ ∷ b₁ ∷ b₂ ∷ b₃ ∷ rest) =
    let (words, left) = bytes_to_m_array n rest in (word b₀ b₁ b₂ b₃ ∷ words, left)
bytes_to_m_array (suc n) _ = ([], [])

-- `true_bit_to_m_array`: the bytes left over are the last `chunk_length % 4`.
unfoldable pub true_bit_to_m_array : Bytes → ℕ
true_bit_to_m_array [] = 0x00000080
true_bit_to_m_array (b₀ ∷ []) = bit_or b₀ 0x00008000
true_bit_to_m_array (b₀ ∷ b₁ ∷ []) = bit_or (bit_or b₀ (b₁ * 2 ^ 8)) 0x00800000
true_bit_to_m_array (b₀ ∷ b₁ ∷ b₂ ∷ _) =
    bit_or (bit_or (bit_or b₀ (b₁ * 2 ^ 8)) (b₂ * 2 ^ 16)) 0x80000000

-- `zeros_to_m_array` up to `last` words.
abbrev pub zeros_to_m_array : ℕ → List ℕ → List ℕ
zeros_to_m_array last m_array = m_array ++ replicate (last - length m_array) 0

-- `original_length_bits_to_m_array`, of a 64-bit number.
abbrev pub length_words : ℕ → List ℕ
length_words bits = bit_and bits 0xFFFFFFFF ∷ bit_and (bits / 2 ^ 32) 0xFFFFFFFF ∷ []

-- The last chunk, by its words and the bytes left over; the flag is whether it has 56 bytes.
unfoldable pub finish_words : ℕ → Bool → List ℕ × Bytes → Words → Words
unfolding hash_chunk true_bit_to_m_array
finish_words bits true (words, left) w =
    hash_chunk (zeros_to_m_array 14 [] ++ length_words bits)
      (hash_chunk (zeros_to_m_array 16 (words ++ true_bit_to_m_array left ∷ [])) w)
finish_words bits false (words, left) w =
    hash_chunk (zeros_to_m_array 14 (words ++ true_bit_to_m_array left ∷ []) ++ length_words bits) w

-- The part of `update` behind its loop, on the last chunk of fewer than 64 bytes.
unfoldable pub finish : ℕ → Bytes → Words → Words
unfolding finish_words bytes_to_m_array
finish bits chunk w =
    finish_words bits (leb 56 (length chunk)) (bytes_to_m_array (length chunk / 4) chunk) w

-- The loop of `update`; each round takes 64 bytes, so the number of bytes is fuel enough.
unfoldable pub chunks : ℕ → ℕ → Bytes → Words → Words
unfolding finish
chunks zero bits bytes w = finish bits bytes w
chunks (suc fuel) bits bytes w =
    let (words, rest) = bytes_to_m_array 16 bytes in
    let more = chunks fuel bits rest (hash_chunk words w) in
    if leb 64 (length bytes) then more else finish bits bytes w

-- The constructor from a range: `update` on the initial state.
unfoldable pub update : Bytes → Words
unfolding chunks
update bytes = chunks (length bytes) (length bytes * 8 % 2 ^ 64) bytes initial

abbrev pub hex_char : ℕ → ℕ
hex_char n = if ltb n 10 then b'0' + n else b'a' + (n - 10)

-- `uint32_to_hex`: the low byte first, its high nibble before the low one.
abbrev pub nibble : ℕ → ℕ → ℕ
nibble n shift = hex_char (bit_and (n / 2 ^ shift) 0xf)

abbrev pub uint32_to_hex : ℕ → Bytes
uint32_to_hex n =
    nibble n 4
    ∷ nibble n 0
    ∷ nibble n 12
    ∷ nibble n 8
    ∷ nibble n 20
    ∷ nibble n 16
    ∷ nibble n 28
    ∷ nibble n 24
    ∷ []

-- `uint32_to_byte`
abbrev pub uint32_to_byte : ℕ → Bytes
uint32_to_byte n =
    bit_and n 0xff
    ∷ bit_and (n / 2 ^ 8) 0xff
    ∷ bit_and (n / 2 ^ 16) 0xff
    ∷ bit_and (n / 2 ^ 24) 0xff
    ∷ []

unfoldable pub digest : Words → Bytes
digest w = uint32_to_byte w.a ++ (uint32_to_byte w.b ++ (uint32_to_byte w.c ++ uint32_to_byte w.d))

unfoldable pub hex_digest : Words → Bytes
hex_digest w = uint32_to_hex w.a ++ (uint32_to_hex w.b ++ (uint32_to_hex w.c ++ uint32_to_hex w.d))

-- `utils::md5`
unfoldable pub md5 : Bytes → Bytes
unfolding update hex_digest
md5 text = hex_digest (update text)
