-- ===== src/Sapphire/Stream.antt =====
-- Encryption and decryption of a stream, and the state along it.
use gamespy_emulator.Prelude.{
  ℕ, suc, ◌+◌, ◌<◌, ◌≡◌, refl, ap, ◌∙◌, arith, [], ◌∷◌, Bytes, bit_xor, length, set, length-set,
  AllBytes,
}
use gamespy_emulator.Prelude.Bits.{xor_cancel, xor_right_comm, bit_xor-lt}
use gamespy_emulator.Prelude.Masks.{bit_and_byte}
use gamespy_emulator.Prelude.Count.{hit, count, count-set}
use gamespy_emulator.Prelude.Deck.{at, at-IsDeck, at-set_same, moved-IsDeck}
use gamespy_emulator.Sapphire.Setup.{IsReady}
use gamespy_emulator.Sapphire.{
  Sapphire, u8, shuffle, first_pad, second_pad, encrypt, decrypt, encrypt_all, decrypt_all,
}

-- Two pads applied and applied again.
xor_twice : (b p q : ℕ) → bit_xor (bit_xor (bit_xor (bit_xor b p) q) p) q ≡ b
xor_twice b p q =
    ap (λ (t : ℕ). bit_xor t q) (xor_right_comm (bit_xor b p) q p)
    ∙ xor_cancel (bit_xor (bit_xor b p) p) q
    ∙ xor_cancel b p

-- One byte: `decrypt` in the same state gives the plain byte back, and ends in the same state.
decrypt-encrypt : (c : Sapphire) (b : ℕ) → decrypt c (encrypt c b).1 ≡ ((encrypt c b).0, b)
unfolding encrypt decrypt
decrypt-encrypt c b =
    let s = shuffle c in
    ap (λ (t : ℕ). (record s { last_plain = t; last_cipher = (encrypt c b).1 }, t))
      (xor_twice b (first_pad s) (second_pad s))

-- A receiver that starts in the sender's state decrypts the stream to the plain bytes, and the two
-- are in the same state again behind it.
pub decrypt_all-encrypt_all :
    (c : Sapphire) (bs : Bytes) → decrypt_all c (encrypt_all c bs).1 ≡ ((encrypt_all c bs).0, bs)
unfolding encrypt_all decrypt_all
decrypt_all-encrypt_all c [] = refl
decrypt_all-encrypt_all c (b ∷ bs) =
    rw (decrypt-encrypt c b) (rw (decrypt_all-encrypt_all (encrypt c b).0 bs))

-- The four moves of the shuffle: a value is taken out at the first place, each place is filled
-- from the next, and the value goes to the last.
rotate4 : Bytes → ℕ → ℕ → ℕ → ℕ → Bytes
rotate4 xs i j k l =
    let xs₁ = set xs i (at xs j) in
    let xs₂ = set xs₁ j (at xs₁ k) in let xs₃ = set xs₂ k (at xs₂ l) in set xs₃ l (at xs i)

-- One move of the hole from `i` to `j`: the array with the hole filled by `w` has each value as
-- often as before.
count-fill :
    (v w : ℕ) (xs : Bytes) (i j : ℕ)
    → i < length xs
    → j < length xs
    → count v (set (set xs i (at xs j)) j w) ≡ count v (set xs i w)
count-fill v w xs i j hi hj = omega (
  arith,
  count-set v xs i w hi,
  count-set v xs i (at xs j) hi,
  length-set xs i (at xs j),
  count-set v (set xs i (at xs j)) j w (rw length-set hj),
  ap (hit v) (at-set_same xs i j hj),
)

module _ (xs : Bytes) (i j k l : ℕ) where
  length-rotate4 : length (rotate4 xs i j k l) ≡ length xs
  unfolding rotate4
  length-rotate4 = rw (length-set, length-set, length-set, length-set)

  count-rotate4 :
      (v : ℕ)
      → i < length xs
      → j < length xs
      → k < length xs
      → l < length xs
      → count v (rotate4 xs i j k l) ≡ count v xs
  unfolding rotate4
  count-rotate4 v hi hj hk hl =
      let w = at xs i in
      let xs₁ = set xs i (at xs j) in
      let xs₂ = set xs₁ j (at xs₁ k) in
      let l₁ : length xs₁ ≡ length xs = length-set xs i (at xs j) in
      let l₂ : length xs₂ ≡ length xs = length-set xs₁ j (at xs₁ k) ∙ l₁ in
      omega (
        arith,
        count-fill v w xs₂ k l (rw l₂ hk) (rw l₂ hl),
        count-fill v w xs₁ j k (rw l₁ hj) (rw l₁ hk),
        count-fill v w xs i j hi hj,
        count-set v xs i w hi,
      )

-- The shuffle keeps the cards a permutation and the indices in range.
shuffle-IsReady : {c : Sapphire} → IsReady c → IsReady (shuffle c)
unfolding shuffle rotate4
shuffle-IsReady {c} r = record {
  deck =
      moved-IsDeck (rotate4 c.cards c.last_cipher ratchet c.last_plain rotor)
        (length-rotate4 c.cards c.last_cipher ratchet c.last_plain rotor)
        (λ v.
          count-rotate4 c.cards c.last_cipher ratchet c.last_plain rotor v
            (omega (arith, r.deck.size)) (omega (arith, r.deck.size)) (omega (arith, r.deck.size))
            (omega (arith, r.deck.size)))
        r.deck;
  rotor_lt = omega arith;
  ratchet_lt = omega arith;
  avalanche_lt = omega arith;
  last_plain_lt = r.last_plain_lt;
  last_cipher_lt = r.last_cipher_lt;
}
  where
    rotor : ℕ
    rotor = u8 (c.rotor + 1)

    ratchet : ℕ
    ratchet = u8 (c.ratchet + at c.cards c.rotor)

first_pad-lt : {s : Sapphire} → IsReady s → first_pad s < 256
first_pad-lt {s} r =
    at-IsDeck _ r.deck (omega (arith, bit_and_byte (at s.cards s.avalanche + at s.cards s.rotor)))

second_pad-lt : {s : Sapphire} → IsReady s → second_pad s < 256
second_pad-lt {s} r = at-IsDeck _ r.deck (
    at-IsDeck _ r.deck (
      omega (
        arith,
        bit_and_byte (at s.cards s.last_plain + at s.cards s.last_cipher + at s.cards s.ratchet),
      )))

encrypt-IsReady :
    {c : Sapphire} (b : ℕ) → b < 256 → IsReady c → IsReady (encrypt c b).0 × ((encrypt c b).1 < 256)
unfolding encrypt
encrypt-IsReady {c} b h r =
    let s = shuffle-IsReady r in
    let out =
      bit_xor-lt 8 (bit_xor b (first_pad (shuffle c))) (second_pad (shuffle c))
        (bit_xor-lt 8 b (first_pad (shuffle c)) h (first_pad-lt s)) (second_pad-lt s) in
    (
      record {
        deck = s.deck;
        rotor_lt = s.rotor_lt;
        ratchet_lt = s.ratchet_lt;
        avalanche_lt = s.avalanche_lt;
        last_plain_lt = h;
        last_cipher_lt = out;
      },
      out,
    )

-- Encrypting bytes keeps the cards a permutation and the indices in range, and every byte sent is a
-- byte; there are as many as were given.
pub encrypt_all-IsReady :
    (bs : Bytes) {c : Sapphire}
    → AllBytes bs
    → IsReady c
    → IsReady (encrypt_all c bs).0
      × AllBytes (encrypt_all c bs).1
      × (length (encrypt_all c bs).1 ≡ length bs)
unfolding encrypt_all
encrypt_all-IsReady [] h r = (r, tt, refl)
encrypt_all-IsReady (b ∷ bs) {c} h r =
    let (r', out) = encrypt-IsReady b h.0 r in
    let (last, outs, size) = encrypt_all-IsReady bs h.1 r' in (last, (out, outs), ap suc size)
