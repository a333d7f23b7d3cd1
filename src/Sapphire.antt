-- ===== src/Sapphire.antt =====
-- emulator/sapphire.h and emulator/sapphire.cpp: the Sapphire II stream cipher, with the two
-- indices that GameSpy exchanged. A cipher object is a record, and `cards[i]` is `at cards i`;
-- `unsigned char` arithmetic is `% 256`.
mod Keyrand
pub mod Setup
pub mod Stream
mod Tests
use gamespy_emulator.Prelude.{
  ℕ, zero, suc, ◌+◌, ◌*◌, ◌%◌, Bool, Option, none, some, List, [], ◌∷◌, bit_and, bit_xor, ltb, leb,
  ◌==◌, if◌then◌else◌, length, set, replicate, map, Bytes,
}
use gamespy_emulator.Prelude.Deck.{at, swap, ascending, descending}

pub record Sapphire : Type 0 where
  pub cards : Bytes
  pub rotor : ℕ
  pub ratchet : ℕ
  pub avalanche : ℕ
  pub last_plain : ℕ
  pub last_cipher : ℕ

-- An assignment to an `unsigned char`.
abbrev pub u8 : ℕ → ℕ
u8 n = n % 256

-- What `keyrand` returns, with the two variables that it changes.
pub record Draw : Type 0 where
  pub value : ℕ
  pub rsum : ℕ
  pub keypos : ℕ

-- `while (mask < limit) mask = (mask << 1) + 1;`, the number of rounds being at most the first
-- argument.
unfoldable pub fill_mask : ℕ → ℕ → ℕ → ℕ
fill_mask zero limit mask = mask
fill_mask (suc fuel) limit mask =
    let rest = fill_mask fuel limit (mask * 2 + 1) in if ltb mask limit then rest else mask

-- The do-while loop of `keyrand`, with fuel; `none` means that the fuel ran out.
pub draw_loop : ℕ → ℕ → ℕ → ℕ → Bytes → Bytes → ℕ → ℕ → Option Draw
draw_loop zero retry_limiter mask limit cards user_key rsum keypos = none
draw_loop (suc fuel) retry_limiter mask limit cards user_key rsum keypos =
    let keysize = length user_key in
    let sum = u8 (at cards rsum + at user_key keypos) in
    let recycle = leb keysize (keypos + 1) in
    let keypos' = if recycle then 0 else keypos + 1 in
    let rsum' = if recycle then u8 (sum + keysize) else sum in
    let masked = bit_and mask rsum' in
    let u = if ltb 11 (retry_limiter + 1) then masked % limit else masked in
    let rest = draw_loop fuel (retry_limiter + 1) mask limit cards user_key rsum' keypos' in
    if ltb limit u then rest else some (record { value = u; rsum = rsum'; keypos = keypos' })

-- `keyrand`: eight rounds fill any mask for a limit below 256, and twelve rounds of the loop are
-- enough since the twelfth reduces `u` below the limit.
pub keyrand : ℕ → Bytes → Bytes → ℕ → ℕ → Option Draw
keyrand zero cards user_key rsum keypos = some (record { value = 0; rsum = rsum; keypos = keypos })
keyrand (suc limit) cards user_key rsum keypos =
    draw_loop 12 0 (fill_mask 8 (suc limit) 1) (suc limit) cards user_key rsum keypos

-- The cards and the two running variables of the key schedule.
pub record Schedule : Type 0 where
  pub cards : Bytes
  pub rsum : ℕ
  pub keypos : ℕ

-- One round of `for (i = 255; i >= 0; i--)` in `initialize`.
pub schedule_step : ℕ → Bytes → Schedule → Option Schedule
schedule_step i key s = elim (keyrand i s.cards key s.rsum s.keypos) [
  | none ↦ none
  | some d ↦ some (record { cards = swap s.cards i d.value; rsum = d.rsum; keypos = d.keypos })
]

-- The rounds for the indices below the first argument, from the highest down.
pub schedule : ℕ → Bytes → Schedule → Option Schedule
schedule zero key s = some s
schedule (suc i) key s = elim (schedule_step i key s) [ none ↦ none | some s' ↦ schedule i key s' ]

-- `hash_init`
pub hash_init : Sapphire
hash_init = record {
  cards = descending 255 256;
  rotor = 1;
  ratchet = 3;
  avalanche = 5;
  last_plain = 7;
  last_cipher = 11;
}

-- The end of `initialize`: the indices from the shuffled cards.
abbrev pub set_indices : Schedule → Sapphire
set_indices s = record {
  cards = s.cards;
  rotor = at s.cards 1;
  ratchet = at s.cards 3;
  avalanche = at s.cards 5;
  last_plain = at s.cards 7;
  last_cipher = at s.cards s.rsum;
}

-- `initialize`. The constructor calls it for a key of 1 to 255 bytes: for an empty key it leaves the
-- cards uninitialised, and for a longer one it throws.
pub initialize : Bytes → Option Sapphire
initialize [] = some hash_init
initialize (k ∷ ks) =
    elim (schedule 256 (k ∷ ks) (record { cards = ascending 0 256; rsum = 0; keypos = 0 })) [
      | none ↦ none
      | some s ↦ some (set_indices s)
    ]

-- The shuffle that `encrypt` and `decrypt` begin with.
pub shuffle : Sapphire → Sapphire
shuffle c =
    let ratchet = u8 (c.ratchet + at c.cards c.rotor) in
    let rotor = u8 (c.rotor + 1) in
    let swaptemp = at c.cards c.last_cipher in
    let cards₁ = set c.cards c.last_cipher (at c.cards ratchet) in
    let cards₂ = set cards₁ ratchet (at cards₁ c.last_plain) in
    let cards₃ = set cards₂ c.last_plain (at cards₂ rotor) in
    let cards₄ = set cards₃ rotor swaptemp in
    record c {
      cards = cards₄;
      rotor = rotor;
      ratchet = ratchet;
      avalanche = u8 (c.avalanche + at cards₄ swaptemp);
    }

-- The two bytes of the shuffled state that the input is combined with.
abbrev pub first_pad : Sapphire → ℕ
first_pad c = at c.cards (bit_and (at c.cards c.avalanche + at c.cards c.rotor) 0xFF)

abbrev pub second_pad : Sapphire → ℕ
second_pad c = at c.cards (
    at c.cards
      (bit_and (at c.cards c.last_plain + at c.cards c.last_cipher + at c.cards c.ratchet) 0xFF))

-- `encrypt`: the new state and the byte returned.
pub encrypt : Sapphire → ℕ → Sapphire × ℕ
encrypt c b =
    let s = shuffle c in
    let out = bit_xor (bit_xor b (first_pad s)) (second_pad s) in
    (record s { last_cipher = out; last_plain = b }, out)

-- `decrypt`
pub decrypt : Sapphire → ℕ → Sapphire × ℕ
decrypt c b =
    let s = shuffle c in
    let out = bit_xor (bit_xor b (first_pad s)) (second_pad s) in
    (record s { last_plain = out; last_cipher = b }, out)

-- The template `encrypt` over a range, in place; and the same loop over `decrypt`, which the
-- client at the other end runs.
pub encrypt_all : Sapphire → Bytes → Sapphire × Bytes
encrypt_all c [] = (c, [])
encrypt_all c (b ∷ bs) =
    let (c', out) = encrypt c b in let (last, outs) = encrypt_all c' bs in (last, out ∷ outs)

pub decrypt_all : Sapphire → Bytes → Sapphire × Bytes
decrypt_all c [] = (c, [])
decrypt_all c (b ∷ bs) =
    let (c', out) = decrypt c b in let (last, outs) = decrypt_all c' bs in (last, out ∷ outs)

-- `hash_final`: 256 bytes are fed in, then `n` zeros are encrypted.
pub hash_final : Sapphire → ℕ → Sapphire × Bytes
hash_final c n = encrypt_all (encrypt_all c (descending 255 256)).0 (replicate n 0)

-- `burn`, which the destructor calls.
pub burn : Sapphire → Sapphire
burn c = record {
  cards = map (λ x. 0) c.cards;
  rotor = 0;
  ratchet = 0;
  avalanche = 0;
  last_plain = 0;
  last_cipher = 0;
}
