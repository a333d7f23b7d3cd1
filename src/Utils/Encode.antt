-- ===== src/Utils/Encode.antt =====
-- `utils::encode`: the RC4-like scrambling behind the challenge of a game server, in place, and
-- then base64 (a parameter, since the encoder is Boost's). A `char` operand may be negative, but
-- every sum is taken modulo 256 by way of `size_t`, so the byte may stand for it.
use gamespy_emulator.Prelude.{
  ℕ, zero, suc, ◌+◌, ◌%◌, Option, none, some, Bytes, [], ◌∷◌, bit_xor, length,
}
use gamespy_emulator.Prelude.Deck.{at, swap, ascending}

-- `for (i = 0, j = 0; i < sbox.size(); i++)`, with `left` rounds to go.
pub key_loop : ℕ → ℕ → ℕ → Bytes → Bytes → Bytes
key_loop zero i j key sbox = sbox
key_loop (suc left) i j key sbox =
    let j' = (j + at sbox i + at key (i % length key)) % 256 in
    key_loop left (i + 1) j' key (swap sbox i j')

-- The variables of the second loop.
pub record Prga : Type 0 where
  pub i : ℕ
  pub j : ℕ
  pub sbox : Bytes

-- One round: the index `i` moves by the plain byte, a deviation from RC4.
pub prga_step : Prga → ℕ → Prga × ℕ
prga_step s c =
    let i = (s.i + c + 1) % 256 in
    let j = (s.j + at s.sbox i) % 256 in
    let sbox = swap s.sbox i j in
    (record { i = i; j = j; sbox = sbox }, bit_xor c (at sbox ((at sbox i + at sbox j) % 256)))

pub message_loop : Prga → Bytes → Prga × Bytes
message_loop s [] = (s, [])
message_loop s (c ∷ cs) =
    let (s', out) = prga_step s c in let (last, outs) = message_loop s' cs in (last, out ∷ outs)

-- What is given to `base64_encode`. With an empty key `i % keyLength` divides by zero, which is
-- undefined: `none`.
unfoldable pub scramble : Bytes → Bytes → Option Bytes
unfolding key_loop message_loop prga_step swap ascending
scramble [] message = none
scramble (k ∷ ks) message =
    some
      (message_loop (record { i = 0; j = 0; sbox = key_loop 256 0 0 (k ∷ ks) (ascending 0 256) })
        message).1

-- `encode`
unfoldable pub encode : (Bytes → Bytes) → Bytes → Bytes → Option Bytes
unfolding scramble
encode base64_encode key message = elim (scramble key message) [
  | none ↦ none
  | some out ↦ some (base64_encode out)
]
