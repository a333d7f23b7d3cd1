-- ===== src/Utils/Xor.antt =====
-- `utils::gs_xor`: the running exclusive or with a fixed text.
use gamespy_emulator.Prelude.{
  ℕ, zero, suc, ◌<◌, ◌∙◌, arith, ◌+◌, ◌%◌, ◌≡◌, refl, ap, Bytes, [], ◌∷◌, bit_xor, codes, length,
}
use gamespy_emulator.Prelude.Bits.{xor_cancel}
use gamespy_emulator.Prelude.Deck.{at}

-- `xor_types`
abbrev pub gamespy : Bytes
gamespy = codes "gamespy"

abbrev pub game_spy_3d : Bytes
game_spy_3d = codes "GameSpy3D"

abbrev pub project_aphex : Bytes
project_aphex = codes "ProjectAphex"

abbrev pub industries : Bytes
industries = codes "Industries"

-- The loop of `gs_xor` from index `i` on.
pub gs_xor_from : Bytes → ℕ → Bytes → Bytes
gs_xor_from gsxor i [] = []
gs_xor_from gsxor i (c ∷ cs) =
    bit_xor c (at gsxor (i % length gsxor)) ∷ gs_xor_from gsxor (i + 1) cs

unfoldable pub gs_xor : Bytes → Bytes → Bytes
unfolding gs_xor_from
gs_xor gsxor message = gs_xor_from gsxor 0 message

gs_xor_from_twice :
    (gsxor : Bytes) (i : ℕ) (m : Bytes) → gs_xor_from gsxor i (gs_xor_from gsxor i m) ≡ m
unfolding gs_xor_from
gs_xor_from_twice gsxor i [] = refl
gs_xor_from_twice gsxor i (c ∷ cs) =
    rw (xor_cancel c (at gsxor (i % length gsxor)), gs_xor_from_twice gsxor (i + 1) cs)

-- Applied twice with the same text, `gs_xor` gives the message back: sender and receiver run the
-- same function.
pub gs_xor_twice : (gsxor m : Bytes) → gs_xor gsxor (gs_xor gsxor m) ≡ m
unfolding gs_xor
gs_xor_twice gsxor m = gs_xor_from_twice gsxor 0 m

length-gs_xor_from : (gsxor : Bytes) (i : ℕ) (m : Bytes) → length (gs_xor_from gsxor i m) ≡ length m
unfolding gs_xor_from
length-gs_xor_from gsxor i [] = refl
length-gs_xor_from gsxor i (c ∷ cs) = ap suc (length-gs_xor_from gsxor (i + 1) cs)

at-gs_xor_from :
    (gsxor : Bytes) (i k : ℕ) (m : Bytes)
    → k < length m
    → at (gs_xor_from gsxor i m) k ≡ bit_xor (at m k) (at gsxor ((i + k) % length gsxor))
unfolding gs_xor_from
at-gs_xor_from gsxor i k [] h = absurd (omega arith)
at-gs_xor_from gsxor i zero (c ∷ cs) h =
    let start : i ≡ i + 0 = omega arith in ap (λ x. bit_xor c (at gsxor (x % length gsxor))) start
at-gs_xor_from gsxor i (suc k) (c ∷ cs) h =
    let shift : (i + 1) + k ≡ i + suc k = omega arith in
    at-gs_xor_from gsxor (i + 1) k cs (omega arith)
    ∙ ap (λ x. bit_xor (at cs k) (at gsxor (x % length gsxor))) shift

-- Each character of the result is that of the message, combined with the character of the text at
-- the same index, the text being repeated; the result is as long as the message.
pub at-gs_xor :
    (gsxor m : Bytes) (k : ℕ)
    → k < length m
    → (at (gs_xor gsxor m) k ≡ bit_xor (at m k) (at gsxor (k % length gsxor)))
      × (length (gs_xor gsxor m) ≡ length m)
unfolding gs_xor
at-gs_xor gsxor m k h =
    let start : 0 + k ≡ k = omega arith in
    (
      at-gs_xor_from gsxor 0 k m h ∙ ap (λ x. bit_xor (at m k) (at gsxor (x % length gsxor))) start,
      length-gs_xor_from gsxor 0 m,
    )

pub length-gs_xor : (gsxor m : Bytes) → length (gs_xor gsxor m) ≡ length m
unfolding gs_xor
length-gs_xor gsxor m = length-gs_xor_from gsxor 0 m

pub gs_xor_nil : (gsxor : Bytes) → gs_xor gsxor [] ≡ []
unfolding gs_xor gs_xor_from
gs_xor_nil gsxor = refl
