-- ===== src/Sapphire/Keyrand.antt =====
-- The rounds and the range of `keyrand`.
use gamespy_emulator.Prelude.{
  ℕ, zero, suc, ◌+◌, ◌%◌, ◌≤◌, ◌<◌, ◌≡◌, refl, Option, some, arith, Bytes, length, leb, ltb, Bool,
  Bool-cases, inl, inr, if◌then◌else◌, bit_and,
}
use gamespy_emulator.Prelude.Deck.{at}
use gamespy_emulator.Sapphire.{Draw, u8, draw_loop, fill_mask, keyrand}

-- A draw that succeeded: the value is at most the limit, and the running variables index the cards
-- and the key.
pub record IsDraw (limit keysize : ℕ) (r : Option Draw) : Type 0 where
  pub draw : Draw
  pub returns : r ≡ some draw
  pub value_le : draw.value ≤ limit
  pub rsum_lt : draw.rsum < 256
  pub keypos_lt : draw.keypos < keysize

-- With one round for each retry left below twelve, the loop ends.
draw_loop-IsDraw :
    (fuel retry mask limit : ℕ) (cards key : Bytes) (rsum keypos : ℕ)
    → 0 < limit
    → fuel + retry ≡ 12
    → 0 < fuel
    → keypos < length key
    → IsDraw limit (length key) (draw_loop fuel retry mask limit cards key rsum keypos)
unfolding draw_loop
draw_loop-IsDraw zero retry mask limit cards key rsum keypos pos e f k = absurd (omega arith)
draw_loop-IsDraw (suc fuel) retry mask limit cards key rsum keypos pos e f k =
    elim (Bool-cases (ltb limit u)) [
      | inl again ↦ rw again (
          draw_loop-IsDraw fuel (retry + 1) mask limit cards key rsum' keypos' pos (omega arith)
            (ground arith) (ground arith))
      | inr done ↦ rw done (record {
        draw = record { value = u; rsum = rsum'; keypos = keypos' };
        returns = refl;
        value_le = ground arith;
        rsum_lt = ground arith;
        keypos_lt = ground arith;
      })
    ]
  where
    keysize : ℕ
    keysize = length key

    recycle : Bool
    recycle = leb keysize (keypos + 1)

    sum : ℕ
    sum = u8 (at cards rsum + at key keypos)

    rsum' : ℕ
    rsum' = if recycle then u8 (sum + keysize) else sum

    keypos' : ℕ
    keypos' = if recycle then 0 else keypos + 1

    u : ℕ
    u = if ltb 11 (retry + 1) then bit_and mask rsum' % limit else bit_and mask rsum'

-- `keyrand` always returns a draw in range.
pub keyrand-IsDraw :
    (limit : ℕ) (cards key : Bytes) (rsum keypos : ℕ)
    → rsum < 256
    → keypos < length key
    → IsDraw limit (length key) (keyrand limit cards key rsum keypos)
unfolding keyrand fill_mask
keyrand-IsDraw zero cards key rsum keypos r k = record {
  draw = record { value = 0; rsum = rsum; keypos = keypos };
  returns = refl;
  value_le = omega arith;
  rsum_lt = r;
  keypos_lt = k;
}
keyrand-IsDraw (suc limit) cards key rsum keypos r k =
    draw_loop-IsDraw 12 0 _ (suc limit) cards key rsum keypos (omega arith) refl (omega arith) k
