-- ===== src/Utils/Password.antt =====
-- Passwords on the wire: `gspassenc`, `passencode`, `passdecode`, and base64, whose two iterators
-- are Boost's and enter as the record `Base64`.
use gamespy_emulator.Prelude.{
  ℕ, zero, suc, ◌-◌, ◌*◌, ◌%◌, ◌≡◌, refl, ap, ◌∙◌, arith, Bool, true, ◌||◌, Bytes, AllBytes, [],
  ◌∷◌, ◌++◌, ◌==◌, if◌then◌else◌, map, bit_xor, length, take, replicate, is_alnum,
}
use gamespy_emulator.Prelude.Bits.{xor_cancel, bit_xor-lt}

-- One step of `std::minstd_rand0`.
abbrev pub minstd_rand0 : ℕ → ℕ
minstd_rand0 x = x * 16807 % 2147483647

-- The loop of `gspassenc`, the generator in the state `x`.
unfoldable pub gspassenc_from : ℕ → Bytes → Bytes
gspassenc_from x [] = []
gspassenc_from x (c ∷ cs) = bit_xor c (minstd_rand0 x % 0xFF) ∷ gspassenc_from (minstd_rand0 x) cs

-- `gspassenc`; the seed is "gspy".
unfoldable pub gspassenc : Bytes → Bytes
gspassenc password = gspassenc_from 0x79707367 password

-- A letter, a digit, `+` or `/`.
abbrev pub is_base64 : ℕ → Bool
is_base64 c = is_alnum c || c == b'+' || c == b'/'

abbrev pub AllBase64 : Bytes → Type 0
AllBase64 [] = Unit
AllBase64 (c ∷ cs) = (is_base64 c ≡ true) × AllBase64 cs

-- The number of `=` that fill the last group.
abbrev pub padding : Bytes → ℕ
padding bytes = (3 - length bytes % 3) % 3

-- The iterators `base64_from_binary` and `binary_from_base64` over a whole string. Documented: the
-- encoder writes letters, digits, `+` and `/`, and the decoder reads `=` as zero bits, so that what
-- was padded comes back with some number of NULs behind it.
pub record Base64 : Type 0 where
  pub from_binary : Bytes → Bytes
  pub to_binary : Bytes → Bytes
  pub alphabet : (d : Bytes) → AllBase64 (from_binary d)
  pub decodes :
      (d : Bytes)
      → AllBytes d
      → (k : ℕ) × (to_binary (from_binary d ++ replicate (padding d) b'=') ≡ d ++ replicate k 0)

-- `std::replace`
abbrev pub replace : ℕ → ℕ → Bytes → Bytes
replace old new = map (λ c. if c == old then new else c)

cons_trimmed : ℕ → Bytes → Bytes
cons_trimmed c [] = if c == 0 then [] else c ∷ []
cons_trimmed c (x ∷ xs) = c ∷ x ∷ xs

-- `trim_right_copy_if` with the test for NUL.
unfoldable pub trim_right : Bytes → Bytes
unfolding cons_trimmed
trim_right [] = []
trim_right (c ∷ cs) = cons_trimmed c (trim_right cs)

module _ (b : Base64) where
  unfoldable pub base64_encode : Bytes → Bytes
  base64_encode bytes = b.from_binary bytes ++ replicate (padding bytes) b'='

  unfoldable pub base64_decode : Bytes → Bytes
  base64_decode bytes = trim_right (b.to_binary bytes)

  unfoldable pub passencode : Bytes → Bytes
  passencode password =
      replace b'/' b']' (replace b'+' b'[' (replace b'=' b'_' (base64_encode (gspassenc password))))

  unfoldable pub passdecode : Bytes → Bytes
  passdecode password =
      gspassenc (base64_decode (replace b']' b'/' (replace b'[' b'+' (replace b'_' b'=' password))))

gspassenc_from_twice : (x : ℕ) (p : Bytes) → gspassenc_from x (gspassenc_from x p) ≡ p
unfolding gspassenc_from
gspassenc_from_twice x [] = refl
gspassenc_from_twice x (c ∷ cs) =
    rw (xor_cancel c (minstd_rand0 x % 0xFF), gspassenc_from_twice (minstd_rand0 x) cs)

gspassenc_from-take :
    (n x : ℕ) (p : Bytes) → gspassenc_from x (take n p) ≡ take n (gspassenc_from x p)
unfolding gspassenc_from
gspassenc_from-take zero x p = refl
gspassenc_from-take (suc n) x [] = refl
gspassenc_from-take (suc n) x (c ∷ cs) = rw (gspassenc_from-take n (minstd_rand0 x) cs)

gspassenc_from-AllBytes : (x : ℕ) (p : Bytes) → AllBytes p → AllBytes (gspassenc_from x p)
unfolding gspassenc_from
gspassenc_from-AllBytes x [] h = tt
gspassenc_from-AllBytes x (c ∷ cs) h = (
  bit_xor-lt 8 c (minstd_rand0 x % 0xFF) h.0 (omega arith),
  gspassenc_from-AllBytes (minstd_rand0 x) cs h.1,
)

trim_right-take : (s : Bytes) → trim_right s ≡ take (length (trim_right s)) s
unfolding trim_right
trim_right-take [] = refl
trim_right-take (c ∷ cs) = cons_trimmed-take (trim_right cs) (trim_right-take cs)
  where
    cons_trimmed-take :
        (t : Bytes)
        → t ≡ take (length t) cs
        → cons_trimmed c t ≡ take (length (cons_trimmed c t)) (c ∷ cs)
    cons_trimmed-take [] e = ground arith
    cons_trimmed-take (x ∷ xs) e = rw (← e)

trim_right-zeros : (k : ℕ) → trim_right (replicate k 0) ≡ []
unfolding trim_right
trim_right-zeros zero = refl
trim_right-zeros (suc k) = rw (trim_right-zeros k)

trim_right-append : (s : Bytes) (k : ℕ) → trim_right (s ++ replicate k 0) ≡ trim_right s
unfolding trim_right
trim_right-append [] k = trim_right-zeros k
trim_right-append (c ∷ cs) k = rw (trim_right-append cs k)

-- The three replacements are undone on what the encoder writes.
unreplaced : Bytes → Bytes
unreplaced s = replace b']' b'/' (
    replace b'[' b'+'
      (replace b'_' b'=' (replace b'/' b']' (replace b'+' b'[' (replace b'=' b'_' s)))))

unreplaced-padding : (k : ℕ) → unreplaced (replicate k b'=') ≡ replicate k b'='
unfolding unreplaced
unreplaced-padding zero = refl
unreplaced-padding (suc k) = ap (◌∷◌ b'=') (unreplaced-padding k)

unreplaced_lem :
    (s : Bytes) (k : ℕ) → AllBase64 s → unreplaced (s ++ replicate k b'=') ≡ s ++ replicate k b'='
unfolding unreplaced
unreplaced_lem [] k h = unreplaced-padding k
unreplaced_lem (c ∷ cs) k h = ground (arith, unreplaced_lem cs k h.1)

-- A password that was encoded is decoded to itself, less the characters at its end whose
-- encryption is NUL: `base64_decode` cannot tell those from padding.
pub passdecode-passencode :
    (b : Base64) (password : Bytes)
    → AllBytes password
    → passdecode b (passencode b password)
      ≡ take (length (trim_right (gspassenc password))) password
unfolding passdecode passencode base64_encode base64_decode gspassenc unreplaced
passdecode-passencode b password h =
    let seed : ℕ = 0x79707367 in
    let e = gspassenc_from seed password in
    let (k, decoded) = b.decodes e (gspassenc_from-AllBytes seed password h) in
    ap (λ s. gspassenc_from seed (trim_right (b.to_binary s)))
      (unreplaced_lem (b.from_binary e) (padding e) (b.alphabet e))
    ∙ ap (λ s. gspassenc_from seed (trim_right s)) decoded
    ∙ ap (gspassenc_from seed) (trim_right-append e k ∙ trim_right-take e)
    ∙ gspassenc_from-take (length (trim_right e)) seed e
    ∙ ap (take (length (trim_right e))) (gspassenc_from_twice seed password)
