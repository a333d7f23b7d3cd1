-- ===== src/Utils/PlainBase64.antt =====
-- A codec that meets what `Password` assumes of the two iterators: two letters for each byte.
use gamespy_emulator.Prelude.{
  ℕ, zero, suc, ◌+◌, ◌-◌, ◌*◌, ◌/◌, ◌%◌, ◌≡◌, refl, ap, ap₂, arith, ◌==◌, Bytes, AllBytes, [], ◌∷◌,
  ◌++◌, replicate, if◌then◌else◌,
}
use gamespy_emulator.Utils.Password.{Base64, AllBase64, padding}

-- A codec with two letters for each byte, which meets what is assumed of the iterators.
abbrev pub letters : Bytes → Bytes
letters [] = []
letters (b ∷ bs) = (b'A' + b / 16 % 16) ∷ (b'A' + b % 16) ∷ letters bs

abbrev pub unletter : ℕ → ℕ
unletter c = if c == b'=' then 0 else c - b'A'

abbrev pub unletters : Bytes → Bytes
unletters [] = []
unletters (c ∷ []) = unletter c ∷ []
unletters (c ∷ d ∷ cs) = (unletter c * 16 + unletter d) ∷ unletters cs

pub letters-AllBase64 : (d : Bytes) → AllBase64 (letters d)
letters-AllBase64 [] = tt
letters-AllBase64 (b ∷ bs) = (ground arith, (ground arith, letters-AllBase64 bs))

unletters-replicate : (n : ℕ) → (k : ℕ) × (unletters (replicate n b'=') ≡ replicate k 0)
unletters-replicate zero = (0, refl)
unletters-replicate (suc zero) = (1, refl)
unletters-replicate (suc (suc n)) = let (k, e) = unletters-replicate n in (suc k, ap (◌∷◌ 0) e)

pub unletters-letters :
    (d : Bytes) (n : ℕ)
    → AllBytes d
    → (k : ℕ) × (unletters (letters d ++ replicate n b'=') ≡ d ++ replicate k 0)
unletters-letters [] n h = unletters-replicate n
unletters-letters (b ∷ bs) n h =
    let (k, e) = unletters-letters bs n h.1 in (k, ap₂ ◌∷◌ (ground arith) e)

abbrev pub plain_base64 : Base64
plain_base64 = record {
  from_binary = letters;
  to_binary = unletters;
  alphabet = letters-AllBase64;
  decodes = λ d h. unletters-letters d (padding d) h;
}
