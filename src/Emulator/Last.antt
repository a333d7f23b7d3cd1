-- ===== src/Emulator/Last.antt =====
-- The arguments of the command line: the last one with a prefix.
use gamespy_emulator.Prelude.{
  ℕ, ◌≡◌, refl, false, Option, none, some, Bytes, List, [], ◌∷◌, ◌++◌, ◌==◌, after_prefix, inl, inr,
  Bool-cases, arith,
}

-- The value of the last argument with a prefix.
abbrev pub last_or : Option Bytes → Option Bytes → Option Bytes
last_or here (some later) = some later
last_or here none = here

unfoldable pub last_value : Bytes → List Bytes → Option Bytes
last_value prefix [] = none
last_value prefix (arg ∷ args) = last_or (after_prefix prefix arg) (last_value prefix args)

abbrev pub value_or {ℓ} : {A : Type ℓ} → A → Option A → A
value_or d none = d
value_or d (some v) = v

-- An argument has one of two prefixes that differ behind a common start.
pub other_option :
    (common : Bytes) (a b : ℕ) (p q s v : Bytes)
    → (a == b) ≡ false
    → after_prefix (common ++ a ∷ p) s ≡ some v
    → after_prefix (common ++ b ∷ q) s ≡ none
other_option [] a b p q [] v d h = refl
other_option [] a b p q (x ∷ s) v d h = elim (Bool-cases (b == x)) [
  | inl same ↦ ground arith
  | inr differs ↦ rw differs refl
]
other_option (c ∷ common) a b p q [] v d h = refl
other_option (c ∷ common) a b p q (x ∷ s) v d h = elim (Bool-cases (c == x)) [
  | inl same ↦ rw same (other_option common a b p q s v d (rw same at h))
  | inr differs ↦ rw differs refl
]

pub value_or-last_or :
    (d : Bytes) (here later : Option Bytes)
    → value_or (value_or d here) later ≡ value_or d (last_or here later)
value_or-last_or d here none = refl
value_or-last_or d here (some v) = refl
