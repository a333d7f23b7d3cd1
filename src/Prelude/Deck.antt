-- ===== src/Prelude/Deck.antt =====
-- An array of 256 bytes that holds every byte once, as the state of both ciphers does, and the
-- swap of two of its places.
use Prim.Native.Nat.{ℕ, zero, suc, ◌+◌, ◌-◌, ◌≤◌, ◌<◌}
use mathlib.Core.Path.{◌≡◌, refl}
use mathlib.Core.List.{List, [], ◌∷◌}
use native.Mathlib.Omega.{arith}
use gamespy_emulator.Prelude.Count.{count, count-set}
use gamespy_emulator.Prelude.Lists.{length, get_or, set, length-set}
use gamespy_emulator.Prelude.Tests.{ltb, ◌==◌, if◌then◌else◌}

-- `a[i]`
abbrev pub at : List ℕ → ℕ → ℕ
at xs i = get_or xs i 0

-- `std::swap(a[i], a[j])`
unfoldable pub swap : List ℕ → ℕ → ℕ → List ℕ
swap xs i j = set (set xs i (at xs j)) j (at xs i)

-- `lo, lo + 1, …` of the given length.
unfoldable pub ascending : ℕ → ℕ → List ℕ
ascending lo zero = []
ascending lo (suc n) = lo ∷ ascending (lo + 1) n

-- `hi, hi - 1, …` of the given length.
unfoldable pub descending : ℕ → ℕ → List ℕ
descending hi zero = []
descending hi (suc n) = hi ∷ descending (hi - 1) n

-- Every byte stands in the array exactly once, and nothing else does.
pub record IsDeck (xs : List ℕ) : Type 0 where
  pub size : length xs ≡ 256
  pub once : (v : ℕ) → count v xs ≡ (if ltb v 256 then 1 else 0)

count-at : (xs : List ℕ) (i : ℕ) → i < length xs → 1 ≤ count (at xs i) xs
unfolding count
count-at [] i h = elim h [ ]
count-at (x ∷ xs) zero h = ground arith
count-at (x ∷ xs) (suc i) h = omega (arith, count-at xs i (omega arith))

-- What stands in a deck is a byte.
pub at-IsDeck : {xs : List ℕ} (i : ℕ) → IsDeck xs → i < 256 → at xs i < 256
at-IsDeck {xs} i d h =
    let size : length xs ≡ 256 = d.size in
    ground (arith, count-at xs i (omega arith), d.once (at xs i))

-- A move of values within the array keeps a deck: the new array has every value as often.
pub moved-IsDeck :
    {xs : List ℕ} (ys : List ℕ)
    → length ys ≡ length xs
    → ((v : ℕ) → count v ys ≡ count v xs)
    → IsDeck xs
    → IsDeck ys
moved-IsDeck ys l h d = record {
  size = omega (arith, d.size);
  once = λ v. omega (arith, h v, d.once v);
}

at-set :
    (xs : List ℕ) (i j v : ℕ) → j < length xs → at (set xs i v) j ≡ (if i == j then v else at xs j)
at-set [] i j v h = elim h [ ]
at-set (x ∷ xs) zero zero v h = refl
at-set (x ∷ xs) zero (suc j) v h = ground arith
at-set (x ∷ xs) (suc i) zero v h = ground arith
at-set (x ∷ xs) (suc i) (suc j) v h = ground (arith, at-set xs i j v (omega arith))

-- A write of what stands at `j` leaves `j` alone, wherever it goes.
pub at-set_same : (xs : List ℕ) (i j : ℕ) → j < length xs → at (set xs i (at xs j)) j ≡ at xs j
at-set_same xs i j h = ground (arith, at-set xs i j (at xs j) h)

count-swap :
    (v : ℕ) (xs : List ℕ) (i j : ℕ)
    → i < length xs
    → j < length xs
    → count v (swap xs i j) ≡ count v xs
unfolding swap
count-swap v xs i j hi hj = ground (
  arith,
  count-set v xs i (at xs j) hi,
  length-set xs i (at xs j),
  count-set v (set xs i (at xs j)) j (at xs i),
  at-set xs i j (at xs j) hj,
)

length-swap : (xs : List ℕ) (i j : ℕ) → length (swap xs i j) ≡ length xs
unfolding swap
length-swap xs i j =
    omega (arith, length-set xs i (at xs j), length-set (set xs i (at xs j)) j (at xs i))

-- Swapping two places keeps a deck.
pub swap-IsDeck : {xs : List ℕ} (i j : ℕ) → i < 256 → j < 256 → IsDeck xs → IsDeck (swap xs i j)
swap-IsDeck {xs} i j hi hj d =
    moved-IsDeck (swap xs i j) (length-swap xs i j)
      (λ v. count-swap v xs i j (omega (arith, d.size)) (omega (arith, d.size))) d

length-ascending : (lo n : ℕ) → length (ascending lo n) ≡ n
unfolding ascending
length-ascending lo zero = refl
length-ascending lo (suc n) = omega (arith, length-ascending (lo + 1) n)

count-ascending :
    (v lo n : ℕ)
    → count v (ascending lo n) ≡ (if ltb v lo then 0 else if ltb v (lo + n) then 1 else 0)
unfolding ascending count
count-ascending v lo zero = ground arith
count-ascending v lo (suc n) = ground (arith, count-ascending v (lo + 1) n)

pub ascending-IsDeck : IsDeck (ascending 0 256)
ascending-IsDeck = record {
  size = length-ascending 0 256;
  once = λ v. ground (arith, count-ascending v 0 256);
}

length-descending : (hi n : ℕ) → length (descending hi n) ≡ n
unfolding descending
length-descending hi zero = refl
length-descending hi (suc n) = omega (arith, length-descending (hi - 1) n)

count-descending :
    (v hi n : ℕ)
    → n ≤ hi + 1
    → count v (descending hi n)
      ≡ (if ltb hi v then 0 else if ltb (v + n) (hi + 1) then 0 else if n == 0 then 0 else 1)
unfolding descending count
count-descending v hi zero h = ground arith
count-descending v hi (suc zero) h = ground arith
count-descending v hi (suc (suc n)) h = ground (arith, count-descending v (hi - 1) (suc n))

pub descending-IsDeck : IsDeck (descending 255 256)
descending-IsDeck = record {
  size = length-descending 255 256;
  once = λ v. ground (arith, count-descending v 255 256 (omega arith));
}
