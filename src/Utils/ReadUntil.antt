-- ===== src/Utils/ReadUntil.antt =====
-- How the clients cut what they receive into packets: `async_read_until` of Boost.Asio reads into a
-- string up to a delimiter, and fails where the string has its largest size without one.
use gamespy_emulator.Prelude.{
  ℕ, zero, suc, ◌-◌, ◌≤◌, ◌≡◌, refl, sym, ap, ◌∙◌, arith, Option, none, some, Bytes, List, [], ◌∷◌,
  ◌++◌, length, length-append, take, drop, take-append_length, drop-append_length, after_prefix,
  Option-cases, inl, inr,
}
use mathlib.Core.List.{append_assoc}
use gamespy_emulator.Utils.KeyValue.{
  find_after, after_prefix-append, find_after-here, find_after-later,
}

-- A packet with its delimiter, and what is received behind it.
pub record Cut : Type 0 where
  pub packet : Bytes
  pub rest : Bytes

unfoldable pub read_until : Bytes → ℕ → Bytes → Option Cut
unfolding find_after
read_until delimiter max stream =
    let buffer = take max stream in
    elim (find_after delimiter buffer) [
      | none ↦ none
      | some behind ↦
          let size = length buffer - length behind in
          some (record { packet = take size stream; rest = drop size stream })
    ]

-- The loop of a client over what it receives. Each packet has a character at least, so as many
-- rounds as there are characters are enough.
unfoldable pub cut_from : ℕ → Bytes → ℕ → Bytes → List Bytes
unfolding read_until
cut_from zero delimiter max stream = []
cut_from (suc fuel) delimiter max stream = elim (read_until delimiter max stream) [
  | none ↦ []
  | some c ↦ c.packet ∷ cut_from fuel delimiter max c.rest
]

abbrev pub cut_all : Bytes → ℕ → Bytes → List Bytes
cut_all delimiter max stream = cut_from (length stream) delimiter max stream

take-append :
    (n : ℕ) (xs ys : Bytes) → length xs ≤ n → take n (xs ++ ys) ≡ xs ++ take (n - length xs) ys
take-append n [] ys h = let whole : n ≡ n - 0 = omega arith in ap (λ k. take k ys) whole
take-append zero (x ∷ xs) ys h = absurd (omega arith)
take-append (suc n) (x ∷ xs) ys h =
    let left : n - length xs ≡ suc n - suc (length xs) = omega arith in
    ap (λ zs. x ∷ zs) (take-append n xs ys (omega arith) ∙ ap (λ k. xs ++ take k ys) left)

after_prefix-none :
    (key text more : Bytes)
    → length key ≤ length text
    → after_prefix key text ≡ none
    → after_prefix key (text ++ more) ≡ none
after_prefix-none [] text more h e = cc
after_prefix-none (k ∷ ks) [] more h e = absurd (omega arith)
after_prefix-none (k ∷ ks) (c ∷ cs) more h e =
    let shorter : length ks ≤ length cs = omega arith in
    ground (arith, after_prefix-none ks cs more shorter)

-- A delimiter that stands nowhere in a text with all but its last character behind is found first
-- where it is appended.
find_after-append :
    (start : Bytes) (last : ℕ) (text more : Bytes)
    → find_after (start ++ last ∷ []) (text ++ start) ≡ none
    → find_after (start ++ last ∷ []) (text ++ (start ++ last ∷ []) ++ more) ≡ some more
unfolding find_after
find_after-append start last [] more h =
    find_after-here (start ++ last ∷ []) ((start ++ last ∷ []) ++ more)
      (after_prefix-append (start ++ last ∷ []) more)
find_after-append start last (c ∷ cs) more h =
    let key = start ++ last ∷ [] in
    elim (Option-cases (after_prefix key (c ∷ (cs ++ start)))) [
      | inr (r, e) ↦
          let found : some r ≡ none = sym (find_after-here key (c ∷ (cs ++ start)) e) ∙ h in cc
      | inl e ↦
          let later =
            find_after-append start last cs more
              (sym (find_after-later key c (cs ++ start) e) ∙ h) in
          let long : length key ≤ length (c ∷ (cs ++ start)) =
            omega (arith, length-append start (last ∷ []), length-append cs start) in
          let same : (c ∷ (cs ++ start)) ++ (last ∷ more) ≡ c ∷ (cs ++ key ++ more) =
            ap (λ x. c ∷ x)
              (sym (append_assoc (cs ++ start) (last ∷ []) more)
                ∙ ap (λ x. x ++ more) (append_assoc cs start (last ∷ []))) in
          find_after-later key c (cs ++ key ++ more) (
            ap (after_prefix key) (sym same)
            ∙ after_prefix-none key (c ∷ (cs ++ start)) (last ∷ more) long e)
          ∙ later
    ]

-- A packet that is short enough is cut off where its delimiter is appended, if that stands nowhere
-- before.
pub read_until-append :
    (start : Bytes) (last : ℕ) (max : ℕ) (text more : Bytes)
    → find_after (start ++ last ∷ []) (text ++ start) ≡ none
    → length (text ++ (start ++ last ∷ [])) ≤ max
    → read_until (start ++ last ∷ []) max ((text ++ (start ++ last ∷ [])) ++ more)
      ≡ some (record { packet = text ++ (start ++ last ∷ []); rest = more })
unfolding read_until
read_until-append start last max text more h short =
    let packet = text ++ (start ++ last ∷ []) in
    let left = take (max - length packet) more in
    let buffer : take max (packet ++ more) ≡ packet ++ left = take-append max packet more short in
    let found : find_after (start ++ last ∷ []) (take max (packet ++ more)) ≡ some left =
      ap (find_after (start ++ last ∷ [])) buffer ∙ find_after-append start last text left h in
    let size : length (take max (packet ++ more)) - length left ≡ length packet =
      ap (λ b. length b - length left) buffer ∙ omega (arith, length-append packet left) in
    rw (found, size, take-append_length packet more, drop-append_length packet more, read_until)
      refl
