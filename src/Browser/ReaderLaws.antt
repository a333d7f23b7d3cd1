-- ===== src/Browser/ReaderLaws.antt =====
-- The packet reader on a stream that comes in several reads.
use gamespy_emulator.Prelude.{
  ℕ, zero, suc, ◌*◌, ◌^◌, ◌≤◌, ◌<◌, ◌≡◌, refl, sym, ap, ◌∙◌, arith, false, Bytes, List, [], ◌∷◌,
  ◌++◌, ltb, length, length-append, length-drop, take, drop, bit_or, Bool-cases, inl, inr,
}
use mathlib.Core.List.{append_assoc}
use gamespy_emulator.Browser.Reader.{
  Packet, Frames, closed, waiting, add_packet, add_packets, frame_step, read_frames, receive,
}

-- The bytes behind a packet matter only if there is one.
frame_step-ap :
    (bytes : Bytes) (n t : ℕ) (x y : Frames)
    → (3 ≤ n → x ≡ y)
    → frame_step bytes n t x ≡ frame_step bytes n t y
frame_step-ap bytes n t x y h = elim (Bool-cases (ltb n 3)) [
  | inl e ↦ rw e refl
  | inr e ↦ ap (λ z. frame_step bytes n t z) (h (ground arith))
]

read_frames_short :
    (f : ℕ) (bytes : Bytes) → length bytes < 3 → read_frames f bytes ≡ waiting [] bytes
unfolding read_frames
read_frames_short zero bytes h = refl
read_frames_short (suc f) [] h = refl
read_frames_short (suc f) (b₀ ∷ []) h = refl
read_frames_short (suc f) (b₀ ∷ b₁ ∷ []) h = refl
read_frames_short (suc f) (b₀ ∷ b₁ ∷ b₂ ∷ bytes) h = absurd (omega arith)

-- More fuel changes nothing.
read_frames_fuel :
    (f g : ℕ) (bytes : Bytes)
    → length bytes ≤ f
    → length bytes ≤ g
    → read_frames f bytes ≡ read_frames g bytes
unfolding read_frames
read_frames_fuel f g [] hf hg =
    read_frames_short f [] (omega arith) ∙ sym (read_frames_short g [] (omega arith))
read_frames_fuel f g (b₀ ∷ []) hf hg =
    read_frames_short f (b₀ ∷ []) (omega arith) ∙ sym (read_frames_short g (b₀ ∷ []) (omega arith))
read_frames_fuel f g (b₀ ∷ b₁ ∷ []) hf hg =
    read_frames_short f (b₀ ∷ b₁ ∷ []) (omega arith)
    ∙ sym (read_frames_short g (b₀ ∷ b₁ ∷ []) (omega arith))
read_frames_fuel zero g (b₀ ∷ b₁ ∷ b₂ ∷ bytes) hf hg = absurd (omega arith)
read_frames_fuel (suc f) zero (b₀ ∷ b₁ ∷ b₂ ∷ bytes) hf hg = absurd (omega arith)
read_frames_fuel (suc f) (suc g) (b₀ ∷ b₁ ∷ b₂ ∷ bytes) hf hg =
    let all = b₀ ∷ b₁ ∷ b₂ ∷ bytes in
    let n = bit_or (b₀ * 2 ^ 8) b₁ in
    frame_step-ap all n b₂ (read_frames f (drop n all)) (read_frames g (drop n all)) (λ h.
      read_frames_fuel f g (drop n all) (omega (arith, length-drop n all, h, hf))
        (omega (arith, length-drop n all, h, hg)))

receive-add_packet :
    (p : Packet) (r : Frames) (b : Bytes) → receive (add_packet p r) b ≡ add_packet p (receive r b)
unfolding receive
receive-add_packet p (closed ps) b = refl
receive-add_packet p (waiting ps bytes) b = refl

receive-add_packets :
    (ps : List Packet) (r : Frames) (b : Bytes)
    → receive (add_packets ps r) b ≡ add_packets ps (receive r b)
receive-add_packets [] r b = refl
receive-add_packets (p ∷ ps) r b =
    receive-add_packet p (add_packets ps r) b ∙ ap (add_packet p) (receive-add_packets ps r b)

take-append : (n : ℕ) (a b : Bytes) → n ≤ length a → take n (a ++ b) ≡ take n a
take-append zero a b h = refl
take-append (suc n) [] b h = absurd (omega arith)
take-append (suc n) (c ∷ a) b h = ap (λ t. c ∷ t) (take-append n a b (omega arith))

drop-append : (n : ℕ) (a b : Bytes) → n ≤ length a → drop n (a ++ b) ≡ drop n a ++ b
drop-append zero a b h = refl
drop-append (suc n) [] b h = absurd (omega arith)
drop-append (suc n) (c ∷ a) b h = drop-append n a b (omega arith)

-- One round, with more bytes behind those it looked at; `y` is what follows then.
receive-frame_step :
    (a b : Bytes) (n t : ℕ) (x y : Frames)
    → receive (waiting [] a) b ≡ frame_step (a ++ b) n t y
    → (3 ≤ n → n ≤ length a → receive x b ≡ y)
    → receive (frame_step a n t x) b ≡ frame_step (a ++ b) n t y
receive-frame_step a b n t x y hw hx = elim (Bool-cases (ltb n 3)) [
  | inl e ↦ rw e (unfold receive in refl)
  | inr e ↦ elim (Bool-cases (ltb 4096 n)) [
    | inl e₂ ↦ rw (e, e₂) (unfold receive in refl)
    | inr e₂ ↦ elim (Bool-cases (ltb (length a) n)) [
      | inl e₃ ↦
          let kept : frame_step a n t x ≡ waiting [] a = rw (e, e₂, e₃) refl in
          ap (λ r. receive r b) kept ∙ hw
      | inr e₃ ↦
          let long : ltb (length (a ++ b)) n ≡ false = ground (arith, length-append a b) in
          let le : n ≤ length a = ground arith in
          elim (Bool-cases (ltb 5 t)) [
            | inl e₄ ↦ rw (e, e₂, e₃, e₄, long) (unfold receive in refl)
            | inr e₄ ↦
                let p : Packet = record { type = t; content = drop 3 (take n a) } in
                rw (e, e₂, e₃, e₄, long, take-append n a b le)
                  (receive-add_packet p x b ∙ ap (add_packet p) (hx (ground arith) le))
          ]
    ]
  ]
]

receive-read_frames :
    (f : ℕ) (a b : Bytes)
    → length a ≤ f
    → receive (read_frames f a) b ≡ read_frames (length (a ++ b)) (a ++ b)
unfolding read_frames receive
receive-read_frames f [] b h = ap (λ r. receive r b) (read_frames_short f [] (omega arith))
receive-read_frames f (b₀ ∷ []) b h =
    ap (λ r. receive r b) (read_frames_short f (b₀ ∷ []) (omega arith))
receive-read_frames f (b₀ ∷ b₁ ∷ []) b h =
    ap (λ r. receive r b) (read_frames_short f (b₀ ∷ b₁ ∷ []) (omega arith))
receive-read_frames zero (b₀ ∷ b₁ ∷ b₂ ∷ a) b h = absurd (omega arith)
receive-read_frames (suc f) (b₀ ∷ b₁ ∷ b₂ ∷ a) b h =
    let all = b₀ ∷ b₁ ∷ b₂ ∷ a in
    let n = bit_or (b₀ * 2 ^ 8) b₁ in
    let rest = b₁ ∷ b₂ ∷ (a ++ b) in
    receive-frame_step all b n b₂ (read_frames f (drop n all))
      (read_frames (length rest) (drop n (all ++ b))) refl
      (λ h₃ le.
        receive-read_frames f (drop n all) b (omega (arith, length-drop n all, h₃, h))
        ∙ read_frames_fuel (length (drop n all ++ b)) (length rest) (drop n all ++ b) (omega arith)
            (omega (arith, length-drop n all, length-append (drop n all) b, length-append a b, h₃))
        ∙ ap (read_frames (length rest)) (sym (drop-append n all b le)))

-- Two reads do what one read of their bytes does, from any state of the reader: the packets that
-- are yielded, the bytes that are kept, and whether the coroutine returned do not depend on how the
-- stream was cut.
pub receive-append : (s : Frames) (a b : Bytes) → receive (receive s a) b ≡ receive s (a ++ b)
unfolding receive
receive-append (closed ps) a b = refl
receive-append (waiting ps kept) a b =
    receive-add_packets ps (read_frames (length (kept ++ a)) (kept ++ a)) b
    ∙ ap (add_packets ps) (
        receive-read_frames (length (kept ++ a)) (kept ++ a) b (omega arith)
        ∙ ap (λ t. read_frames (length t) t) (append_assoc kept a b))
