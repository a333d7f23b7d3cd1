-- ===== src/Utils/KeyValue.antt =====
-- `utils::value_for_key`: the value behind a key such as `\nick\` in a packet `\login\\nick\name…`.
use gamespy_emulator.Prelude.{
  ℕ, ◌≤◌, ◌≡◌, ◌≢◌, ◌⊎◌, ◌↔◌, inl, inr, refl, sym, ap, ◌∙◌, arith, Bool-cases, Option, none, some,
  Bytes, [], ◌∷◌, ◌++◌, ◌==◌, ◌||◌, length, after_prefix, if◌then◌else◌, Option-cases,
}
use gamespy_emulator.Utils.Number.{parse_uint32}

-- `packet.find(key)`, then the bytes from behind the key on.
unfoldable pub find_after : Bytes → Bytes → Option Bytes
find_after key [] = after_prefix key []
find_after key (c ∷ cs) =
    let later = find_after key cs in
    elim (after_prefix key (c ∷ cs)) [ some rest ↦ some rest | none ↦ later ]

-- The bytes up to the delimiter or a NUL; `none` if the packet ends before either.
unfoldable pub take_value : ℕ → Bytes → Option Bytes
take_value delim [] = none
take_value delim (c ∷ cs) =
    let more = take_value delim cs in
    if c == delim || c == 0 then some [] else elim more [ some v ↦ some (c ∷ v) | none ↦ none ]

-- `value_for_key<std::string_view>` and `value_for_key<std::string>`. The delimiter is the first
-- character of the key; an empty key has none (undefined in C++, and not used): `none`.
unfoldable pub value_for_key : Bytes → Bytes → Option Bytes
value_for_key packet [] = none
value_for_key packet (delim ∷ name) = elim (find_after (delim ∷ name) packet) [
  | none ↦ none
  | some rest ↦ take_value delim rest
]

-- `value_for_key<std::uint32_t>`
unfoldable pub value_for_key_uint32 : Bytes → Bytes → Option ℕ
value_for_key_uint32 packet key = elim (value_for_key packet key) [
  | none ↦ none
  | some v ↦ parse_uint32 v
]

-- No byte of the text ends a value.
abbrev pub IsPlain : ℕ → Bytes → Type 0
IsPlain delim [] = Unit
IsPlain delim (c ∷ cs) = (c ≢ delim) × (c ≢ 0) × IsPlain delim cs

-- The key stands in the text behind `before`, and nowhere earlier.
pub record FoundAt (key text before rest : Bytes) : Type 0 where
  pub splits : text ≡ before ++ (key ++ rest)
  pub first : (p q : Bytes) → text ≡ p ++ (key ++ q) → length before ≤ length p

-- The value `v` is what the packet has behind the first occurrence of the key, up to a delimiter
-- or NUL.
pub record HasValue (packet : Bytes) (delim : ℕ) (name v : Bytes) : Type 0 where
  pub before : Bytes
  pub stop : ℕ
  pub rest : Bytes
  pub found : FoundAt (delim ∷ name) packet before (v ++ (stop ∷ rest))
  pub plain : IsPlain delim v
  pub stops : (stop ≡ delim) ⊎ (stop ≡ 0)

pub after_prefix-append : (key rest : Bytes) → after_prefix key (key ++ rest) ≡ some rest
after_prefix-append [] rest = refl
after_prefix-append (k ∷ ks) rest = ground (arith, after_prefix-append ks rest)

after_prefix-splits :
    (key text : Bytes) {rest : Bytes} → after_prefix key text ≡ some rest → text ≡ key ++ rest
after_prefix-splits [] text h = ground arith
after_prefix-splits (k ∷ ks) [] h = cc
after_prefix-splits (k ∷ ks) (c ∷ cs) {rest} h =
    ground (arith, after_prefix-splits ks cs {rest = rest})

pub find_after-here :
    (key text : Bytes) {rest : Bytes}
    → after_prefix key text ≡ some rest
    → find_after key text ≡ some rest
unfolding find_after
find_after-here key [] h = h
find_after-here key (c ∷ cs) h = rw (h, find_after)

pub find_after-later :
    (key : Bytes) (c : ℕ) (cs : Bytes)
    → after_prefix key (c ∷ cs) ≡ none
    → find_after key (c ∷ cs) ≡ find_after key cs
unfolding find_after
find_after-later key c cs h = rw (h, find_after)

FoundAt-here :
    (key text : Bytes) {rest : Bytes}
    → after_prefix key text ≡ some rest
    → (before : Bytes) × FoundAt key text before rest
FoundAt-here key text h =
    ([], record { splits = after_prefix-splits key text h; first = λ p q e. omega arith })

cons-tail : {c d : ℕ} {cs ds : Bytes} → ◌≡◌ {A = Bytes} (c ∷ cs) (d ∷ ds) → cs ≡ ds
cons-tail h = cc

find_after-FoundAt :
    (key text : Bytes) {rest : Bytes}
    → find_after key text ≡ some rest
    → (before : Bytes) × FoundAt key text before rest
find_after-FoundAt key [] h = FoundAt-here key [] (unfold find_after in h)
find_after-FoundAt key (c ∷ cs) {rest} h = elim (Option-cases (after_prefix key (c ∷ cs))) [
  | inr (r, e) ↦
      let same : some r ≡ some rest = sym (find_after-here key (c ∷ cs) e) ∙ h in
      FoundAt-here key (c ∷ cs) (e ∙ same)
  | inl e ↦
      let (b, f) = find_after-FoundAt key cs (sym (find_after-later key c cs e) ∙ h) in
      (c ∷ b, record { splits = ap (◌∷◌ c) f.splits; first = λ p q s. not_before c cs b f e p q s })
]
  where
    not_before :
        (c : ℕ) (cs b : Bytes)
        → FoundAt key cs b rest
        → after_prefix key (c ∷ cs) ≡ none
        → (p q : Bytes) → c ∷ cs ≡ p ++ (key ++ q)
        → length (c ∷ b) ≤ length p
    not_before c cs b f e [] q s =
        let hit : after_prefix key (c ∷ cs) ≡ some q = rw s (after_prefix-append key q) in cc
    not_before c cs b f e (d ∷ p) q s =
        let tail : cs ≡ p ++ (key ++ q) = cons-tail s in omega (arith, f.first p q tail)

FoundAt-find_after :
    (key before text : Bytes) {rest : Bytes}
    → FoundAt key text before rest
    → find_after key text ≡ some rest
FoundAt-find_after key [] text {rest} f =
    find_after-here key text (rw f.splits (after_prefix-append key rest))
FoundAt-find_after key (b ∷ bs) [] f = absurd (nil_not_cons f.splits)
  where
    nil_not_cons : {c : ℕ} {cs : Bytes} → ◌≡◌ {A = Bytes} [] (c ∷ cs) → ⊥
    nil_not_cons e = cc
FoundAt-find_after key (b ∷ bs) (c ∷ cs) {rest} f =
    elim (Option-cases (after_prefix key (c ∷ cs))) [
      | inr (r, e) ↦
          let early = f.first [] r (after_prefix-splits key (c ∷ cs) e) in absurd (omega arith)
      | inl e ↦
          find_after-later key c cs e
          ∙ FoundAt-find_after key bs cs (record {
            splits = cons-tail f.splits;
            first = λ p q s. omega (arith, f.first (c ∷ p) q (ap (◌∷◌ c) s));
          })
    ]

none_not_some : {w : Bytes} → none ≡ some w → ⊥
none_not_some e = cc

some_inj : {v w : Bytes} → some v ≡ some w → v ≡ w
some_inj e = cc

-- What `take_value` returns, and where it stopped.
record Taken (delim : ℕ) (text v : Bytes) : Type 0 where
  stop : ℕ
  rest : Bytes
  splits : text ≡ v ++ (stop ∷ rest)
  plain : IsPlain delim v
  stops : (stop ≡ delim) ⊎ (stop ≡ 0)

take_value-Taken :
    (delim : ℕ) (text : Bytes) {v : Bytes} → take_value delim text ≡ some v → Taken delim text v
unfolding take_value
take_value-Taken delim [] h = cc
take_value-Taken delim (c ∷ cs) {v} h = elim (Bool-cases (c == delim || c == 0)) [
  | inl stop ↦
      let e : some [] ≡ some v = rw stop at h in
      let e' : v ≡ [] = cc in
      record { stop = c; rest = cs; splits = rw e'; plain = rw e' tt; stops = ground arith }
  | inr go ↦ elim (Option-cases (take_value delim cs)) [
    | inl e ↦ absurd (none_not_some (rw (go, e) at h))
    | inr (w, e) ↦
        let t = take_value-Taken delim cs e in
        let e' : some (c ∷ w) ≡ some v = rw (go, e) at h in
        let e'' : v ≡ c ∷ w = cc in
        record {
          stop = t.stop;
          rest = t.rest;
          splits = rw e'' (ap (◌∷◌ c) t.splits);
          plain = rw e'' (ground arith, ground arith, t.plain);
          stops = t.stops;
        }
  ]
]

Taken-take_value :
    (delim stop : ℕ) (v rest : Bytes)
    → IsPlain delim v
    → (stop ≡ delim) ⊎ (stop ≡ 0)
    → take_value delim (v ++ (stop ∷ rest)) ≡ some v
unfolding take_value
Taken-take_value delim stop [] rest p s = ground arith
Taken-take_value delim stop (c ∷ cs) rest p s =
    ground (arith, Taken-take_value delim stop cs rest p.2 s)

value_for_key-cases :
    (packet : Bytes) (delim : ℕ) (name : Bytes)
    → ((find_after (delim ∷ name) packet ≡ none) × (value_for_key packet (delim ∷ name) ≡ none))
      ⊎ ((rest : Bytes) × (find_after (delim ∷ name) packet ≡ some rest)
          × (value_for_key packet (delim ∷ name) ≡ take_value delim rest))
unfolding value_for_key
value_for_key-cases packet delim name = elim (Option-cases (find_after (delim ∷ name) packet)) [
  | inl e ↦ inl (e, rw (e, value_for_key))
  | inr (rest, e) ↦ inr (rest, e, rw (e, value_for_key))
]

-- `value_for_key` returns a value exactly when the packet has it: behind the first occurrence of
-- the key, up to the next delimiter or NUL, which must stand in the packet.
pub value_for_key_iff :
    (packet : Bytes) (delim : ℕ) (name v : Bytes)
    → (value_for_key packet (delim ∷ name) ≡ some v) ↔ HasValue packet delim name v
value_for_key_iff packet delim name v = (forward, backward)
  where
    key : Bytes
    key = delim ∷ name

    forward : value_for_key packet key ≡ some v → HasValue packet delim name v
    forward h = elim (value_for_key-cases packet delim name) [
      | inl (_, e) ↦ absurd (none_not_some (sym e ∙ h))
      | inr (rest, e, e') ↦
          let (before, f) = find_after-FoundAt key packet e in
          let t = take_value-Taken delim rest (sym e' ∙ h) in
          record {
            before = before;
            stop = t.stop;
            rest = t.rest;
            found = rw (← t.splits) f;
            plain = t.plain;
            stops = t.stops;
          }
    ]

    backward : HasValue packet delim name v → value_for_key packet key ≡ some v
    backward h =
        let e = FoundAt-find_after key h.before packet h.found in
        elim (value_for_key-cases packet delim name) [
          | inl (miss, _) ↦ absurd (none_not_some (sym miss ∙ e))
          | inr (rest, e', e'') ↦
              let same : rest ≡ v ++ (h.stop ∷ h.rest) = some_inj (sym e' ∙ e) in
              e''
              ∙ ap (take_value delim) same
              ∙ Taken-take_value delim h.stop v h.rest h.plain h.stops
        ]
