-- ===== src/Redirect/Names.antt =====
-- `should_redirect` of redirect/main.cpp: which names are redirected.
use gamespy_emulator.Prelude.{
  ◌≡◌, ◌⊎◌, ◌↔◌, refl, sym, ap, ap₂, inl, inr, Bool, true, ◌||◌, some, Bytes, [], ◌∷◌, ◌++◌, codes,
  starts_with, arith, Bool-cases,
}
use gamespy_emulator.Redirect.{has_text, should_redirect}

-- The text stands somewhere in the name.
abbrev pub StandsIn : Bytes → Bytes → Type 0
StandsIn text name = (before : Bytes) × (after : Bytes) × (name ≡ before ++ text ++ after)

starts_with-split :
    (text name : Bytes) → starts_with text name ≡ true → (after : Bytes) × (name ≡ text ++ after)
starts_with-split [] name h = (name, refl)
starts_with-split (t ∷ ts) [] h = ground arith
starts_with-split (t ∷ ts) (c ∷ cs) h =
    let both : (t ≡ c) × (starts_with ts cs ≡ true) = (ground (arith, h), ground (arith, h)) in
    let (after, e) = starts_with-split ts cs both.1 in (after, ap₂ (◌∷◌) (sym both.0) e)

starts_with-append : (text after : Bytes) → starts_with text (text ++ after) ≡ true
starts_with-append [] after = refl
starts_with-append (t ∷ ts) after = ground (arith, starts_with-append ts after)

has_text-StandsIn : (text name : Bytes) → has_text text name ≡ true → StandsIn text name
unfolding has_text
has_text-StandsIn text [] h = let (after, e) = starts_with-split text [] h in ([], after, e)
has_text-StandsIn text (c ∷ cs) h = elim (Bool-cases (starts_with text (c ∷ cs))) [
  | inl e ↦ let (after, split) = starts_with-split text (c ∷ cs) e in ([], after, split)
  | inr e ↦
      let (before, after, split) = has_text-StandsIn text cs (rw e at h) in
      (c ∷ before, after, ap (λ x. c ∷ x) split)
]

starts-has_text : (text name : Bytes) → starts_with text name ≡ true → has_text text name ≡ true
unfolding has_text
starts-has_text text [] h = h
starts-has_text text (c ∷ cs) h = rw h refl

has_text-append : (text before after : Bytes) → has_text text (before ++ text ++ after) ≡ true
unfolding has_text
has_text-append text [] after = starts-has_text text (text ++ after) (starts_with-append text after)
has_text-append text (c ∷ before) after = ground (arith, has_text-append text before after)

or_iff : (a b : Bool) → ((a || b) ≡ true) ↔ ((a ≡ true) ⊎ (b ≡ true))
or_iff a b = (λ h. ground arith, λ h. ground arith)

-- A name is redirected if and only if "gamespy" or "dice.se" stands in it.
pub should_redirect_iff :
    (name : Bytes)
    → (should_redirect (some name) ≡ true)
      ↔ (StandsIn (codes "gamespy") name ⊎ StandsIn (codes "dice.se") name)
unfolding should_redirect
should_redirect_iff name =
    let either = or_iff (has_text (codes "gamespy") name) (has_text (codes "dice.se") name) in
    (
      λ h. elim (either.0 h) [
        | inl g ↦ inl (has_text-StandsIn (codes "gamespy") name g)
        | inr d ↦ inr (has_text-StandsIn (codes "dice.se") name d)
      ],
      λ h. either.1 (elim h [
        | inl (before, after, e) ↦ inl (rw e (has_text-append (codes "gamespy") before after))
        | inr (before, after, e) ↦ inr (rw e (has_text-append (codes "dice.se") before after))
      ]),
    )
