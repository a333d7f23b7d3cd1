-- ===== src/Bf2/Listed.antt =====
-- The entries of MySQL with an address, by which `BF2::GetServers` sets its flags.
use mathlib.Core.Bool.{true≢false}
use mathlib.Core.Path.{subst}
use gamespy_emulator.Bf2.Servers.{Ranked, find_ranked}
use gamespy_emulator.Game.Identifiers.{All}
use gamespy_emulator.Prelude.{
  ℕ, ◌≡◌, ◌≢◌, refl, sym, ap, ap₂, ◌∙◌, Bool, false, Option, none, some, Bytes, List, [], ◌∷◌, ◌++◌,
  ◌⊎◌, true, ◌==◌, ◌&&◌, ==_iff, equal, equal_iff, inl, inr, Bool-cases,
}

-- No entry of the list has that address.
abbrev pub Unlisted : Bytes → ℕ → List Ranked → Type 0
Unlisted ip port ranked = All (λ r. (r.ip ≢ ip) ⊎ (r.port ≢ port)) ranked

-- The first entry of the list with that address.
pub record FirstListed (ranked : List Ranked) (ip : Bytes) (port : ℕ) (plasma : Bool) : Type 0 where
  pub before : List Ranked
  pub after : List Ranked
  pub splits : ranked ≡ before ++ (record { ip = ip; port = port; plasma = plasma }) ∷ after
  pub first : Unlisted ip port before

abbrev pub Found : Option Bool → List Ranked → Bytes → ℕ → Type 0
Found none ranked ip port = Unlisted ip port ranked
Found (some plasma) ranked ip port = FirstListed ranked ip port plasma

HasAddress : Bytes → ℕ → Ranked → Type 0
HasAddress ip port r = (r.ip ≡ ip) × (r.port ≡ port)

-- The test of an entry decides its address.
address-cases :
    (ip : Bytes) (port : ℕ) (r : Ranked)
    → (((equal r.ip ip && r.port == port) ≡ true) × HasAddress ip port r)
      ⊎ (((equal r.ip ip && r.port == port) ≡ false) × ((r.ip ≢ ip) ⊎ (r.port ≢ port)))
unfolding HasAddress
address-cases ip port r = elim (Bool-cases (equal r.ip ip)) [
  | inr differs ↦
      inr (rw differs refl, inl (λ e. true≢false (sym ((equal_iff r.ip ip).1 e) ∙ differs)))
  | inl same ↦ elim (Bool-cases (r.port == port)) [
    | inr differs ↦
        inr (
          rw (same, differs) refl,
          inr (λ e. true≢false (sym ((==_iff r.port port).1 e) ∙ differs)),
        )
    | inl equals ↦
        inl (rw (same, equals) refl, ((equal_iff r.ip ip).0 same, (==_iff r.port port).0 equals))
  ]
]

extend-Found :
    (found : Option Bool) (r : Ranked) (rs : List Ranked) (ip : Bytes) (port : ℕ)
    → (r.ip ≢ ip) ⊎ (r.port ≢ port)
    → Found found rs ip port
    → Found found (r ∷ rs) ip port
extend-Found none r rs ip port d h = (d, h)
extend-Found (some plasma) r rs ip port d h = record {
  before = r ∷ h.before;
  after = h.after;
  splits = ap (λ x. r ∷ x) h.splits;
  first = (d, h.first);
}

pub find_ranked-Found :
    (ranked : List Ranked) (ip : Bytes) (port : ℕ)
    → Found (find_ranked ip port ranked) ranked ip port
unfolding find_ranked HasAddress
find_ranked-Found [] ip port = tt
find_ranked-Found (r ∷ rs) ip port = elim (address-cases ip port r) [
  | inl (here, (same_ip, same_port)) ↦
      rw (here, Found)
        (record {
          before = [];
          after = rs;
          splits =
              ap₂ (λ a b. record { ip = a; port = b; plasma = r.plasma } ∷ rs) same_ip same_port;
          first = tt;
        })
  | inr (other, d) ↦
      subst (λ x. Found x (r ∷ rs) ip port) (sym (rw other refl))
        (extend-Found (find_ranked ip port rs) r rs ip port d (find_ranked-Found rs ip port))
]
