-- ===== src/Master/Listed.antt =====
-- The entries of a map of `MasterServer`, and those that an erasure leaves.
use gamespy_emulator.Game.Identifiers.{All}
use gamespy_emulator.Master.State.{
  Endpoint, Server, Servers, same_endpoint, find_server, erase_server,
}
use gamespy_emulator.Prelude.{◌≡◌, ◌⊎◌, refl, true, false, [], ◌∷◌, inl, inr, Bool-cases, arith}

-- The entry is one of the list.
abbrev pub ListedIn : Servers → Endpoint × Server → Type 0
ListedIn [] e = ⊥
ListedIn (d ∷ entries) e = (e ≡ d) ⊎ ListedIn entries e

pub All-map :
    (P Q : Endpoint × Server → Type 0) (m : Servers)
    → ((e : Endpoint × Server) → P e → Q e)
    → All P m
    → All Q m
All-map P Q [] f h = tt
All-map P Q (e ∷ m) f h = (f e h.0, All-map P Q m f h.1)

pub All-ListedIn : (m : Servers) → All (ListedIn m) m
All-ListedIn [] = tt
All-ListedIn (e ∷ m) =
    (inl refl, All-map (ListedIn m) (ListedIn (e ∷ m)) m (λ d h. inr h) (All-ListedIn m))

pub All-erase_server :
    (P : Endpoint × Server → Type 0) (client : Endpoint) (m : Servers)
    → All P m
    → All (λ e. P e × (same_endpoint e.0 client ≡ false)) (erase_server client m)
unfolding erase_server
All-erase_server P client [] h = tt
All-erase_server P client ((d, s) ∷ m) h = elim (Bool-cases (same_endpoint d client)) [
  | inl e ↦ rw e (All-erase_server P client m h.1)
  | inr e ↦ rw e ((h.0, e), All-erase_server P client m h.1)
]

pub find-erase_server :
    (e c : Endpoint) (m : Servers)
    → same_endpoint c e ≡ false
    → find_server e (erase_server c m) ≡ find_server e m
unfolding find_server erase_server
find-erase_server e c [] h = refl
find-erase_server e c ((d, s) ∷ m) h = elim (Bool-cases (same_endpoint d c)) [
  | inl here ↦
      let off : same_endpoint d e ≡ false = ground (arith, h) in
      rw (here, off) (find-erase_server e c m h)
  | inr other ↦ elim (Bool-cases (same_endpoint d e)) [
    | inl found ↦ rw (other, found) refl
    | inr later ↦ rw (other, later) (find-erase_server e c m h)
  ]
]

pub same_endpoint_refl : (a : Endpoint) → same_endpoint a a ≡ true
same_endpoint_refl a = ground arith
