-- ===== src/Master/Fresh.antt =====
-- `MasterServer::Cleanup`: what is left in a map behind the loop over its entries.
use mathlib.Core.Bool.{true≢false}
use mathlib.Core.Path.{subst}
use gamespy_emulator.Game.Data.{Statement, returned, threw, after_run, Run-cases}
use gamespy_emulator.Game.Database.{find_game}
use gamespy_emulator.Game.Identifiers.{All}
use gamespy_emulator.Game.Servers.{remove_servers}
use gamespy_emulator.Master.Cleanup.{is_stale, remove_server, clean_entries}
use gamespy_emulator.Master.Listed.{
  ListedIn, All-map, All-erase_server, find-erase_server, same_endpoint_refl,
}
use gamespy_emulator.Master.State.{
  Endpoint, Server, Servers, Master, same_endpoint, find_server, erase_server, address_text,
}
use gamespy_emulator.Prelude.{
  ℕ, ◌≡◌, ◌⊎◌, refl, sym, ap, ◌∙◌, Bool, false, Bytes, List, [], ◌∷◌, inl, inr, Bool-cases,
  Option-cases,
}

module _ (accepts : List Statement → Statement → Bool) where
  pub remove_server-keeps :
      (client : Endpoint) (s : Server) (m : Master)
      → ((after_run (remove_server accepts client s m)).awaiting_validation ≡ m.awaiting_validation)
        × ((after_run (remove_server accepts client s m)).validated ≡ m.validated)
  unfolding remove_server
  remove_server-keeps client s m = elim (Option-cases (find_game s.gamename m.games)) [
    | inl e ↦ rw (e, after_run) (refl, refl)
    | inr g ↦
        let row : List (Bytes × ℕ) = (address_text client.address, client.port) ∷ [] in
        elim (Run-cases (remove_servers accepts row g.0)) [
          | inl r ↦ rw (g.1, r.1, after_run) (refl, refl)
          | inr r ↦ rw (g.1, r.1, after_run) (refl, refl)
        ]
  ]

  -- A server that was heard of within the last minute.
  abbrev pub IsFresh : ℕ → Endpoint × Server → Type 0
  IsFresh now e = is_stale accepts now e.1 ≡ false

  -- No entry of that endpoint is stale.
  abbrev pub IsAlive : ℕ → Endpoint → Servers → Type 0
  IsAlive now e m = All (λ d. (same_endpoint d.0 e ≡ false) ⊎ IsFresh now d) m

  -- Each entry of the map was in it at the start, and is fresh or still to be looked at.
  abbrev pub IsScanned : ℕ → Servers → Servers → Servers → Type 0
  IsScanned now start entries m =
      All (λ e. ListedIn start e × (IsFresh now e ⊎ ListedIn entries e)) m

  skip-IsScanned :
      (now : ℕ) (start entries m : Servers) (d : Endpoint × Server)
      → IsFresh now d
      → IsScanned now start (d ∷ entries) m
      → IsScanned now start entries m
  skip-IsScanned now start entries m d fresh h =
      All-map (λ e. ListedIn start e × (IsFresh now e ⊎ ListedIn (d ∷ entries) e))
        (λ e. ListedIn start e × (IsFresh now e ⊎ ListedIn entries e)) m
        (λ e (k, l). (
          k,
          elim l [
            | inl f ↦ inl f
            | inr (inl same) ↦ inl (subst (IsFresh now) (sym same) fresh)
            | inr (inr later) ↦ inr later
          ],
        ))
        h

  erase-IsScanned :
      (now : ℕ) (start entries m : Servers) (d : Endpoint × Server)
      → IsScanned now start (d ∷ entries) m
      → IsScanned now start entries (erase_server d.0 m)
  erase-IsScanned now start entries m d h =
      All-map
        (λ e.
          (ListedIn start e × (IsFresh now e ⊎ ListedIn (d ∷ entries) e))
          × (same_endpoint e.0 d.0 ≡ false))
        (λ e. ListedIn start e × (IsFresh now e ⊎ ListedIn entries e)) (erase_server d.0 m)
        (λ e ((k, l), other). (
          k,
          elim l [
            | inl f ↦ inl f
            | inr (inl same) ↦
                elim (true≢false (
                  sym (same_endpoint_refl d.0)
                  ∙ subst (λ x. same_endpoint x.0 d.0 ≡ false) same other)) [ ]
            | inr (inr later) ↦ inr later
          ],
        ))
        (All-erase_server (λ e. ListedIn start e × (IsFresh now e ⊎ ListedIn (d ∷ entries) e)) d.0 m
          h)

  -- One of the two loops, by the map that it erases from.
  module _ (erase : Endpoint → Master → Master) (view : Master → Servers)
      (erases : (c : Endpoint) (m : Master) → view (erase c m) ≡ erase_server c (view m))
      (keeps : (c : Endpoint) (s : Server) (m : Master)
        → view (after_run (remove_server accepts c s m)) ≡ view m) where
    erase-view :
        (d : Endpoint × Server) (m a : Master)
        → remove_server accepts d.0 d.1 m ≡ returned a
        → erase_server d.0 (view m) ≡ view (erase d.0 a)
    erase-view d m a r = sym (
        erases d.0 a
        ∙ ap (erase_server d.0) (ap (λ x. view (after_run x)) (sym r) ∙ keeps d.0 d.1 m))

    pub clean_entries-IsScanned :
        (now : ℕ) (start entries : Servers) (m m' : Master)
        → clean_entries accepts erase now entries m ≡ returned m'
        → IsScanned now start entries (view m)
        → IsScanned now start [] (view m')
    unfolding clean_entries
    clean_entries-IsScanned now start [] m m' e h =
        subst (IsScanned now start []) (ap (λ x. view (after_run x)) e) h
    clean_entries-IsScanned now start (d ∷ entries) m m' e h =
        elim (Bool-cases (is_stale accepts now d.1)) [
          | inl stale ↦ elim (Run-cases (remove_server accepts d.0 d.1 m)) [
            | inl (a, r) ↦
                clean_entries-IsScanned now start entries (erase d.0 a) m' (rw (stale, r) at e) (
                  subst (IsScanned now start entries) (erase-view d m a r)
                    (erase-IsScanned now start entries (view m) d h))
            | inr (a, r) ↦ let stuck : threw a ≡ returned m' = rw (stale, r) at e in cc
          ]
          | inr fresh ↦
              clean_entries-IsScanned now start entries m m' (rw fresh at e)
                (skip-IsScanned now start entries (view m) d fresh h)
        ]

    pub clean_entries-find_server :
        (now : ℕ) (e : Endpoint) (entries : Servers) (m m' : Master)
        → clean_entries accepts erase now entries m ≡ returned m'
        → IsAlive now e entries
        → find_server e (view m') ≡ find_server e (view m)
    unfolding clean_entries
    clean_entries-find_server now e [] m m' run h =
        ap (λ x. find_server e (view (after_run x))) (sym run)
    clean_entries-find_server now e (d ∷ entries) m m' run h =
        elim (Bool-cases (is_stale accepts now d.1)) [
          | inl stale ↦ elim (Run-cases (remove_server accepts d.0 d.1 m)) [
            | inl (a, r) ↦
                let other : same_endpoint d.0 e ≡ false = elim h.0 [
                  | inl off ↦ off
                  | inr fresh ↦ elim (true≢false (sym stale ∙ fresh)) [ ]
                ] in
                clean_entries-find_server now e entries (erase d.0 a) m' (rw (stale, r) at run) h.1
                ∙ ap (find_server e) (sym (erase-view d m a r))
                ∙ find-erase_server e d.0 (view m) other
            | inr (a, r) ↦ let stuck : threw a ≡ returned m' = rw (stale, r) at run in cc
          ]
          | inr fresh ↦ clean_entries-find_server now e entries m m' (rw fresh at run) h.1
        ]

  pub clean_entries-same :
      (erase : Endpoint → Master → Master) (view : Master → Servers)
      (erases : (c : Endpoint) (m : Master) → view (erase c m) ≡ view m)
      (keeps : (c : Endpoint) (s : Server) (m : Master)
        → view (after_run (remove_server accepts c s m)) ≡ view m)
      (now : ℕ) (entries : Servers) (m m' : Master)
      → clean_entries accepts erase now entries m ≡ returned m'
      → view m' ≡ view m
  unfolding clean_entries
  clean_entries-same erase view erases keeps now [] m m' run =
      ap (λ x. view (after_run x)) (sym run)
  clean_entries-same erase view erases keeps now (d ∷ entries) m m' run =
      elim (Bool-cases (is_stale accepts now d.1)) [
        | inl stale ↦ elim (Run-cases (remove_server accepts d.0 d.1 m)) [
          | inl (a, r) ↦
              clean_entries-same erase view erases keeps now entries (erase d.0 a) m'
                (rw (stale, r) at run)
              ∙ erases d.0 a
              ∙ ap (λ x. view (after_run x)) (sym r)
              ∙ keeps d.0 d.1 m
          | inr (a, r) ↦ let stuck : threw a ≡ returned m' = rw (stale, r) at run in cc
        ]
        | inr fresh ↦ clean_entries-same erase view erases keeps now entries m m' (rw fresh at run)
      ]
