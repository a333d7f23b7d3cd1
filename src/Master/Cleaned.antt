-- ===== src/Master/Cleaned.antt =====
-- `MasterServer::Cleanup`: what a round leaves in the two maps.
mod Tests
use mathlib.Core.Path.{subst}
use gamespy_emulator.Game.Data.{Statement, Run, returned, threw, after_run, Run-cases}
use gamespy_emulator.Game.Identifiers.{All}
use gamespy_emulator.Master.Cleanup.{
  remove_server, clean_entries, clean_up, erase_from_awaiting, erase_from_validated,
}
use gamespy_emulator.Master.Fresh.{
  IsFresh, IsAlive, IsScanned, clean_entries-IsScanned, clean_entries-find_server,
  clean_entries-same, remove_server-keeps,
}
use gamespy_emulator.Master.Listed.{ListedIn, All-map, All-ListedIn}
use gamespy_emulator.Master.State.{Endpoint, Server, Servers, Master, find_server, erase_server}
use gamespy_emulator.Prelude.{ℕ, ◌≡◌, ◌⊎◌, refl, sym, ap, ◌∙◌, Bool, List, [], ◌∷◌, inl, inr}

module _ (accepts : List Statement → Statement → Bool) (now : ℕ) where
  all-IsScanned : (m : Servers) → IsScanned accepts now m m m
  all-IsScanned m =
      All-map (ListedIn m) (λ e. ListedIn m e × (IsFresh accepts now e ⊎ ListedIn m e)) m
        (λ e l. (l, inr l)) (All-ListedIn m)

  -- Each entry is one of the start that is fresh.
  abbrev pub IsCleaned : Servers → Servers → Type 0
  IsCleaned start m = All (λ e. ListedIn start e × IsFresh accepts now e) m

  scanned-IsCleaned : (start m : Servers) → IsScanned accepts now start [] m → IsCleaned start m
  scanned-IsCleaned start m h =
      All-map (λ e. ListedIn start e × (IsFresh accepts now e ⊎ ListedIn [] e))
        (λ e. ListedIn start e × IsFresh accepts now e) m
        (λ e (l, r). (l, elim r [ inl f ↦ f | inr left ↦ elim left [ ] ])) h

  -- A loop over the entries of one map: what it does to that map, and to the other one.
  module _ (erase : Endpoint → Master → Master) (view other : Master → Servers)
      (erases : (c : Endpoint) (m : Master) → view (erase c m) ≡ erase_server c (view m))
      (spares : (c : Endpoint) (m : Master) → other (erase c m) ≡ other m)
      (keeps : (c : Endpoint) (s : Server) (m : Master)
        → view (after_run (remove_server accepts c s m)) ≡ view m)
      (keeps' : (c : Endpoint) (s : Server) (m : Master)
        → other (after_run (remove_server accepts c s m)) ≡ other m) where
    loop_lem :
        (m m' : Master)
        → clean_entries accepts erase now (view m) m ≡ returned m'
        → IsCleaned (view m) (view m')
          × (other m' ≡ other m)
          × ((e : Endpoint)
              → IsAlive accepts now e (view m)
              → find_server e (view m') ≡ find_server e (view m))
    loop_lem m m' run = (
      scanned-IsCleaned (view m) (view m') (
          clean_entries-IsScanned accepts erase view erases keeps now (view m) (view m) m m' run
            (all-IsScanned (view m))),
      clean_entries-same accepts erase other spares keeps' now (view m) m m' run,
      λ e. clean_entries-find_server accepts erase view erases keeps now e (view m) m m' run,
    )

  -- What a round that returns does to one of the maps.
  abbrev Round : Servers → Servers → Type 0
  Round start m =
      IsCleaned start m
      × ((e : Endpoint) → IsAlive accepts now e start → find_server e m ≡ find_server e start)

  clean_up-Round :
      (m m' : Master)
      → clean_up accepts now m ≡ returned m'
      → Round m.awaiting_validation m'.awaiting_validation × Round m.validated m'.validated
  unfolding clean_up
  clean_up-Round m m' run =
      elim (Run-cases
        (clean_entries accepts (erase_from_awaiting accepts) now m.awaiting_validation m)) [
          | inl (a, r) ↦
              let (cleaned, same, found) =
                loop_lem (erase_from_awaiting accepts) (λ x. x.awaiting_validation)
                  (λ x. x.validated) (λ c x. refl) (λ c x. refl)
                  (λ c s x. (remove_server-keeps accepts c s x).0)
                  (λ c s x. (remove_server-keeps accepts c s x).1) m a r in
              let (cleaned', same', found') =
                loop_lem (erase_from_validated accepts) (λ x. x.validated)
                  (λ x. x.awaiting_validation) (λ c x. refl) (λ c x. refl)
                  (λ c s x. (remove_server-keeps accepts c s x).1)
                  (λ c s x. (remove_server-keeps accepts c s x).0) a m' (rw (r, clean_up) at run) in
              (
                subst (Round m.awaiting_validation) (sym same') (cleaned, found),
                subst (λ x. Round x m'.validated) same (cleaned', found'),
              )
          | inr (a, r) ↦ let stuck : threw a ≡ returned m' = rw (r, clean_up) at run in cc
        ]

  -- A round of the cleanup that returns leaves in each of the two maps only entries that were there
  -- and have been heard of within the last minute.
  pub clean_up-IsCleaned :
      (m m' : Master)
      → clean_up accepts now m ≡ returned m'
      → IsCleaned m.awaiting_validation m'.awaiting_validation × IsCleaned m.validated m'.validated
  clean_up-IsCleaned m m' run = let (first, second) = clean_up-Round m m' run in (first.0, second.0)

  -- When a round of the cleanup returns, the server of an endpoint that has no stale entry in
  -- either map is found in both as before.
  pub clean_up-find_server :
      (e : Endpoint) (m m' : Master)
      → clean_up accepts now m ≡ returned m'
      → IsAlive accepts now e m.awaiting_validation
      → IsAlive accepts now e m.validated
      → (find_server e m'.awaiting_validation ≡ find_server e m.awaiting_validation)
        × (find_server e m'.validated ≡ find_server e m.validated)
  clean_up-find_server e m m' run h k =
      let (first, second) = clean_up-Round m m' run in (first.1 e h, second.1 e k)
