-- ===== src/Master/Loop.antt =====
-- The loop of `MasterServer::AcceptConnections`. A failing receive is the end of the list of
-- datagrams.
use gamespy_emulator.Game.Data.{Statement}
use gamespy_emulator.Master.Handlers.{buffer_after, receive}
use gamespy_emulator.Master.State.{Endpoint, Master}
use gamespy_emulator.Prelude.{ℕ, Bool, Bytes, List, [], ◌∷◌}

-- A datagram, with the clock and the random text of its round.
pub record Arrival : Type 0 where
  pub now : ℕ
  pub random : Bytes
  pub client : Endpoint
  pub bytes : Bytes

-- An empty datagram ends the loop.
abbrev pub taken : List Arrival → List Arrival
taken [] = []
taken (a ∷ rest) = elim a.bytes [ [] ↦ [] | b ∷ bs ↦ a ∷ taken rest ]

module _ (accepts : List Statement → Statement → Bool) (base64_encode : Bytes → Bytes) where
  -- The datagrams that are received, in order, with the buffer that each leaves to the next.
  abbrev pub receive_all : List Arrival → Bytes → Master → Master
  receive_all [] buffer m = m
  receive_all (a ∷ rest) buffer m =
      receive_all rest (buffer_after a.bytes buffer)
        (receive accepts base64_encode a.now a.random a.client a.bytes buffer m)

  -- `AcceptConnections`
  abbrev pub accept_connections : List Arrival → Bytes → Master → Master
  accept_connections arrivals buffer m = receive_all (taken arrivals) buffer m
