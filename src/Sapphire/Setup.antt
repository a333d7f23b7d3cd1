-- ===== src/Sapphire/Setup.antt =====
-- The key schedule and the default set-up as permutations of the 256 cards.
use gamespy_emulator.Prelude.{
  ℕ, zero, suc, ◌≤◌, ◌<◌, ◌≡◌, refl, some, arith, [], ◌∷◌, Bytes, length,
}
use gamespy_emulator.Prelude.Deck.{
  IsDeck, at-IsDeck, swap, swap-IsDeck, ascending, ascending-IsDeck, descending-IsDeck,
}
use gamespy_emulator.Sapphire.Keyrand.{keyrand-IsDraw}
use gamespy_emulator.Sapphire.{
  Sapphire, Schedule, schedule_step, schedule, set_indices, initialize, hash_init,
}

-- The cards are a permutation of the bytes, and the five indices are bytes.
pub record IsReady (c : Sapphire) : Type 0 where
  pub deck : IsDeck c.cards
  pub rotor_lt : c.rotor < 256
  pub ratchet_lt : c.ratchet < 256
  pub avalanche_lt : c.avalanche < 256
  pub last_plain_lt : c.last_plain < 256
  pub last_cipher_lt : c.last_cipher < 256

record IsSchedule (key : Bytes) (s : Schedule) : Type 0 where
  deck : IsDeck s.cards
  rsum_lt : s.rsum < 256
  keypos_lt : s.keypos < length key

schedule_step-IsSchedule :
    (i : ℕ) (key : Bytes) {s : Schedule}
    → i < 256
    → IsSchedule key s
    → (s' : Schedule) × (schedule_step i key s ≡ some s') × IsSchedule key s'
unfolding schedule_step
schedule_step-IsSchedule i key {s} h v =
    let d = keyrand-IsDraw i s.cards key s.rsum s.keypos v.rsum_lt v.keypos_lt in
    (
      record { cards = swap s.cards i d.draw.value; rsum = d.draw.rsum; keypos = d.draw.keypos },
      rw (d.returns, schedule_step),
      record {
        deck = swap-IsDeck i d.draw.value h (omega (arith, d.value_le)) v.deck;
        rsum_lt = d.rsum_lt;
        keypos_lt = d.keypos_lt;
      },
    )

schedule-IsSchedule :
    (n : ℕ) (key : Bytes) {s : Schedule}
    → n ≤ 256
    → IsSchedule key s
    → (s' : Schedule) × (schedule n key s ≡ some s') × IsSchedule key s'
unfolding schedule
schedule-IsSchedule zero key {s} h v = (s, refl, v)
schedule-IsSchedule (suc i) key {s} h v =
    let (s₁, e₁, v₁) = schedule_step-IsSchedule i key (omega arith) v in
    let (s₂, e₂, v₂) = schedule-IsSchedule i key (omega arith) v₁ in (s₂, rw (e₁, schedule) e₂, v₂)

set_indices-IsReady : (key : Bytes) {s : Schedule} → IsSchedule key s → IsReady (set_indices s)
set_indices-IsReady key {s} v = record {
  deck = v.deck;
  rotor_lt = at-IsDeck 1 v.deck (omega arith);
  ratchet_lt = at-IsDeck 3 v.deck (omega arith);
  avalanche_lt = at-IsDeck 5 v.deck (omega arith);
  last_plain_lt = at-IsDeck 7 v.deck (omega arith);
  last_cipher_lt = at-IsDeck s.rsum v.deck v.rsum_lt;
}

hash_init-IsReady : IsReady hash_init
unfolding hash_init
hash_init-IsReady = record {
  deck = descending-IsDeck;
  rotor_lt = omega arith;
  ratchet_lt = omega arith;
  avalanche_lt = omega arith;
  last_plain_lt = omega arith;
  last_cipher_lt = omega arith;
}

-- For every key, the empty one included, `initialize` ends and leaves the cards a permutation of
-- the 256 bytes and the five indices in range.
pub initialize-IsReady : (key : Bytes) → (c : Sapphire) × (initialize key ≡ some c) × IsReady c
unfolding initialize
initialize-IsReady [] = (hash_init, refl, hash_init-IsReady)
initialize-IsReady (k ∷ ks) =
    let (s, e, v) =
      schedule-IsSchedule 256 (k ∷ ks)
        {s = record { cards = ascending 0 256; rsum = 0; keypos = 0 }} (omega arith)
        (record { deck = ascending-IsDeck; rsum_lt = omega arith; keypos_lt = omega arith }) in
    (set_indices s, rw (e, initialize), set_indices-IsReady (k ∷ ks) v)
