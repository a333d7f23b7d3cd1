-- ===== src/Sapphire/Tests.antt =====
-- Runs of the cipher on concrete keys, and the theorems at such inputs.
use gamespy_emulator.Prelude.{ℕ, ◌≡◌, refl, Option, some, arith, Bytes, [], codes, AllBytes, length}
use gamespy_emulator.Prelude.Deck.{swap, ascending}
use gamespy_emulator.Sapphire.Setup.{IsReady, initialize-IsReady}
use gamespy_emulator.Sapphire.Stream.{decrypt_all-encrypt_all, encrypt_all-IsReady}
use gamespy_emulator.Sapphire.{
  Sapphire, hash_init, initialize, schedule, schedule_step, keyrand, draw_loop, fill_mask,
  encrypt_all, decrypt_all,
}

abbrev sent : Bytes
sent = codes "gamespy"

-- The default state is ready.
default_key-IsReady : IsReady hash_init
unfolding initialize
default_key-IsReady = let (c, e, r) = initialize-IsReady [] in rw (← hash_init_is c e) at r
  where
    hash_init_is : (c : Sapphire) → some hash_init ≡ some c → hash_init ≡ c
    hash_init_is c e = cc

abbrev is_some : Option Sapphire → ℕ
is_some c = elim c [ some _ ↦ 1 | _ ↦ 0 ]

initialize_key : is_some (initialize (codes "hW6m9a01")) ≡ 1
unfolding initialize schedule schedule_step keyrand draw_loop fill_mask swap ascending
initialize_key = refl

decrypt_all-encrypt_all_example :
    decrypt_all hash_init (encrypt_all hash_init sent).1 ≡ ((encrypt_all hash_init sent).0, sent)
decrypt_all-encrypt_all_example = decrypt_all-encrypt_all hash_init sent

initialize-IsReady_example : (c : Sapphire) × (initialize sent ≡ some c) × IsReady c
initialize-IsReady_example = initialize-IsReady sent

encrypt_all-IsReady_example :
    IsReady (encrypt_all hash_init sent).0
    × AllBytes (encrypt_all hash_init sent).1
    × (length (encrypt_all hash_init sent).1 ≡ length sent)
encrypt_all-IsReady_example = encrypt_all-IsReady sent (omega arith) default_key-IsReady
