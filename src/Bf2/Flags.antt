-- ===== src/Bf2/Flags.antt =====
-- `BF2::GetServers`: the flags of the servers that are ranked.
use gamespy_emulator.Bf2.Listed.{Unlisted, FirstListed}
use gamespy_emulator.Bf2.Servers.{Row, fill, Ranked, flag}
use gamespy_emulator.Game.Data.{ServerData}
use gamespy_emulator.Prelude.{
  ℕ, ◌≡◌, ◌≢◌, Bool, false, Option, none, some, Bytes, List, [], ◌∷◌, codes, true,
}
use gamespy_emulator.Qr.{Map, find}

abbrev ranked_key : Bytes
ranked_key = codes "bf2_ranked"

abbrev plasma_key : Bytes
plasma_key = codes "bf2_plasma"

-- What the two flags say.
abbrev pub ranked_flag : Option Bool → Bytes
ranked_flag none = codes "0"
ranked_flag (some plasma) = codes "1"

abbrev pub plasma_flag : Option Bool → Bytes
plasma_flag none = codes "0"
plasma_flag (some plasma) = flag plasma

-- The values of the two flags, for an address that is listed as a plasma server, as another one, or
-- not at all.
pub data FlagsOf (ranked : List Ranked) (ip : Bytes) (port : ℕ) (values : Map) : Type 0 where
  unranked :
      Unlisted ip port ranked
      → find (codes "bf2_ranked") values ≡ some (codes "0")
      → find (codes "bf2_plasma") values ≡ some (codes "0")
      → FlagsOf ranked ip port values
  ordinary :
      FirstListed ranked ip port false
      → find (codes "bf2_ranked") values ≡ some (codes "1")
      → find (codes "bf2_plasma") values ≡ some (codes "0")
      → FlagsOf ranked ip port values
  plasma_server :
      FirstListed ranked ip port true
      → find (codes "bf2_ranked") values ≡ some (codes "1")
      → find (codes "bf2_plasma") values ≡ some (codes "1")
      → FlagsOf ranked ip port values

-- A row, and the server that is returned for it.
pub record IsFlagged (ranked : List Ranked) (fields : List Bytes) (row : Row) (s : ServerData)
    : Type 0 where
  pub same_ip : s.public_ip ≡ row.public_ip
  pub same_port : s.public_port ≡ row.public_port
  pub flags : FlagsOf ranked row.public_ip row.public_port s.values
  pub others :
      (k : Bytes)
      → codes "bf2_ranked" ≢ k
      → codes "bf2_plasma" ≢ k
      → find k s.values ≡ find k (fill fields row.columns [])

pub data EachFlagged (ranked : List Ranked) (fields : List Bytes)
    : List Row → List ServerData → Type 0 where
  done : EachFlagged ranked fields [] []
  then_flagged :
      {row : Row} {s : ServerData} {rows : List Row} {ss : List ServerData}
      → IsFlagged ranked fields row s
      → EachFlagged ranked fields rows ss
      → EachFlagged ranked fields (row ∷ rows) (s ∷ ss)
