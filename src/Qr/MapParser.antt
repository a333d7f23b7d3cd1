-- ===== src/Qr/MapParser.antt =====
-- `QRMap::Parse`: NUL-terminated keys and values up to an empty key. `std::find` and the loop run
-- along the bytes together here: `str` is what `find` has passed since `pos`.
use gamespy_emulator.Prelude.{
  Bytes, List, [], ◌∷◌, ◌++◌, ◌==◌, if◌then◌else◌, Option, none, some, equal,
}
use gamespy_emulator.Qr.Base.{Result, ok, err, too_small}

-- `std::map<std::string_view, std::string_view>`, without its order.
abbrev pub Map : Type 0
Map = List (Bytes × Bytes)

unfoldable pub find : Bytes → Map → Option Bytes
find k [] = none
find k ((j, v) ∷ m) = if equal j k then some v else find k m

-- `emplace`: an entry that is there stays.
unfoldable pub emplace : Bytes → Bytes → Map → Map
unfolding find
emplace k v m = elim (find k m) [ none ↦ m ++ (k, v) ∷ [] | some _ ↦ m ]

-- What the body of the loop does with one string.
pub data MapStep : Type 0 where
  finished : MapStep
  next : Map → Bytes → MapStep

unfoldable pub map_step : Map → Bytes → Bytes → MapStep
unfolding emplace
map_step m [] [] = finished
map_step m [] (c ∷ str) = next m (c ∷ str)
map_step m (k ∷ key) str = next (emplace (k ∷ key) str m) []

-- The end of the bytes: the loop's own exit if no string was begun, else a string with no end.
abbrev pub map_end : Map → Bytes → Result (Map × Bytes)
map_end m [] = ok (m, [])
map_end m (c ∷ str) = err too_small

-- The loop, with the map, the pending key, and the string read so far.
unfoldable pub map_loop : Map → Bytes → Bytes → Bytes → Result (Map × Bytes)
unfolding map_step
map_loop m key str [] = map_end m str
map_loop m key str (b ∷ bytes) =
    if b == 0
    then elim (map_step m key str) [
      | finished ↦ ok (m, bytes)
      | next m' key' ↦ map_loop m' key' [] bytes
    ]
    else map_loop m key (str ++ b ∷ []) bytes

-- `QRMap::Parse`: the map, and the bytes from the new `pos` on.
unfoldable pub parse_map : Bytes → Result (Map × Bytes)
unfolding map_loop
parse_map [] = err too_small
parse_map (b ∷ bytes) = map_loop [] [] [] (b ∷ bytes)
