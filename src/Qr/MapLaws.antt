-- ===== src/Qr/MapLaws.antt =====
-- A map as a game server writes it, and its parser.
use mathlib.Core.List.{append-nil, append_assoc}
use gamespy_emulator.Prelude.{
  ℕ, ◌≡◌, ◌≢◌, refl, sym, ap, ◌∙◌, arith, Bytes, [], ◌∷◌, ◌++◌, none, ◌==◌, Bool-cases, inl, inr,
}
use gamespy_emulator.Qr.Base.{ok}
use gamespy_emulator.Qr.MapParser.{Map, find, emplace, map_step, map_loop, parse_map}

-- Key, NUL, value, NUL for each entry, and an empty key behind the last.
abbrev pub write_map : Map → Bytes
write_map [] = 0 ∷ []
write_map ((k, v) ∷ m) = k ++ (0 ∷ (v ++ (0 ∷ write_map m)))

abbrev pub IsNulFree : Bytes → Type 0
IsNulFree [] = Unit
IsNulFree (c ∷ cs) = (c ≢ 0) × IsNulFree cs

-- The entries can be written behind those of `before`: no NUL in them, no empty key, and no key
-- twice.
abbrev pub IsWritable : Map → Map → Type 0
IsWritable before [] = Unit
IsWritable before ((k, v) ∷ m) =
    (k ≢ [])
    × IsNulFree k
    × IsNulFree v
    × (find k before ≡ none)
    × IsWritable (before ++ (k, v) ∷ []) m

-- The loop passes over a text with no NUL.
map_loop_scan :
    (m : Map) (key str w bytes : Bytes)
    → IsNulFree w
    → map_loop m key str (w ++ (0 ∷ bytes)) ≡ map_loop m key (str ++ w) (0 ∷ bytes)
unfolding map_loop
map_loop_scan m key str [] bytes h = ap (λ s. map_loop m key s (0 ∷ bytes)) (sym (append-nil str))
map_loop_scan m key str (c ∷ w) bytes h = elim (Bool-cases (c == 0)) [
  | inl e ↦ absurd (h.0 (ground arith))
  | inr e ↦
      rw (e, map_loop)
        (map_loop_scan m key (str ++ c ∷ []) w bytes h.1
          ∙ ap (λ s. map_loop m key s (0 ∷ bytes)) (append_assoc str (c ∷ []) w))
]

-- A key is read, then its value.
map_loop_entry :
    (m : Map) (k v bytes : Bytes)
    → k ≢ []
    → IsNulFree k
    → IsNulFree v
    → find k m ≡ none
    → map_loop m [] [] (k ++ (0 ∷ (v ++ (0 ∷ bytes)))) ≡ map_loop (m ++ (k, v) ∷ []) [] [] bytes
unfolding map_loop map_step emplace
map_loop_entry m [] v bytes ne hk hv fresh = absurd (ne refl)
map_loop_entry m (c ∷ k) v bytes ne hk hv fresh =
    map_loop_scan m [] [] (c ∷ k) (v ++ (0 ∷ bytes)) hk
    ∙ map_loop_scan m (c ∷ k) [] v bytes hv
    ∙ rw (fresh, emplace)

map_loop-write_map :
    (m before : Map) (rest : Bytes)
    → IsWritable before m
    → map_loop before [] [] (write_map m ++ rest) ≡ ok (before ++ m, rest)
unfolding map_loop map_step
map_loop-write_map [] before rest h = rw append-nil
map_loop-write_map ((k, v) ∷ m) before rest h =
    ap (map_loop before [] []) (
      append_assoc k (0 ∷ (v ++ (0 ∷ write_map m))) rest
      ∙ ap (λ s. k ++ (0 ∷ s)) (append_assoc v (0 ∷ write_map m) rest))
    ∙ map_loop_entry before k v (write_map m ++ rest) h.0 h.1 h.2 h.3
    ∙ map_loop-write_map m (before ++ (k, v) ∷ []) rest h.4
    ∙ ap (λ s. ok (s, rest)) (append_assoc before ((k, v) ∷ []) m)

write_map-cons : (m : Map) (rest : Bytes) → (c : ℕ) × (cs : Bytes) × (write_map m ++ rest ≡ c ∷ cs)
write_map-cons [] rest = (0, rest, refl)
write_map-cons (([], v) ∷ m) rest = (0, (v ++ (0 ∷ write_map m)) ++ rest, refl)
write_map-cons ((c ∷ k, v) ∷ m) rest = (c, (k ++ (0 ∷ (v ++ (0 ∷ write_map m)))) ++ rest, refl)

-- Every map without NULs, empty keys and repeated keys is read back from the bytes that are
-- written for it, in its order, and the parser stops right behind them.
pub parse_map-write_map :
    (m : Map) (rest : Bytes) → IsWritable [] m → parse_map (write_map m ++ rest) ≡ ok (m, rest)
unfolding parse_map
parse_map-write_map m rest h =
    let (c, cs, e) = write_map-cons m rest in rw e (rw e at (map_loop-write_map m [] rest h))
