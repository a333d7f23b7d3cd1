-- ===== src/Game/Names.antt =====
-- `Game::IsValidParamName` of emulator/game.cpp.
use gamespy_emulator.Prelude.{
  Bool, true, false, ◌&&◌, not, Bytes, [], ◌∷◌, ◌==◌, if◌then◌else◌, is_alpha, is_alnum,
  starts_with, codes,
}

-- The loop over the characters.
unfoldable pub all_name_chars : Bytes → Bool
all_name_chars [] = true
all_name_chars (c ∷ cs) = if not (is_alnum c) && not (c == b'_') then false else all_name_chars cs

unfoldable pub is_valid_param_name : Bytes → Bool
unfolding all_name_chars
is_valid_param_name [] = false
is_valid_param_name (c ∷ name) =
    if starts_with (codes "__") (c ∷ name)
    then false
    else if not (is_alpha c) && not (c == b'_')
    then false
    else all_name_chars (c ∷ name)
