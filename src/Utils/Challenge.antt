-- ===== src/Utils/Challenge.antt =====
-- `utils::generate_challenge`: the texts that the two sides of a login compare.
use gamespy_emulator.Md5.{md5}
use gamespy_emulator.Prelude.{Bytes, ◌++◌, replicate}

unfoldable pub generate_challenge : Bytes → Bytes → Bytes → Bytes → Bytes
generate_challenge name md5_password local_challenge remote_challenge = md5 (
    md5_password
    ++ (replicate 48 b' ' ++ (name ++ (local_challenge ++ (remote_challenge ++ md5_password)))))
