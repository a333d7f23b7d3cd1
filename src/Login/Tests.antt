-- ===== src/Login/Tests.antt =====
-- A login run on a small database, and the theorems at such inputs.
use gamespy_emulator.Login.Auth.{HasShown, handle_login-HasShown}
use gamespy_emulator.Login.Verdict.{Verdict}
use gamespy_emulator.Login.Handlers.{Client, authenticating, authenticated, log_in, handle_login}
use gamespy_emulator.Players.Table.{Table, sqlite, any_named, row_by_name}
use gamespy_emulator.Players.{PlayerData}
use gamespy_emulator.Prelude.{
  ℕ, ◌≡◌, ◌≢◌, refl, true, some, none, Bytes, [], ◌∷◌, ◌++◌, codes, equal,
}
use gamespy_emulator.Utils.Challenge.{generate_challenge}
use gamespy_emulator.Utils.KeyValue.{value_for_key, find_after, take_value}
use gamespy_emulator.Utils.PlainBase64.{plain_base64}
use gamespy_emulator.Md5.{md5}

abbrev ann : PlayerData
ann = record {
  id = 2900001;
  name = codes "ann";
  email = codes "a@b.c";
  password = codes "5f4dcc3b5aa765d61d8327deb882cf99";
  country = codes "DE";
  session = 0;
}

abbrev accounts : Table
accounts = record { rows = ann ∷ []; sequence = 2900001 }

abbrev waiting : Client
waiting = record {
  state = authenticating;
  player_data = none;
  server_challenge = codes "QWERTY";
  login_ticket = codes "ticket__";
  is_open = true;
}

abbrev no_crc : Bytes → ℕ
no_crc s = 7

abbrev response : Bytes
response = generate_challenge (codes "ann") ann.password (codes "abc") (codes "QWERTY")

abbrev packet : Bytes
packet =
    codes "\\login\\\\challenge\\abc\\uniquenick\\ann\\response\\"
    ++ (codes "00bf6127daa2185fa48adc97b4f86466" ++ codes "\\final\\")

response_is : response ≡ codes "00bf6127daa2185fa48adc97b4f86466"
unfolding generate_challenge md5
response_is = refl

handle_login-HasShown_example :
    HasShown sqlite plain_base64 no_crc packet waiting accounts
      (record waiting { state = authenticated; player_data = some (record ann { session = 7 }) })
handle_login-HasShown_example =
    handle_login-HasShown sqlite plain_base64 no_crc packet waiting accounts not_yet logged_in refl
  where
    not_yet : authenticating ≢ authenticated
    not_yet e = cc

    logged_in :
        handle_login sqlite plain_base64 no_crc packet waiting accounts
        ≡ log_in sqlite plain_base64 no_crc (codes "ann") ann (codes "abc") waiting accounts
    logged_in =
        unfold handle_login value_for_key find_after take_value any_named row_by_name equal
          generate_challenge md5 in
        refl
