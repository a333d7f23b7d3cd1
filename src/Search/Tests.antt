-- ===== src/Search/Tests.antt =====
-- Searches in a small database, and the theorem at such packets.
use gamespy_emulator.Md5.{md5}
use gamespy_emulator.Players.Table.{Table, sqlite, any_named, row_by_name, rows_by_mail}
use gamespy_emulator.Players.{PlayerData}
use gamespy_emulator.Prelude.{◌≡◌, refl, some, Bytes, [], ◌∷◌, ◌++◌, codes, equal}
use gamespy_emulator.Search.{
  error_message, nicks, nicks_reply, handle_search_nicks, find_profile, handle_profile_exists,
  handle_packet, answer_packets, process,
}
use gamespy_emulator.Utils.ReadUntil.{cut_from, read_until}
use gamespy_emulator.Utils.KeyValue.{value_for_key, find_after, take_value}
use gamespy_emulator.Utils.Number.{decimal, decimal_fuel}

abbrev ann : PlayerData
ann = record {
  id = 2900001;
  name = codes "ann";
  email = codes "a@b.c";
  password = codes "5f4dcc3b5aa765d61d8327deb882cf99";
  country = codes "DE";
  session = 0;
}

abbrev accounts : Table
accounts = record { rows = ann ∷ []; sequence = 2900001 }

abbrev packets : Bytes
packets =
    codes "\\check\\\\nick\\ann\\email\\a@b.c\\final\\"
    ++ (codes "\\nicks\\\\email\\A@b.C\\pass\\password\\namespaceid\\0" ++ codes "\\final\\")
    ++ codes "\\check\\\\nick\\bob\\final\\"

replies_are :
    process sqlite accounts packets
    ≡ some (
        codes "\\cur\\0\\pid\\2900001\\final\\"
        ∷ codes "\\nr\\0\\nick\\ann\\uniquenick\\ann\\ndone\\\\final\\"
        ∷ codes "\\error\\\\err\\265\\errmsg\\Invalid Query!\\fatal\\\\final\\"
        ∷ [])
unfolding error_message nicks nicks_reply handle_search_nicks find_profile handle_profile_exists
    handle_packet answer_packets process cut_from read_until md5 any_named row_by_name rows_by_mail
    value_for_key find_after take_value decimal decimal_fuel equal
replies_are = refl
