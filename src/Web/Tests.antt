-- ===== src/Web/Tests.antt =====
-- Pages that a small database answers, and the theorems at such requests.
use gamespy_emulator.Players.Table.{Table, sqlite, any_named, row_by_name}
use gamespy_emulator.Players.{PlayerData}
use gamespy_emulator.Prelude.{◌≡◌, ◌↔◌, refl, true, some, [], ◌∷◌, codes, equal}
use gamespy_emulator.Utils.Number.{decimal, decimal_fuel}
use gamespy_emulator.Web.Client.{Request, page_body, run, dispatch, IsReply, run-IsReply}
use gamespy_emulator.Web.Errors.{IsOk, IsKnown, handle_bf2web-IsOk_iff, handle_bf2web-any_junk}
use gamespy_emulator.Web.Pages.{Uri, page, player_id, handle_bf2web}
use gamespy_emulator.Web.Response.{append_element, append_elements, append, to_string}

abbrev ann : PlayerData
ann = record {
  id = 2900001;
  name = codes "ann";
  email = codes "a@b.c";
  password = codes "5f4dcc3b5aa765d61d8327deb882cf99";
  country = codes "DE";
  session = 0;
}

abbrev accounts : Table
accounts = record { rows = ann ∷ []; sequence = 2900001 }

abbrev id_of_ann : Uri
id_of_ann = record {
  encoded_path = codes "/ASP/getplayerid.aspx";
  params = (codes "nick", codes "ann") ∷ [];
}

abbrev asks_ann : Request
asks_ann = record { is_get = true; target = some id_of_ann; host = codes "BF2Web.gamespy.com" }

-- The page: `1`, `H`, `pid`, `D` and the seven digits are thirteen characters.
page_of_ann :
    run 1700000000 5 true sqlite accounts (some asks_ann)
    ≡ some (page_body (codes "O\nH\tpid\t\nD\t2900001\t\n$\t13\t$"))
unfolding run dispatch handle_bf2web page player_id equal any_named row_by_name append_element
    append_elements append to_string decimal decimal_fuel
page_of_ann = refl

run-IsReply_example :
    IsReply 1700000000 5 true sqlite (run 1700000000 5 true sqlite accounts (some asks_ann))
run-IsReply_example = run-IsReply 1700000000 5 true sqlite accounts (some asks_ann)

handle_bf2web-IsOk_iff_example :
    IsOk (handle_bf2web 1700000000 5 sqlite accounts id_of_ann)
    ↔ IsKnown sqlite accounts (some (codes "ann"))
unfolding equal
handle_bf2web-IsOk_iff_example =
    handle_bf2web-IsOk_iff sqlite 1700000000 5 accounts id_of_ann 0 refl refl

handle_bf2web-any_junk_example :
    handle_bf2web 1700000000 5 sqlite accounts id_of_ann
    ≡ handle_bf2web 1700000000 107 sqlite accounts id_of_ann
handle_bf2web-any_junk_example = handle_bf2web-any_junk sqlite 1700000000 5 107 accounts id_of_ann
