-- ===== src/Browser/Options.antt =====
-- The values of `ServerListRequest::Options`.
use gamespy_emulator.Prelude.{ℕ}

abbrev pub send_fields_for_all : ℕ
send_fields_for_all = 1

abbrev pub no_server_list : ℕ
no_server_list = 2

abbrev pub push_updates : ℕ
push_updates = 4

abbrev pub alternate_source_ip : ℕ
alternate_source_ip = 8

abbrev pub send_groups : ℕ
send_groups = 32

abbrev pub no_list_cache : ℕ
no_list_cache = 64

abbrev pub limit_result_count : ℕ
limit_result_count = 128
