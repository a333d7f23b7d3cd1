-- ===== src/Browser/ServerOptions.antt =====
-- The values of `ServerOptions` of emulator/sb_request.cpp.
use gamespy_emulator.Prelude.{ℕ}

abbrev pub unsolicited_udp : ℕ
unsolicited_udp = 1

abbrev pub private_ip : ℕ
private_ip = 2

abbrev pub connect_negotiate : ℕ
connect_negotiate = 4

abbrev pub icmp_ip : ℕ
icmp_ip = 8

abbrev pub non_standard_port : ℕ
non_standard_port = 16

abbrev pub non_standard_private_port : ℕ
non_standard_private_port = 32

abbrev pub has_keys : ℕ
has_keys = 64

abbrev pub has_full_rules : ℕ
has_full_rules = 128
