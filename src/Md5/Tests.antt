-- ===== src/Md5/Tests.antt =====
-- Test vectors of RFC 1321.
use gamespy_emulator.Prelude.{◌≡◌, refl, codes}
use gamespy_emulator.Md5.Padding.{padded, hash_blocks}
use gamespy_emulator.Md5.Rounds.{update-padded}
use gamespy_emulator.Md5.{initial, update, md5}

md5_of_nothing : md5 (codes "") ≡ codes "d41d8cd98f00b204e9800998ecf8427e"
unfolding md5
md5_of_nothing = refl

md5_of_abc : md5 (codes "abc") ≡ codes "900150983cd24fb0d6963f7d28e17f72"
unfolding md5
md5_of_abc = refl

md5_two_chunks :
    md5 (codes "12345678901234567890123456789012345678901234567890123456789012345678901234567890")
    ≡ codes "57edf4a22be3c955ac49da2e2107b67a"
unfolding md5
md5_two_chunks = refl

update-padded_example : update (codes "abc") ≡ hash_blocks 1 (padded 24 (codes "abc")) initial
update-padded_example = update-padded (codes "abc")
