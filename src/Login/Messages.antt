-- ===== src/Login/Messages.antt =====
-- The texts that the login server sends.
use gamespy_emulator.Players.{PlayerData, get_user_id, get_profile_id}
use gamespy_emulator.Prelude.{ℕ, ◌+◌, ◌*◌, Bool, Bytes, [], ◌++◌, codes, if◌then◌else◌}
use gamespy_emulator.Utils.Number.{decimal}

-- `SendError`
unfoldable pub error_message : ℕ → ℕ → Bytes → Bool → Bytes
error_message request_id error_code message fatal =
    codes "\\error\\\\err\\"
    ++ (decimal error_code
        ++ (codes "\\errmsg\\"
            ++ (message
                ++ ((if fatal then codes "\\fatal\\" else [])
                    ++ (codes "\\id\\" ++ (decimal request_id ++ codes "\\final\\"))))))

-- The challenge of `SendChallenge`.
unfoldable pub challenge_message : Bytes → Bytes
challenge_message challenge =
    codes "\\lc\\1\\challenge\\" ++ (challenge ++ codes "\\id\\1\\final\\")

-- The answer to a login.
unfoldable pub login_message : PlayerData → Bytes → Bytes → ℕ → Bytes
login_message p ticket proof request_id =
    codes "\\lc\\2\\sesskey\\"
    ++ (decimal p.session
        ++ (codes "\\userid\\"
            ++ (decimal (get_user_id p)
                ++ (codes "\\profileid\\"
                    ++ (decimal (get_profile_id p)
                        ++ (codes "\\uniquenick\\"
                            ++ (p.name
                                ++ (codes "\\lt\\"
                                    ++ (ticket
                                        ++ (codes "\\proof\\"
                                            ++ (proof
                                                ++ (codes "\\\\id\\"
                                                    ++ (decimal request_id
                                                        ++ codes "\\final\\")))))))))))))

-- The answer to a new user.
unfoldable pub new_user_message : PlayerData → Bytes
new_user_message p =
    codes "\\nur\\\\userid\\"
    ++ (decimal (get_user_id p)
        ++ (codes "\\profileid\\" ++ (decimal (get_profile_id p) ++ codes "\\id\\1\\final\\")))

-- 2014-05-31, as `to_date` packs it.
abbrev pub birthday : ℕ
birthday = 31 * 0x1000000 + 5 * 0x10000 + 2014

-- `SendPlayerData`
unfoldable pub player_message : PlayerData → Bytes → ℕ → Bytes
player_message p ticket request_id =
    codes "\\pi\\\\profileid\\"
    ++ (decimal (get_profile_id p)
        ++ (codes "\\nick\\"
            ++ (p.name
                ++ (codes "\\userid\\"
                    ++ (decimal (get_user_id p)
                        ++ (codes "\\email\\"
                            ++ (p.email
                                ++ (codes "\\sig\\"
                                    ++ (ticket
                                        ++ (codes "\\uniquenick\\"
                                            ++ (p.name
                                                ++ (codes
                                                      "\\pid\\0\\firstname\\\\lastname\\\\countrycode\\"
                                                    ++ (p.country
                                                        ++ (codes "\\birthday\\"
                                                            ++ (decimal birthday
                                                            ++ (codes
                                                            "\\lon\\0.000000\\lat\\0.000000\\loc\\\\id\\"
                                                            ++ (decimal request_id
                                                            ++ codes "\\final\\")))))))))))))))))
