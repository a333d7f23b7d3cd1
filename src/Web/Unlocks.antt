-- ===== src/Web/Unlocks.antt =====
-- The unlocks of emulator/http.client.cpp.
use gamespy_emulator.Prelude.{ℕ, Bytes, List, [], ◌∷◌, codes}
use gamespy_emulator.Web.Response.{Response, append, data_line, number, text}

pub record UnlockInfo : Type 0 where
  pub id : ℕ
  pub kid_id : ℕ
  pub name : Bytes
  pub desc : Bytes

abbrev unlock : ℕ → ℕ → Bytes → Bytes → UnlockInfo
unlock i k n d = record { id = i; kid_id = k; name = n; desc = d }

-- `g_Unlocks`
abbrev pub unlocks : List UnlockInfo
unlocks =
    unlock 11 0 (codes "Chsht_protecta") (codes "Protecta shotgun with slugs")
    ∷ unlock 22 1 (codes "Usrif_g3a3") (codes "H&K G3")
    ∷ unlock 33 2 (codes "USSHT_Jackhammer") (codes "Jackhammer shotgun")
    ∷ unlock 44 3 (codes "Usrif_sa80") (codes "SA-80")
    ∷ unlock 55 4 (codes "Usrif_g36c") (codes "G36C")
    ∷ unlock 66 5 (codes "RULMG_PKM") (codes "PKM")
    ∷ unlock 77 6 (codes "USSNI_M95_Barret") (codes "Barret M82A2 (.50 cal rifle)")
    ∷ unlock 88 1 (codes "sasrif_fn2000") (codes "FN2000")
    ∷ unlock 99 2 (codes "sasrif_mp7") (codes "MP-7")
    ∷ unlock 111 3 (codes "sasrif_g36e") (codes "G36E")
    ∷ unlock 222 4 (codes "usrif_fnscarl") (codes "FN SCAR - L")
    ∷ unlock 333 5 (codes "sasrif_mg36") (codes "MG36")
    ∷ unlock 444 0 (codes "eurif_fnp90") (codes "P90")
    ∷ unlock 555 6 (codes "gbrif_l96a1") (codes "L96A1")
    ∷ []

-- The loops of the two pages that list the unlocks.
unfoldable pub append_unlocks : List UnlockInfo → Response → Response
append_unlocks [] r = r
append_unlocks (u ∷ us) r =
    append_unlocks us
      (append r data_line (number u.id ∷ number u.kid_id ∷ text u.name ∷ text u.desc ∷ []))

unfoldable pub append_states : List UnlockInfo → Response → Response
append_states [] r = r
append_states (u ∷ us) r =
    append_states us (append r data_line (number u.id ∷ text (codes "s") ∷ []))
