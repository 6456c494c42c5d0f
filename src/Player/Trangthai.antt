-- ===== src/Player/Trangthai.antt =====
-- The movement states of internal/game/player/trangthai.go. The maps of the source are package
-- variables that nothing writes.
use microservice_game_servic.Base.{
  ℕ, ◌≡◌, refl, [], ◌∷◌, Bytes, none, some, ascii, if◌then◌else◌, ltb, suc, zero, arith,
  nat_comparable, bytes_comparable,
}
use microservice_game_servic.Base.Map.{Map, lookup}

abbrev pub dung_yen : ℕ
dung_yen = 0

abbrev di_chuyen : ℕ
di_chuyen = 1

abbrev nhay : ℕ
nhay = 2

abbrev roi : ℕ
roi = 3

abbrev bay_ngang : ℕ
bay_ngang = 4

abbrev thu : ℕ
thu = 5

abbrev gong : ℕ
gong = 6

abbrev trangthai_table : Map ℕ Bytes
trangthai_table =
    (dung_yen, ascii "DUNG_YEN")
    ∷ (di_chuyen, ascii "DI_CHUYEN")
    ∷ (nhay, ascii "NHAY")
    ∷ (roi, ascii "ROI")
    ∷ (bay_ngang, ascii "BAY_NGANG")
    ∷ (thu, ascii "THU")
    ∷ (gong, ascii "GONG")
    ∷ []

abbrev string_table : Map Bytes ℕ
string_table =
    (ascii "DUNG_YEN", dung_yen)
    ∷ (ascii "DI_CHUYEN", di_chuyen)
    ∷ (ascii "NHAY", nhay)
    ∷ (ascii "ROI", roi)
    ∷ (ascii "BAY_NGANG", bay_ngang)
    ∷ (ascii "THU", thu)
    ∷ (ascii "GONG", gong)
    ∷ []

unfoldable pub trangthai_to_string : ℕ → Bytes
trangthai_to_string v = elim (lookup v trangthai_table) [ some s ↦ s | none ↦ ascii "DUNG_YEN" ]

unfoldable pub string_to_trangthai : Bytes → ℕ
string_to_trangthai s = elim (lookup s string_table) [ some v ↦ v | none ↦ dung_yen ]

-- A state survives its text form; a number that is no state comes back as `dung_yen`.
pub string_to_trangthai-trangthai_to_string :
    (v : ℕ) → string_to_trangthai (trangthai_to_string v) ≡ (if ltb v 7 then v else dung_yen)
unfolding string_to_trangthai trangthai_to_string lookup
string_to_trangthai-trangthai_to_string zero = refl
string_to_trangthai-trangthai_to_string (suc zero) = refl
string_to_trangthai-trangthai_to_string (suc (suc zero)) = refl
string_to_trangthai-trangthai_to_string (suc (suc (suc zero))) = refl
string_to_trangthai-trangthai_to_string (suc (suc (suc (suc zero)))) = refl
string_to_trangthai-trangthai_to_string (suc (suc (suc (suc (suc zero))))) = refl
string_to_trangthai-trangthai_to_string (suc (suc (suc (suc (suc (suc zero)))))) = refl
string_to_trangthai-trangthai_to_string (suc (suc (suc (suc (suc (suc (suc v))))))) = ground arith
