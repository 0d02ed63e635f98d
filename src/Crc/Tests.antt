-- ===== src/Crc/Tests.antt =====
-- Runs of the CRC, and its theorems at concrete data.
use pageant.Base.{ℕ, ◌≡◌, refl, List, [], ◌∷◌, arith, get_or}
use pageant.Crc.{crc32_table, crc32_init_entry, crc32_update, crc32_compute}
use pageant.Crc.Serial.{serial_steps, serial_crc, crc32_table-init, crc32_update-serial}

-- "123456789"
abbrev nine_digits : List ℕ
nine_digits = 49 ∷ 50 ∷ 51 ∷ 52 ∷ 53 ∷ 54 ∷ 55 ∷ 56 ∷ 57 ∷ []

crc32_update_digits : crc32_update 0xffffffff nine_digits ≡ 0x340bc6d9
unfolding crc32_update crc32_table
crc32_update_digits = refl

crc32_compute_digits : crc32_compute nine_digits ≡ 0x2dfd2d88
unfolding crc32_compute crc32_update crc32_table
crc32_compute_digits = refl

crc32_table-init_example :
    (get_or crc32_table 200 0 ≡ crc32_init_entry 200)
    × (get_or crc32_table 200 0 ≡ serial_steps 8 200)
crc32_table-init_example = crc32_table-init 200 (omega arith)

crc32_update-serial_example :
    crc32_update 0xffffffff nine_digits ≡ serial_crc 0xffffffff nine_digits
crc32_update-serial_example = crc32_update-serial 0xffffffff nine_digits (omega arith)
