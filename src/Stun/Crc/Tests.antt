-- ===== src/Stun/Crc/Tests.antt =====
-- The check value of CRC-32.
use libxice.Base.{◌≡◌, refl, false, bit_xor, arith}
use libxice.Stun.Crc.Serial.{serial_crc, stun_crc32_lem}
use libxice.Stun.Crc.{stun_crc32, crc_loop}
use libxice.Base.{[], ◌∷◌}

crc32_test :
    stun_crc32 (0x31 ∷ 0x32 ∷ 0x33 ∷ 0x34 ∷ 0x35 ∷ 0x36 ∷ 0x37 ∷ 0x38 ∷ 0x39 ∷ []) false
    ≡ 0xCBF43926
unfolding stun_crc32 crc_loop
crc32_test = refl

stun_crc32_lem_example :
    stun_crc32 (0x61 ∷ 0x62 ∷ []) false
    ≡ bit_xor (serial_crc 0xffffffff (0x61 ∷ 0x62 ∷ [])) 0xffffffff
stun_crc32_lem_example = stun_crc32_lem (0x61 ∷ 0x62 ∷ []) (ground arith)
