-- ===== src/Stun/Crc.antt =====
-- stun/stuncrc32.c and the fingerprint of stun/stun5389.c.
mod Tests
pub mod Table
pub mod Serial
use libxice.Base.{ℕ, ◌+◌, ◌-◌, ◌*◌, ◌/◌, ◌%◌, ◌^◌, bit_and, bit_or, bit_xor, Bool, ◌&&◌}
use libxice.Base.{List, [], ◌∷◌, ◌++◌, get_or, ◌==◌, if◌then◌else◌}
use libxice.Base.Memory.{Memory, load_bytes}
use libxice.Stun.Message.Append.{bytes16}
use libxice.Stun.Crc.Table.{crc32_tab}

-- One byte of the inner loop. The flag asks for the wrong entry that WLM 2009 has in its table.
abbrev pub crc_step : Bool → ℕ → ℕ → ℕ
crc_step typo crc p =
    let lkp = get_or crc32_tab (bit_and (bit_xor crc p) 0xFF) 0 in
    let lkp' = if (lkp == 0x8bbeb8ea) && typo then 0x8bbe8ea else lkp in bit_xor lkp' (crc / 2 ^ 8)

-- The two loops run through the bytes of all chunks in order.
unfoldable pub crc_loop : Bool → ℕ → List ℕ → ℕ
crc_loop typo crc [] = crc
crc_loop typo crc (p ∷ ps) = crc_loop typo (crc_step typo crc p) ps

-- `data` is the chunks one behind the other.
unfoldable pub stun_crc32 : List ℕ → Bool → ℕ
stun_crc32 bytes typo = bit_xor (crc_loop typo 0xffffffff bytes) 0xffffffff

-- The number whose bytes in network order are the fingerprint: the type, the length `len - 20`, and the
-- bytes from 4 to `len - 8`.
unfoldable pub stun_fingerprint : Memory → ℕ → Bool → ℕ
stun_fingerprint msg len typo =
    bit_xor
      (stun_crc32
        (load_bytes msg 0 2
          ++ (bytes16 ((len + 2 ^ 32 - 20) % 2 ^ 16) ++ load_bytes msg 4 (len - 12)))
        typo)
      0x5354554e
