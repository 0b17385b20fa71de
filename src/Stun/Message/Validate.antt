-- ===== src/Stun/Message/Validate.antt =====
-- stun/stunmessage.c: `stun_message_validate_buffer_length`.
use libxice.Base.{ℕ, zero, suc, ◌+◌, ◌-◌, ◌/◌, ◌%◌, ◌^◌, Bool, not, ◌&&◌, ltb, ◌==◌, if◌then◌else◌}
use libxice.Base.Memory.{Memory, byte}
use libxice.Stun.Constants.{message_length_pos, message_header_length, attribute_type_len}
use libxice.Stun.Utils.{stun_getw, stun_padding}
use libxice.Stun.Message.{stride}

-- STUN_MESSAGE_BUFFER_INVALID, STUN_MESSAGE_BUFFER_INCOMPLETE, and the length of the message, which
-- is 20 at least. `out_of_fuel` is no result of the C function.
pub data BufferLength : Type 0 where
  buffer_invalid buffer_incomplete : BufferLength
  buffer_length : ℕ → BufferLength
  out_of_fuel : BufferLength

-- `while (len > 0)`, with the pointer `p`. `len` is a size_t, so `len -= 4` wraps.
unfoldable pub validate_loop : ℕ → Memory → Bool → ℕ → ℕ → ℕ → BufferLength
validate_loop zero m has_padding mlen p len = out_of_fuel
validate_loop (suc fuel) m has_padding mlen p len =
    let alen = stride has_padding (stun_getw m (p + attribute_type_len)) in
    let len' = (len + 2 ^ 64 - 4) % 2 ^ 64 in
    let rest = validate_loop fuel m has_padding mlen (p + 4 + alen) (len' - alen) in
    if len == 0 then buffer_length mlen else if ltb len' alen then buffer_invalid else rest

-- Each round of the loop on an aligned message takes four bytes of `len` at least.
unfoldable pub stun_message_validate_buffer_length : Memory → ℕ → Bool → BufferLength
stun_message_validate_buffer_length msg length has_padding =
    let mlen = stun_getw msg message_length_pos + message_header_length in
    let loop = validate_loop mlen msg has_padding mlen 20 (mlen - 20) in
    if ltb length 1
    then buffer_invalid
    else if not (byte msg 0 / 2 ^ 6 == 0)
    then buffer_invalid
    else if ltb length 4
    then buffer_incomplete
    else if has_padding && not (stun_padding mlen == 0)
    then buffer_invalid
    else if ltb length mlen
    then buffer_incomplete
    else loop
