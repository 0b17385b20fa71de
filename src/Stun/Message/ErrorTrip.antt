-- ===== src/Stun/Message/ErrorTrip.antt =====
-- An error code that was appended is found again.
use libxice.Base.{ℕ, ◌+◌, ◌/◌, ◌%◌, ◌^◌, ◌≤◌, ◌<◌, ◌≡◌, ◌⊎◌, arith}
use libxice.Base.{List, some, length}
use libxice.Base.Memory.{Memory, byte, store, fill, store_bytes}
use libxice.Base.Bits.{bit_and-low_mask}
use libxice.Stun.Constants.{success}
use libxice.Stun.Constants.Attribute
use libxice.Stun.Types.{StunMessage}
use libxice.Stun.Utils.Words.{stun_align_lem}
use libxice.Stun.Message.{stun_message_length, stun_message_find}
use libxice.Stun.Message.Phrase.{stun_strerror}
use libxice.Stun.Message.Append.{length_field, append_buffer, stun_message_append_error}
use libxice.Stun.Message.Typed.{stun_message_find_error}
use libxice.Stun.Message.Layout.{Attr}
use libxice.Stun.Message.Written.{CanTake, append_with-IsWritten}

module _ (code : ℕ) (str : List ℕ) (ptr : ℕ) (m : Memory) where
  abbrev stored : Memory
  stored =
      store_bytes (store (store (fill m ptr 0 2) (ptr + 2) (code / 100)) (ptr + 3) (code % 100))
        (ptr + 4) str

  stored-local : (q : ℕ) → (q < ptr) ⊎ (ptr + (4 + length str) ≤ q) → stored q ≡ m q
  stored-local q h = ground arith

  stored-class : stored (ptr + 2) ≡ code / 100
  stored-class = ground arith

  stored-number : stored (ptr + 3) ≡ code % 100
  stored-number = ground arith

find_error_of_found :
    (msg : StunMessage) (n p code : ℕ)
    → 4 ≤ n
    → 300 ≤ code
    → code < 700
    → stun_message_find msg Attribute.error_code ≡ some (n, p)
    → msg.buffer (p + 2) ≡ code / 100
    → msg.buffer (p + 3) ≡ code % 100
    → stun_message_find_error msg ≡ (success, some code)
unfolding stun_message_find_error
find_error_of_found msg n p code big lo hi e c d =
    rw (e, stun_message_find_error) (ground (arith, bit_and-low_mask 3 (byte msg.buffer (p + 2))))

length_field-ge : (msg : StunMessage) (n : ℕ) → n < 2 ^ 16 → n ≤ length_field msg n
length_field-ge msg n h = ground (arith, stun_align_lem n)

-- A code from 300 to 699 that was appended, with the phrase of the code, is found.
pub find_error-append_error :
    (msg : StunMessage) (attrs : List Attr) (code : ℕ)
    → CanTake msg attrs Attribute.error_code (4 + length (stun_strerror code))
    → 300 ≤ code
    → code < 700
    → (msg' : StunMessage) × (stun_message_append_error msg code ≡ (success, msg'))
      × (stun_message_find_error msg' ≡ (success, some code))
unfolding stun_message_append_error
find_error-append_error msg attrs code can lo hi =
    let str = stun_strerror code in
    let n = 4 + length str in
    let p = stun_message_length msg + 4 in
    let m = append_buffer msg Attribute.error_code n (stun_message_length msg) in
    let (msg', e, w) =
      append_with-IsWritten msg attrs Attribute.error_code n (stored code str) can
        (λ ptr m q h. stored-local code str ptr m q h) in
    (
      msg',
      e,
      find_error_of_found msg' (length_field msg n) p code
          (omega (arith, can.no_wrap, length_field-ge msg n)) lo hi w.found
          (rw w.bytes (stored-class code str p m)) (rw w.bytes (stored-number code str p m)),
    )
