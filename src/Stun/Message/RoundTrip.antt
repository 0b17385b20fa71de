-- ===== src/Stun/Message/RoundTrip.antt =====
-- A value that one of the append functions wrote is what the find function of the kind returns.
use libxice.Base.{ℕ, ◌+◌, ◌*◌, ◌/◌, ◌%◌, ◌^◌, ◌<◌, ◌≡◌, refl, ap, ◌∙◌, arith}
use libxice.Base.{true, List, [], ◌++◌, some}
use libxice.Base.{length, get_or, All}
use libxice.Base.Memory.{Memory, store_bytes, load_bytes}
use libxice.Base.Memory.Laws.{store_bytes_outside, store_bytes_inside, load_store_bytes}
use libxice.Base.Bits.{bit_or-shifted}
use libxice.Stun.Constants.{success}
use libxice.Stun.Types.{StunMessage}
use libxice.Stun.Utils.Words.{stun_align_lem}
use libxice.Stun.Message.{stun_message_length, stun_message_find, word32}
use libxice.Stun.Message.{stun_message_has_cookie}
use libxice.Stun.Message.Append.{length_field, append_buffer, bytes32}
use libxice.Stun.Message.Append.{stun_message_append_bytes, stun_message_append_flag}
use libxice.Stun.Message.Append.{stun_message_append32, stun_message_append64}
use libxice.Stun.Message.Append.{stun_message_append_string}
use libxice.Stun.Message.Typed.{stun_message_find_flag, stun_message_find32, stun_message_find64}
use libxice.Stun.Message.Typed.{stun_message_find_string}
use libxice.Stun.Message.Layout.{Attr}
use libxice.Stun.Message.Written.{CanTake, IsWritten, append_with-IsWritten}

-- A length that is a multiple of four is written as it is.
pub length_field_of_quad :
    (msg : StunMessage) (n : ℕ) → n % 4 ≡ 0 → n < 2 ^ 16 → length_field msg n ≡ n
length_field_of_quad msg n h lt = ground (arith, stun_align_lem n)

pub length_field_of_cookie :
    (msg : StunMessage) (n : ℕ) → stun_message_has_cookie msg ≡ true → length_field msg n ≡ n
length_field_of_cookie msg n h = ground arith

-- `stun_message_append_bytes` is an append whose writes stay in the value.
pub append_bytes-IsWritten :
    (msg : StunMessage) (attrs : List Attr) (type : ℕ) (xs : List ℕ)
    → CanTake msg attrs type (length xs)
    → (msg' : StunMessage) × (stun_message_append_bytes msg type xs ≡ (success, msg'))
      × IsWritten msg attrs type
          (length xs)
          (λ m. store_bytes m (stun_message_length msg + 4) xs)
          msg'
unfolding stun_message_append_bytes
append_bytes-IsWritten msg attrs type xs can =
    append_with-IsWritten msg attrs type (length xs) (λ ptr m. store_bytes m ptr xs) can
      (λ ptr m q h. store_bytes_outside m ptr xs q h)

pub word32_of_bytes :
    (m : Memory) (p v : ℕ) → v < 2 ^ 32 → word32 (store_bytes m p (bytes32 v)) p ≡ v
word32_of_bytes m p v h = ground arith

-- The functions that read a value, where the search gives its length and place.
module _ (msg : StunMessage) (type p : ℕ) where
  find_flag_of_found :
      stun_message_find msg type ≡ some (0, p) → stun_message_find_flag msg type ≡ success
  unfolding stun_message_find_flag
  find_flag_of_found e = rw (e, stun_message_find_flag)

  pub find32_of_found :
      stun_message_find msg type ≡ some (4, p)
      → stun_message_find32 msg type ≡ (success, some (word32 msg.buffer p))
  unfolding stun_message_find32
  find32_of_found e = rw (e, stun_message_find32)

  find64_of_found :
      stun_message_find msg type ≡ some (8, p)
      → stun_message_find64 msg type
        ≡ (success, some (word32 msg.buffer p * 2 ^ 32 + word32 msg.buffer (p + 4)))
  unfolding stun_message_find64
  find64_of_found e =
      rw (e, stun_message_find64)
        (ap (λ (v : ℕ). (success, some v))
          (bit_or-shifted 32 (word32 msg.buffer p) (word32 msg.buffer (p + 4)) (omega arith)))

  find_string_of_found :
      (n buflen : ℕ)
      → n < buflen
      → stun_message_find msg type ≡ some (n, p)
      → stun_message_find_string msg type buflen ≡ (success, some (load_bytes msg.buffer p n))
  unfolding stun_message_find_string
  find_string_of_found n buflen h e = rw (e, stun_message_find_string) (ground arith)

-- An appended flag is found, with an empty value.
pub find_flag-append_flag :
    (msg : StunMessage) (attrs : List Attr) (type : ℕ)
    → CanTake msg attrs type 0
    → (msg' : StunMessage) × (stun_message_append_flag msg type ≡ (success, msg'))
      × (stun_message_find_flag msg' type ≡ success)
unfolding stun_message_append_flag
find_flag-append_flag msg attrs type can =
    let (msg', e, w) = append_bytes-IsWritten msg attrs type [] can in
    let field = length_field_of_quad msg 0 (omega arith) (omega arith) in
    (msg', e, find_flag_of_found msg' type (stun_message_length msg + 4) (w.found ∙ rw field refl))

-- A 32-bit number that was appended is found.
pub find32-append32 :
    (msg : StunMessage) (attrs : List Attr) (type value : ℕ)
    → CanTake msg attrs type 4
    → value < 2 ^ 32
    → (msg' : StunMessage) × (stun_message_append32 msg type value ≡ (success, msg'))
      × (stun_message_find32 msg' type ≡ (success, some value))
unfolding stun_message_append32
find32-append32 msg attrs type value can small =
    let (msg', e, w) = append_bytes-IsWritten msg attrs type (bytes32 value) can in
    let field = length_field_of_quad msg 4 (omega arith) (omega arith) in
    (
      msg',
      e,
      find32_of_found msg' type (stun_message_length msg + 4) (w.found ∙ rw field refl)
          ∙ ap (λ (v : ℕ). (success, some v))
              (rw w.bytes (
                word32_of_bytes (append_buffer msg type 4 (stun_message_length msg))
                  (stun_message_length msg + 4) value small)),
    )

word32_of_parts :
    (m : Memory) (p v : ℕ)
    → m p ≡ v / 2 ^ 24 % 256
    → m (p + 1) ≡ v / 2 ^ 16 % 256
    → m (p + 2) ≡ v / 2 ^ 8 % 256
    → m (p + 3) ≡ v % 256
    → v < 2 ^ 32
    → word32 m p ≡ v
word32_of_parts m p v a b c d h = omega arith

module _ (m : Memory) (p v : ℕ) where
  abbrev both : List ℕ
  both = bytes32 (v / 2 ^ 32 % 2 ^ 32) ++ bytes32 (v % 2 ^ 32)

  at : (q i : ℕ) → i < 8 → q ≡ p + i → store_bytes m p both q ≡ get_or both i 0
  at q i h e = rw e (store_bytes_inside m p both i h)

  halves :
      v < 2 ^ 64
      → word32 (store_bytes m p both) p * 2 ^ 32 + word32 (store_bytes m p both) (p + 4) ≡ v
  halves h = omega (arith, high, low)
    where
      high : word32 (store_bytes m p both) p ≡ v / 2 ^ 32 % 2 ^ 32
      high =
          word32_of_parts (store_bytes m p both) p (v / 2 ^ 32 % 2 ^ 32)
            (at p 0 (omega arith) (omega arith)) (at (p + 1) 1 (omega arith) refl)
            (at (p + 2) 2 (omega arith) refl) (at (p + 3) 3 (omega arith) refl) (omega arith)

      low : word32 (store_bytes m p both) (p + 4) ≡ v % 2 ^ 32
      low =
          word32_of_parts (store_bytes m p both) (p + 4) (v % 2 ^ 32)
            (at (p + 4) 4 (omega arith) refl) (at (p + 4 + 1) 5 (omega arith) (omega arith))
            (at (p + 4 + 2) 6 (omega arith) (omega arith))
            (at (p + 4 + 3) 7 (omega arith) (omega arith)) (omega arith)

-- A 64-bit number that was appended is found.
pub find64-append64 :
    (msg : StunMessage) (attrs : List Attr) (type value : ℕ)
    → CanTake msg attrs type 8
    → value < 2 ^ 64
    → (msg' : StunMessage) × (stun_message_append64 msg type value ≡ (success, msg'))
      × (stun_message_find64 msg' type ≡ (success, some value))
unfolding stun_message_append64
find64-append64 msg attrs type value can small =
    let xs = bytes32 (value / 2 ^ 32 % 2 ^ 32) ++ bytes32 (value % 2 ^ 32) in
    let (msg', e, w) = append_bytes-IsWritten msg attrs type xs can in
    let field = length_field_of_quad msg 8 (omega arith) (omega arith) in
    (
      msg',
      e,
      find64_of_found msg' type (stun_message_length msg + 4) (w.found ∙ rw field refl)
          ∙ ap (λ (v : ℕ). (success, some v))
              (rw w.bytes (
                halves (append_buffer msg type 8 (stun_message_length msg))
                  (stun_message_length msg + 4) value small)),
    )

-- In a message with the cookie a string that was appended is found, if the buffer has room for it and
-- its terminating 0.
pub find_string-append_string :
    (msg : StunMessage) (attrs : List Attr) (type : ℕ) (str : List ℕ) (buflen : ℕ)
    → CanTake msg attrs type (length str)
    → All (λ c. c < 256) str
    → stun_message_has_cookie msg ≡ true
    → length str < buflen
    → (msg' : StunMessage) × (stun_message_append_string msg type str ≡ (success, msg'))
      × (stun_message_find_string msg' type buflen ≡ (success, some str))
unfolding stun_message_append_string
find_string-append_string msg attrs type str buflen can small cookie room =
    let (msg', e, w) = append_bytes-IsWritten msg attrs type str can in
    let field = length_field_of_cookie msg (length str) cookie in
    (
      msg',
      e,
      find_string_of_found msg' type (stun_message_length msg + 4) (length str) buflen room
            (w.found ∙ rw field refl)
          ∙ ap (λ (v : List ℕ). (success, some v))
              (rw w.bytes (load_store_bytes _ (stun_message_length msg + 4) str small)),
    )
