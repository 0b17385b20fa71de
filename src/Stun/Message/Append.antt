-- ===== src/Stun/Message/Append.antt =====
-- stun/stunmessage.c: the functions that append an attribute.
use libxice.Base.{ℕ, ◌+◌, ◌-◌, ◌/◌, ◌%◌, ◌^◌, Option, none, some, List, [], ◌∷◌, ◌++◌}
use libxice.Base.{ltb, if◌then◌else◌, length}
use libxice.Base.Memory.{Memory, store, store_bytes, fill}
use libxice.Stun.Constants.{message_length_pos, message_header_length, attribute_header_length}
use libxice.Stun.Constants.{StunMessageReturn, success, invalid, not_enough_space}
use libxice.Stun.Constants.{unsupported_address, magic_cookie}
use libxice.Stun.Constants.Attribute
use libxice.Stun.Types.{StunMessage}
use libxice.Stun.Utils.{stun_setw, stun_padding, stun_align, SockAddr, inet, inet6, other_family}
use libxice.Stun.Utils.{stun_xor_address, sizeof_sockaddr, sizeof_sockaddr_in6}
use libxice.Stun.Utils.{sizeof_sockaddr_storage}
use libxice.Stun.Message.Phrase.{stun_strerror}
use libxice.Stun.Message.{stun_message_length, stun_message_has_cookie, wire_type, is_aligned}

-- The length field of an attribute: without the cookie RFC 3489 wants a multiple of 4.
abbrev pub length_field : StunMessage → ℕ → ℕ
length_field msg length =
    if is_aligned msg
    then if stun_message_has_cookie msg then length else stun_align length
    else length

abbrev pub padding_of : StunMessage → ℕ → ℕ
padding_of msg length = if is_aligned msg then stun_padding length else 0

-- The buffer behind the writes to the attribute and to the length of the message, with `mlen` the
-- length before.
abbrev pub append_buffer : StunMessage → ℕ → ℕ → ℕ → Memory
append_buffer msg type length mlen =
    let m = stun_setw msg.buffer mlen (wire_type msg type) in
    let m = stun_setw m (mlen + 2) (length_field (record msg { buffer = m }) length) in
    let m = fill m (mlen + 4 + length) 0x20 (padding_of msg length) in
    let mlen' = ((mlen + padding_of msg length) % 2 ^ 16 + (4 + length)) % 2 ^ 16 in
    stun_setw m message_length_pos (mlen' + 2 ^ 64 - message_header_length)

-- `stun_message_append`: the offset of the value, and the message; `none` is NULL.
unfoldable pub stun_message_append : StunMessage → ℕ → ℕ → Option (ℕ × StunMessage)
stun_message_append msg type length =
    let mlen = stun_message_length msg in
    if ltb msg.buffer_len (mlen + attribute_header_length + length)
    then none
    else some (mlen + 4, record msg { buffer = append_buffer msg type length mlen })

-- What the functions below do with the result: nothing more, or the writes `f` to the value.
abbrev pub append_with :
    StunMessage → ℕ → ℕ → (ℕ → Memory → Memory) → StunMessageReturn × StunMessage
append_with msg type length f = elim (stun_message_append msg type length) [
  | none ↦ (not_enough_space, msg)
  | some (ptr, msg') ↦ (success, record msg' { buffer = f ptr msg'.buffer })
]

unfoldable pub stun_message_append_bytes :
    StunMessage → ℕ → List ℕ → StunMessageReturn × StunMessage
stun_message_append_bytes msg type bytes =
    append_with msg type (length bytes) (λ ptr m. store_bytes m ptr bytes)

unfoldable pub stun_message_append_flag : StunMessage → ℕ → StunMessageReturn × StunMessage
stun_message_append_flag msg type = stun_message_append_bytes msg type []

-- The bytes of a 32-bit number in network order.
abbrev pub bytes32 : ℕ → List ℕ
bytes32 v = v / 2 ^ 24 % 256 ∷ v / 2 ^ 16 % 256 ∷ v / 2 ^ 8 % 256 ∷ v % 256 ∷ []

abbrev pub bytes16 : ℕ → List ℕ
bytes16 v = v / 2 ^ 8 % 256 ∷ v % 256 ∷ []

unfoldable pub stun_message_append32 : StunMessage → ℕ → ℕ → StunMessageReturn × StunMessage
stun_message_append32 msg type value = stun_message_append_bytes msg type (bytes32 value)

unfoldable pub stun_message_append64 : StunMessage → ℕ → ℕ → StunMessageReturn × StunMessage
stun_message_append64 msg type value =
    stun_message_append_bytes msg type
      (bytes32 (value / 2 ^ 32 % 2 ^ 32) ++ bytes32 (value % 2 ^ 32))

-- A C string is its bytes before the terminating 0.
unfoldable pub stun_message_append_string :
    StunMessage → ℕ → List ℕ → StunMessageReturn × StunMessage
stun_message_append_string msg type str = stun_message_append_bytes msg type str

-- The writes to the value of an address attribute.
abbrev pub store_address : ℕ → ℕ → List ℕ → ℕ → Memory → Memory
store_address family port addr ptr m =
    store_bytes (store_bytes (store (store m ptr 0) (ptr + 1) family) (ptr + 2) (bytes16 port))
      (ptr + 4) addr

unfoldable pub append_address : StunMessage → ℕ → SockAddr → ℕ → StunMessageReturn × StunMessage
append_address msg type (inet port addr) addrlen =
    append_with msg type (4 + 4) (store_address 1 port (bytes32 addr))
append_address msg type (inet6 port addr) addrlen =
    if ltb addrlen sizeof_sockaddr_in6
    then (invalid, msg)
    else append_with msg type (4 + 16) (store_address 2 port addr)
append_address msg type other_family addrlen = (unsupported_address, msg)

unfoldable pub stun_message_append_addr :
    StunMessage → ℕ → SockAddr → ℕ → StunMessageReturn × StunMessage
unfolding append_address
stun_message_append_addr msg type addr addrlen =
    if ltb addrlen sizeof_sockaddr then (invalid, msg) else append_address msg type addr addrlen

-- `*_full` takes the cookie; the plain function has STUN_MAGIC_COOKIE.
unfoldable pub stun_message_append_xor_addr_full :
    StunMessage → ℕ → SockAddr → ℕ → ℕ → StunMessageReturn × StunMessage
stun_message_append_xor_addr_full msg type addr addrlen cookie =
    let addrlen' =
      if ltb sizeof_sockaddr_storage addrlen then sizeof_sockaddr_storage else addrlen in
    let (val, xor) = stun_xor_address msg.buffer addr addrlen' cookie in
    elim val [ success ↦ stun_message_append_addr msg type xor addrlen' | failed ↦ (failed, msg) ]

unfoldable pub stun_message_append_xor_addr :
    StunMessage → ℕ → SockAddr → ℕ → StunMessageReturn × StunMessage
unfolding stun_message_append_xor_addr_full
stun_message_append_xor_addr msg type addr addrlen =
    stun_message_append_xor_addr_full msg type addr addrlen magic_cookie

unfoldable pub stun_message_append_error : StunMessage → ℕ → StunMessageReturn × StunMessage
stun_message_append_error msg code =
    let str = stun_strerror code in
    append_with msg Attribute.error_code (4 + length str) (λ ptr m.
      store_bytes (store (store (fill m ptr 0 2) (ptr + 2) (code / 100)) (ptr + 3) (code % 100))
        (ptr + 4) str)
