-- ===== src/Stun/Message/Typed.antt =====
-- stun/stunmessage.c: the functions that find an attribute and read its value.
use libxice.Base.{ℕ, ◌+◌, ◌*◌, ◌^◌, bit_and, bit_or, Option, none, some, List}
use libxice.Base.{not, ◌||◌, ltb, leb, ◌==◌, if◌then◌else◌}
use libxice.Base.Memory.{byte, load_bytes}
use libxice.Stun.Constants.{StunMessageReturn, success, not_found, invalid, not_enough_space}
use libxice.Stun.Constants.{unsupported_address, magic_cookie}
use libxice.Stun.Constants.Attribute
use libxice.Stun.Types.{StunMessage}
use libxice.Stun.Utils.{SockAddr, inet, inet6, stun_xor_address}
use libxice.Stun.Utils.{sizeof_sockaddr_in, sizeof_sockaddr_in6}
use libxice.Stun.Message.{stun_message_find, word32}

-- The status, and the value that is stored on success.
abbrev pub Found : Type 0 → Type 0
Found A = StunMessageReturn × Option A

unfoldable pub stun_message_find_flag : StunMessage → ℕ → StunMessageReturn
stun_message_find_flag msg type = elim (stun_message_find msg type) [
  | none ↦ not_found
  | some (len, ptr) ↦ if len == 0 then success else invalid
]

unfoldable pub stun_message_find32 : StunMessage → ℕ → Found ℕ
stun_message_find32 msg type = elim (stun_message_find msg type) [
  | none ↦ (not_found, none)
  | some (len, ptr) ↦ if len == 4 then (success, some (word32 msg.buffer ptr)) else (invalid, none)
]

unfoldable pub stun_message_find64 : StunMessage → ℕ → Found ℕ
stun_message_find64 msg type = elim (stun_message_find msg type) [
  | none ↦ (not_found, none)
  | some (len, ptr) ↦
      if len == 8
      then (success, some (bit_or (word32 msg.buffer ptr * 2 ^ 32) (word32 msg.buffer (ptr + 4))))
      else (invalid, none)
]

-- The bytes before the terminating 0 that is written behind them.
unfoldable pub stun_message_find_string : StunMessage → ℕ → ℕ → Found (List ℕ)
stun_message_find_string msg type buflen = elim (stun_message_find msg type) [
  | none ↦ (not_found, none)
  | some (len, ptr) ↦
      if leb buflen len
      then (not_enough_space, none)
      else (success, some (load_bytes msg.buffer ptr len))
]

-- The status, the address that is stored on success, and `*addrlen` afterwards.
abbrev pub FoundAddr : Type 0
FoundAddr = StunMessageReturn × Option SockAddr × ℕ

unfoldable pub stun_message_find_addr : StunMessage → ℕ → ℕ → FoundAddr
stun_message_find_addr msg type addrlen = elim (stun_message_find msg type) [
  | none ↦ (not_found, none, addrlen)
  | some (len, ptr) ↦
      let m = msg.buffer in
      let port = byte m (ptr + 2) * 2 ^ 8 + byte m (ptr + 3) in
      if ltb len 4
      then (invalid, none, addrlen)
      else if byte m (ptr + 1) == 1
      then if ltb addrlen sizeof_sockaddr_in || not (len == 8)
        then (invalid, none, sizeof_sockaddr_in)
        else (success, some (inet port (word32 m (ptr + 4))), sizeof_sockaddr_in)
      else if byte m (ptr + 1) == 2
      then if ltb addrlen sizeof_sockaddr_in6 || not (len == 20)
        then (invalid, none, sizeof_sockaddr_in6)
        else (success, some (inet6 port (load_bytes m (ptr + 4) 16)), sizeof_sockaddr_in6)
      else (unsupported_address, none, addrlen)
]

-- What the exclusive or leaves of an address that was found.
abbrev pub xor_found : StunMessage → ℕ → FoundAddr → FoundAddr
xor_found msg cookie (val, none, addrlen) = (val, none, addrlen)
xor_found msg cookie (val, some addr, addrlen) =
    let (val', addr') = stun_xor_address msg.buffer addr addrlen cookie in
    (val', some addr', addrlen)

unfoldable pub stun_message_find_xor_addr_full : StunMessage → ℕ → ℕ → ℕ → FoundAddr
stun_message_find_xor_addr_full msg type addrlen cookie =
    xor_found msg cookie (stun_message_find_addr msg type addrlen)

unfoldable pub stun_message_find_xor_addr : StunMessage → ℕ → ℕ → FoundAddr
stun_message_find_xor_addr msg type addrlen =
    xor_found msg magic_cookie (stun_message_find_addr msg type addrlen)

unfoldable pub stun_message_find_error : StunMessage → Found ℕ
stun_message_find_error msg = elim (stun_message_find msg Attribute.error_code) [
  | none ↦ (not_found, none)
  | some (alen, ptr) ↦
      let class = bit_and (byte msg.buffer (ptr + 2)) 0x7 in
      let number = byte msg.buffer (ptr + 3) in
      if ltb alen 4
      then (invalid, none)
      else if ltb class 3 || ltb 6 class || ltb 99 number
      then (invalid, none)
      else (success, some (class * 100 + number))
]
