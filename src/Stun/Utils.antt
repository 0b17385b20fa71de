-- ===== src/Stun/Utils.antt =====
-- stun/utils.c: padding, big-endian words, the message type, and the exclusive or of an address.
pub mod Words
pub mod TypeField
use libxice.Base.{ℕ, zero, suc, ◌+◌, ◌-◌, ◌*◌, ◌/◌, ◌%◌, ◌^◌, bit_and, bit_or, bit_xor}
use libxice.Base.{List, [], ◌∷◌, ltb, if◌then◌else◌}
use libxice.Base.Memory.{Memory, byte, store}
use libxice.Stun.Constants.{StunClass, class_value}
use libxice.Stun.Constants.{StunMessageReturn, success, invalid, unsupported_address}

-- `l` is a size_t.
unfoldable pub stun_padding : ℕ → ℕ
stun_padding l = bit_and (4 - bit_and l 3) 3

-- `~3`, as a size_t.
unfoldable pub stun_align : ℕ → ℕ
stun_align l = bit_and ((l + 3) % 2 ^ 64) (2 ^ 64 - 4)

-- The big-endian 16-bit word at `ptr`.
unfoldable pub stun_getw : Memory → ℕ → ℕ
stun_getw m ptr = bit_or (byte m ptr * 2 ^ 8) (byte m (ptr + 1))

-- `value` is passed as a uint16_t. The pointer that the C function returns is `ptr + 2`.
unfoldable pub stun_setw : Memory → ℕ → ℕ → Memory
stun_setw m ptr value =
    let v = value % 2 ^ 16 in store (store m ptr (v / 2 ^ 8)) (ptr + 1) (bit_and v 0xff)

-- The two bytes that `stun_set_type` writes for the class value `c` and the method `m`.
abbrev pub type_high : ℕ → ℕ → ℕ
type_high c m = bit_or (c / 2) (bit_and (m / 2 ^ 6) 0x3e)

abbrev pub type_low : ℕ → ℕ → ℕ
type_low c m = bit_or (bit_or (bit_and (c * 2 ^ 4) 0x10) (bit_and (m * 2) 0xe0)) (bit_and m 0x0f)

unfoldable pub stun_set_type : Memory → ℕ → StunClass → ℕ → Memory
stun_set_type m h c method =
    store (store m h (type_high (class_value c) method)) (h + 1) (type_low (class_value c) method)

-- A `struct sockaddr`. The port and the IPv4 address are the numbers that their bytes in network
-- order make; an IPv6 address is its 16 bytes.
pub data SockAddr : Type 0 where
  inet : ℕ → ℕ → SockAddr
  inet6 : ℕ → List ℕ → SockAddr
  other_family : SockAddr

-- `sizeof (struct sockaddr_in)`, `sizeof (struct sockaddr_in6)`, `sizeof (struct sockaddr)` and
-- `sizeof (struct sockaddr_storage)`.
abbrev pub sizeof_sockaddr_in : ℕ
sizeof_sockaddr_in = 16

abbrev pub sizeof_sockaddr_in6 : ℕ
sizeof_sockaddr_in6 = 28

abbrev pub sizeof_sockaddr : ℕ
sizeof_sockaddr = 16

abbrev pub sizeof_sockaddr_storage : ℕ
sizeof_sockaddr_storage = 128

-- `for (i = 0; i < 16; i++) s6_addr[i] ^= buffer[4 + i]`, from the offset `p` of the buffer on.
unfoldable pub xor_bytes : Memory → ℕ → List ℕ → List ℕ
xor_bytes m p [] = []
xor_bytes m p (x ∷ xs) = bit_xor x (byte m p) ∷ xor_bytes m (p + 1) xs

-- The result, and the address that is left in `*addr`.
unfoldable pub stun_xor_address : Memory → SockAddr → ℕ → ℕ → StunMessageReturn × SockAddr
stun_xor_address m (inet port addr) addrlen cookie =
    if ltb addrlen sizeof_sockaddr_in
    then (invalid, inet port addr)
    else (success, inet (bit_xor port (cookie / 2 ^ 16)) (bit_xor addr cookie))
stun_xor_address m (inet6 port addr) addrlen cookie =
    if ltb addrlen sizeof_sockaddr_in6
    then (invalid, inet6 port addr)
    else (success, inet6 (bit_xor port (cookie / 2 ^ 16)) (xor_bytes m 4 addr))
stun_xor_address m other_family addrlen cookie = (unsupported_address, other_family)
