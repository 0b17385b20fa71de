-- ===== src/Stun/Message/AddressTrip.antt =====
-- Address and error attributes: what was appended is found again, also through the exclusive or.
use mathlib.Core.Path.{ap₂}
use libxice.Base.{ℕ, ◌+◌, ◌*◌, ◌^◌, ◌≤◌, ◌<◌, ◌≡◌, ◌⊎◌, refl, sym, ap, ◌∙◌, arith}
use libxice.Base.{List, some}
use libxice.Base.{length, All, le→ltb}
use libxice.Base.Memory.{Memory, byte, store, store_bytes, load_bytes, Agree}
use libxice.Base.Memory.Laws.{load_store_bytes}
use libxice.Stun.Constants.{success}
use libxice.Stun.Types.{StunMessage}
use libxice.Stun.Utils.{SockAddr, inet, inet6, other_family}
use libxice.Stun.Message.{stun_message_length, stun_message_find, word32}
use libxice.Stun.Message.Append.{append_buffer, bytes32, bytes16}
use libxice.Stun.Message.Append.{store_address, stun_message_append_addr}
use libxice.Stun.Message.Typed.{stun_message_find_addr}
use libxice.Stun.Message.Layout.{Attr}
use libxice.Stun.Message.Written.{CanTake, append_with-IsWritten}
use libxice.Stun.Message.RoundTrip.{word32_of_bytes, length_field_of_quad}

-- The length of the value of an address, and the size of its structure.
abbrev pub value_size : SockAddr → ℕ
value_size (inet port addr) = 8
value_size (inet6 port addr) = 20
value_size other_family = 0

abbrev pub sizeof_addr : SockAddr → ℕ
sizeof_addr (inet port addr) = 16
sizeof_addr (inet6 port addr) = 28
sizeof_addr other_family = 16

-- An address of a known family, whose parts fit their types.
abbrev pub IsAddr : SockAddr → Type 0
IsAddr (inet port addr) = (port < 2 ^ 16) × (addr < 2 ^ 32)
IsAddr (inet6 port addr) = (port < 2 ^ 16) × (length addr ≡ 16) × All (λ x. x < 256) addr
IsAddr other_family = ⊥

module _ (port p : ℕ) (m : Memory) (addr : List ℕ) (family : ℕ) where
  abbrev stored : Memory
  stored = store_address family port addr p m

  store_address-local : (q : ℕ) → (q < p) ⊎ (p + 4 + length addr ≤ q) → stored q ≡ m q
  store_address-local q h = ground arith

  stored-family : stored (p + 1) ≡ family
  stored-family = ground arith

  stored-port : port < 2 ^ 16 → byte stored (p + 2) * 2 ^ 8 + byte stored (p + 3) ≡ port
  stored-port h = ground arith

  stored-addr : All (λ x. x < 256) addr → load_bytes stored (p + 4) (length addr) ≡ addr
  stored-addr small = load_store_bytes _ (p + 4) addr small

stored-addr32 :
    (port p : ℕ) (m : Memory) (v : ℕ)
    → v < 2 ^ 32
    → word32 (store_address 1 port (bytes32 v) p m) (p + 4) ≡ v
stored-addr32 port p m v h =
    word32_of_bytes (store_bytes (store (store m p 0) (p + 1) 1) (p + 2) (bytes16 port)) (p + 4) v h

module _ (msg : StunMessage) (type p addrlen : ℕ) where
  find_inet_of_found :
      16 ≤ addrlen
      → stun_message_find msg type ≡ some (8, p)
      → byte msg.buffer (p + 1) ≡ 1
      → stun_message_find_addr msg type addrlen ≡ (
        success,
        some (
            inet
              (byte msg.buffer (p + 2) * 2 ^ 8 + byte msg.buffer (p + 3))
              (word32 msg.buffer (p + 4))),
        16,
      )
  unfolding stun_message_find_addr
  find_inet_of_found h e f = rw (e, stun_message_find_addr) (ground arith)

  find_inet6_of_found :
      28 ≤ addrlen
      → stun_message_find msg type ≡ some (20, p)
      → byte msg.buffer (p + 1) ≡ 2
      → stun_message_find_addr msg type addrlen ≡ (
        success,
        some (
            inet6
              (byte msg.buffer (p + 2) * 2 ^ 8 + byte msg.buffer (p + 3))
              (load_bytes msg.buffer (p + 4) 16)),
        28,
      )
  unfolding stun_message_find_addr
  find_inet6_of_found h e f = rw (e, stun_message_find_addr) (ground arith)

append_inet :
    (msg : StunMessage) (attrs : List Attr) (type port addr addrlen buflen : ℕ)
    → CanTake msg attrs type 8
    → IsAddr (inet port addr)
    → 16 ≤ addrlen
    → 16 ≤ buflen
    → (msg' : StunMessage) × (stun_message_append_addr msg type (inet port addr) addrlen
        ≡ (success, msg'))
      × (stun_message_find_addr msg' type buflen ≡ (success, some (inet port addr), 16))
      × Agree msg.buffer msg'.buffer 4 20
unfolding stun_message_append_addr
append_inet msg attrs type port addr addrlen buflen can (small_port, small_addr) big room =
    let p = stun_message_length msg + 4 in
    let m = append_buffer msg type 8 (stun_message_length msg) in
    let (msg', e, w) =
      append_with-IsWritten msg attrs type 8 (store_address 1 port (bytes32 addr)) can
        (λ ptr m q h. store_address-local port ptr m (bytes32 addr) 1 q (omega arith)) in
    let field = length_field_of_quad msg 8 (omega arith) (omega arith) in
    (
      msg',
      rw (le→ltb addrlen 16 big) e,
      find_inet_of_found msg' type p buflen room (w.found ∙ rw field refl)
            (rw w.bytes (omega (arith, stored-family port p m (bytes32 addr) 1)))
          ∙ rw w.bytes (
              ap₂ (λ (a b : ℕ). (success, some (inet a b), 16))
                (stored-port port p m (bytes32 addr) 1 small_port)
                (stored-addr32 port p m addr small_addr)),
      w.header_kept,
    )

append_inet6 :
    (msg : StunMessage) (attrs : List Attr) (type port : ℕ) (addr : List ℕ) (addrlen buflen : ℕ)
    → CanTake msg attrs type 20
    → IsAddr (inet6 port addr)
    → 28 ≤ addrlen
    → 28 ≤ buflen
    → (msg' : StunMessage) × (stun_message_append_addr msg type (inet6 port addr) addrlen
        ≡ (success, msg'))
      × (stun_message_find_addr msg' type buflen ≡ (success, some (inet6 port addr), 28))
      × Agree msg.buffer msg'.buffer 4 20
unfolding stun_message_append_addr
append_inet6 msg attrs type port addr addrlen buflen can (small_port, sixteen, small) big room =
    let p = stun_message_length msg + 4 in
    let m = append_buffer msg type 20 (stun_message_length msg) in
    let (msg', e, w) =
      append_with-IsWritten msg attrs type 20 (store_address 2 port addr) can
        (λ ptr m q h. store_address-local port ptr m addr 2 q (omega arith)) in
    let field = length_field_of_quad msg 20 (omega arith) (omega arith) in
    (
      msg',
      rw (le→ltb addrlen 16 (omega arith), le→ltb addrlen 28 big) e,
      find_inet6_of_found msg' type p buflen room (w.found ∙ rw field refl)
            (rw w.bytes (omega (arith, stored-family port p m addr 2)))
          ∙ rw w.bytes (
              ap₂ (λ (a : ℕ) (b : List ℕ). (success, some (inet6 a b), 28))
                (stored-port port p m addr 2 small_port)
                (ap (load_bytes (store_address 2 port addr p m) (p + 4)) (sym sixteen)
                  ∙ stored-addr port p m addr 2 small)),
      w.header_kept,
    )

-- An address that was appended is found, with the size of its structure; the transaction id is as it
-- was.
pub find_addr-append_addr :
    (msg : StunMessage) (attrs : List Attr) (type : ℕ) (addr : SockAddr) (addrlen buflen : ℕ)
    → CanTake msg attrs type (value_size addr)
    → IsAddr addr
    → sizeof_addr addr ≤ addrlen
    → sizeof_addr addr ≤ buflen
    → (msg' : StunMessage) × (stun_message_append_addr msg type addr addrlen ≡ (success, msg'))
      × (stun_message_find_addr msg' type buflen ≡ (success, some addr, sizeof_addr addr))
      × Agree msg.buffer msg'.buffer 4 20
find_addr-append_addr msg attrs type (inet port addr) addrlen buflen can fits big room =
    append_inet msg attrs type port addr addrlen buflen can fits big room
find_addr-append_addr msg attrs type (inet6 port addr) addrlen buflen can fits big room =
    append_inet6 msg attrs type port addr addrlen buflen can fits big room
find_addr-append_addr msg attrs type other_family addrlen buflen can fits big room = absurd fits
