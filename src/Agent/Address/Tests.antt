-- ===== src/Agent/Address/Tests.antt =====
-- Addresses on which the functions of agent/address.c are run.
use libxice.Base.{ℕ, ◌≡◌, inr, refl, arith}
use libxice.Base.{true, false, Option, none, some, List, [], ◌∷◌}
use libxice.Agent.Address.{XiceAddress, unspec, ip4, ip6, xice_address_init, xice_address_set_ipv4}
use libxice.Agent.Address.{xice_address_set_ipv6, xice_address_set_port, xice_address_get_port}
use libxice.Agent.Address.{xice_address_set_from_string, xice_address_set_from_sockaddr}
use libxice.Agent.Address.{xice_address_copy_to_sockaddr}
use libxice.Agent.Address.{ipv6_address_is_private, xice_address_is_private}
use libxice.Agent.Address.{xice_address_ip_version, loopback6}
use libxice.Agent.Address.Private.{ipv6_address_is_private_iff}

abbrev home : XiceAddress
home = ip4 3478 0xc0a80001

-- A string of one byte is an IPv4 address, and no string is an IPv6 address.
abbrev pton4 : List ℕ → Option ℕ
pton4 [] = none
pton4 (b ∷ bytes) = some b

abbrev pton6 : List ℕ → Option (List ℕ)
pton6 str = none

string_test :
    (xice_address_set_from_string pton4 pton6 home (7 ∷ []) ≡ (true, ip4 0 7))
    × (xice_address_set_from_string pton4 pton6 home [] ≡ (false, home))
unfolding xice_address_set_from_string xice_address_set_ipv4 xice_address_set_ipv6
string_test = (refl, refl)

port_test :
    (xice_address_set_port (xice_address_set_ipv4 0xc0a80001) 3478 ≡ home)
    × (xice_address_get_port (some (xice_address_set_port home 65543)) ≡ 7)
unfolding xice_address_get_port xice_address_set_port xice_address_set_ipv4
port_test = (refl, refl)

sockaddr_test :
    xice_address_set_from_sockaddr xice_address_init (xice_address_copy_to_sockaddr home unspec)
    ≡ home
unfolding xice_address_set_from_sockaddr xice_address_init xice_address_copy_to_sockaddr
sockaddr_test = refl

version_test :
    (xice_address_ip_version (ip6 1 loopback6 0) ≡ 6)
    × (xice_address_is_private (ip6 1 loopback6 0) ≡ true)
unfolding xice_address_ip_version xice_address_is_private
version_test = (refl, refl)

ipv6_address_is_private_iff_example : ipv6_address_is_private loopback6 ≡ true
ipv6_address_is_private_iff_example =
    (ipv6_address_is_private_iff loopback6 (omega arith)).1 (inr refl)
