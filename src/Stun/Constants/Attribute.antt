-- ===== src/Stun/Constants/Attribute.antt =====
-- The attribute types of stun/stunmessage.h, `StunAttribute`.
use libxice.Base.{ℕ, List, [], ◌∷◌}

abbrev pub mapped_address : ℕ
mapped_address = 0x0001

abbrev pub response_address : ℕ
response_address = 0x0002

abbrev pub change_request : ℕ
change_request = 0x0003

abbrev pub source_address : ℕ
source_address = 0x0004

abbrev pub changed_address : ℕ
changed_address = 0x0005

abbrev pub username : ℕ
username = 0x0006

abbrev pub password : ℕ
password = 0x0007

abbrev pub message_integrity : ℕ
message_integrity = 0x0008

abbrev pub error_code : ℕ
error_code = 0x0009

abbrev pub unknown_attributes : ℕ
unknown_attributes = 0x000A

abbrev pub reflected_from : ℕ
reflected_from = 0x000B

abbrev pub channel_number : ℕ
channel_number = 0x000C

abbrev pub lifetime : ℕ
lifetime = 0x000D

abbrev pub ms_alternate_server : ℕ
ms_alternate_server = 0x000E

abbrev pub magic_cookie : ℕ
magic_cookie = 0x000F

abbrev pub bandwidth : ℕ
bandwidth = 0x0010

abbrev pub destination_address : ℕ
destination_address = 0x0011

abbrev pub remote_address : ℕ
remote_address = 0x0012

abbrev pub peer_address : ℕ
peer_address = 0x0012

abbrev pub xor_peer_address : ℕ
xor_peer_address = 0x0012

abbrev pub data_attribute : ℕ
data_attribute = 0x0013

abbrev pub realm : ℕ
realm = 0x0014

abbrev pub nonce : ℕ
nonce = 0x0015

abbrev pub relay_address : ℕ
relay_address = 0x0016

abbrev pub relayed_address : ℕ
relayed_address = 0x0016

abbrev pub xor_relayed_address : ℕ
xor_relayed_address = 0x0016

abbrev pub requested_address_type : ℕ
requested_address_type = 0x0017

abbrev pub requested_port_props : ℕ
requested_port_props = 0x0018

abbrev pub requested_props : ℕ
requested_props = 0x0018

abbrev pub even_port : ℕ
even_port = 0x0018

abbrev pub requested_transport : ℕ
requested_transport = 0x0019

abbrev pub dont_fragment : ℕ
dont_fragment = 0x001A

abbrev pub xor_mapped_address : ℕ
xor_mapped_address = 0x0020

abbrev pub timer_val : ℕ
timer_val = 0x0021

abbrev pub requested_ip : ℕ
requested_ip = 0x0022

abbrev pub reservation_token : ℕ
reservation_token = 0x0022

abbrev pub connect_stat : ℕ
connect_stat = 0x0023

abbrev pub priority : ℕ
priority = 0x0024

abbrev pub use_candidate : ℕ
use_candidate = 0x0025

abbrev pub options : ℕ
options = 0x8001

abbrev pub ms_version : ℕ
ms_version = 0x8008

abbrev pub software : ℕ
software = 0x8022

abbrev pub alternate_server : ℕ
alternate_server = 0x8023

abbrev pub fingerprint : ℕ
fingerprint = 0x8028

abbrev pub ice_controlled : ℕ
ice_controlled = 0x8029

abbrev pub ice_controlling : ℕ
ice_controlling = 0x802A

abbrev pub ms_sequence_number : ℕ
ms_sequence_number = 0x8050

abbrev pub candidate_identifier : ℕ
candidate_identifier = 0x8054

-- STUN_ALL_KNOWN_ATTRIBUTES, up to its terminating 0
abbrev pub all_known_attributes : List ℕ
all_known_attributes =
    mapped_address ∷ response_address ∷ change_request ∷ source_address ∷ changed_address ∷ username
    ∷ password ∷ message_integrity ∷ error_code ∷ unknown_attributes ∷ reflected_from
    ∷ channel_number ∷ lifetime ∷ magic_cookie ∷ bandwidth ∷ destination_address ∷ remote_address
    ∷ peer_address ∷ xor_peer_address ∷ data_attribute ∷ realm ∷ nonce ∷ relay_address
    ∷ relayed_address ∷ xor_relayed_address ∷ requested_address_type ∷ requested_port_props
    ∷ requested_props ∷ even_port ∷ requested_transport ∷ dont_fragment ∷ xor_mapped_address
    ∷ timer_val ∷ requested_ip ∷ reservation_token ∷ connect_stat ∷ priority ∷ use_candidate ∷ []

-- STUN_MSOC_KNOWN_ATTRIBUTES, up to its terminating 0
abbrev pub msoc_known_attributes : List ℕ
msoc_known_attributes =
    mapped_address ∷ username ∷ message_integrity ∷ error_code ∷ unknown_attributes ∷ lifetime
    ∷ ms_alternate_server ∷ magic_cookie ∷ bandwidth ∷ destination_address ∷ remote_address
    ∷ data_attribute ∷ nonce ∷ realm ∷ []
