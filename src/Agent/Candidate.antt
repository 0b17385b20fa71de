-- ===== src/Agent/Candidate.antt =====
-- agent/candidate.c: the priorities of candidates and of pairs, and the copy of a candidate.
mod Tests
pub mod Priority
use libxice.Base.{ℕ, ◌+◌, ◌-◌, ◌*◌, ◌%◌, ◌^◌, Option, none, List, [], ltb, if◌then◌else◌}
use libxice.Agent.Address.{XiceAddress, xice_address_init}

-- `XiceCandidateType`
pub data XiceCandidateType : Type 0 where
  host server_reflexive peer_reflexive relayed : XiceCandidateType

-- `XiceCandidateTransport`
pub data XiceCandidateTransport : Type 0 where
  udp : XiceCandidateTransport

-- `XiceRelayType`
pub data XiceRelayType : Type 0 where
  turn_udp turn_tcp turn_tls : XiceRelayType

-- `struct _TurnServer`
pub record TurnServer : Type 0 where
  pub server : XiceAddress
  pub username : List ℕ
  pub password : List ℕ
  pub type : XiceRelayType

-- `struct _XiceCandidate`. A string is its bytes before the terminating 0, a NULL string is `none`;
-- `sockptr` is the socket's address, 0 for NULL.
pub record XiceCandidate : Type 0 where
  pub type : XiceCandidateType
  pub transport : XiceCandidateTransport
  pub addr : XiceAddress
  pub base_addr : XiceAddress
  pub priority : ℕ
  pub stream_id : ℕ
  pub component_id : ℕ
  pub foundation : List ℕ
  pub username : Option (List ℕ)
  pub password : Option (List ℕ)
  pub turn : Option TurnServer
  pub sockptr : ℕ

abbrev pub candidate_type_pref_host : ℕ
candidate_type_pref_host = 120

abbrev pub candidate_type_pref_peer_reflexive : ℕ
candidate_type_pref_peer_reflexive = 110

abbrev pub candidate_type_pref_server_reflexive : ℕ
candidate_type_pref_server_reflexive = 100

abbrev pub candidate_type_pref_relayed : ℕ
candidate_type_pref_relayed = 60

pub xice_candidate_jingle_priority : XiceCandidate → ℕ
xice_candidate_jingle_priority candidate = elim candidate.type [
  | host ↦ 1000
  | server_reflexive ↦ 900
  | peer_reflexive ↦ 900
  | relayed ↦ 500
]

pub xice_candidate_msn_priority : XiceCandidate → ℕ
xice_candidate_msn_priority candidate = elim candidate.type [
  | host ↦ 830
  | server_reflexive ↦ 550
  | peer_reflexive ↦ 550
  | relayed ↦ 450
]

-- Arithmetic of unsigned int: `0x100 - component_id` wraps.
pub xice_candidate_ice_priority_full : ℕ → ℕ → ℕ → ℕ
xice_candidate_ice_priority_full type_preference local_preference component_id =
    (0x1000000 * type_preference
      + 0x100 * local_preference
      + (0x100 + 2 ^ 32 - component_id % 2 ^ 32))
    % 2 ^ 32

-- The value that the switch gives to `type_preference`.
abbrev pub type_preference_of : XiceCandidateType → ℕ
type_preference_of host = candidate_type_pref_host
type_preference_of peer_reflexive = candidate_type_pref_peer_reflexive
type_preference_of server_reflexive = candidate_type_pref_server_reflexive
type_preference_of relayed = candidate_type_pref_relayed

pub xice_candidate_ice_priority : XiceCandidate → ℕ
unfolding xice_candidate_ice_priority_full
xice_candidate_ice_priority candidate =
    xice_candidate_ice_priority_full (type_preference_of candidate.type) 1 candidate.component_id

-- `2 * max` is a product of 32-bit numbers, and wraps, before it is added to the 64-bit sum.
pub xice_candidate_pair_priority : ℕ → ℕ → ℕ
xice_candidate_pair_priority o_prio a_prio =
    let max = if ltb a_prio o_prio then o_prio else a_prio in
    let min = if ltb o_prio a_prio then o_prio else a_prio in
    (2 ^ 32 * min + 2 * max % 2 ^ 32 + (if ltb a_prio o_prio then 1 else 0)) % 2 ^ 64

-- `xice_candidate_new`: all but the type is zero.
pub xice_candidate_new : XiceCandidateType → XiceCandidate
xice_candidate_new type = record {
  type = type;
  transport = udp;
  addr = xice_address_init;
  base_addr = xice_address_init;
  priority = 0;
  stream_id = 0;
  component_id = 0;
  foundation = [];
  username = none;
  password = none;
  turn = none;
  sockptr = 0;
}
