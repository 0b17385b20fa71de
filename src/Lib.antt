-- ===== src/Lib.antt =====
-- libxice: STUN messages, the STUN agent and its timer, pseudo-TCP, and the check list, addresses and
-- priorities of ICE.
--
-- libxice is an implementation of ICE in C. Its lowest layer, stun/, reads and writes STUN messages in
-- a buffer that the caller owns (stun/stunmessage.c with stun/utils.c), authenticates them
-- (stun/stunhmac.c, stun/stuncrc32.c, stun/stun5389.c), matches responses with the requests that wait
-- for them (stun/stunagent.c), times retransmissions (stun/usages/timer.c), and makes and answers
-- connectivity checks (stun/usages/ice.c), binding requests (stun/usages/bind.c) and the requests to a relay
-- (stun/usages/turn.c). The ICE agent (agent/) calls it for every packet,
-- orders candidates and pairs by their priorities (agent/candidate.c), and carries a reliable stream
-- over datagrams by a TCP of its own (agent/pseudotcp.c). The list of the connectivity checks
-- (agent/conncheck.c) has a pair of candidates for each check, with its state and priority.
--
-- Files, and what they model:
--   Base                     lists, Boolean tests, binary digits, and memory as a function from
--                            offsets to numbers, of which a byte is read modulo 256
--   Stun/Constants, Types    stun/constants.h, the enumerations and structures of stun/stunmessage.h
--                            and stun/stunagent.h
--   Stun/Utils               stun/utils.c
--   Stun/Message             the header of a message and `stun_message_find` of stun/stunmessage.c; below
--                            it Append, Typed, Phrase and Validate are the rest of that file, and
--                            Layout describes a message as a list of attributes. The other modules
--                            are proofs: Chain, Search, Extend, Appended and Written on that list,
--                            Accept and Overrun on the validation, Init and the four Trip modules on
--                            what is read back after a write
--   Stun/Hmac, Stun/Crc      stun/stunhmac.c, stun/stuncrc32.c and the fingerprint of stun/stun5389.c;
--                            Stun/Crc/Serial has the bit-serial reference
--   Stun/Agent               stun/stunagent.c: the agent itself, Receive and Validate with the steps of
--                            `stun_agent_validate` from the first to the last, Send and Finish with
--                            the functions that set up and finish a message. Proofs: Accepted,
--                            Transactions, Authentic, Matching and Verdict on the validation, Forget and
--                            Unknowns on the functions of these names, Signed, Fingerprint, Grown, Ended
--                            and Saved on finishing
--   Stun/Timer               stun/usages/timer.c; Remainder, Schedule and Timeout are proofs
--   Stun/Ice                 stun/usages/ice.c, with Process for its last functions; Role has the proofs on
--                            the role conflict
--   Stun/Bind, Stun/Turn     stun/usages/bind.c and stun/usages/turn.c; Turn/Process has the answers of a relay,
--                            and Process/Addresses and Process/Stored the proofs on them
--   Agent/Address            agent/address.c
--   Agent/Candidate          agent/candidate.c
--   Agent/CheckList          the check list of agent/conncheck.c: its pairs and streams, the next waiting check,
--                            and unfreezing; Update has the pruning and the states of components with
--                            their signal (agent/agent.c), Roles the limit, the priorities after a role
--                            conflict and peer reflexive pairs. Frozen, Ready, Ready/Signal,
--                            Roles/Current and Roles/Flaws are proofs
--   Agent/PseudoTcp          the constants and the state of agent/pseudotcp.c; below it U32 and Clock
--                            (numbers of 32 bits and the clock), Send (from `queue` and `packet` to
--                            `attempt_send`), Store (the receive window), Receive (`parse` and `process`)
--                            and Socket (the functions that the application calls). States has the
--                            arrows of the connection states. Proofs: Send/Keeps and Send/Ends on
--                            the sending loop; Store/Stream, Store/Deliver, Receive/InOrder and
--                            Socket/Session on the received stream; Receive/Moves and Socket/Calls on the
--                            states; the Frame modules on what an operation leaves alone; Wire, Short
--                            and Partial on the format and on acknowledgments; Clock/Diff on wrapping times
-- Tests and runs at fixed inputs stand in modules called Tests, SendTests or SessionTests.
--
-- How code and model correspond. A C function keeps its name. A pointer into a buffer is an offset in
-- the memory of the message, and a function that writes returns the new message; there is no end of a
-- memory, so that an access behind a buffer can be stated. A buffer and its length that are passed
-- together (keys, strings, ids) are one list of bytes. NULL is `none`. size_t is taken modulo 2 ^ 64
-- where the code can wrap, uint16_t and unsigned int are taken modulo 2 ^ 16 and 2 ^ 32 where it
-- stores or adds. Numbers in network order are the numbers that their bytes make. The steps of
-- `stun_agent_validate` and `stun_agent_finish_message` are functions of their own, each with the rest
-- of the C function as its continuation.
--
-- A pseudo-TCP socket is the record of its C structure with its surroundings: the readings of the clock,
-- the results of WritePacket, and the list of the calls of the callbacks, which are there and do not call
-- the socket again. Its functions give a `Run`: `aborted` for a failed assertion, a read through NULL or
-- a division by zero, and `starved` if the fuel of a loop ran out. `process` is cut into the steps of
-- its text, from the acknowledgment to the data, each a function of its own.
--
-- The check list. A candidate or a component that the code points at is its value, since these functions do
-- not change it except for the state of a component; a stream that is passed is the one that
-- `agent_find_stream` gives for its identifier, and exists. A pair is named by its position in the list.
--
-- Fuel. The loops over attributes (`find_loop`, `validate_loop`, `unknowns_loop`) have as many rounds as
-- the message has bytes: each round moves on by four bytes at least, if attributes are aligned or the
-- remaining length does not wrap. `carry` has one round for each million of microseconds.
-- `send_loop` has one for each byte that was not sent, and one for each segment of them: a round sends
-- at least one byte, or ends the loop.
--
-- Not modelled here. HMAC-SHA1 and MD5 (stun/sha1.c, stun/md5.c, from other projects) are the record
-- `Crypto`, with the size of a hash as its law. Transaction ids come from stun/rand.c and are
-- arguments; so are the readings of the clock, PACKAGE_STRING and `inet_pton`. Debug output, memory
-- management, GObject properties and `xice_address_to_string` are left out. Of
-- agent/conncheck.c, agent/agent.c, agent/component.c and agent/stream.c only what Agent/CheckList names is
-- modelled: the sending of checks, the handling of packets and the timers are not. agent/discovery.c,
-- agent/interfaces.c, the blocking run of
-- stun/usages/bind.c, socket/, contexts/ and random/, which drive sockets and
-- timers, are left out.
pub mod Base
pub mod Stun
pub mod Agent
