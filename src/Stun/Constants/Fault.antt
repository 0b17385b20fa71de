-- ===== src/Stun/Constants/Fault.antt =====
-- The error codes of stun/stunmessage.h, `StunError`.
use libxice.Base.{ℕ}

abbrev pub try_alternate : ℕ
try_alternate = 300

abbrev pub bad_request : ℕ
bad_request = 400

abbrev pub unauthorized : ℕ
unauthorized = 401

abbrev pub unknown_attribute : ℕ
unknown_attribute = 420

abbrev pub allocation_mismatch : ℕ
allocation_mismatch = 437

abbrev pub stale_nonce : ℕ
stale_nonce = 438

abbrev pub act_dst_already : ℕ
act_dst_already = 439

abbrev pub unsupported_family : ℕ
unsupported_family = 440

abbrev pub wrong_credentials : ℕ
wrong_credentials = 441

abbrev pub unsupported_transport : ℕ
unsupported_transport = 442

abbrev pub invalid_ip : ℕ
invalid_ip = 443

abbrev pub invalid_port : ℕ
invalid_port = 444

abbrev pub op_tcp_only : ℕ
op_tcp_only = 445

abbrev pub conn_already : ℕ
conn_already = 446

abbrev pub allocation_quota_reached : ℕ
allocation_quota_reached = 486

abbrev pub role_conflict : ℕ
role_conflict = 487

abbrev pub server_error : ℕ
server_error = 500

abbrev pub server_capacity : ℕ
server_capacity = 507

abbrev pub insufficient_capacity : ℕ
insufficient_capacity = 508

abbrev pub max : ℕ
max = 699
