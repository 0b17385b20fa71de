-- ===== src/Stun/Constants/Method.antt =====
-- The methods of stun/stunmessage.h, `StunMethod`.
use libxice.Base.{ℕ}

abbrev pub binding : ℕ
binding = 0x001

abbrev pub shared_secret : ℕ
shared_secret = 0x002

abbrev pub allocate : ℕ
allocate = 0x003

abbrev pub set_active_dst : ℕ
set_active_dst = 0x004

abbrev pub refresh : ℕ
refresh = 0x004

abbrev pub send : ℕ
send = 0x004

abbrev pub connect : ℕ
connect = 0x005

abbrev pub old_set_active_dst : ℕ
old_set_active_dst = 0x006

abbrev pub ind_send : ℕ
ind_send = 0x006

abbrev pub ind_data : ℕ
ind_data = 0x007

abbrev pub ind_connect_status : ℕ
ind_connect_status = 0x008

abbrev pub createpermission : ℕ
createpermission = 0x008

abbrev pub channelbind : ℕ
channelbind = 0x009
