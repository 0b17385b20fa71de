-- ===== src/Stun/Message/Overrun.antt =====
-- stun/stunmessage.c: the validation of messages without alignment.
use libxice.Base.{ℕ}
use libxice.Base.{ltb, if◌then◌else◌}
use libxice.Base.Memory.{Memory}

-- A memory with the first `n` bytes of `m`, and with `b` everywhere behind them.
abbrev pub followed_by : Memory → ℕ → ℕ → Memory
followed_by m n b i = if ltb i n then m i else b
