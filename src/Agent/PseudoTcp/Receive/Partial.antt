-- ===== src/Agent/PseudoTcp/Receive/Partial.antt =====
-- agent/pseudotcp.c: an acknowledgment that ends inside a segment.
use libxice.Base.{ℕ, ◌+◌, ◌-◌, ◌^◌, ◌≤◌, ◌<◌, ◌≡◌, refl, arith, List, ◌∷◌, ltb, ◌==◌, true, false}
use libxice.Agent.PseudoTcp.{PseudoTcpSocket, SSegment, Segment, done, snd_buf_size}
use libxice.Agent.PseudoTcp.U32.{sub32}
use libxice.Agent.PseudoTcp.Receive.{free_acked, acked}

-- The rest of the first segment keeps its old number, which is before that of the first byte of the
-- buffer: a retransmission reads it from an offset that wraps around, far behind the send buffer.
pub partial_ack :
    (s : PseudoTcpSocket) (seg : Segment) (now n largest : ℕ) (x : SSegment) (xs : List SSegment)
    → x.seq ≡ s.snd_una
    → 0 < n
    → n < x.len
    → x.len ≤ snd_buf_size
    → seg.ack ≡ s.snd_una + n
    → seg.ack < 2 ^ 32
    → let rest = record x { len = x.len - n } in
      (free_acked (x ∷ xs) (sub32 seg.ack s.snd_una) largest ≡ done (rest ∷ xs, largest))
      × (sub32 rest.seq (acked s seg now).snd_una ≡ 2 ^ 32 - n)
      × (snd_buf_size ≤ sub32 rest.seq (acked s seg now).snd_una)
unfolding free_acked
partial_ack s seg now n largest x xs first some_bytes inside whole ack small =
    let many : sub32 seg.ack s.snd_una ≡ n = omega arith in
    let more : (n == 0) ≡ false = ground arith in
    let part : ltb n x.len ≡ true = ground arith in
    let left : sub32 x.len n ≡ x.len - n = omega arith in
    (rw (many, more, part, left) refl, omega arith, omega arith)
