-- ===== src/Agent/PseudoTcp/Receive/Wire.antt =====
-- agent/pseudotcp.c: a packet is read as it was written, and what a packet can do that was not.
use libxice.Base.{
  ℕ, suc, ◌++◌, ◌+◌, ◌-◌, ◌*◌, ◌/◌, ◌%◌, ◌^◌, ◌≤◌, ◌<◌, ◌≡◌, refl, ap, ◌∙◌, Bool, true, false,
}
use libxice.Base.{arith, List, [], ◌∷◌, length, ltb, leb, ◌==◌, get_or}
use libxice.Base.{◌&&◌}
use libxice.Base.Memory.{from_bytes}
use libxice.Agent.PseudoTcp.{PseudoTcpSocket, Segment, aborted, header_size}
use libxice.Agent.PseudoTcp.U32.{negsuc}
use libxice.Agent.PseudoTcp.Clock.{time_diff}
use libxice.Agent.PseudoTcp.Clock.Diff.{time_diff_lem}
use libxice.Agent.PseudoTcp.Send.{packet_bytes}
use libxice.Agent.PseudoTcp.Receive.{segment_of, handle_ack, new_ack}
use libxice.Agent.PseudoTcp.Receive.{measure_rtt}

four_bytes :
    (v : ℕ)
    → v < 2 ^ 32
    → (v / 2 ^ 24 % 2 ^ 8 % 2 ^ 8) * 2 ^ 24
        + (v / 2 ^ 16 % 2 ^ 8 % 2 ^ 8) * 2 ^ 16
        + (v / 2 ^ 8 % 2 ^ 8 % 2 ^ 8) * 2 ^ 8
        + v % 2 ^ 8 % 2 ^ 8
      ≡ v
four_bytes v small = omega arith

behind_header :
    (header body : List ℕ) (i : ℕ)
    → from_bytes (header ++ body) (length header + i) ≡ from_bytes body i
behind_header [] body i = ap (λ (j : ℕ). get_or body j 0) (omega arith)
behind_header (x ∷ xs) body i =
    let next : suc (length xs) + i ≡ suc (length xs + i) = omega arith in
    ap (λ (j : ℕ). get_or (x ∷ xs ++ body) j 0) next ∙ behind_header xs body i

-- The receiver of a packet reads the segment that the sender wrote, if the numbers are of their widths.
pub segment_of-packet_bytes :
    (s : PseudoTcpSocket) (seq flags now : ℕ) (body : List ℕ)
    → s.conv < 2 ^ 32
    → seq < 2 ^ 32
    → s.rcv_nxt < 2 ^ 32
    → flags < 2 ^ 8
    → s.rcv_wnd < 2 ^ 16
    → now < 2 ^ 32
    → s.ts_recent < 2 ^ 32
    → header_size + length body < 2 ^ 32
    → let seg =
        segment_of (from_bytes (packet_bytes s seq flags body now)) (header_size + length body) in
      (seg.conv ≡ s.conv)
      × (seg.seq ≡ seq)
      × (seg.ack ≡ s.rcv_nxt)
      × (seg.flags ≡ flags)
      × (seg.wnd ≡ s.rcv_wnd)
      × (seg.tsval ≡ now)
      × (seg.tsecr ≡ s.ts_recent)
      × (seg.len ≡ length body)
      × ((i : ℕ) → seg.payload i ≡ from_bytes body i)
segment_of-packet_bytes s seq flags now body conv seq' nxt flags' wnd now' recent small = (
  four_bytes s.conv conv,
  four_bytes seq seq',
  four_bytes s.rcv_nxt nxt,
  omega arith,
  omega arith,
  four_bytes now now',
  four_bytes s.ts_recent recent,
  omega arith,
  behind_header (packet_bytes s seq flags [] now) body,
)

-- A valuable acknowledgment of a packet with a time stamp after the present moment aborts the
-- program: the difference is asserted not to be negative, but the peer chooses the stamp.
pub future_stamp :
    (s : PseudoTcpSocket) (seg : Segment) (connect : Bool) (now ahead : ℕ)
    → s.snd_una < seg.ack
    → seg.ack ≤ s.snd_nxt
    → 0 < ahead
    → ahead < 2 ^ 31
    → seg.tsecr ≡ (now + ahead) % 2 ^ 32
    → 0 < seg.tsecr
    → handle_ack s seg connect (now % 2 ^ 32) ≡ aborted
unfolding handle_ack new_ack measure_rtt
future_stamp s seg connect now ahead new known later near stamp given =
    let valuable : (ltb s.snd_una seg.ack && leb seg.ack s.snd_nxt) ≡ true = ground arith in
    let stamped : (seg.tsecr == 0) ≡ false = ground arith in
    let negative : time_diff (now % 2 ^ 32) seg.tsecr ≡ negsuc (ahead - 1) =
      rw stamp (time_diff_lem now ahead later near).1 in
    rw (valuable, stamped, negative) refl
