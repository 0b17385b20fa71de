-- ===== src/Agent/PseudoTcp/Store/Deliver.antt =====
-- agent/pseudotcp.c: what `process` does with the data of a segment, and what a reader gets.
use libxice.Base.{ℕ, ◌+◌, ◌-◌, ◌^◌, ◌≤◌, ◌<◌, ◌≡◌, refl, ap, ◌∙◌, true, false}
use libxice.Base.{
  Bool-cases, inl, inr, arith, List, [], ◌∷◌, All, ltb, leb, ◌==◌, ◌⊎◌, ltb→lt, if◌then◌else◌,
}
use libxice.Base.Memory.{Memory, load_bytes}
use libxice.Base.Memory.Laws.{load_bytes-Agree}
use libxice.Agent.PseudoTcp.{
  PseudoTcpSocket, Segment, RSegment, SendFlags, sf_immediate_ack, rcv_buf_size,
}
use libxice.Agent.PseudoTcp.U32.{sub32, add32}
use libxice.Agent.PseudoTcp.Store.{
  cut_front, cut_back, recover_early, insert_early, stored, advance,
}
use libxice.Agent.PseudoTcp.Store.{store_data, receive_data, is_ignored, read_bytes}
use libxice.Agent.PseudoTcp.Store.{ack_flags, reaches}
use libxice.Agent.PseudoTcp.Store.Stream.{Right, IsEarly, Holds, Carries, IsCut, cut_front-Carries}
use libxice.Agent.PseudoTcp.Store.Stream.{cut_back-Carries, stored-Right, stored_new-Right}
use libxice.Agent.PseudoTcp.Store.Stream.{early-stored, insert_early-All, kept_length_lem}

module _ (stream : ℕ → ℕ) where
  -- The state but for the list of the early segments.
  abbrev HoldsBut : ℕ → PseudoTcpSocket → List RSegment → Type 0
  HoldsBut base s xs = Holds stream base (record s { rlist = xs })

  advance-Holds :
      (base : ℕ) (s : PseudoTcpSocket) (xs : List RSegment) (n : ℕ)
      → HoldsBut base s xs
      → s.rlen + n ≤ rcv_buf_size
      → s.rcv_nxt + n < 2 ^ 32
      → Right stream base s.rbuf s.rcv_nxt (s.rcv_nxt + n)
      → HoldsBut base (advance s n) xs
  advance-Holds base s xs n h room no_wrap right = record {
    at = let e = h.at in omega arith;
    fits = omega arith;
    small = omega arith;
    read = λ p from lo below. elim (Bool-cases (ltb p s.rcv_nxt)) [
      | inl old ↦ h.read p from lo (ltb→lt p s.rcv_nxt old)
      | inr new ↦ right p from (ground (arith, new)) (omega arith)
    ];
    early = h.early;
  }

  behind-Holds :
      (base : ℕ) (s : PseudoTcpSocket) (x : RSegment) (xs : List RSegment)
      → HoldsBut base s (x ∷ xs)
      → HoldsBut base s xs
  behind-Holds base s x xs h = record {
    at = h.at;
    fits = h.fits;
    small = h.small;
    read = h.read;
    early = h.early.1;
  }

  recovered-Holds :
      (base : ℕ) (s : PseudoTcpSocket) (x : RSegment) (xs : List RSegment)
      → HoldsBut base s (x ∷ xs)
      → leb x.seq s.rcv_nxt ≡ true
      → reaches s x ≡ true
      → let n = sub32 (add32 x.seq x.len) s.rcv_nxt in
        HoldsBut base (advance s n) xs × (s.rcv_nxt ≤ (advance s n).rcv_nxt)
  recovered-Holds base s x xs h next new =
      let (inside, no_wrap, right) = h.early.0 in
      let n = sub32 (add32 x.seq x.len) s.rcv_nxt in
      let at = h.at in
      let small = h.small in
      let end : s.rcv_nxt + n ≡ x.seq + x.len = ground (arith, new) in
      (
        advance-Holds base s xs n (behind-Holds base s x xs h) (omega arith) (omega arith)
            (λ p from lo below. right p from (ground (arith, next, lo)) (omega arith)),
        omega arith,
      )

  recover_early-Holds :
      (base : ℕ) (xs : List RSegment) (s : PseudoTcpSocket) (sflags : SendFlags)
      → HoldsBut base s xs
      → Holds stream base (recover_early xs s sflags).0
        × (s.rcv_nxt ≤ (recover_early xs s sflags).0.rcv_nxt)
  unfolding recover_early
  recover_early-Holds base [] s sflags h = (h, omega arith)
  recover_early-Holds base (x ∷ xs) s sflags h = elim (Bool-cases (leb x.seq s.rcv_nxt)) [
    | inr later ↦ rw later (h, omega arith)
    | inl next ↦ elim (Bool-cases (reaches s x)) [
      | inr old ↦ rw (next, old) (recover_early-Holds base xs s sflags (behind-Holds base s x xs h))
      | inl new ↦
          let n = sub32 (add32 x.seq x.len) s.rcv_nxt in
          let (held, more) = recovered-Holds base s x xs h next new in
          let (held', more') = recover_early-Holds base xs (advance s n) sf_immediate_ack held in
          rw (next, new) (held', omega arith)
    ]
  ]

  gap-Holds :
      (base : ℕ) (s : PseudoTcpSocket) (seg : Segment)
      → Holds stream base s
      → Carries stream seg
      → s.rcv_nxt ≤ seg.seq
      → seg.seq + seg.len ≤ base + rcv_buf_size
      → Holds stream base (record (stored s seg) {
        rlist = insert_early (record { seq = seg.seq; len = seg.len }) s.rlist;
      })
  gap-Holds base s seg h c after within = record {
    at = h.at;
    fits = h.fits;
    small = h.small;
    read = stored-Right stream base s seg base s.rcv_nxt h c after h.read;
    early =
        insert_early-All stream base (stored s seg).rbuf (record { seq = seg.seq; len = seg.len })
          s.rlist (within, c.no_wrap, stored_new-Right stream base s seg h c after)
          (early-stored stream base s seg s.rlist h c after h.early);
  }

  next-Holds :
      (base : ℕ) (s : PseudoTcpSocket) (seg : Segment)
      → Holds stream base s
      → Carries stream seg
      → seg.seq ≡ s.rcv_nxt
      → seg.seq + seg.len ≤ base + rcv_buf_size
      → HoldsBut base (advance (stored s seg) seg.len) s.rlist
  next-Holds base s seg h c next within =
      let after : s.rcv_nxt ≤ seg.seq = omega arith in
      let at = h.at in
      let w = c.no_wrap in
      advance-Holds base (stored s seg) s.rlist seg.len
        (record {
          at = h.at;
          fits = h.fits;
          small = h.small;
          read = stored-Right stream base s seg base s.rcv_nxt h c after h.read;
          early = early-stored stream base s seg s.rlist h c after h.early;
        })
        (omega arith) (omega arith)
        (λ p from lo below.
          stored_new-Right stream base s seg h c after p from (omega arith) (omega arith))

  -- The data of a segment that was cut.
  store_data-Holds :
      (base : ℕ) (s : PseudoTcpSocket) (seg : Segment) (sflags : SendFlags)
      → Holds stream base s
      → Carries stream seg
      → IsCut stream base s seg
      → is_ignored s seg ≡ false
      → Holds stream base (store_data s seg sflags).0
        × (s.rcv_nxt ≤ (store_data s seg sflags).0.rcv_nxt)
        × (seg.seq ≡ s.rcv_nxt → seg.seq + seg.len ≤ (store_data s seg sflags).0.rcv_nxt)
  unfolding store_data
  store_data-Holds base s seg sflags h c (inl empty) taken =
      rw empty (h, omega arith, λ e. omega arith)
  store_data-Holds base s seg sflags h c (inr (after, within)) taken =
      elim (Bool-cases (seg.len == 0)) [
        | inl empty ↦ rw empty (h, omega arith, λ e. ground (arith, empty))
        | inr bytes ↦ elim (Bool-cases (seg.seq == s.rcv_nxt)) [
          | inr gap ↦
              rw (bytes, taken, gap)
                (
                  gap-Holds base s seg h c after within,
                  omega arith,
                  λ e. absurd (ground (arith, gap)),
                )
          | inl next ↦
              let same : seg.seq ≡ s.rcv_nxt = ground (arith, next) in
              let w = c.no_wrap in
              let (held, more) =
                recover_early-Holds base s.rlist (advance (stored s seg) seg.len) sflags
                  (next-Holds base s seg h c same within) in
              rw (bytes, taken, next) (held, omega arith, λ e. omega arith)
        ]
      ]

  -- What is left of a segment that begins in what was received.
  front_first :
      (s : PseudoTcpSocket) (seg : Segment)
      → Carries stream seg
      → seg.seq ≤ s.rcv_nxt
      → (seg.seq + seg.len ≤ s.rcv_nxt)
        ⊎ (((cut_front s seg).seq ≡ s.rcv_nxt)
            × ((cut_front s seg).seq + (cut_front s seg).len ≡ seg.seq + seg.len))
  unfolding cut_front
  front_first s seg c first =
      let w = c.no_wrap in
      elim (Bool-cases (ltb seg.seq s.rcv_nxt)) [
        | inr new ↦ inr (rw new (ground (arith, new, first), refl))
        | inl old ↦ elim (Bool-cases (ltb (s.rcv_nxt - seg.seq) seg.len)) [
          | inl some_new ↦ inr (
              rw (old, some_new)
                (ground (arith, old, some_new, w), ground (arith, old, some_new, w)))
          | inr all_old ↦ inl (ground (arith, old, all_old))
        ]
      ]

  back_first :
      (base : ℕ) (s : PseudoTcpSocket) (seg : Segment)
      → Holds stream base s
      → Carries stream seg
      → seg.seq ≡ s.rcv_nxt
      → ((cut_back s seg).seq + (cut_back s seg).len ≡ seg.seq + seg.len)
        ⊎ ((cut_back s seg).seq + (cut_back s seg).len ≡ base + rcv_buf_size)
  unfolding cut_back
  back_first base s seg h c first =
      let at = h.at in
      let fits = h.fits in
      let (shorter, within, whole, full) =
        kept_length_lem base seg.seq seg.len s.rlen s.rcv_nxt h.at h.fits h.small c.no_wrap
          (inr (omega arith)) in
      elim (Bool-cases (leb (seg.seq + seg.len) (base + rcv_buf_size))) [
        | inl room ↦ inl (omega (arith, whole (omega arith) (ground (arith, room))))
        | inr long ↦ inr (full (omega arith) (omega arith) (ground (arith, long)))
      ]

  back_seq : (s : PseudoTcpSocket) (seg : Segment) → (cut_back s seg).seq ≡ seg.seq
  unfolding cut_back
  back_seq s seg = refl

  -- A segment of the stream: the buffer still holds the stream, what was received is kept, and all of
  -- the segment that follows at once and has room can be read.
  pub receive_data-Holds :
      (base : ℕ) (s : PseudoTcpSocket) (seg : Segment)
      → Holds stream base s
      → Carries stream seg
      → is_ignored s seg ≡ false
      → let s' = (receive_data s seg).0 in
        Holds stream base s'
        × (s.rcv_nxt ≤ s'.rcv_nxt)
        × (seg.seq ≤ s.rcv_nxt
            → (seg.seq + seg.len ≤ s'.rcv_nxt) ⊎ (base + rcv_buf_size ≤ s'.rcv_nxt))
  unfolding receive_data
  receive_data-Holds base s seg h c taken =
      let front = cut_front s seg in
      let (c', after, same) = cut_front-Carries stream s seg c in
      let (c'', within, same') = cut_back-Carries stream base s front h c' after in
      let (held, more, all) =
        store_data-Holds base s (cut_back s front) (ack_flags s seg) h c'' within
          (same' ∙ same ∙ taken) in
      (
        held,
        more,
        λ first. elim (front_first s seg c first) [
          | inl old ↦ inl (omega arith)
          | inr (start, end) ↦
              let read = all (back_seq s front ∙ start) in
              elim (back_first base s front h c' start) [
                | inl whole ↦ inl (omega arith)
                | inr full ↦ inr (omega arith)
              ]
        ],
      )

  moved-Right :
      (base n lo hi : ℕ) (m : Memory)
      → n ≤ rcv_buf_size
      → hi ≤ base + rcv_buf_size
      → Right stream base m lo hi
      → Right stream (base + n) (λ i. if ltb i (rcv_buf_size - n) then m (i + n) else m i) lo hi
  moved-Right base n lo hi m fits inside right p from above below =
      let place : p - (base + n) + n ≡ p - base = omega arith in
      ground (arith, ap m place, right p (omega arith) above below)

  moved-IsEarly :
      (base n : ℕ) (m : Memory) (xs : List RSegment)
      → n ≤ rcv_buf_size
      → All (IsEarly stream base m) xs
      → All
          (IsEarly stream (base + n) (λ i. if ltb i (rcv_buf_size - n) then m (i + n) else m i))
          xs
  moved-IsEarly base n m [] fits h = tt
  moved-IsEarly base n m (x ∷ xs) fits ((inside, no_wrap, right), rest) = (
    (omega arith, no_wrap, moved-Right base n x.seq (x.seq + x.len) m fits inside right),
    moved-IsEarly base n m xs fits rest,
  )

  -- Reading `n` bytes gives the next `n` bytes of the stream.
  pub read_bytes-Holds :
      (base n : ℕ) (s : PseudoTcpSocket)
      → Holds stream base s
      → n ≤ s.rlen
      → Holds stream (base + n) (read_bytes s n).1
        × ((read_bytes s n).0 ≡ load_bytes (λ i. stream (base + i)) 0 n)
  unfolding read_bytes
  read_bytes-Holds base n s h enough =
      let at = h.at in
      let fits = h.fits in
      (
        record {
          at = omega arith;
          fits = omega arith;
          small = h.small;
          read =
              moved-Right base n (base + n) s.rcv_nxt s.rbuf (omega arith) (omega arith)
                (λ p from lo below. h.read p from from below);
          early = moved-IsEarly base n s.rbuf s.rlist (omega arith) h.early;
        },
        load_bytes-Agree (λ i. stream (base + i)) s.rbuf 0 n
            (λ p lo hi.
              ap s.rbuf (omega arith)
              ∙ h.read (base + p) (omega arith) (omega arith) (omega arith)),
      )
