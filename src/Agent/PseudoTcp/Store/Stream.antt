-- ===== src/Agent/PseudoTcp/Store/Stream.antt =====
-- agent/pseudotcp.c: the receive buffer holds a part of the stream that the peer sends.
use libxice.Base.{ℕ, ◌+◌, ◌-◌, ◌^◌, ◌≤◌, ◌<◌, ◌≡◌, refl, ap, ◌∙◌}
use libxice.Base.{Bool-cases, inl, inr, arith, List, [], ◌∷◌, All, ltb, leb, ◌⊎◌, ◌&&◌}
use libxice.Base.Memory.{Memory}
use libxice.Agent.PseudoTcp.{PseudoTcpSocket, Segment, RSegment, rcv_buf_size}
use libxice.Agent.PseudoTcp.U32.{sub32}
use libxice.Agent.PseudoTcp.Store.{cut_front, cut_back, insert_early, stored}
use libxice.Agent.PseudoTcp.Store.{is_ignored}
use libxice.Agent.PseudoTcp.Store.{kept_length}

-- What lies behind the end of the buffer is cut off, and nothing else.
pub kept_length_lem :
    (base seq len rlen nxt : ℕ)
    → base + rlen ≡ nxt
    → rlen ≤ rcv_buf_size
    → nxt < 2 ^ 32
    → seq + len < 2 ^ 32
    → (len ≡ 0) ⊎ (nxt ≤ seq)
    → let kept = kept_length seq len rlen nxt in
      (kept ≤ len)
      × ((kept ≡ 0) ⊎ ((nxt ≤ seq) × (seq + kept ≤ base + rcv_buf_size)))
      × (nxt ≤ seq → seq + len ≤ base + rcv_buf_size → kept ≡ len)
      × (nxt ≤ seq
          → seq ≤ base + rcv_buf_size
          → base + rcv_buf_size ≤ seq + len
          → seq + kept ≡ base + rcv_buf_size)
kept_length_lem base seq len rlen nxt at fits small no_wrap front =
    (ground arith, ground arith, λ a b. ground arith, λ a b c. ground arith)

-- `stream p` is the byte with the sequence number `p`. The number of the first byte of the buffer
-- is `base`.
module _ (stream : ℕ → ℕ) where
  abbrev pub Right : ℕ → Memory → ℕ → ℕ → Type 0
  Right base m lo hi = (p : ℕ) → base ≤ p → lo ≤ p → p < hi → m (p - base) ≡ stream p

  -- The bytes of a segment that came too early lie in the buffer.
  abbrev pub IsEarly : ℕ → Memory → RSegment → Type 0
  IsEarly base m x =
      (x.seq + x.len ≤ base + rcv_buf_size)
      × (x.seq + x.len < 2 ^ 32)
      × Right base m x.seq (x.seq + x.len)

  -- The bytes before `rcv_nxt` are there to be read, and the early segments are in their places.
  pub record Holds (base : ℕ) (s : PseudoTcpSocket) : Type 0 where
    pub at : base + s.rlen ≡ s.rcv_nxt
    pub fits : s.rlen ≤ rcv_buf_size
    pub small : s.rcv_nxt < 2 ^ 32
    pub read : Right base s.rbuf base s.rcv_nxt
    pub early : All (IsEarly base s.rbuf) s.rlist

  -- The segment carries the stream, and its numbers do not wrap around.
  pub record Carries (seg : Segment) : Type 0 where
    pub no_wrap : seg.seq + seg.len < 2 ^ 32
    pub bytes : (i : ℕ) → i < seg.len → seg.payload i ≡ stream (seg.seq + i)

  -- A segment that was cut to the window.
  abbrev pub IsCut : ℕ → PseudoTcpSocket → Segment → Type 0
  IsCut base s seg =
      (seg.len ≡ 0) ⊎ ((s.rcv_nxt ≤ seg.seq) × (seg.seq + seg.len ≤ base + rcv_buf_size))

  pub cut_front-Carries :
      (s : PseudoTcpSocket) (seg : Segment)
      → Carries seg
      → Carries (cut_front s seg)
        × (((cut_front s seg).len ≡ 0) ⊎ (s.rcv_nxt ≤ (cut_front s seg).seq))
        × (is_ignored s (cut_front s seg) ≡ is_ignored s seg)
  unfolding cut_front
  cut_front-Carries s seg c = elim (Bool-cases (ltb seg.seq s.rcv_nxt)) [
    | inr new ↦ rw new (c, inr (ground (arith, new)), refl)
    | inl old ↦ elim (Bool-cases (ltb (s.rcv_nxt - seg.seq) seg.len)) [
      | inl some_new ↦
          rw (old, some_new)
            (
              record {
                no_wrap = let w = c.no_wrap in ground (arith, w, some_new, old);
                bytes = λ i hi.
                    c.bytes (i + (s.rcv_nxt - seg.seq)) (ground (arith, some_new, hi))
                    ∙ ap stream (let w = c.no_wrap in ground (arith, w, some_new, old));
              },
              inr (let w = c.no_wrap in ground (arith, w, some_new, old)),
              refl,
            )
      | inr all_old ↦
          rw (old, all_old)
            (
              record {
                no_wrap = let w = c.no_wrap in omega arith;
                bytes = λ i hi. absurd (omega arith);
              },
              inl refl,
              refl,
            )
    ]
  ]

  pub cut_back-Carries :
      (base : ℕ) (s : PseudoTcpSocket) (seg : Segment)
      → Holds base s
      → Carries seg
      → (seg.len ≡ 0) ⊎ (s.rcv_nxt ≤ seg.seq)
      → Carries (cut_back s seg)
        × IsCut base s (cut_back s seg)
        × (is_ignored s (cut_back s seg) ≡ is_ignored s seg)
  unfolding cut_back
  cut_back-Carries base s seg h c front =
      let w = c.no_wrap in
      let (shorter, within, whole, full) =
        kept_length_lem base seg.seq seg.len s.rlen s.rcv_nxt h.at h.fits h.small w front in
      (record { no_wrap = omega arith; bytes = λ i hi. c.bytes i (omega arith) }, within, refl)

  -- A byte that was right stays so, and those of the segment become right.
  pub stored-Right :
      (base : ℕ) (s : PseudoTcpSocket) (seg : Segment) (lo hi : ℕ)
      → Holds base s
      → Carries seg
      → s.rcv_nxt ≤ seg.seq
      → Right base s.rbuf lo hi
      → Right base (stored s seg).rbuf lo hi
  stored-Right base s seg lo hi h c after right p from above below =
      let at = h.at in
      let w = c.no_wrap in
      let small = h.small in
      let start : s.rlen + sub32 seg.seq s.rcv_nxt ≡ seg.seq - base = omega arith in
      elim (Bool-cases (leb seg.seq p && ltb p (seg.seq + seg.len))) [
        | inl inside ↦
            let i : p - base - (seg.seq - base) ≡ p - seg.seq = ground (arith, inside) in
            let same : seg.seq + (p - seg.seq) ≡ p = ground (arith, inside) in
            let byte = c.bytes (p - seg.seq) (ground (arith, inside)) in
            rw start (ground (arith, inside, ap seg.payload i, byte ∙ ap stream same))
        | inr outside ↦
            let old = right p from above below in rw start (ground (arith, outside, old))
      ]

  pub stored_new-Right :
      (base : ℕ) (s : PseudoTcpSocket) (seg : Segment)
      → Holds base s
      → Carries seg
      → s.rcv_nxt ≤ seg.seq
      → Right base (stored s seg).rbuf seg.seq (seg.seq + seg.len)
  stored_new-Right base s seg h c after p from above below =
      let at = h.at in
      let w = c.no_wrap in
      let small = h.small in
      let start : s.rlen + sub32 seg.seq s.rcv_nxt ≡ seg.seq - base = omega arith in
      let i : p - base - (seg.seq - base) ≡ p - seg.seq = omega arith in
      let same : seg.seq + (p - seg.seq) ≡ p = omega arith in
      let byte = c.bytes (p - seg.seq) (omega arith) in
      rw start (ground (arith, ap seg.payload i, byte ∙ ap stream same))

  pub early-stored :
      (base : ℕ) (s : PseudoTcpSocket) (seg : Segment) (xs : List RSegment)
      → Holds base s
      → Carries seg
      → s.rcv_nxt ≤ seg.seq
      → All (IsEarly base s.rbuf) xs
      → All (IsEarly base (stored s seg).rbuf) xs
  early-stored base s seg [] h c after e = tt
  early-stored base s seg (x ∷ xs) h c after ((inside, small, right), rest) = (
    (inside, small, stored-Right base s seg x.seq (x.seq + x.len) h c after right),
    early-stored base s seg xs h c after rest,
  )

  pub insert_early-All :
      (base : ℕ) (m : Memory) (r : RSegment) (xs : List RSegment)
      → IsEarly base m r
      → All (IsEarly base m) xs
      → All (IsEarly base m) (insert_early r xs)
  unfolding insert_early
  insert_early-All base m r [] h hs = (h, tt)
  insert_early-All base m r (x ∷ xs) h (hx, hs) = elim (Bool-cases (ltb x.seq r.seq)) [
    | inl later ↦ rw later (hx, insert_early-All base m r xs h hs)
    | inr here ↦ rw here (h, (hx, hs))
  ]
