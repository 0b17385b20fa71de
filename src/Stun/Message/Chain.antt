-- ===== src/Stun/Message/Chain.antt =====
-- Facts about the list of the attributes that a buffer holds.
use libxice.Base.{ℕ, ◌+◌, ◌≤◌, ◌<◌, ◌^◌, ◌≡◌, sym, ◌∙◌, ap, arith}
use libxice.Base.{Bool, true, false, List, [], ◌∷◌, ◌++◌}
use libxice.Base.Memory.{Memory, Agree}
use libxice.Stun.Utils.{stun_getw}
use libxice.Stun.Utils.Words.{stun_getw-Agree, stun_align_lem}
use libxice.Stun.Message.{stride}
use libxice.Stun.Message.Layout.{Attr, IsChain, end_of}

-- A value never takes less room than its length, nor four bytes more.
pub stride_bounds :
    (aligned : Bool) (n : ℕ) → n < 2 ^ 16 → (n ≤ stride aligned n) × (stride aligned n ≤ n + 3)
stride_bounds true n h = omega (arith, stun_align_lem n (omega arith))
stride_bounds false n h = omega arith

pub offset-le-end :
    (m : Memory) (aligned : Bool) (offset end : ℕ) (attrs : List Attr)
    → IsChain m aligned offset end attrs
    → offset ≤ end
offset-le-end m aligned offset end [] h = omega arith
offset-le-end m aligned offset end ((t, n) ∷ attrs) h =
    omega (arith, offset-le-end m aligned (offset + 4 + stride aligned n) end attrs h.2)

pub end-end_of :
    (m : Memory) (aligned : Bool) (offset end : ℕ) (attrs : List Attr)
    → IsChain m aligned offset end attrs
    → end ≡ end_of aligned offset attrs
end-end_of m aligned offset end [] h = sym h
end-end_of m aligned offset end ((t, n) ∷ attrs) h =
    end-end_of m aligned (offset + 4 + stride aligned n) end attrs h.2

-- The chain depends on the bytes of its range only.
pub IsChain-Agree :
    (m m' : Memory) (aligned : Bool) (offset end : ℕ) (attrs : List Attr)
    → Agree m m' offset end
    → IsChain m aligned offset end attrs
    → IsChain m' aligned offset end attrs
IsChain-Agree m m' aligned offset end [] same h = h
IsChain-Agree m m' aligned offset end ((t, n) ∷ attrs) same h =
    let le = offset-le-end m aligned (offset + 4 + stride aligned n) end attrs h.2 in
    (
      stun_getw-Agree m m' offset (same offset (omega arith) (omega arith))
            (same (offset + 1) (omega arith) (omega arith))
          ∙ h.0,
      stun_getw-Agree m m' (offset + 2) (same (offset + 2) (omega arith) (omega arith))
            (same (offset + 2 + 1) (omega arith) (omega arith))
          ∙ h.1,
      IsChain-Agree m m' aligned (offset + 4 + stride aligned n) end attrs
          (λ p lo hi. same p (omega arith) hi) h.2,
    )

-- One more attribute behind a chain.
pub IsChain-append :
    (m : Memory) (aligned : Bool) (offset end end' : ℕ) (attrs : List Attr) (t n : ℕ)
    → IsChain m aligned offset end attrs
    → stun_getw m end ≡ t
    → stun_getw m (end + 2) ≡ n
    → end + 4 + stride aligned n ≡ end'
    → IsChain m aligned offset end' (attrs ++ (t, n) ∷ [])
IsChain-append m aligned offset end end' [] t n h ht hn he =
    (ap (stun_getw m) h ∙ ht, ap (λ (p : ℕ). stun_getw m (p + 2)) h ∙ hn, omega arith)
IsChain-append m aligned offset end end' ((t', n') ∷ attrs) t n h ht hn he = (
  h.0,
  h.1,
  IsChain-append m aligned (offset + 4 + stride aligned n') end end' attrs t n h.2 ht hn he,
)

-- The value of the last attribute is no part of the chain.
pub IsChain-value :
    (m m' : Memory) (aligned : Bool) (offset end end' : ℕ) (attrs : List Attr) (t n : ℕ)
    → Agree m m' offset (end + 4)
    → IsChain m aligned offset end attrs
    → IsChain m aligned offset end' (attrs ++ (t, n) ∷ [])
    → IsChain m' aligned offset end' (attrs ++ (t, n) ∷ [])
IsChain-value m m' aligned offset end end' [] t n same c h = (
  stun_getw-Agree m m' offset (same offset (omega arith) (omega arith))
        (same (offset + 1) (omega arith) (omega arith))
      ∙ h.0,
  stun_getw-Agree m m' (offset + 2) (same (offset + 2) (omega arith) (omega arith))
        (same (offset + 2 + 1) (omega arith) (omega arith))
      ∙ h.1,
  h.2,
)
IsChain-value m m' aligned offset end end' ((t', n') ∷ attrs) t n same c h =
    let le = offset-le-end m aligned (offset + 4 + stride aligned n') end attrs c.2 in
    (
      stun_getw-Agree m m' offset (same offset (omega arith) (omega arith))
            (same (offset + 1) (omega arith) (omega arith))
          ∙ h.0,
      stun_getw-Agree m m' (offset + 2) (same (offset + 2) (omega arith) (omega arith))
            (same (offset + 2 + 1) (omega arith) (omega arith))
          ∙ h.1,
      IsChain-value m m' aligned (offset + 4 + stride aligned n') end end' attrs t n
          (λ p lo hi. same p (omega arith) hi) c.2 h.2,
    )
