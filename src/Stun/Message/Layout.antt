-- ===== src/Stun/Message/Layout.antt =====
-- The attributes of a message as a list, against the bytes of its buffer.
use libxice.Base.{ℕ, ◌+◌, ◌≡◌, Bool, List, [], ◌∷◌}
use libxice.Base.Memory.{Memory}
use libxice.Stun.Utils.{stun_getw}
use libxice.Stun.Message.{stride}

-- The type and the length of an attribute.
abbrev pub Attr : Type 0
Attr = ℕ × ℕ

-- The attributes `attrs` lie one behind the other in the bytes from `offset` to `end`.
abbrev pub IsChain : Memory → Bool → ℕ → ℕ → List Attr → Type 0
IsChain m aligned offset end [] = offset ≡ end
IsChain m aligned offset end ((t, n) ∷ attrs) =
    (stun_getw m offset ≡ t)
    × (stun_getw m (offset + 2) ≡ n)
    × IsChain m aligned (offset + 4 + stride aligned n) end attrs

-- Where the attributes end that begin at `offset`.
abbrev pub end_of : Bool → ℕ → List Attr → ℕ
end_of aligned offset [] = offset
end_of aligned offset ((t, n) ∷ attrs) = end_of aligned (offset + 4 + stride aligned n) attrs
