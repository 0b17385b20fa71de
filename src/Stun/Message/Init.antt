-- ===== src/Stun/Message/Init.antt =====
-- A message that `stun_message_init` made, and the error attribute.
use mathlib.Core.Path.{ap₂}
use native.Mathlib.Decide.{ℕ_discrete, dec_lt}
use libxice.Base.{ℕ, ◌≤◌, ◌<◌, ◌≡◌, ◌≢◌, ◌⊎◌, inl, inr, refl, sym, ap, ◌∙◌, arith}
use libxice.Base.{false, List, [], none, some}
use libxice.Base.{length, All, le→ltb, lt→ltb, if◌then◌else◌, ◌==◌}
use libxice.Base.Memory.{Memory, fill, store_bytes, load_bytes}
use libxice.Base.Memory.Laws.{load_store_bytes}
use libxice.Stun.Constants.{StunClass, request, indication, response, error, class_value}
use libxice.Stun.Types.{StunMessage}
use libxice.Stun.Utils.{stun_getw, stun_set_type}
use libxice.Stun.Utils.Words.{stun_getw_lem}
use libxice.Stun.Utils.TypeField.{word, IsTypeField, type_field}
use libxice.Stun.Message.{stun_message_init, stun_message_length, stun_message_id}
use libxice.Stun.Message.{stun_message_get_class, stun_message_get_method}
use libxice.Stun.Message.{effective_type, method_of_type, class_bits, class_of_value}
use libxice.Stun.Message.Search.{HasAttributes}

class_value-lt : (c : StunClass) → class_value c < 4
class_value-lt request = omega arith
class_value-lt indication = omega arith
class_value-lt response = omega arith
class_value-lt error = omega arith

class_of-class_value : (c : StunClass) → class_of_value (class_value c) ≡ c
class_of-class_value request = refl
class_of-class_value indication = refl
class_of-class_value response = refl
class_of-class_value error = refl

-- The class and the method that a message made with the given ones reports: the type 0x0115, which is
-- the error response of the method 5, is taken for a data indication.
abbrev pub reported : StunClass → ℕ → StunClass × ℕ
reported error m = if m == 5 then (indication, 7) else (error, m)
reported c m = (c, m)

abbrev made : StunMessage → StunClass → ℕ → List ℕ → Memory
made msg c m id = store_bytes (stun_set_type (fill msg.buffer 0 0 4) 0 c m) 4 id

module _ (msg : StunMessage) (c : StunClass) (m : ℕ) (id : List ℕ) (small : m < 4096) where
  field : IsTypeField (class_value c) m
  field = type_field (class_value c) m (class_value-lt c) small

  made-type : stun_getw (made msg c m id) 0 ≡ word (class_value c) m
  unfolding stun_set_type
  made-type = ground (arith, field, stun_getw_lem (made msg c m id) 0)

  made-length : stun_getw (made msg c m id) 2 ≡ 0
  unfolding stun_set_type
  made-length = ground (arith, stun_getw_lem (made msg c m id) 2)

-- The parts of the type 0x0115 are the class error and the method 5.
special_parts : (c m : ℕ) → c < 4 → m < 4096 → word c m ≡ 0x0115 → (c ≡ 3) × (m ≡ 5)
special_parts c m hc hm e =
    let f = type_field c m hc hm in
    (sym f.class_back ∙ ap class_bits e, sym f.method_back ∙ ap method_of_type e)

plain_type :
    (c : StunClass) (m : ℕ)
    → m < 4096
    → word (class_value c) m ≢ 0x0115
    → let t = effective_type (word (class_value c) m) in
      (class_of_value (class_bits t) ≡ c) × (method_of_type t ≡ m)
plain_type c m hm plain =
    let f = type_field (class_value c) m (class_value-lt c) hm in
    let same : effective_type (word (class_value c) m) ≡ word (class_value c) m = ground arith in
    (
      ap (λ (t : ℕ). class_of_value (class_bits t)) same
          ∙ ap class_of_value f.class_back
          ∙ class_of-class_value c,
      ap method_of_type same ∙ f.method_back,
    )

reported_parts :
    (c : StunClass) (m : ℕ)
    → m < 4096
    → let t = effective_type (word (class_value c) m) in
      (class_of_value (class_bits t) ≡ (reported c m).0) × (method_of_type t ≡ (reported c m).1)
reported_parts request m hm =
    plain_type request m hm (λ e. absurd (omega (arith, special_parts 0 m (omega arith) hm e)))
reported_parts indication m hm =
    plain_type indication m hm (λ e. absurd (omega (arith, special_parts 1 m (omega arith) hm e)))
reported_parts response m hm =
    plain_type response m hm (λ e. absurd (omega (arith, special_parts 2 m (omega arith) hm e)))
reported_parts error m hm = elim (ℕ_discrete m 5) [
  | yes five ↦ rw five (refl, refl)
  | no other ↦
      let plain = plain_type error m hm (λ e. other (special_parts 3 m (omega arith) hm e).1) in
      let test : (m == 5) ≡ false = ground arith in rw test plain
]

-- A buffer of at least 20 bytes becomes a message of 20 bytes with no attributes, the given
-- transaction id, and the given class and method, but for the error response of the method 5, which
-- reads as a data indication. A shorter buffer is refused.
pub stun_message_init_lem :
    (msg : StunMessage) (c : StunClass) (m : ℕ) (id : List ℕ)
    → m < 4096
    → length id ≡ 16
    → All (λ x. x < 256) id
    → ((msg.buffer_len < 20) × (stun_message_init msg c m id ≡ none))
      ⊎ ((20 ≤ msg.buffer_len)
          × ((msg' : StunMessage) × (stun_message_init msg c m id ≡ some msg')
              × HasAttributes msg' []
              × (stun_message_length msg' ≡ 20)
              × (stun_message_id msg' ≡ id)
              × ((stun_message_get_class msg', stun_message_get_method msg') ≡ reported c m)))
unfolding stun_message_init
stun_message_init_lem msg c m id hm sixteen small = elim (dec_lt msg.buffer_len 20) [
  | yes short ↦ inl (short, rw (lt→ltb _ _ short))
  | no enough ↦ inr (
    omega arith,
    (made_msg, rw (le→ltb msg.buffer_len 20 (omega arith)), sym len, len, id_back, parts),
  )
]
  where
    made_msg : StunMessage
    made_msg = record msg { buffer = made msg c m id }

    len : stun_message_length made_msg ≡ 20
    len = unfold stun_message_length in rw (made-length msg c m id hm)

    id_back : stun_message_id made_msg ≡ id
    id_back =
        unfold stun_message_id in
        ap (load_bytes (made msg c m id) 4) (sym sixteen) ∙ load_store_bytes _ 4 id small

    parts : (stun_message_get_class made_msg, stun_message_get_method made_msg) ≡ reported c m
    parts =
        unfold stun_message_get_class stun_message_get_method in
        rw (made-type msg c m id hm) (
          ap₂ (λ (a : StunClass) (b : ℕ). (a, b)) (reported_parts c m hm).0
            (reported_parts c m hm).1)
