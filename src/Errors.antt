-- ===== src/Errors.antt =====
-- pysoa/common/transport/errors.py: what the transports raise, and the result of what may raise.
use pysoa.Prelude.{ℕ, Bool, true, false, ◌≡◌, refl, ◌⊎◌, inl, inr}

-- `value_error` is Python's ValueError; `not_serializable` is serializer/errors.py's InvalidField;
-- `other_error` is any other exception of the code that a function calls.
pub data TransportError : Type 0 where
  message_too_large : ℕ → TransportError
  invalid_message message_receive_timeout message_send_timeout message_receive_error :
      TransportError
  message_send_error connection_error not_serializable value_error other_error : TransportError

-- isinstance(e, TransientPySOATransportError)
unfoldable pub is_transient : TransportError → Bool
is_transient message_receive_timeout = true
is_transient message_send_timeout = true
is_transient message_receive_error = true
is_transient message_send_error = true
is_transient connection_error = true
is_transient _ = false

-- isinstance(e, PySOATransportError)
unfoldable pub is_transport_error : TransportError → Bool
is_transport_error not_serializable = false
is_transport_error value_error = false
is_transport_error other_error = false
is_transport_error _ = true

pub data Result {ℓ} (A : Type ℓ) : Type ℓ where
  ok : A → Result A
  err : TransportError → Result A

infixl 5 ◌>>=◌
abbrev pub ◌>>=◌ {ℓ κ} : {A : Type ℓ} {B : Type κ} → Result A → (A → Result B) → Result B
ok a >>= f = f a
err e >>= f = err e

pub Result-cases {ℓ} :
    {A : Type ℓ} (r : Result A) → ((e : TransportError) × (r ≡ err e)) ⊎ ((a : A) × (r ≡ ok a))
Result-cases (ok a) = inr (a, refl)
Result-cases (err e) = inl (e, refl)
