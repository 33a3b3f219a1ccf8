-- ===== src/RedisGateway/ClientTransport.antt =====
-- RedisClientTransport (redis_gateway/client.py): how it counts the requests that wait for a
-- response. The core's results, of send_message and receive_message, are the arguments.
use pysoa.Prelude.{
  ℕ, ◌+◌, ◌-◌, ◌≤◌, ◌≡◌, ◌≢◌, refl, ap, Bool, true, false, Option, none, some, List, [], ◌∷◌, arith,
  ltb, if◌then◌else◌,
}
use pysoa.Errors.{TransportError, is_transient, Result, ok, err, message_receive_timeout}

pub record Transport : Type 0 where
  pub requests_outstanding : ℕ
  pub previous_error_was_transport_problem : Bool

abbrev pub initial : Transport
initial = record { requests_outstanding = 0; previous_error_was_transport_problem = false }

-- the transport after send_request_message, which returns or raises what the core does
unfoldable pub send_request : Result (Unit {0}) → Transport → Transport
unfolding is_transient
send_request (ok _) t = record t { requests_outstanding = t.requests_outstanding + 1 }
send_request (err e) t =
    if is_transient e then record t { previous_error_was_transport_problem = true } else t

-- the two `except` clauses of receive_response_message
unfoldable pub receive_failed : TransportError → Transport → Transport
unfolding is_transient
receive_failed message_receive_timeout t =
    if t.previous_error_was_transport_problem
    then record { requests_outstanding = 0; previous_error_was_transport_problem = false }
    else t
receive_failed e t =
    if is_transient e then record t { previous_error_was_transport_problem = true } else t

-- what receive_response_message does with the core's result
abbrev pub received : {A : Type 0} → Result A → Transport → Result (Option A) × Transport
received (ok m) t = (ok (some m), record t { requests_outstanding = t.requests_outstanding - 1 })
received (err e) t = (err e, receive_failed e t)

-- receive_response_message: its result, where `none` is ReceivedMessage(None, None, None)
unfoldable pub receive_response :
    {A : Type 0} → Result A → Transport → Result (Option A) × Transport
unfolding receive_failed
receive_response result t =
    if ltb 0 t.requests_outstanding
    then received result t
    else (ok none, record t { previous_error_was_transport_problem = false })

abbrev pub send_count : Result (Unit {0}) → ℕ
send_count (ok _) = 1
send_count (err e) = 0

send_step :
    (r : Result (Unit {0})) (t : Transport)
    → (send_request r t).requests_outstanding ≡ t.requests_outstanding + send_count r
unfolding send_request
send_step (ok _) t = omega arith
send_step (err e) t = ground arith

pub failed_step :
    (e : TransportError) (t : Transport)
    → ((receive_failed e t).requests_outstanding ≤ t.requests_outstanding)
      × (e ≢ message_receive_timeout
          → (receive_failed e t).requests_outstanding ≡ t.requests_outstanding)
unfolding receive_failed
failed_step message_receive_timeout t = (ground arith, λ h. absurd (h refl))
failed_step _ t = (ground arith, λ h. ground arith)

-- The requests that a receiving answers.
abbrev pub gain : {A : Type 0} → Transport → Result A → ℕ
gain t (ok m) = if ltb 0 t.requests_outstanding then 1 else 0
gain t (err e) = 0

receive_step :
    {A : Type 0} (r : Result A) (t : Transport)
    → ((receive_response r t).1.requests_outstanding + gain t r ≤ t.requests_outstanding)
      × (r ≢ err message_receive_timeout
          → (receive_response r t).1.requests_outstanding + gain t r ≡ t.requests_outstanding)
unfolding receive_response
receive_step (ok m) t = (ground arith, λ h. ground arith)
receive_step (err e) t =
    let step = failed_step e t in
    (ground (arith, step.0), λ h. ground (arith, step.1 (λ p. h (ap err p))))

-- What a client does with its transport, and what the core then comes back with.
pub data Event (A : Type 0) : Type 0 where
  send : Result (Unit {0}) → Event A
  receive : Result A → Event A

module _ {A : Type 0} where
  unfoldable pub run : Transport → List (Event A) → Transport
  unfolding send_request receive_response
  run t [] = t
  run t (send r ∷ events) = run (send_request r t) events
  run t (receive r ∷ events) = run (receive_response r t).1 events

  -- the requests that were sent
  abbrev pub sent : List (Event A) → ℕ
  sent [] = 0
  sent (send r ∷ events) = send_count r + sent events
  sent (receive r ∷ events) = sent events

  -- No receiving ends in a timeout: the count is never reset.
  abbrev pub NoTimeout : List (Event A) → Type 0
  NoTimeout [] = Unit
  NoTimeout (receive r ∷ events) = (r ≢ err message_receive_timeout) × NoTimeout events
  NoTimeout (send r ∷ events) = NoTimeout events

  -- the responses that came while requests were outstanding, from a transport on
  abbrev pub answered : Transport → List (Event A) → ℕ
  answered t [] = 0
  answered t (send r ∷ events) = answered (send_request r t) events
  answered t (receive r ∷ events) = gain t r + answered (receive_response r t).1 events

  -- The transport never counts more requests than were sent and not answered, and exactly these
  -- where no receiving timed out.
  pub run-outstanding :
      (t : Transport) (events : List (Event A))
      → ((run t events).requests_outstanding + answered t events
          ≤ t.requests_outstanding + sent events)
        × (NoTimeout events
            → (run t events).requests_outstanding + answered t events
              ≡ t.requests_outstanding + sent events)
  unfolding run send_request receive_response
  run-outstanding t [] = (omega arith, λ h. omega arith)
  run-outstanding t (send r ∷ events) =
      let rest = run-outstanding (send_request r t) events in
      let step = send_step r t in (omega (arith, rest.0, step), λ h. omega (arith, rest.1 h, step))
  run-outstanding t (receive r ∷ events) =
      let rest = run-outstanding (receive_response r t).1 events in
      let step = receive_step r t in
      (omega (arith, rest.0, step.0), λ h. omega (arith, rest.1 h.1, step.1 h.0))
