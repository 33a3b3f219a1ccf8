-- ===== src/Client/Handler/Responses.antt =====
-- ServiceHandler.get_all_responses (pysoa/client/client.py) on a RedisClientTransport
-- (pysoa/common/transport/redis_gateway/client.py).
use pysoa.Prelude.{
  ℕ, zero, suc, ◌+◌, ◌≤◌, ◌<◌, ◌-◌, ◌≡◌, subst, refl, false, Option, none, some, [], length, ltb,
  if◌then◌else◌, arith, Bool-cases, inl, inr, ◌⊎◌,
}
use pysoa.Errors.{Result, ok, err}
use pysoa.Server.Types.{JobResponse}
use pysoa.Server.Job.{make_middleware_stack}
use pysoa.Client.Parallel.{Stream}
use pysoa.Client.Handler.{
  Handler, Body, ReceiveTask, get_response, base_get_response, get_all_responses, turn, yielded,
  wrapped,
}
use pysoa.RedisGateway.ClientTransport.{Transport, received, receive_failed, failed_step}

-- receive_response_message, where the core is asked only if a request is outstanding
unfoldable pub receive_response_message :
    {V : Type 0} → (Option ℕ → V → Result (ℕ × Body) × V) → ReceiveTask (Transport × V)
receive_response_message core timeout (t, v) =
    if ltb 0 t.requests_outstanding
    then (let (result, v') = core timeout v in let (o, t') = received result t in (o, (t', v')))
    else (ok none, (record t { previous_error_was_transport_problem = false }, v))

module _ {V : Type 0} (handler : Handler (Transport × V))
    (core : Option ℕ → V → Result (ℕ × Body) × V) where
  -- The last message that the core gave had no body.
  abbrev pub GaveNoBody : Option ℕ → V → Type 0
  GaveNoBody timeout after =
      (before : V) × (id : ℕ) × (core timeout before ≡ (ok (id, none), after))

  -- One after the other: an exception may have ended the stream at any request; without one it has
  -- ended because no request is left, or at a message that had no body.
  abbrev pub Ends : Option ℕ → ℕ → Option (Stream × (Transport × V)) → Type 0
  Ends timeout before none = ⊥
  Ends timeout before (some ((responses, ended), (t, v))) =
      (length responses + t.requests_outstanding ≤ before)
      × (ended ≡ none
          → ((t.requests_outstanding ≡ 0) × (length responses ≡ before))
            ⊎ ((length responses + t.requests_outstanding + 1 ≡ before) × GaveNoBody timeout v))

  yielded-Ends :
      (timeout : Option ℕ) (n : ℕ) (response : ℕ × JobResponse)
      (o : Option (Stream × (Transport × V)))
      → Ends timeout n o
      → Ends timeout (suc n) (yielded response o)
  yielded-Ends timeout n response none h = h
  yielded-Ends timeout n response (some ((responses, ended), (t, v))) h = (
    omega (arith, h.0),
    λ e. elim (h.1 e) [
      | inl (empty, all) ↦ inl (empty, omega (arith, all))
      | inr (all, gave) ↦ inr (omega (arith, all), gave)
    ],
  )

  turn-Ends :
      (timeout : Option ℕ) (again : Transport × V → Option (Stream × (Transport × V)))
      (t : Transport) (before v : V) (result : Result (ℕ × Body))
      → core timeout before ≡ (result, v)
      → (0 < t.requests_outstanding)
      → ((t' : Transport)
          → suc t'.requests_outstanding ≡ t.requests_outstanding
          → Ends timeout t'.requests_outstanding (again (t', v)))
      → Ends timeout t.requests_outstanding
          (turn again (get_response (received result t).0, ((received result t).1, v)))
  unfolding receive_failed
  turn-Ends timeout again t before v (ok (id, none)) given p h =
      (omega arith, λ e. inr (omega (arith, p), (before, id, given)))
  turn-Ends timeout again t before v (ok (id, some (err e))) given p h =
      (omega arith, λ n. absurd (ground (arith, n)))
  turn-Ends timeout again t before v (ok (id, some (ok response))) given p h =
      let after = record t { requests_outstanding = t.requests_outstanding - 1 } in
      let one : suc after.requests_outstanding ≡ t.requests_outstanding = omega (arith, p) in
      subst (λ n. Ends timeout n (yielded (id, response) (again (after, v)))) one
        (yielded-Ends timeout after.requests_outstanding (id, response) (again (after, v))
          (h after one))
  turn-Ends timeout again t before v (err e) given p h =
      (omega (arith, (failed_step e t).0), λ n. absurd (ground (arith, n)))

  wrapped-eq :
      (timeout : Option ℕ) (w : Transport × V)
      → handler.response_middleware ≡ []
      → handler.receive_response_message ≡ receive_response_message core
      → wrapped handler timeout w ≡ base_get_response (receive_response_message core) timeout w
  unfolding wrapped make_middleware_stack
  wrapped-eq timeout w bare redis = rw (bare, redis) refl

  -- On a Redis transport, and without response middleware, the generator of get_all_responses ends
  -- after at most one turn more than there are requests outstanding, whatever the core gives. With
  -- the requests that are outstanding then, it has not yielded more responses than there were requests;
  -- and if it ends without an exception, it has yielded a response for each, and none is left, or
  -- the last message that it received has no body, and it has yielded a response for each other
  -- request that is not left.
  pub get_all_responses-Ends :
      (turns : ℕ) (timeout : Option ℕ) (t : Transport) (v : V)
      → handler.response_middleware ≡ []
      → handler.receive_response_message ≡ receive_response_message core
      → t.requests_outstanding < turns
      → Ends timeout t.requests_outstanding (get_all_responses turns handler timeout (t, v))
  unfolding get_all_responses receive_response_message
  get_all_responses-Ends zero timeout t v bare redis enough = absurd (omega (arith, enough))
  get_all_responses-Ends (suc turns) timeout t v bare redis enough =
      elim (Bool-cases (ltb 0 t.requests_outstanding)) [
        | inl some_left ↦
            rw (wrapped-eq timeout (t, v) bare redis, some_left)
              (turn-Ends timeout (get_all_responses turns handler timeout) t v (core timeout v).1
                (core timeout v).0 refl (ground (arith, some_left))
                (λ t' one.
                  get_all_responses-Ends turns timeout t' (core timeout v).1 bare redis
                    (omega (arith, one, enough))))
        | inr none_left ↦
            rw (wrapped-eq timeout (t, v) bare redis, none_left)
              (omega arith, λ e. inl (ground (arith, none_left), ground (arith, none_left)))
      ]
