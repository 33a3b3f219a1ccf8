-- ===== src/LocalTransport/Delivery.antt =====
-- LocalClientTransport.send_request_message of pysoa/common/transport/local.py, with the server's
-- handling of the request.
use pysoa.Prelude.{
  ℕ, ◌≡◌, refl, ap, Bool, true, false, ◌⊎◌, inl, inr, Option, none, some, List, [], ◌∷◌, ◌++◌,
  arith, Bool-cases,
}
use pysoa.Server.Types.{JobRequest}
use pysoa.Server.Job.{Server, process_job}
use pysoa.Server.Requests.{
  Meta, client_version_of, Ended, finished, raised, State, response_message, send_response,
  send_converted, after_pre, at_last, finally_clear, taken, cleared, with_timer,
  handle_next_request, handle_request,
}
use pysoa.LocalTransport.{
  Reply, Local, Hooks, World, local_calls, After, send_request_message, receive_request_message,
  send_response_message, without_request, beside,
}

module _ {V M N : Type 0} (hooks : Hooks V M) (server : Server (World V M N)) where
  -- What the service's own code does for a job leaves the transport of its server alone.
  abbrev pub LeavesTransport : JobRequest → Type 0
  LeavesTransport job = (w : World V M N) → (process_job server job w).1.0 ≡ w.0

  module _ (id : ℕ) (meta : Meta N) (suppress : Bool) (messages : List (Reply M N))
      (replies : List M) where
    -- Nothing was sent, and the handling finished only if the response is suppressed; or the client
    -- has got one more message, under the request's ID and with its metadata.
    abbrev pub Delivered : (M → Type 0) → After V M N → Type 0
    Delivered P (ended, state, (local, v)) =
        ((local.response_messages ≡ messages)
          × (state.replies ≡ replies)
          × (ended ≡ finished → suppress ≡ true))
        ⊎ ((suppress ≡ false)
            × (m : M) × (local.response_messages ≡ messages ++ (id, meta, m) ∷ [])
            × (state.replies ≡ replies ++ m ∷ [])
            × P m)

    unsent :
        (P : M → Type 0) (state : State M) (w : World V M N)
        → w.0.response_messages ≡ messages
        → state.replies ≡ replies
        → Delivered P (raised, state, w)
    unsent P state (local, v) h r = inl (h, r, λ e. absurd (ground (arith, e)))

    send_converted-Delivered :
        (o : Option M) (state : State M) (w : World V M N)
        → w.0.response_messages ≡ messages
        → state.replies ≡ replies
        → Delivered
            (λ m. o ≡ some m)
            (send_converted server (local_calls hooks server) id meta suppress o state w)
    unfolding send_response send_response_message
    send_converted-Delivered none state w h r = unsent _ state w h r
    send_converted-Delivered (some m) state (local, v) h r = elim (Bool-cases suppress) [
      | inl e ↦ rw e (inl (h, r, λ f. refl))
      | inr e ↦ rw e (inr (refl, m, rw h refl, rw r refl, refl))
    ]

    at_last-Delivered :
        (P : M → Type 0) (ended : Ended) (state : State M) (local : Local M N) (v : V)
        (post : Ended × V)
        → Delivered P (ended, state, (local, v))
        → Delivered P
            (at_last server (local_calls hooks server) ended state (post.0, (local, post.1)))
    at_last-Delivered P ended state local v (finished, v') d = d
    at_last-Delivered P ended state local v (raised, v') (inl (h, r, _)) =
        inl (h, r, λ e. absurd (ground (arith, e)))
    at_last-Delivered P ended state local v (raised, v') (inr one) = inr one

    without_request-Delivered :
        (P : M → Type 0) (after : After V M N)
        → Delivered P after
        → Delivered P (without_request after)
    without_request-Delivered P (ended, state, (local, v)) d = d

    finally_clear-Delivered :
        (P : M → Type 0) (after : After V M N)
        → Delivered P after
        → Delivered P (finally_clear server (local_calls hooks server) after)
    finally_clear-Delivered P (ended, state, (local, v)) d =
        at_last-Delivered P ended (cleared server (local_calls hooks server) state) local v
          (hooks.post_request v) d

  after_pre-Delivered :
      (id : ℕ) (meta : Meta N) (job : JobRequest) (state : State M) (local : Local M N)
      (pre : Ended × V)
      → LeavesTransport job
      → Delivered id meta job.control.suppress_response local.response_messages state.replies
          (λ m.
            response_message server
              (local_calls hooks server)
              (client_version_of meta)
              (process_job server job (local, pre.1)).0
            ≡ some m)
          (after_pre server (local_calls hooks server) id meta job state (pre.0, (local, pre.1)))
  after_pre-Delivered id meta job state local (raised, v) leaves =
      unsent id meta job.control.suppress_response local.response_messages state.replies _ state
        (local, v) refl refl
  after_pre-Delivered id meta job state local (finished, v) leaves =
      send_converted-Delivered id meta job.control.suppress_response local.response_messages
        state.replies _ state (process_job server job (local, v)).1
        (ap (λ (l : Local M N). l.response_messages) (leaves (local, v))) refl

  -- However the server's handling ends, sending a request that is not to be suppressed and that the
  -- server finishes has put exactly one message at the end of those that the client can receive, under
  -- the request's own ID and metadata: what the server makes of the job's response for the client's
  -- version, which is its conversion or, if that raises, the error that it could not be converted. If
  -- it is to be suppressed, no message is there, and if the handling raises, either none or that one.
  -- This holds if the service's own code leaves the transport alone.
  pub send_request_message-Delivered :
      (id : ℕ) (meta : Meta N) (job : JobRequest) (state : State M) (local : Local M N) (v : V)
      → LeavesTransport job
      → Delivered id meta job.control.suppress_response local.response_messages state.replies
          (λ m.
            response_message server
              (local_calls hooks server)
              (client_version_of meta)
              (process_job server job
                (record local { current_request = none }, (hooks.pre_request v).1)).0
            ≡ some m)
          (send_request_message hooks server id meta job state (local, v))
  unfolding send_request_message handle_next_request handle_request receive_request_message
  send_request_message-Delivered id meta job state local v leaves =
      let calls = local_calls hooks server in
      let begun = taken server calls id job (with_timer server calls state) in
      let started = record local { current_request = none } in
      let handled =
        after_pre server calls id meta job begun (beside hooks.pre_request (started, v)) in
      let delivered = after_pre-Delivered id meta job begun started (hooks.pre_request v) leaves in
      let cleared =
        finally_clear-Delivered id meta job.control.suppress_response local.response_messages
          state.replies _ handled delivered in
      without_request-Delivered id meta job.control.suppress_response local.response_messages
        state.replies _ (finally_clear server calls handled) cleared
