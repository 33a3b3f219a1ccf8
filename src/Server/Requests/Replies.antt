-- ===== src/Server/Requests/Replies.antt =====
-- The replies of handle_next_request (pysoa/server/server.py).
use pysoa.Prelude.{
  ℕ, ◌≡◌, refl, ap, ◌∙◌, Bool, true, false, ◌⊎◌, inl, inr, Option, none, some, List, [], ◌∷◌, ◌++◌,
  arith, Option-cases,
}
use pysoa.Server.Types.{JobRequest, JobResponse}
use pysoa.Server.Job.{Server, process_job}
use pysoa.Server.Requests.{
  Meta, client_version_of, request, Sent, sent, message_too_large, invalid_field, send_raises,
  Ended, finished, raised, Calls, State, conversion_failure, response_too_large,
  response_not_serializable, Handling, response_message, sent_last, sent_first, send_last,
  send_response, send_converted, after_pre, popped, cleared, at_last, finally_clear, taken,
  with_timer, handle_next_request,
}

module _ {W M N : Type 0} (server : Server W) (calls : Calls W M N) where
  -- The message is what one of these responses is converted to: that of the job, the one that says
  -- that it cannot be converted, and those that say that it is too large or cannot be serialized.
  abbrev pub IsReply : List ℕ → JobResponse → M → Type 0
  IsReply version response message =
      (r : JobResponse) × (calls.convert version r ≡ some message)
      × ((r ≡ response)
          ⊎ ((r ≡ conversion_failure (calls.describe response))
              ⊎ ((r ≡ response_too_large) ⊎ (r ≡ response_not_serializable))))

  -- Nothing was sent, and the handling finished only if the response is suppressed; or one reply was
  -- sent, and the response is not suppressed.
  abbrev pub Replied :
      (suppress : Bool) → (M → Type 0) → (before : List M) → Ended → (after : List M) → Type 0
  Replied suppress P before ended after =
      ((after ≡ before) × (ended ≡ finished → suppress ≡ true))
      ⊎ ((suppress ≡ false) × (message : M) × (after ≡ before ++ message ∷ []) × P message)

  abbrev Handled : Bool → (M → Type 0) → State M → Handling server calls → Type 0
  Handled suppress P state (ended, after, w) =
      (after.contexts ≡ state.contexts) × Replied suppress P state.replies ended after.replies

  unsent :
      (suppress : Bool) (P : M → Type 0) (state : State M) (w : W)
      → Handled suppress P state (raised, state, w)
  unsent suppress P state w = (refl, inl (refl, λ e. absurd (ground (arith, e))))

  sent_last-Handled :
      (P : M → Type 0) (m : M) (state : State M) (done : Sent × W)
      → P m
      → Handled false P state (sent_last server calls m state done)
  sent_last-Handled P m state (sent, w) h = (refl, inr (refl, m, refl, h))
  sent_last-Handled P m state (message_too_large, w) h = unsent _ _ state w
  sent_last-Handled P m state (invalid_field, w) h = unsent _ _ state w
  sent_last-Handled P m state (send_raises, w) h = unsent _ _ state w

  send_last-Handled :
      (id : ℕ) (meta : Meta N) (P : M → Type 0) (o : Option M) (state : State M) (w : W)
      → ((m : M) → o ≡ some m → P m)
      → Handled false P state (send_last server calls id meta o state w)
  send_last-Handled id meta P none state w h = unsent _ _ state w
  send_last-Handled id meta P (some m) state w h =
      sent_last-Handled P m state (calls.send id meta m w) (h m refl)

  module _ (id : ℕ) (meta : Meta N) (response : JobResponse) where
    abbrev Reply : M → Type 0
    Reply = IsReply (client_version_of meta) response

    sent_first-Handled :
        (m : M) (state : State M) (done : Sent × W)
        → Reply m
        → Handled false Reply state (sent_first server calls id meta m state done)
    sent_first-Handled m state (sent, w) h = sent_last-Handled Reply m state (sent, w) h
    sent_first-Handled m state (message_too_large, w) h =
        send_last-Handled id meta Reply _ state w
          (λ m e. (response_too_large, e, inr (inr (inl refl))))
    sent_first-Handled m state (invalid_field, w) h =
        send_last-Handled id meta Reply _ state w
          (λ m e. (response_not_serializable, e, inr (inr (inr refl))))
    sent_first-Handled m state (send_raises, w) h =
        sent_last-Handled Reply m state (send_raises, w) h

    send_converted-Handled :
        (suppress : Bool) (o : Option M) (state : State M) (w : W)
        → ((m : M) → o ≡ some m → Reply m)
        → Handled suppress Reply state (send_converted server calls id meta suppress o state w)
    unfolding send_response
    send_converted-Handled suppress none state w h = unsent _ _ state w
    send_converted-Handled true (some m) state w h = (refl, inl (refl, λ e. refl))
    send_converted-Handled false (some m) state w h =
        sent_first-Handled m state (calls.send id meta m w) (h m refl)

    response_message-Reply :
        (m : M) → response_message server calls (client_version_of meta) response ≡ some m → Reply m
    unfolding response_message
    response_message-Reply m e =
        elim (Option-cases (calls.convert (client_version_of meta) response)) [
          | inl failed ↦ (
            conversion_failure (calls.describe response),
            ground (arith, e, failed),
            inr (inl refl),
          )
          | inr (m', converted) ↦ (response, ground (arith, e, converted), inl refl)
        ]

  after_pre-Handled :
      (id : ℕ) (meta : Meta N) (job : JobRequest) (state : State M) (pre : Ended × W)
      → Handled job.control.suppress_response
          (Reply id meta (process_job server job pre.1).0)
          state
          (after_pre server calls id meta job state pre)
  after_pre-Handled id meta job state (raised, w) = unsent _ _ state w
  after_pre-Handled id meta job state (finished, w) =
      let response = (process_job server job w).0 in
      send_converted-Handled id meta response job.control.suppress_response _ state _
        (response_message-Reply id meta response)

  -- What the `finally` leaves.
  Replied-raised :
      (suppress : Bool) (P : M → Type 0) (before after : List M) (ended : Ended)
      → Replied suppress P before ended after
      → Replied suppress P before raised after
  Replied-raised suppress P before after ended (inl (same, _)) =
      inl (same, λ e. absurd (ground (arith, e)))
  Replied-raised suppress P before after ended (inr one) = inr one

  -- the handling's end: the contexts, what was sent, and, if it finished, that it is not busy
  abbrev pub Ends : Bool → (M → Type 0) → List M → Handling server calls → Type 0
  Ends suppress P before (ended, after, w) =
      Replied suppress P before ended after.replies × (ended ≡ finished → after.busy ≡ false)

  at_last-Ends :
      (suppress : Bool) (P : M → Type 0) (before : List M) (ended : Ended) (state : State M)
      (post : Ended × W)
      → Replied suppress P before ended state.replies
      → Ends suppress P before (at_last server calls ended state post)
        × ((at_last server calls ended state post).1.contexts ≡ state.contexts)
  at_last-Ends suppress P before ended state (raised, w) h = (
    (Replied-raised suppress P before state.replies ended h, λ e. absurd (ground (arith, e))),
    refl,
  )
  at_last-Ends suppress P before ended state (finished, w) h = ((h, λ _. refl), refl)

  finally_clear-Ends :
      (suppress : Bool) (P : M → Type 0) (taken : State M) (h : Handling server calls)
      → Handled suppress P taken h
      → Ends suppress P taken.replies (finally_clear server calls h)
        × ((finally_clear server calls h).1.contexts ≡ popped server calls taken.contexts)
  finally_clear-Ends suppress P taken (ended, state, w) (same, replied) =
      let (ends, contexts) =
        at_last-Ends suppress P taken.replies ended (cleared server calls state)
          (calls.post_request w) replied in
      (ends, contexts ∙ ap (popped server calls) same)

  -- However the handling of a received request ends, at most one reply is sent for it, and the stack
  -- of logging contexts is as before. If it does not raise, the server is not busy, and a reply is
  -- sent exactly if the response is not suppressed. A reply is the job's response as the client's
  -- version reads it, or the error that says that this cannot be converted, is too large or cannot
  -- be serialized.
  pub handle_next_request-Ends :
      (state : State M) (w w' : W) (id : ℕ) (meta : Meta N) (job : JobRequest)
      → calls.receive w ≡ (request id meta job, w')
      → let after = handle_next_request server calls state w in
        let response = (process_job server job (calls.pre_request w').1).0 in
        Ends job.control.suppress_response
          (IsReply (client_version_of meta) response)
          state.replies
          after
        × (after.1.contexts ≡ state.contexts)
  unfolding handle_next_request
  handle_next_request-Ends state w w' id meta job received =
      let begun = taken server calls id job (with_timer server calls state) in
      rw received (
        finally_clear-Ends _ _ begun _ (after_pre-Handled id meta job begun (calls.pre_request w')))
