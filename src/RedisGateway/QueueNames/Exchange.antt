-- ===== src/RedisGateway/QueueNames/Exchange.antt =====
-- What threads receive that send requests and read their reply queues, while servers answer, in any
-- order of steps. A thread without outstanding requests reads no queue, so it takes no step.
use pysoa.Prelude.{
  ℕ, ◌≡◌, refl, sym, subst, ◌∙◌, ap, false, Option, none, some, List, [], ◌∷◌, ◌++◌, All,
  All-append, Bool-cases, inl, inr, ◌⊎◌,
}
use pysoa.Logging.Syslog.{Text}
use pysoa.Errors.{Result, ok, err}
use pysoa.RedisGateway.QueueNames.{
  End, reply_to, queue_key, make_redis_queue_name, text_eq, Waiting, Redis, Popped, push, pop,
  send_request_message, receive_response_message, receive_request_message, send_response_message,
}
use pysoa.RedisGateway.QueueNames.Distinct.{
  has, bang, IsNamed, text_eq_sound, reply_to_injective, reply_to-request,
}

-- `sent` is how the core's send_message ends.
pub data Step (B : Type 0) : Type 0 where
  asks : (sent : Result (Unit {0})) → End → (request_id : ℕ) → (body : B) → Step B
  answers : (sent : Result (Unit {0})) → (service : Text) → Step B
  receives : End → Step B

-- what each thread received, in order
abbrev pub Receipts : Type 0 → Type 0
Receipts B = List (End × Waiting B)

module _ {B : Type 0} (handle : B → B) where
  -- a server takes a request, if there is one, and answers it
  abbrev answer_found : Result (Unit {0}) → Popped B → Redis B
  answer_found sent (none, redis) = redis
  answer_found sent (some m, redis) =
      (send_response_message sent m.meta_reply_to m.request_id (handle m.body) redis).1

  abbrev receipt : End → Option (Waiting B) → Receipts B
  receipt e none = []
  receipt e (some m) = (e, m) ∷ []

  unfoldable pub run : List (Step B) → Redis B → Receipts B
  unfolding send_request_message receive_response_message receive_request_message
      send_response_message
  run [] redis = []
  run (asks sent e id body ∷ steps) redis = run steps (send_request_message sent e id body redis)
  run (answers sent service ∷ steps) redis =
      run steps (answer_found sent (receive_request_message service redis))
  run (receives e ∷ steps) redis =
      let popped = receive_response_message e redis in receipt e popped.0 ++ run steps popped.1

  module _ (P : End → ℕ → B → Type 0) where
    -- A message of the queues goes back to a thread.
    abbrev IsFrom : Waiting B → End → Type 0
    IsFrom m e =
        IsNamed e
        × P e m.request_id m.body
        × (m.meta_reply_to ≡ some (reply_to e))
        × (((service : Text) × (has bang service ≡ false)
              × (m.key ≡ queue_key (make_redis_queue_name service)))
            ⊎ (m.key ≡ queue_key (reply_to e)))

    abbrev IsSound : Waiting B → Type 0
    IsSound m = (e : End) × IsFrom m e

    -- Threads and services are named as they should be, and what is asked for is as P says.
    abbrev pub Asks : Step B → Type 0
    Asks (asks sent e id body) = IsNamed e × P e id body
    Asks (answers sent service) = Unit
    Asks (receives e) = IsNamed e

    abbrev PoppedFrom : Text → Popped B → Type 0
    PoppedFrom key (none, redis) = All IsSound redis
    PoppedFrom key (some m, redis) = (m.key ≡ key) × IsSound m × All IsSound redis

    behind_popped :
        (key : Text) (m : Waiting B) (popped : Popped B)
        → IsSound m
        → PoppedFrom key popped
        → PoppedFrom key (popped.0, m ∷ popped.1)
    behind_popped key m (none, redis) h hs = (h, hs)
    behind_popped key m (some n, redis) h hs = (hs.0, hs.1, (h, hs.2))

    pop-PoppedFrom :
        (key : Text) (redis : Redis B) → All IsSound redis → PoppedFrom key (pop key redis)
    pop-PoppedFrom key [] h = tt
    pop-PoppedFrom key (m ∷ redis) h = elim (Bool-cases (text_eq m.key key)) [
      | inl e ↦ rw e (text_eq_sound m.key key e, h.0, h.1)
      | inr e ↦ rw e (behind_popped key m (pop key redis) h.0 (pop-PoppedFrom key redis h.1))
    ]

    abbrev key_of : Option Text → Text
    key_of none = []
    key_of (some queue_name) = queue_key queue_name

    push-IsSound :
        (sent : Result (Unit {0})) (m : Waiting B) (redis : Redis B)
        → IsSound m
        → All IsSound redis
        → All IsSound (push sent m redis)
    push-IsSound (ok _) m redis h hs = All-append IsSound redis (m ∷ []) hs (h, tt)
    push-IsSound (err e) m redis h hs = hs

    -- a message that a thread took from its own queue
    own :
        (e : End) (m : Waiting B)
        → IsNamed e
        → m.key ≡ queue_key (reply_to e)
        → IsSound m
        → P e m.request_id m.body
    own e m n k (e', (n', p, r, inl (service, h, k'))) =
        absurd (reply_to-request e service h (sym k' ∙ k))
    own e m n k (e', (n', p, r, inr k')) =
        subst (λ x. P x m.request_id m.body) (reply_to_injective e' e n' n (sym k' ∙ k)) p

    module _ (P-handle : (e : End) (id : ℕ) (body : B) → P e id body → P e id (handle body)) where
      respond-IsSound :
          (sent : Result (Unit {0})) (m : Waiting B) (reply_queue : Option Text) (redis : Redis B)
          → reply_queue ≡ m.meta_reply_to
          → IsSound m
          → All IsSound redis
          → All IsSound
              (send_response_message sent reply_queue m.request_id (handle m.body) redis).1
      unfolding send_response_message
      respond-IsSound sent m none redis h sound hs = hs
      respond-IsSound sent m (some queue_name) redis h (e, (n, p, r, place)) hs =
          push-IsSound sent _ redis
            (e, (n, P-handle e m.request_id m.body p, h ∙ r, inr (ap key_of (h ∙ r)))) hs

      answer_found-IsSound :
          (sent : Result (Unit {0})) (key : Text) (popped : Popped B)
          → PoppedFrom key popped
          → All IsSound (answer_found sent popped)
      answer_found-IsSound sent key (none, redis) hs = hs
      answer_found-IsSound sent key (some m, redis) hs =
          respond-IsSound sent m m.meta_reply_to redis refl hs.1 hs.2

      receipt-IsSound :
          (e : End) (popped : Popped B)
          → IsNamed e
          → PoppedFrom (queue_key (reply_to e)) popped
          → All (λ (r : End × Waiting B). P r.0 r.1.request_id r.1.body) (receipt e popped.0)
            × All IsSound popped.1
      receipt-IsSound e (none, redis) n hs = (tt, hs)
      receipt-IsSound e (some m, redis) n hs = ((own e m n hs.0 hs.1, tt), hs.2)

      received_own :
          (steps : List (Step B)) (redis : Redis B)
          → All Asks steps
          → All IsSound redis
          → All (λ (r : End × Waiting B). P r.0 r.1.request_id r.1.body) (run steps redis)
      unfolding run send_request_message receive_response_message receive_request_message
      received_own [] redis h hs = tt
      received_own (asks sent e id body ∷ steps) redis h hs =
          received_own steps _ h.1
            (push-IsSound sent _ redis (e, (h.0.0, h.0.1, refl, inl (e.service, h.0.0.0, refl))) hs)
      received_own (answers sent service ∷ steps) redis h hs =
          let key = queue_key (make_redis_queue_name service) in
          received_own steps _ h.1
            (answer_found-IsSound sent key (pop key redis) (pop-PoppedFrom key redis hs))
      received_own (receives e ∷ steps) redis h hs =
          let key = queue_key (reply_to e) in
          let (mine, rest) = receipt-IsSound e (pop key redis) h.0 (pop-PoppedFrom key redis hs) in
          All-append _ (receipt e (pop key redis).0) (run steps (pop key redis).1) mine
            (received_own steps (pop key redis).1 h.1 rest)

      -- If the names of services have no '!', and the IDs of clients neither '!' nor '.', then
      -- whatever threads send and read and whatever servers answer, in any order and with any
      -- failures, every response that a thread receives was made from a request of its own: what
      -- holds of each thread's requests with their IDs, and of the answer to a request of which it
      -- holds, holds of all responses that the thread receives.
      pub run-Own :
          (steps : List (Step B))
          → All Asks steps
          → All (λ (r : End × Waiting B). P r.0 r.1.request_id r.1.body) (run steps [])
      run-Own steps h = received_own steps [] h tt
