-- ===== src/Tests/Exchanges.antt =====
-- The names of queues, and an exchange of two threads with a server, at concrete inputs.
use pysoa.Prelude.{ℕ, ◌+◌, ◌≡◌, refl, List, [], ◌∷◌, All, map}
use pysoa.Errors.{ok, err, message_send_error}
use pysoa.RedisGateway.Backend.{Ring, connection_index, next_index}
use pysoa.RedisGateway.QueueNames.{
  text, get_hex_thread_id, make_redis_queue_name, receive_queue_name, reply_to, queue_key, End,
  Waiting, send_request_message, receive_response_message, receive_request_message,
  send_response_message,
}
use pysoa.RedisGateway.QueueNames.Exchange.{Step, asks, answers, receives, run, run-Own}
use pysoa.RedisGateway.QueueNames.Servers.{reply_to-connection_index}

hex_of_255 : get_hex_thread_id 255 ≡ text "0000000000ff"
unfolding get_hex_thread_id
hex_of_255 = refl

abbrev thread_of : ℕ → End
thread_of n = record { service = text "user"; client_id = text "6f3a"; thread = n }

queue_of_7 : queue_key (reply_to (thread_of 7)) ≡ text "pysoa:service.user.6f3a!000000000007"
unfolding reply_to queue_key make_redis_queue_name receive_queue_name get_hex_thread_id
queue_of_7 = refl

-- Two threads of one transport use the same request ID; the second's answer is read first, and a
-- third request is not sent.
abbrev steps : List (Step (ℕ × ℕ))
steps =
    asks (ok tt) (thread_of 7) 1 (7, 40)
    ∷ asks (ok tt) (thread_of 8) 1 (8, 50)
    ∷ asks (err message_send_error) (thread_of 8) 2 (8, 60)
    ∷ answers (ok tt) (text "user")
    ∷ answers (ok tt) (text "user")
    ∷ receives (thread_of 8)
    ∷ receives (thread_of 7)
    ∷ receives (thread_of 7)
    ∷ []

abbrev count_up : ℕ × ℕ → ℕ × ℕ
count_up (tag, n) = (tag, n + 1)

both_received :
    map {B = ℕ × ℕ × ℕ}
      (λ (r : End × Waiting (ℕ × ℕ)). (r.0.thread, r.1.body.0, r.1.body.1))
      (run count_up steps [])
    ≡ (8, 8, 51) ∷ (7, 7, 41) ∷ []
unfolding run send_request_message receive_response_message receive_request_message
    send_response_message reply_to queue_key make_redis_queue_name receive_queue_name
    get_hex_thread_id
both_received = refl

run-Own_example :
    All (λ (r : End × Waiting (ℕ × ℕ)). r.1.body.0 ≡ r.0.thread) (run count_up steps [])
run-Own_example =
    run-Own count_up (λ e id body. body.0 ≡ e.thread) (λ e id body h. h) steps
      (
        ((refl, refl, refl), refl),
        (
          ((refl, refl, refl), refl),
          (
            ((refl, refl, refl), refl),
            (tt, (tt, ((refl, refl, refl), ((refl, refl, refl), ((refl, refl, refl), tt))))),
          ),
        ),
      )

abbrev turned : ℕ → Ring
turned first = record { ring_size = 3; sample = 2 ∷ 0 ∷ 1 ∷ []; upcoming = first ∷ [] }

reply_to-connection_index_example :
    ((connection_index (turned 0) (queue_key (reply_to (thread_of 7)))).0
      ≡ (connection_index (turned 1) (queue_key (reply_to (thread_of 7)))).0)
    × ((connection_index (turned 0) (queue_key (reply_to (thread_of 7)))).1 ≡ turned 0)
    × (connection_index (turned 0) (queue_key (make_redis_queue_name (text "user")))
        ≡ next_index (turned 0))
reply_to-connection_index_example =
    reply_to-connection_index (turned 0) (turned 1) (thread_of 7) (text "user") refl refl
