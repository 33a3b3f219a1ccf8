-- ===== src/Tests/Wire.antt =====
-- Messages of the Redis transport at concrete inputs.
use pysoa.Prelude.{
  ℕ, ◌+◌, ◌≤◌, ◌≡◌, ◌≢◌, refl, true, false, none, List, [], ◌∷◌, ◌++◌, map, arith, Bytes, codes,
  inl, length, pos, strip_prefix, rest_of, run_of,
}
use pysoa.Errors.{ok, err, connection_error, message_send_error, message_receive_timeout}
use pysoa.RedisGateway.Protocol.{version_3}
use pysoa.RedisGateway.Headers.{chunk_id, match_header, extract_supported_headers, no_headers}
use pysoa.RedisGateway.Headers.Extraction.{extract_supported_headers_complete, IsHeaderValue}
use pysoa.RedisGateway.Core.{Core, make_server_core}
use pysoa.RedisGateway.Chunks.{common_headers, chunk_messages, check_and_chunk}
use pysoa.RedisGateway.Queue.{send_each}
use pysoa.RedisGateway.Queue.Capacity.{quiet, send_each-quiet, send_each-le}
use pysoa.RedisGateway.Receive.{popped, receive_whole}
use pysoa.RedisGateway.RoundTrip.{IsPlain, sent_headers, receive_whole-check_and_chunk}
use pysoa.RedisGateway.RoundTrip.Losses.{receive_whole-lossy}
use pysoa.RedisGateway.ClientTransport.{
  Event, send, receive, run, answered, initial, NoTimeout, run-outstanding,
}

-- a server whose chunks have `chunk` bytes, with a queue of three messages
abbrev core : ℕ → Core
core chunk = record {
  is_server = true;
  maximum_message_size_in_bytes = 1000;
  chunk_messages_larger_than_bytes = pos chunk;
  message_expiry_in_seconds = 60;
  queue_capacity = 3;
  queue_full_retries = 2;
}

abbrev mime : Bytes
mime = codes "application/json"

mime-IsHeaderValue : IsHeaderValue mime
mime-IsHeaderValue = (
  refl,
  (
    refl,
    (
      refl,
      (
        refl,
        (
          refl,
          (
            refl,
            (refl, (refl, (refl, (refl, (refl, (refl, (refl, (refl, (refl, (refl, tt)))))))))),
          ),
        ),
      ),
    ),
  ),
)

abbrev greeting : Bytes
greeting = codes "{\"a\": [3]}"

abbrev greeting_messages : List Bytes
greeting_messages = chunk_messages (common_headers version_3 mime 3) greeting 4 0 3

greeting-made : check_and_chunk (core 4) version_3 mime greeting ≡ ok greeting_messages
unfolding check_and_chunk
greeting-made = refl

greeting-IsPlain : IsPlain (core 4) greeting
unfolding match_header strip_prefix rest_of
greeting-IsPlain = (refl, (refl, (refl, tt)))

receive_whole-check_and_chunk_example :
    receive_whole false (map popped greeting_messages ++ popped mime ∷ [])
    ≡ (ok (version_3, sent_headers (core 4) mime greeting, greeting), popped mime ∷ [])
receive_whole-check_and_chunk_example =
    receive_whole-check_and_chunk (core 4) mime greeting greeting_messages (popped mime ∷ [])
      mime-IsHeaderValue greeting-IsPlain greeting-made

-- a message whose second chunk begins with a header
abbrev unlucky : Bytes
unlucky = codes "{\"text\":\"0123 chunk-id:7; x\"}"

abbrev unlucky_messages : List Bytes
unlucky_messages = chunk_messages (common_headers version_3 mime 3) unlucky 14 0 3

unlucky-made : check_and_chunk (core 14) version_3 mime unlucky ≡ ok unlucky_messages
unfolding check_and_chunk
unlucky-made = refl

unlucky_first : match_header (codes "{\"text\":\"0123 ") ≡ none
unfolding match_header strip_prefix rest_of
unlucky_first = refl

receive_whole-lossy_example :
    receive_whole false (map popped unlucky_messages ++ [])
    ≢ (ok (version_3, no_headers, unlucky), [])
unfolding match_header strip_prefix rest_of run_of
receive_whole-lossy_example =
    receive_whole-lossy (core 14) mime unlucky unlucky_messages [] [] version_3 no_headers
      mime-IsHeaderValue refl unlucky_first (inl ((chunk_id, codes "7", codes " x\""), refl))
      unlucky-made

extract_supported_headers_complete_example :
    match_header (extract_supported_headers (codes "chunk-id:1; chunk-id: 2 ;{}")).1 ≡ none
extract_supported_headers_complete_example =
    extract_supported_headers_complete (codes "chunk-id:1; chunk-id: 2 ;{}")

abbrev built : Core
built = record (core 102400) { maximum_message_size_in_bytes = 600000 }

built_made : make_server_core (record built { is_server = false }) ≡ ok built
unfolding make_server_core
built_made = refl

-- three messages for a queue with room for two
abbrev three : List Bytes
three = codes "a" ∷ codes "b" ∷ codes "c" ∷ []

send_each-quiet_example :
    send_each (core 4) three quiet 0 (codes "x" ∷ [])
    ≡ (err message_send_error, 5, codes "x" ∷ codes "a" ∷ codes "b" ∷ [])
send_each-quiet_example = send_each-quiet (core 4) three 0 (codes "x" ∷ []) (omega arith)

send_each-le_example : length (send_each (core 4) three quiet 0 (codes "x" ∷ [])).2 ≤ 3
send_each-le_example =
    send_each-le (core 4) quiet three 0 (codes "x" ∷ []) (λ j q le. le) (omega arith)

-- two requests, one of which fails, a response, a timeout
abbrev events : List (Event ℕ)
events =
    send (ok tt)
    ∷ send (err connection_error)
    ∷ receive (ok 7)
    ∷ receive (err message_receive_timeout)
    ∷ []

run-outstanding_example :
    ((run initial events).requests_outstanding + answered initial events ≤ 0 + 1)
    × (NoTimeout events
        → (run initial events).requests_outstanding + answered initial events ≡ 0 + 1)
run-outstanding_example = run-outstanding initial events
