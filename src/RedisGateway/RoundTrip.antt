-- ===== src/RedisGateway/RoundTrip.antt =====
-- What a server sends and a client receives, over the Redis transport.
pub mod Losses
use pysoa.Prelude.{
  ℕ, zero, suc, ◌+◌, ◌*◌, ◌≤◌, ◌<◌, ◌≡◌, refl, ◌∙◌, ap, Bool, true, false, ◌&&◌, none, some, List,
  [], ◌∷◌, ◌++◌, append_assoc, append-nil, map, arith, Bytes, Bool-cases, inl, inr, length,
  if◌then◌else◌, ℤ, pos, negsuc, decimal, parse_int-decimal,
}
use pysoa.Errors.{Result, ok}
use pysoa.RedisGateway.Protocol.{
  ProtocolVersion, version_3, prefix, extract_version, extract_version-prefix,
}
use pysoa.RedisGateway.Headers.{
  Headers, no_headers, header, content_type, chunk_count, chunk_id, match_header,
  extract_supported_headers,
}
use pysoa.RedisGateway.Headers.Extraction.{
  IsHeaderValue, decimal-IsHeaderValue, extract_supported_headers-chunk,
  extract_supported_headers-single,
}
use pysoa.RedisGateway.Core.{Core}
use pysoa.RedisGateway.Chunks.{
  slice, ceil_div, chunk_length, chunks_at, single_message, common_headers, chunk_message,
  chunk_messages, check_and_chunk,
}
use pysoa.RedisGateway.Chunks.Slices.{joined, joined_all, ceil_div_bounds, ceil_div_pos}
use pysoa.RedisGateway.Receive.{
  Pop, popped, Frame, parse_frame, int_of, check_chunk, next_chunk, receive_chunks, receive_whole,
  with_headers,
}

abbrev chunk_headers : Bytes → ℕ → ℕ → Headers
chunk_headers mime n i = record {
  type_of_content = some mime;
  count = some (decimal n);
  id = some (decimal (i + 1));
}

int_of-decimal : (n : ℕ) → int_of (decimal n) ≡ ok (pos n)
unfolding int_of
int_of-decimal n = rw (parse_int-decimal n, int_of)

parse_frame-of :
    (m : Bytes) (v : ProtocolVersion) (rest : Bytes) (h : Headers) (payload : Bytes)
    → extract_version m ≡ ok (v, rest)
    → extract_supported_headers rest ≡ (h, payload)
    → parse_frame m ≡ ok (record { version = v; headers = h; payload = payload })
unfolding parse_frame
parse_frame-of m v rest h payload versioned split =
    rw (versioned, parse_frame)
      (ap {B = Result Frame} (λ p. ok (record { version = v; headers = p.0; payload = p.1 })) split)

-- No slice of those from `i` on begins with a header.
abbrev pub PlainFrom : Bytes → ℕ → ℕ → ℕ → Type 0
PlainFrom blob chunk i zero = Unit
PlainFrom blob chunk i (suc k) =
    (match_header (slice (i * chunk) ((i + 1) * chunk) blob) ≡ none)
    × PlainFrom blob chunk (i + 1) k

module _ (v : ProtocolVersion) (mime : Bytes) (typed : IsHeaderValue mime) (blob : Bytes)
    (chunk n : ℕ) where
  abbrev payload : ℕ → Bytes
  payload i = slice (i * chunk) ((i + 1) * chunk) blob

  abbrev message : ℕ → Bytes
  message = chunk_message (common_headers v mime n) blob chunk

  abbrev frame : ℕ → Frame
  frame i = record { version = v; headers = chunk_headers mime n i; payload = payload i }

  parse_frame-message :
      (i : ℕ) → match_header (payload i) ≡ none → parse_frame (message i) ≡ ok (frame i)
  parse_frame-message i plain =
      let id = header chunk_id (decimal (i + 1)) in
      let count = header chunk_count (decimal n) in
      let ct = header content_type mime in
      let regroup : message i ≡ prefix v ++ (ct ++ (count ++ (id ++ payload i))) =
        append_assoc (prefix v) (ct ++ count) (id ++ payload i)
        ∙ ap (λ s. prefix v ++ s) (append_assoc ct count (id ++ payload i)) in
      parse_frame-of (message i) v (ct ++ (count ++ (id ++ payload i))) (chunk_headers mime n i)
        (payload i) (ap extract_version regroup ∙ extract_version-prefix v _)
        (extract_supported_headers-chunk mime (decimal n) (decimal (i + 1)) (payload i) typed
          (decimal-IsHeaderValue n) (decimal-IsHeaderValue (i + 1)) plain)

  check_chunk-message :
      (i : ℕ)
      → check_chunk (pos n) (pos (i + 1)) (some (decimal n)) (some (decimal (i + 1))) ≡ ok tt
  unfolding check_chunk
  check_chunk-message i = ground (arith, int_of-decimal n, int_of-decimal (i + 1))

  next_chunk-message :
      (i : ℕ)
      → match_header (payload i) ≡ none
      → next_chunk (pos n) (pos (i + 1)) (popped (message i)) ≡ ok (frame i)
  unfolding next_chunk
  next_chunk-message i plain =
      rw (parse_frame-message i plain, next_chunk) (rw (check_chunk-message i) refl)

  receive_chunks-messages :
      (i k : ℕ) (acc : Bytes) (pops : List Pop)
      → i + k ≡ n
      → PlainFrom blob chunk i k
      → receive_chunks v
          (pos i)
          (pos n)
          acc
          (map popped (chunk_messages (common_headers v mime n) blob chunk i k) ++ pops)
        ≡ (ok (v, acc ++ joined blob chunk i k), pops)
  unfolding receive_chunks chunk_messages
  receive_chunks-messages i zero acc [] e plain = ground (arith, append-nil acc)
  receive_chunks-messages i zero acc (p ∷ pops) e plain = ground (arith, append-nil acc)
  receive_chunks-messages i (suc k) acc pops e plain = ground (
    arith,
    next_chunk-message i plain.0,
    receive_chunks-messages (i + 1) k (acc ++ payload i) pops (omega arith) plain.1,
    append_assoc acc (payload i) (joined blob chunk (i + 1) k),
  )

  -- The first chunk starts the loop over the others.
  receive_whole-start :
      (k : ℕ) (pops : List Pop)
      → match_header (payload 0) ≡ none
      → receive_whole false
          (map popped (chunk_messages (common_headers v mime n) blob chunk 0 (suc k)) ++ pops)
        ≡ with_headers (chunk_headers mime n 0) (
            receive_chunks v
              (pos 1)
              (pos n)
              (payload 0)
              (map popped (chunk_messages (common_headers v mime n) blob chunk 1 k) ++ pops))
  unfolding receive_whole chunk_messages
  receive_whole-start k pops plain =
      rw (parse_frame-message 0 plain, int_of-decimal 1, int_of-decimal n)

  receive_whole-messages :
      (k : ℕ) (pops : List Pop)
      → 1 + k ≡ n
      → PlainFrom blob chunk 0 (suc k)
      → receive_whole false
          (map popped (chunk_messages (common_headers v mime n) blob chunk 0 (suc k)) ++ pops)
        ≡ (ok (v, chunk_headers mime n 0, joined blob chunk 0 (suc k)), pops)
  receive_whole-messages k pops e plain =
      receive_whole-start k pops plain.0
      ∙ ap (with_headers (chunk_headers mime n 0))
          (receive_chunks-messages 1 k (payload 0) pops e plain.1)

-- No payload of the chunks, or not the whole message if it is not cut, begins with a header.
abbrev pub IsPlain : Core → Bytes → Type 0
IsPlain core blob =
    let chunk = chunk_length core.chunk_messages_larger_than_bytes in
    if core.is_server && chunks_at core.chunk_messages_larger_than_bytes (length blob)
    then PlainFrom blob chunk 0 (ceil_div (length blob) chunk)
    else match_header blob ≡ none

abbrev pub sent_headers : Core → Bytes → Bytes → Headers
sent_headers core mime blob =
    let chunk = chunk_length core.chunk_messages_larger_than_bytes in
    if core.is_server && chunks_at core.chunk_messages_larger_than_bytes (length blob)
    then chunk_headers mime (ceil_div (length blob) chunk) 0
    else record { type_of_content = some mime; count = none; id = none }

chunks_at-bounds :
    (z : ℤ) (size : ℕ) → chunks_at z size ≡ true → (0 < chunk_length z) × (chunk_length z < size)
chunks_at-bounds (pos c) size h = ground arith
chunks_at-bounds (negsuc c) size h = cc

-- the chunks of a whole message, received
receive_whole-chunks :
    (mime blob : Bytes) (chunk n : ℕ) (pops : List Pop)
    → IsHeaderValue mime
    → 0 < n
    → length blob ≤ n * chunk
    → PlainFrom blob chunk 0 n
    → receive_whole false
        (map popped (chunk_messages (common_headers version_3 mime n) blob chunk 0 n) ++ pops)
      ≡ (ok (version_3, chunk_headers mime n 0, blob), pops)
receive_whole-chunks mime blob chunk zero pops typed some_chunk covers plain = absurd (omega arith)
receive_whole-chunks mime blob chunk (suc k) pops typed some_chunk covers plain =
    receive_whole-messages version_3 mime typed blob chunk (suc k) k pops (omega arith) plain
    ∙ ap (λ s. (ok (version_3, chunk_headers mime (suc k) 0, s), pops))
        (joined_all blob chunk (suc k) covers)

receive_whole-single :
    (mime blob : Bytes) (pops : List Pop)
    → IsHeaderValue mime
    → match_header blob ≡ none
    → receive_whole false (popped (single_message version_3 mime blob) ∷ pops) ≡ (
      ok (version_3, record { type_of_content = some mime; count = none; id = none }, blob),
      pops,
    )
unfolding receive_whole single_message
receive_whole-single mime blob pops typed plain =
    let h = record no_headers { type_of_content = some mime } in
    let rest = header content_type mime ++ blob in
    rw (
      parse_frame-of (prefix version_3 ++ rest) version_3 rest h blob
        (extract_version-prefix version_3 rest)
        (extract_supported_headers-single mime blob typed plain))

-- what `check_and_chunk` returns, if it returns
module _ (core : Core) (mime blob : Bytes) (messages : List Bytes) where
  abbrev cut : Bool
  cut = core.is_server && chunks_at core.chunk_messages_larger_than_bytes (length blob)

  abbrev chunk : ℕ
  chunk = chunk_length core.chunk_messages_larger_than_bytes

  abbrev n : ℕ
  n = ceil_div (length blob) chunk

  check_and_chunk-cut :
      cut ≡ true
      → check_and_chunk core version_3 mime blob ≡ ok messages
      → messages ≡ chunk_messages (common_headers version_3 mime n) blob chunk 0 n
  unfolding check_and_chunk
  check_and_chunk-cut h made = ground arith

  check_and_chunk-whole :
      cut ≡ false
      → check_and_chunk core version_3 mime blob ≡ ok messages
      → messages ≡ single_message version_3 mime blob ∷ []
  unfolding check_and_chunk
  check_and_chunk-whole h made = ground arith

  cut-bounds : cut ≡ true → (0 < chunk) × (chunk < length blob)
  cut-bounds h = chunks_at-bounds core.chunk_messages_larger_than_bytes (length blob) (ground arith)

-- Whatever `_serialize_check_and_chunk_message` makes of a serialized message in protocol version
-- 3, one message or many chunks, a client that pops just that receives the serialized message, its
-- version and its content type, and leaves all that stands behind it in the queue; provided that
-- the mime type is a header value and that no payload begins with a header.
pub receive_whole-check_and_chunk :
    (core : Core) (mime blob : Bytes) (messages : List Bytes) (pops : List Pop)
    → IsHeaderValue mime
    → IsPlain core blob
    → check_and_chunk core version_3 mime blob ≡ ok messages
    → receive_whole false (map popped messages ++ pops)
      ≡ (ok (version_3, sent_headers core mime blob, blob), pops)
receive_whole-check_and_chunk core mime blob messages pops typed plain made =
    elim (Bool-cases (cut core mime blob messages)) [
      | inl h ↦
          let size = length blob in
          let c = chunk core mime blob messages in
          let (pos_chunk, larger) = cut-bounds core mime blob messages h in
          let covers = (ceil_div_bounds size c pos_chunk (omega arith)).0 in
          let some_chunk = ceil_div_pos size c pos_chunk (omega arith) in
          rw (h, check_and_chunk-cut core mime blob messages h made)
            (receive_whole-chunks mime blob c (ceil_div size c) pops typed some_chunk covers
              (rw h at plain))
      | inr h ↦
          rw (h, check_and_chunk-whole core mime blob messages h made)
            (receive_whole-single mime blob pops typed (rw h at plain))
    ]
