-- ===== src/RedisGateway/RoundTrip/Losses.antt =====
-- Chunked messages where a later payload begins with a supported header.
use pysoa.Prelude.{
  ℕ, zero, suc, ◌+◌, ◌-◌, ◌*◌, ◌≤◌, ◌<◌, ◌≡◌, ◌≢◌, ◌∙◌, ap, sym, true, false, ◌&&◌, none, some,
  List, [], ◌∷◌, ◌++◌, append_assoc, map, subst, arith, Bytes, inl, inr, ◌⊎◌, length, length-append,
  ℤ, pos, decimal,
}
use pysoa.Errors.{ok, err, Result-cases}
use pysoa.RedisGateway.Protocol.{
  ProtocolVersion, version_3, prefix, extract_version, extract_version-prefix,
}
use pysoa.RedisGateway.Headers.{
  Headers, Found, header, content_type, chunk_count, chunk_id, match_header,
  extract_supported_headers,
}
use pysoa.RedisGateway.Headers.Extraction.{IsHeaderValue, decimal-IsHeaderValue}
use pysoa.RedisGateway.Headers.Lengths.{length-extract_supported_headers-chunk}
use pysoa.RedisGateway.Core.{Core}
use pysoa.RedisGateway.RoundTrip.{
  chunk_headers, receive_whole-start, cut-bounds, check_and_chunk-cut,
}
use pysoa.RedisGateway.Chunks.{
  slice, ceil_div, chunk_length, chunks_at, common_headers, chunk_message, chunk_messages,
  check_and_chunk,
}
use pysoa.RedisGateway.Chunks.Slices.{joined, joined_all, ceil_div_bounds, ceil_div_pos}
use pysoa.RedisGateway.Receive.{
  Pop, popped, Frame, parse_frame, next_chunk, receive_chunks, receive_whole, with_headers, Reading,
}

-- The length of what a reading has received, if it has received a message.
abbrev Received : Reading (ProtocolVersion × Bytes) → (Bytes → Type 0) → Type 0
Received r P = (v : ProtocolVersion) (s : Bytes) → r.0 ≡ ok (v, s) → P s

next_chunk-parse_frame :
    (count expected : ℤ) (m : Bytes) (f : Frame)
    → next_chunk count expected (popped m) ≡ ok f
    → parse_frame m ≡ ok f
unfolding next_chunk
next_chunk-parse_frame count expected m f e = ground arith

parse_frame-payload :
    (m : Bytes) (v : ProtocolVersion) (rest : Bytes) (f : Frame)
    → extract_version m ≡ ok (v, rest)
    → parse_frame m ≡ ok f
    → f.payload ≡ (extract_supported_headers rest).1
unfolding parse_frame
parse_frame-payload m v rest f versioned e = ground arith

-- One of the slices from `i` on begins with a header.
abbrev pub HeaderFrom : Bytes → ℕ → ℕ → ℕ → Type 0
HeaderFrom blob chunk i zero = ⊥
HeaderFrom blob chunk i (suc k) =
    ((m : Found) × (match_header (slice (i * chunk) ((i + 1) * chunk) blob) ≡ some m))
    ⊎ HeaderFrom blob chunk (i + 1) k

module _ (v : ProtocolVersion) (mime : Bytes) (typed : IsHeaderValue mime) (blob : Bytes)
    (chunk n : ℕ) where
  abbrev payload : ℕ → Bytes
  payload i = slice (i * chunk) ((i + 1) * chunk) blob

  abbrev message : ℕ → Bytes
  message = chunk_message (common_headers v mime n) blob chunk

  -- A frame never holds more than the payload that was sent, and less if that begins with a header.
  payload_length :
      (i : ℕ) (f : Frame)
      → parse_frame (message i) ≡ ok f
      → (length f.payload ≤ length (payload i))
        × ((m : Found) → match_header (payload i) ≡ some m → length f.payload < length (payload i))
  payload_length i f e =
      let id = header chunk_id (decimal (i + 1)) in
      let count = header chunk_count (decimal n) in
      let ct = header content_type mime in
      let regroup : message i ≡ prefix v ++ (ct ++ (count ++ (id ++ payload i))) =
        append_assoc (prefix v) (ct ++ count) (id ++ payload i)
        ∙ ap (λ s. prefix v ++ s) (append_assoc ct count (id ++ payload i)) in
      rw
        (parse_frame-payload (message i) v (ct ++ (count ++ (id ++ payload i))) f
          (ap extract_version regroup ∙ extract_version-prefix v _) e)
        (length-extract_supported_headers-chunk mime (decimal n) (decimal (i + 1)) (payload i) typed
          (decimal-IsHeaderValue n) (decimal-IsHeaderValue (i + 1)))

  step_payload_length :
      (i : ℕ) (f : Frame)
      → next_chunk (pos n) (pos (i + 1)) (popped (message i)) ≡ ok f
      → (length f.payload ≤ length (payload i))
        × ((m : Found) → match_header (payload i) ≡ some m → length f.payload < length (payload i))
  step_payload_length i f e = payload_length i f (next_chunk-parse_frame _ _ _ f e)

  abbrev Bounded : ℕ → ℕ → Bytes → Bytes → Type 0
  Bounded i k acc s =
      (length s ≤ length acc + length (joined blob chunk i k))
      × (HeaderFrom blob chunk i k → length s < length acc + length (joined blob chunk i k))

  Bounded-step :
      (i k : ℕ) (acc s : Bytes) (f : Frame)
      → (length f.payload ≤ length (payload i))
      → ((m : Found) → match_header (payload i) ≡ some m → length f.payload < length (payload i))
      → Bounded (i + 1) k (acc ++ f.payload) s
      → Bounded i (suc k) acc s
  Bounded-step i k acc s f le lt h =
      let front = length-append acc f.payload in
      let whole = length-append (payload i) (joined blob chunk (i + 1) k) in
      (
        omega (arith, front, whole),
        elim [
          | inl (m, here) ↦ omega (arith, front, whole, lt m here)
          | inr later ↦ omega (arith, front, whole, h.1 later)
        ],
      )

  received_Bounded :
      (i k : ℕ) (w : ProtocolVersion) (acc : Bytes) (pops : List Pop)
      → i + k ≡ n
      → Received
          (receive_chunks w
            (pos i)
            (pos n)
            acc
            (map popped (chunk_messages (common_headers v mime n) blob chunk i k) ++ pops))
          (Bounded i k acc)
  unfolding receive_chunks chunk_messages
  received_Bounded i zero w acc [] e v' s done =
      let same : acc ≡ s = ground arith in (omega (arith, ap length same), elim [ ])
  received_Bounded i zero w acc (p ∷ pops) e v' s done =
      let same : acc ≡ s = ground arith in (omega (arith, ap length same), elim [ ])
  received_Bounded i (suc k) w acc pops e v' s done =
      elim (Result-cases (next_chunk (pos n) (pos (i + 1)) (popped (message i)))) [
        | inl (x, failed) ↦ absurd (ground arith)
        | inr (f, went) ↦
            let (le, lt) = step_payload_length i f went in
            Bounded-step i k acc s f le lt (
              received_Bounded (i + 1) k f.version (acc ++ f.payload) pops (omega arith) v' s
                (ground arith))
      ]

-- what the headers do not change
received_of :
    (h : Headers) (r : Reading (ProtocolVersion × Bytes)) (w : ProtocolVersion) (h' : Headers)
    (s : Bytes) (rest : List Pop)
    → with_headers h r ≡ (ok (w, h', s), rest)
    → r.0 ≡ ok (w, s)
received_of h (ok (v, m), pops) w h' s rest e = ground arith
received_of h (err x, pops) w h' s rest e = absurd (ground arith)

lossy_chunks :
    (mime blob : Bytes) (chunk k : ℕ) (pops rest : List Pop) (w : ProtocolVersion) (h : Headers)
    → IsHeaderValue mime
    → length blob ≤ suc k * chunk
    → match_header (slice (0 * chunk) ((0 + 1) * chunk) blob) ≡ none
    → HeaderFrom blob chunk 1 k
    → receive_whole false (
        map popped (chunk_messages (common_headers version_3 mime (suc k)) blob chunk 0 (suc k))
        ++ pops)
      ≢ (ok (w, h, blob), rest)
lossy_chunks mime blob chunk k pops rest w h typed covers first later done =
    let n = suc k in
    let start = receive_whole-start version_3 mime typed blob chunk n k pops first in
    let got = received_of (chunk_headers mime n 0) _ w h blob rest (sym start ∙ done) in
    let bounded =
      received_Bounded version_3 mime typed blob chunk n 1 k version_3
        (slice (0 * chunk) ((0 + 1) * chunk) blob) pops (omega arith) w blob got in
    let front = slice (0 * chunk) ((0 + 1) * chunk) blob in
    absurd (
      omega (
        arith,
        bounded.1 later,
        length-append front (joined blob chunk 1 k),
        ap length (joined_all blob chunk n covers),
      ))

-- A server that cuts a message in protocol version 3 so that a later payload begins with text that
-- reads as a supported header sends what no client can put together again: popping exactly those
-- messages, a client never receives the serialized message that was sent.
pub receive_whole-lossy :
    (core : Core) (mime blob : Bytes) (messages : List Bytes) (pops rest : List Pop)
    (w : ProtocolVersion) (h : Headers)
    → let size = length blob in
      let c = chunk_length core.chunk_messages_larger_than_bytes in
      IsHeaderValue mime
      → (core.is_server && chunks_at core.chunk_messages_larger_than_bytes size) ≡ true
      → match_header (slice (0 * c) ((0 + 1) * c) blob) ≡ none
      → HeaderFrom blob c 1 (ceil_div size c - 1)
      → check_and_chunk core version_3 mime blob ≡ ok messages
      → receive_whole false (map popped messages ++ pops) ≢ (ok (w, h, blob), rest)
receive_whole-lossy core mime blob messages pops rest w h typed cut first later made =
    let size = length blob in
    let c = chunk_length core.chunk_messages_larger_than_bytes in
    let (pos_chunk, larger) = cut-bounds core mime blob messages cut in
    let some_chunk = ceil_div_pos size c pos_chunk (omega arith) in
    let count : ceil_div size c ≡ suc (ceil_div size c - 1) = omega arith in
    let covers = (ceil_div_bounds size c pos_chunk (omega arith)).0 in
    rw (check_and_chunk-cut core mime blob messages cut made) (
      subst
        (λ n.
          receive_whole false
            (map popped (chunk_messages (common_headers version_3 mime n) blob c 0 n) ++ pops)
          ≢ (ok (w, h, blob), rest))
        (sym count)
        (lossy_chunks mime blob c (ceil_div size c - 1) pops rest w h typed
          (subst (λ n. size ≤ n * c) count covers) first later))
