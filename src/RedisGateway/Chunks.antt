-- ===== src/RedisGateway/Chunks.antt =====
-- RedisTransportCore._serialize_check_and_chunk_message (redis_gateway/core.py).
pub mod Slices
use pysoa.Prelude.{
  ℕ, zero, suc, ◌+◌, ◌-◌, ◌*◌, ◌/◌, Bool, false, not, ◌&&◌, List, [], ◌∷◌, ◌++◌, Bytes, ltb,
  if◌then◌else◌, length, take, drop, ℤ, pos, negsuc, decimal,
}
use pysoa.Errors.{Result, ok, err, message_too_large, ◌>>=◌}
use pysoa.RedisGateway.Protocol.{
  ProtocolVersion, prefix, supported_in, content_type_header, version_marker, chunked_responses,
}
use pysoa.RedisGateway.Headers.{header, content_type, chunk_count, chunk_id}
use pysoa.RedisGateway.Core.{Core, Serializer}

-- s[start:stop], for start <= stop
abbrev pub slice : ℕ → ℕ → Bytes → Bytes
slice start stop s = take (stop - start) (drop start s)

-- 0 < chunk_messages_larger_than_bytes < message_size_in_bytes
abbrev pub chunks_at : ℤ → ℕ → Bool
chunks_at (pos chunk) size = ltb 0 chunk && ltb chunk size
chunks_at (negsuc chunk) size = false

abbrev pub chunk_length : ℤ → ℕ
chunk_length (pos chunk) = chunk
chunk_length (negsuc _) = 0

-- int(math.ceil(size / chunk))
abbrev pub ceil_div : ℕ → ℕ → ℕ
ceil_div size chunk = (size + (chunk - 1)) / chunk

-- the message of chunk `i`, counted from 0
abbrev pub chunk_message : Bytes → Bytes → ℕ → ℕ → Bytes
chunk_message headers blob chunk i =
    headers ++ (header chunk_id (decimal (i + 1)) ++ slice (i * chunk) ((i + 1) * chunk) blob)

-- the list comprehension over range(chunk_count), from chunk `i` on, with `n` chunks left
unfoldable pub chunk_messages : Bytes → Bytes → ℕ → ℕ → ℕ → List Bytes
chunk_messages headers blob chunk i zero = []
chunk_messages headers blob chunk i (suc n) =
    chunk_message headers blob chunk i ∷ chunk_messages headers blob chunk (i + 1) n

abbrev pub common_headers : ProtocolVersion → Bytes → ℕ → Bytes
common_headers v mime n = prefix v ++ (header content_type mime ++ header chunk_count (decimal n))

unfoldable pub single_message : ProtocolVersion → Bytes → Bytes → Bytes
unfolding supported_in
single_message v mime blob =
    let typed =
      if supported_in content_type_header v then header content_type mime ++ blob else blob in
    if supported_in version_marker v then prefix v ++ typed else typed

-- all but the call of the serializer
unfoldable pub check_and_chunk : Core → ProtocolVersion → Bytes → Bytes → Result (List Bytes)
unfolding supported_in
check_and_chunk core v mime blob =
    let size = length blob in
    let chunk = chunk_length core.chunk_messages_larger_than_bytes in
    if ltb core.maximum_message_size_in_bytes size
    then err (message_too_large size)
    else if core.is_server && chunks_at core.chunk_messages_larger_than_bytes size
    then (if not (supported_in chunked_responses v)
        then err (message_too_large size)
        else ok (
            chunk_messages (common_headers v mime (ceil_div size chunk)) blob chunk 0
              (ceil_div size chunk)))
    else ok (single_message v mime blob ∷ [])

unfoldable pub serialize_check_and_chunk_message :
    {A : Type 0} → Core → ProtocolVersion → A → Serializer A → Result (List Bytes)
serialize_check_and_chunk_message core v message serializer = do
  blob ← serializer.dict_to_blob message
  check_and_chunk core v serializer.mime_type blob
