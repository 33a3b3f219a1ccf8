-- ===== src/RedisGateway/Core.antt =====
-- The settings of RedisTransportCore, RedisTransportClientCore and RedisTransportServerCore
-- (redis_gateway/core.py), their validators, and the serializers that they use.
use pysoa.Prelude.{
  ℕ, ◌*◌, ◌≤◌, ◌≡◌, Bool, true, false, List, [], ◌∷◌, arith, Bytes, bytes_eq, ltb, leb,
  if◌then◌else◌, ℤ, pos, negsuc,
}
use pysoa.Errors.{Result, ok, err, value_error}

-- A class that implements pysoa/common/serializer/base.py's Serializer.
pub record Serializer (A : Type 0) : Type 0 where
  pub mime_type : Bytes
  pub dict_to_blob : A → Result Bytes
  pub blob_to_dict : Bytes → Result A

-- Serializer.resolve_serializer, over the classes that the metaclass has recorded.
unfoldable pub resolve_serializer :
    {A : Type 0} → List (Serializer A) → Bytes → Result (Serializer A)
resolve_serializer [] mime_type = err value_error
resolve_serializer (s ∷ known) mime_type =
    if bytes_eq s.mime_type mime_type then ok s else resolve_serializer known mime_type

pub record Core : Type 0 where
  pub is_server : Bool
  pub maximum_message_size_in_bytes : ℕ
  pub chunk_messages_larger_than_bytes : ℤ
  pub message_expiry_in_seconds : ℕ
  pub queue_capacity : ℕ
  pub queue_full_retries : ℕ

abbrev pub minimum_chunked_message_bytes : ℕ
minimum_chunked_message_bytes = 1024 * 100

-- 0 <= value < MINIMUM_CHUNKED_MESSAGE_BYTES; negative values mean "disabled"
unfoldable pub valid_chunk_threshold : ℤ → Bool
valid_chunk_threshold (pos value) = leb minimum_chunked_message_bytes value
valid_chunk_threshold (negsuc value) = true

-- maximum_message_size_in_bytes < chunk_messages_larger_than_bytes * 5
unfoldable pub below_five_chunks : ℕ → ℤ → Bool
below_five_chunks maximum (pos chunk) = ltb maximum (chunk * 5)
below_five_chunks maximum (negsuc chunk) = false

-- The constructor of the server's core: the validator, then `__attrs_post_init__`.
unfoldable pub make_server_core : Core → Result Core
unfolding valid_chunk_threshold below_five_chunks
make_server_core settings =
    if valid_chunk_threshold settings.chunk_messages_larger_than_bytes
    then (if below_five_chunks settings.maximum_message_size_in_bytes
          settings.chunk_messages_larger_than_bytes
        then err value_error
        else ok (record settings { is_server = true }))
    else err value_error

-- The constructor of the client's core, whose `chunk_messages_larger_than_bytes` is -1.
abbrev pub make_client_core : Core → Core
make_client_core settings = record settings {
  is_server = false;
  chunk_messages_larger_than_bytes = negsuc 0;
}

-- A server core that was built with chunking enabled never cuts a message into chunks smaller than
-- the minimum, and its largest message has room for five chunks.
pub make_server_core_bounds :
    (settings core : Core) (chunk : ℕ)
    → make_server_core settings ≡ ok core
    → core.chunk_messages_larger_than_bytes ≡ pos chunk
    → (minimum_chunked_message_bytes ≤ chunk)
      × (chunk * 5 ≤ core.maximum_message_size_in_bytes)
      × (core.is_server ≡ true)
unfolding make_server_core
make_server_core_bounds settings core chunk made enabled = ground arith
