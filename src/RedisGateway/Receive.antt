-- ===== src/RedisGateway/Receive.antt =====
-- The receiving half of RedisTransportCore (redis_gateway/core.py): `_receive_message`, the loop
-- over chunks, and `receive_message`.
use pysoa.Prelude.{
  ℕ, Bool, true, false, ◌&&◌, Option, none, some, List, [], ◌∷◌, ◌++◌, Bytes, ltb, if◌then◌else◌, ℤ,
  ltz, eqz, add_one, parse_int,
}
use pysoa.Errors.{
  Result, ok, err, invalid_message, message_receive_timeout, message_receive_error, value_error,
  ◌>>=◌,
}
use pysoa.RedisGateway.Protocol.{ProtocolVersion, extract_version}
use pysoa.RedisGateway.Headers.{Headers, extract_supported_headers}
use pysoa.RedisGateway.Core.{Core, Serializer, resolve_serializer}

-- What one `blpop` comes back with: a message, nothing within the timeout, or an exception.
pub data Pop : Type 0 where
  popped : Bytes → Pop
  nothing : Pop
  failure : Pop

-- A reading of the queue returns its result and the pops that are left.
abbrev pub Reading : Type 0 → Type 0
Reading A = Result A × List Pop

abbrev pub received : Pop → Result Bytes
received (popped m) = ok m
received nothing = err message_receive_timeout
received failure = err message_receive_error

-- `_receive_message`. Where the list of pops ends, nothing more arrives.
unfoldable pub receive_raw : List Pop → Reading Bytes
receive_raw [] = (err message_receive_timeout, [])
receive_raw (p ∷ pops) = (received p, pops)

pub record Frame : Type 0 where
  pub version : ProtocolVersion
  pub headers : Headers
  pub payload : Bytes

unfoldable pub parse_frame : Bytes → Result Frame
parse_frame m = do
  found ← extract_version m
  ok (record {
    version = found.0;
    headers = (extract_supported_headers found.1).0;
    payload = (extract_supported_headers found.1).1;
  })

-- int(value)
unfoldable pub int_of : Bytes → Result ℤ
int_of s = elim (parse_int s) [ none ↦ err value_error | some n ↦ ok n ]

-- `if not test: raise InvalidMessageError`
abbrev pub require : Bool → Result (Unit {0})
require test = if test then ok tt else err invalid_message

-- The checks on the headers of a further chunk.
unfoldable pub check_chunk : ℤ → ℤ → Option Bytes → Option Bytes → Result (Unit {0})
check_chunk count expected (some chunk_count) (some chunk_id) = do
  n ← int_of chunk_count
  same ← require (eqz n count)
  k ← int_of chunk_id
  require (eqz k expected)
check_chunk count expected _ _ = err invalid_message

unfoldable pub next_chunk : ℤ → ℤ → Pop → Result Frame
next_chunk count expected p = do
  m ← received p
  frame ← parse_frame m
  checked ← check_chunk count expected frame.headers.count frame.headers.id
  ok frame

-- `while chunk_id < chunk_count`. Past the checks `chunk_id` is the expected one, and `chunk_count`
-- is as before. Each round takes a pop; where none is left, `blpop` times out.
unfoldable pub receive_chunks :
    ProtocolVersion → ℤ → ℤ → Bytes → List Pop → Reading (ProtocolVersion × Bytes)
receive_chunks version id count message [] =
    if ltz id count then (err message_receive_timeout, []) else (ok (version, message), [])
receive_chunks version id count message (p ∷ pops) = elim (ltz id count) [
  | false ↦ (ok (version, message), p ∷ pops)
  | true ↦ elim (next_chunk count (add_one id) p) [
    | err e ↦ (err e, pops)
    | ok frame ↦ receive_chunks frame.version (add_one id) count (message ++ frame.payload) pops
  ]
]

-- The headers that name the serializer, the version of the last chunk, and the whole message.
abbrev pub Whole : Type 0
Whole = ProtocolVersion × Headers × Bytes

abbrev pub with_headers : Headers → Reading (ProtocolVersion × Bytes) → Reading Whole
with_headers h (ok (v, m), pops) = (ok (v, h, m), pops)
with_headers h (err e, pops) = (err e, pops)

abbrev pub start_chunks : Frame → Result ℤ → Result ℤ → List Pop → Reading Whole
start_chunks frame (ok id) (ok count) pops =
    with_headers frame.headers (receive_chunks frame.version id count frame.payload pops)
start_chunks frame (ok id) (err e) pops = (err e, pops)
start_chunks frame (err e) count pops = (err e, pops)

-- `if 'chunk-count' in headers`
unfoldable pub assemble : Bool → Frame → Option Bytes → Option Bytes → List Pop → Reading Whole
assemble is_server frame none id pops = (ok (frame.version, frame.headers, frame.payload), pops)
assemble is_server frame (some count) none pops = (err invalid_message, pops)
assemble is_server frame (some count) (some id) pops =
    if is_server
    then (err invalid_message, pops)
    else start_chunks frame (int_of id) (int_of count) pops

abbrev pub assemble_parsed : Bool → Result Frame → List Pop → Reading Whole
assemble_parsed is_server (err e) pops = (err e, pops)
assemble_parsed is_server (ok frame) pops =
    assemble is_server frame frame.headers.count frame.headers.id pops

abbrev pub assemble_received : Bool → Reading Bytes → Reading Whole
assemble_received is_server (err e, pops) = (err e, pops)
assemble_received is_server (ok m, pops) = assemble_parsed is_server (parse_frame m) pops

-- `receive_message` up to the whole serialized message
unfoldable pub receive_whole : Bool → List Pop → Reading Whole
unfolding receive_raw assemble
receive_whole is_server pops = assemble_received is_server (receive_raw pops)

-- `'content-type' in headers and headers['content-type'] in Serializer.all_supported_mime_types`
unfoldable pub choose_serializer :
    {A : Type 0} → List (Serializer A) → Serializer A → Option Bytes → Serializer A
unfolding resolve_serializer
choose_serializer known default none = default
choose_serializer known default (some mime) = elim (resolve_serializer known mime) [
  | ok s ↦ s
  | err _ ↦ default
]

-- The decoded dictionary, by the entries that the transport reads. `expiry` is `meta.__expiry__`.
pub record Message (M B : Type 0) : Type 0 where
  pub request_id : Option ℕ
  pub expiry : Option ℕ
  pub others : M
  pub body : B

-- ReceivedMessage, with the two entries that the transport adds to `meta`
pub record ReceivedMessage (M B : Type 0) : Type 0 where
  pub request_id : ℕ
  pub serializer : Serializer (Message M B)
  pub protocol_version : ProtocolVersion
  pub others : M
  pub body : B

-- An expiry of 0 is false, as a missing one is.
unfoldable pub is_message_expired : ℕ → Option ℕ → Bool
is_message_expired now none = false
is_message_expired now (some expiry) = ltb 0 expiry && ltb expiry now

module _ {M B : Type 0} (core : Core) (known : List (Serializer (Message M B)))
    (default : Serializer (Message M B)) where
  -- `message.get('request_id')`
  unfoldable pub with_request_id :
      Serializer (Message M B)
      → ProtocolVersion
      → Message M B
      → Option ℕ
      → Result (ReceivedMessage M B)
  with_request_id s version m none = err invalid_message
  with_request_id s version m (some id) = ok (record {
    request_id = id;
    serializer = s;
    protocol_version = version;
    others = m.others;
    body = m.body;
  })

  unfoldable pub decode : ℕ → Whole → Result (ReceivedMessage M B)
  unfolding choose_serializer is_message_expired with_request_id
  decode now (version, headers, blob) = do
    let s = choose_serializer known default headers.type_of_content
    m ← s.blob_to_dict blob
    if is_message_expired now m.expiry
        then err message_receive_timeout
        else with_request_id s version m m.request_id

  abbrev decode_reading : ℕ → Reading Whole → Reading (ReceivedMessage M B)
  decode_reading now (r, pops) = (r >>= decode now, pops)

  -- `connected` says whether the backend gives a connection.
  unfoldable pub receive_message : ℕ → Bool → List Pop → Reading (ReceivedMessage M B)
  unfolding receive_whole decode
  receive_message now connected pops =
      if connected
      then decode_reading now (receive_whole core.is_server pops)
      else (err message_receive_error, pops)
