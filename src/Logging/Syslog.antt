-- ===== src/Logging/Syslog.antt =====
-- SyslogHandler of pysoa/common/logging.py: how a record is cut into packets. A record is its UTF-8
-- bytes.
pub mod Utf8
pub mod Slices
pub mod Fragments
pub mod Packets
use pysoa.Prelude.{
  ℕ, zero, suc, ◌+◌, ◌-◌, Bool, true, false, Option, none, some, List, [], ◌∷◌, ◌++◌, Bytes, codes,
  ltb, if◌then◌else◌, length, take, drop, ℤ, pos, negsuc, decimal, is_empty, ◌&&◌, bytes_eq, ltz,
}
use pysoa.Logging.Syslog.Utf8.{good_length}

-- s[:n] and s[n:], where a negative number counts from the end
abbrev pub until : ℤ → Bytes → Bytes
until (pos n) s = take n s
until (negsuc n) s = take (length s - suc n) s

abbrev pub from_on : ℤ → Bytes → Bytes
from_on (pos n) s = drop n s
from_on (negsuc n) s = drop (length s - suc n) s

-- `sliced` and `remaining`; where all of `sliced` is decoded, `e.start` would be its length
unfoldable pub cleanly_slice_encoded_string : Bytes → ℤ → Bytes × Bytes
unfolding good_length
cleanly_slice_encoded_string s limit =
    let sliced = until limit s in
    (take (good_length sliced) sliced, drop (good_length sliced) sliced ++ from_on limit s)

-- n - k
unfoldable pub minus : ℤ → ℕ → ℤ
minus (pos n) k = if ltb n k then negsuc (k - n - 1) else pos (n - k)
minus (negsuc n) k = negsuc (n + k)

-- what the number of a further message takes of the limit
abbrev pub subtractor : ℕ → ℕ
subtractor i = if ltb 1 i then 14 + length (decimal i) else 0

abbrev pub begun : ℕ → Bytes → Bytes
begun i chunk =
    if ltb 1 i then codes "(cont'd #" ++ (decimal i ++ (codes ") ..." ++ chunk)) else chunk

abbrev pub continued : Bytes → Bytes → Bytes
continued remaining chunk = if is_empty remaining then chunk else chunk ++ codes "... (cont'd)"

abbrev pub prepend : Bytes → Option (List Bytes) → Option (List Bytes)
prepend part none = none
prepend part (some parts) = some (part ∷ parts)

-- `while remaining_message`, for as many rounds as the first number says; `none` if it then still runs
unfoldable pub fragments : ℕ → (Bytes → Bytes) → ℤ → ℕ → Bytes → Option (List Bytes)
fragments zero packet limit i remaining = none
fragments (suc fuel) packet limit i [] = some []
fragments (suc fuel) packet limit i (c ∷ s) =
    let (chunk, remaining) = cleanly_slice_encoded_string (c ∷ s) (minus limit (subtractor i)) in
    prepend (packet (continued remaining (begun i chunk)))
      (fragments fuel packet limit (i + 1) remaining)

-- A text as the row of the UTF-8 bytes of its characters.
abbrev pub Text : Type 0
Text = List Bytes

abbrev pub encode : Text → Bytes
encode [] = []
encode (c ∷ cs) = c ++ encode cs

abbrev starts_with : Text → Text → Bool
starts_with [] text = true
starts_with (c ∷ cs) [] = false
starts_with (c ∷ cs) (d ∷ ds) = bytes_eq c d && starts_with cs ds

abbrev one_later : Option ℕ → Option ℕ
one_later none = none
one_later (some n) = some (suc n)

-- text.index(part): `none` is the ValueError
unfoldable pub index_of : Text → Text → Option ℕ
index_of part [] = if starts_with part [] then some 0 else none
index_of part (c ∷ cs) =
    let later = one_later (index_of part cs) in if starts_with part (c ∷ cs) then some 0 else later

-- The preamble and what is cut. `none` is a getMessage that raises TypeError.
abbrev split_at : Text → Option ℕ → Text × Text
split_at formatted (some index) = (take index formatted, drop index formatted)
split_at formatted none = (take 30 formatted ++ codes " " ∷ [], drop 30 formatted)

unfoldable pub preamble_of : Text → Option Text → Text × Text
unfolding index_of
preamble_of formatted none = split_at formatted none
preamble_of formatted (some message) = split_at formatted (index_of (take 40 message) formatted)

pub data Overflow : Type 0 where
  fragment truncate : Overflow

-- what `emit` has of the handler and of the record's level
pub record Handler : Type 0 where
  pub maximum_length : ℕ
  pub overflow : Overflow
  pub priority : Bytes
  pub prefix : Bytes
  pub suffix : Bytes

abbrev pub packet : Handler → Bytes → Bytes
packet h part = h.priority ++ (h.prefix ++ (part ++ h.suffix))

abbrev pub message_length_limit : Handler → ℤ
message_length_limit h =
    minus (minus (minus (pos h.maximum_length) (length h.prefix)) (length h.suffix))
      (length h.priority)

abbrev pub chunk_length_limit : Handler → Bytes → ℤ
chunk_length_limit h start = minus (minus (message_length_limit h) (length start)) 12

abbrev pub fragment_parts : ℕ → Handler → Text × Text → Option (List Bytes)
fragment_parts fuel h (start, to_chunk) =
    fragments fuel (λ part. packet h (encode start ++ part)) (chunk_length_limit h (encode start)) 1
      (encode to_chunk)

abbrev overflow_parts : ℕ → Handler → Text → Option Text → Overflow → Option (List Bytes)
overflow_parts fuel h formatted message truncate =
    some
      (packet h (cleanly_slice_encoded_string (encode formatted) (message_length_limit h)).0 ∷ [])
overflow_parts fuel h formatted message fragment =
    fragment_parts fuel h (preamble_of formatted message)

-- the parts that `emit` sends
unfoldable pub emit_parts : ℕ → Handler → Text → Option Text → Option (List Bytes)
unfolding fragments preamble_of
emit_parts fuel h formatted message =
    if ltz (pos (length (encode formatted))) (message_length_limit h)
    then some (packet h (encode formatted) ∷ [])
    else overflow_parts fuel h formatted message h.overflow
