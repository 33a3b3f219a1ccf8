-- ===== src/Logging/Syslog/Packets.antt =====
-- The packets that `emit` of SyslogHandler sends of a record.
use pysoa.Prelude.{
  ℕ, zero, suc, ◌+◌, ◌-◌, ◌≤◌, ◌<◌, ◌≡◌, refl, ap, ◌∙◌, false, Option, none, some, List, [], ◌∷◌,
  ◌++◌, arith, Bytes, length, length-append, All, Bool-cases, inl, inr, ℤ, pos, negsuc, ltz, ltb,
  is_empty, codes, decimal,
}
use pysoa.Logging.Syslog.Utf8.{good_length}
use pysoa.Logging.Syslog.{
  cleanly_slice_encoded_string, minus, subtractor, begun, continued, fragments, Text, encode,
  Handler, fragment, packet, preamble_of, message_length_limit, chunk_length_limit, emit_parts,
  fragment_parts,
}
use pysoa.Logging.Syslog.Slices.{IsChar}
use pysoa.Logging.Syslog.Fragments.{concat, parts_of, Fit, Room, fragments-parts_of}

minus-pos : (z : ℤ) (k n : ℕ) → minus z k ≡ pos n → z ≡ pos (n + k)
unfolding minus
minus-pos (pos m) k n h = elim (Bool-cases (ltb m k)) [
  | inl less ↦ absurd (ground (arith, h, less))
  | inr more ↦ ap pos (ground (arith, h, more))
]
minus-pos (negsuc m) k n h = absurd (ground (arith, h))

pos-injective : (m n : ℕ) → pos m ≡ pos n → m ≡ n
pos-injective m n h = ground (arith, h)

-- what the limit of a chunk leaves for all else
chunk_length_limit_sum :
    (h : Handler) (start : Bytes) (limit : ℕ)
    → chunk_length_limit h start ≡ pos limit
    → h.maximum_length
      ≡ limit + 12 + length start + length h.priority + length h.suffix + length h.prefix
chunk_length_limit_sum h start limit e =
    let e1 = minus-pos _ 12 limit e in
    let e2 = minus-pos _ (length start) _ e1 in
    let e3 = minus-pos _ (length h.priority) _ e2 in
    let e4 = minus-pos _ (length h.suffix) _ e3 in
    pos-injective _ _ (minus-pos _ (length h.prefix) _ e4)

length-begun : (i : ℕ) (chunk : Bytes) → length (begun i chunk) ≡ subtractor i + length chunk
length-begun i chunk = elim (Bool-cases (ltb 1 i)) [
  | inl more ↦ rw more (omega (arith, length-append (decimal i) (codes ") ..." ++ chunk)))
  | inr one ↦ rw one (omega arith)
]

length-continued : (rest chunk : Bytes) → length (continued rest chunk) ≤ length chunk + 12
length-continued rest chunk = elim (Bool-cases (is_empty rest)) [
  | inl last ↦ rw last (omega arith)
  | inr more ↦ rw more (omega (arith, length-append chunk (codes "... (cont'd)")))
]

length-packet :
    (h : Handler) (part : Bytes)
    → length (packet h part)
      ≡ length h.priority + (length h.prefix + (length part + length h.suffix))
length-packet h part = omega (
  arith,
  length-append h.priority (h.prefix ++ (part ++ h.suffix)),
  length-append h.prefix (part ++ h.suffix),
  length-append part h.suffix,
)

module _ (h : Handler) (start : Bytes) (limit : ℕ)
    (roomy : chunk_length_limit h start ≡ pos limit) where
  parts_of-le :
      (i : ℕ) (texts : List Text)
      → Fit limit i texts
      → All
          (λ part. length part ≤ h.maximum_length)
          (parts_of (λ part. packet h (start ++ part)) i texts)
  parts_of-le i [] fit = tt
  parts_of-le i (t ∷ ts) (_, le, fit) =
      let chunk = begun i (encode t) in
      let part = continued (encode (concat ts)) chunk in
      (
        omega (
          arith,
          length-packet h (start ++ part),
          length-append start part,
          length-continued (encode (concat ts)) chunk,
          length-begun i (encode t),
          le,
          chunk_length_limit_sum h start limit roomy,
        ),
        parts_of-le (i + 1) ts fit,
      )

-- A handler that fragments a record that is too long for one packet sends, after at most one round
-- for each character and one more, packets that hold the texts of a division of the record behind
-- its preamble, in their order; none of these is empty, and no packet is longer than the maximum.
-- The condition is that the preamble and the parts' numbers leave room for any character.
pub emit_parts-parts_of :
    (fuel : ℕ) (h : Handler) (formatted start to_chunk : Text) (message : Option Text) (limit : ℕ)
    → h.overflow ≡ fragment
    → ltz (pos (length (encode formatted))) (message_length_limit h) ≡ false
    → preamble_of formatted message ≡ (start, to_chunk)
    → All IsChar to_chunk
    → chunk_length_limit h (encode start) ≡ pos limit
    → Room limit 1 (length to_chunk)
    → length to_chunk < fuel
    → let whole = λ (part : Bytes). packet h (encode start ++ part) in
      (texts : List Text) × (emit_parts fuel h formatted message ≡ some (parts_of whole 1 texts))
      × (concat texts ≡ to_chunk)
      × Fit limit 1 texts
      × All (λ part. length part ≤ h.maximum_length) (parts_of whole 1 texts)
unfolding emit_parts
emit_parts-parts_of fuel h formatted start to_chunk message limit overflows long split chars roomy
      room enough =
    let whole = λ (part : Bytes). packet h (encode start ++ part) in
    let (texts, sent, same, fit) =
      fragments-parts_of whole limit fuel 1 to_chunk chars enough room in
    let fragmented : emit_parts fuel h formatted message ≡ fragment_parts fuel h (start, to_chunk) =
      rw (long, overflows, split) refl in
    (
      texts,
      fragmented ∙ ap (λ l. fragments fuel whole l 1 (encode to_chunk)) roomy ∙ sent,
      same,
      fit,
      parts_of-le h (encode start) limit roomy 1 texts fit,
    )

-- a slice up to a position that lies before the start is empty
cleanly_slice_encoded_string_empty :
    (n : ℕ) (s : Bytes) → length s ≤ suc n → cleanly_slice_encoded_string s (negsuc n) ≡ ([], s)
unfolding cleanly_slice_encoded_string good_length
cleanly_slice_encoded_string_empty n s h =
    let none_left : length s - suc n ≡ 0 = omega arith in rw none_left refl

minus-negsuc : (n k : ℕ) → minus (negsuc n) k ≡ negsuc (n + k)
unfolding minus
minus-negsuc n k = refl

-- Where the preamble is so long that the limit of the chunks is below 0, and what is left to send is
-- no longer than that is below 0, the loop never ends: however many rounds it takes, it is still
-- running.
pub fragments_endless :
    (fuel : ℕ) (wrap : Bytes → Bytes) (n i c : ℕ) (s : Bytes)
    → length (c ∷ s) ≤ suc n
    → fragments fuel wrap (negsuc n) i (c ∷ s) ≡ none
unfolding fragments
fragments_endless zero wrap n i c s h = refl
fragments_endless (suc fuel) wrap n i c s h =
    let k = subtractor i in
    let lower : minus (negsuc n) k ≡ negsuc (n + k) = minus-negsuc n k in
    rw
      (
        lower,
        cleanly_slice_encoded_string_empty (n + k) (c ∷ s) (omega (arith, h)),
        fragments_endless fuel wrap n (i + 1) c s h,
      )
      refl
