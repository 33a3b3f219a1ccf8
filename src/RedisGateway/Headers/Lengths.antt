-- ===== src/RedisGateway/Headers/Lengths.antt =====
-- The length of what `_extract_supported_headers` leaves of a message.
use pysoa.Prelude.{
  ℕ, zero, suc, ◌≤◌, ◌<◌, ◌≡◌, ap, some, arith, Bytes, length, Option-cases, inl, inr,
}
use pysoa.RedisGateway.Headers.{
  Found, match_header, Headers, set_header, extract_loop, extract_supported_headers,
}
use pysoa.RedisGateway.Headers.Extraction.{
  IsHeaderValue, match_header-Shrinks, extract_loop-none, extract_loop-chunk_payload, chunk_message,
}

extract_loop-length-le :
    (f : ℕ) (h : Headers) (s : Bytes) → length (extract_loop f h s).1 ≤ length s
unfolding extract_loop
extract_loop-length-le zero h s = omega arith
extract_loop-length-le (suc f) h s = elim (Option-cases (match_header s)) [
  | inl stop ↦ omega (arith, ap (λ p. length p.1) (extract_loop-none (suc f) h s stop))
  | inr ((n, v, rest), go) ↦
      rw (go, extract_loop)
        (omega (
          arith,
          extract_loop-length-le f (set_header h n v) rest,
          match_header-Shrinks s n v rest go,
        ))
]

extract_loop-length-lt :
    (f : ℕ) (h : Headers) (s : Bytes) (m : Found)
    → match_header s ≡ some m
    → length (extract_loop (suc f) h s).1 < length s
unfolding extract_loop
extract_loop-length-lt f h s (n, v, rest) go =
    rw (go, extract_loop)
      (omega (
        arith,
        extract_loop-length-le f (set_header h n v) rest,
        match_header-Shrinks s n v rest go,
      ))

module _ (mime count id payload : Bytes) where
  -- What is left of a chunk's message is never longer than the payload, and is shorter where the
  -- payload begins with a header.
  pub length-extract_supported_headers-chunk :
      IsHeaderValue mime
      → IsHeaderValue count
      → IsHeaderValue id
      → let left = (extract_supported_headers (chunk_message mime count id payload)).1 in
        (length left ≤ length payload)
        × ((m : Found) → match_header payload ≡ some m → length left < length payload)
  unfolding extract_supported_headers
  length-extract_supported_headers-chunk hm hc hi =
      rw (extract_loop-chunk_payload mime count id payload _ hm hc hi)
        (extract_loop-length-le _ _ payload, extract_loop-length-lt _ _ payload)
