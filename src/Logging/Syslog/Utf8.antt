-- ===== src/Logging/Syslog/Utf8.antt =====
-- Python's decoder of UTF-8, as far as _cleanly_slice_encoded_string (pysoa/common/logging.py) asks
-- for the start of its first error.
use pysoa.Prelude.{ℕ, ◌+◌, Bool, ◌&&◌, Option, none, some, List, [], ◌∷◌, Bytes, leb, if◌then◌else◌}

-- A range of bytes, both ends included.
abbrev pub Range : Type 0
Range = ℕ × ℕ

abbrev pub in_range : Range → ℕ → Bool
in_range (low, high) c = leb low c && leb c high

abbrev pub any_tail : Range
any_tail = (128, 191)

-- the bytes that have to follow a first byte, if it is one
abbrev pub lead : ℕ → Option (List Range)
lead c =
    if leb c 127
    then some []
    else if in_range (194, 223) c
    then some (any_tail ∷ [])
    else if in_range (224, 224) c
    then some ((160, 191) ∷ any_tail ∷ [])
    else if in_range (237, 237) c
    then some ((128, 159) ∷ any_tail ∷ [])
    else if in_range (225, 239) c
    then some (any_tail ∷ any_tail ∷ [])
    else if in_range (240, 240) c
    then some ((144, 191) ∷ any_tail ∷ any_tail ∷ [])
    else if in_range (241, 243) c
    then some (any_tail ∷ any_tail ∷ any_tail ∷ [])
    else if in_range (244, 244) c
    then some ((128, 143) ∷ any_tail ∷ any_tail ∷ [])
    else none

-- `good` is the length of the characters that are complete, and `seen` that of the bytes after them
-- that may begin another one, which the ranges have to complete.
unfoldable pub scan : List Range → ℕ → ℕ → Bytes → ℕ
scan [] good seen [] = good + seen
scan (r ∷ rs) good seen [] = good
scan [] good seen (c ∷ s) = elim (lead c) [
  | none ↦ good + seen
  | some rs ↦ scan rs (good + seen) 1 s
]
scan (r ∷ rs) good seen (c ∷ s) = if in_range r c then scan rs good (seen + 1) s else good

-- the start of the first error of `decode('utf-8')`, or the length if there is none
unfoldable pub good_length : Bytes → ℕ
unfolding scan
good_length s = scan [] 0 0 s
