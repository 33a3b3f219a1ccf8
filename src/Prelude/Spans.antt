-- ===== src/Prelude/Spans.antt =====
-- The longest run of bytes that pass a test, as a greedy `[...]*` of a regular expression takes it.
use Prim.Native.Nat.{ℕ, ◌≤◌, ◌+◌}
use mathlib.Core.Path.{◌≡◌}
use mathlib.Core.Bool.{Bool, true, false}
use mathlib.Core.Option.{some}
use mathlib.Core.List.{[], ◌∷◌, ◌++◌}
use native.Mathlib.Omega.{arith}
use pysoa.Prelude.Tests.{if◌then◌else◌}
use pysoa.Prelude.Lists.{All, length}
use pysoa.Prelude.ByteStrings.{Bytes, strip_prefix}

-- the run
unfoldable pub run_of : (ℕ → Bool) → Bytes → Bytes
run_of p [] = []
run_of p (c ∷ s) = if p c then c ∷ run_of p s else []

-- what is left behind it
unfoldable pub rest_of : (ℕ → Bool) → Bytes → Bytes
rest_of p [] = []
rest_of p (c ∷ s) = if p c then rest_of p s else c ∷ s

module _ (p : ℕ → Bool) where
  pub run_of-append :
      (v : Bytes) (c : ℕ) (s : Bytes)
      → All (λ x. p x ≡ true) v
      → p c ≡ false
      → run_of p (v ++ c ∷ s) ≡ v
  unfolding run_of
  run_of-append [] c s h stop = rw stop
  run_of-append (x ∷ v) c s h stop = rw (h.0, run_of-append v c s h.1 stop)

  pub rest_of-append :
      (v : Bytes) (c : ℕ) (s : Bytes)
      → All (λ x. p x ≡ true) v
      → p c ≡ false
      → rest_of p (v ++ c ∷ s) ≡ c ∷ s
  unfolding rest_of
  rest_of-append [] c s h stop = rw stop
  rest_of-append (x ∷ v) c s h stop = rw h.0 (rest_of-append v c s h.1 stop)

  pub length-rest_of-le : (s : Bytes) → length (rest_of p s) ≤ length s
  unfolding rest_of
  length-rest_of-le [] = omega arith
  length-rest_of-le (c ∷ s) = ground (arith, length-rest_of-le s)

pub length-strip_prefix :
    (p s r : Bytes) → strip_prefix p s ≡ some r → length p + length r ≡ length s
unfolding strip_prefix
length-strip_prefix [] s r h = ground arith
length-strip_prefix (c ∷ p) [] r h = ground arith
length-strip_prefix (c ∷ p) (x ∷ s) r h = ground (arith, length-strip_prefix p s r)
