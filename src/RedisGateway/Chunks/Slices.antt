-- ===== src/RedisGateway/Chunks/Slices.antt =====
-- The slices of a serialized message, and their number.
use native.Mathlib.Nat.{add-zero, zero-add, div-add-mod', mod-lt}
use pysoa.Prelude.{
  ℕ, zero, suc, ◌+◌, ◌-◌, ◌*◌, ◌≤◌, ◌<◌, ◌≡◌, refl, ◌∙◌, ap, sym, [], ◌∷◌, ◌++◌, arith, Bytes,
  length, drop, take-append-drop,
}
use pysoa.RedisGateway.Chunks.{slice, ceil_div}

-- the slices of chunk `i` and of the `n - 1` after it, joined
abbrev pub joined : Bytes → ℕ → ℕ → ℕ → Bytes
joined blob chunk i zero = []
joined blob chunk i (suc n) =
    slice (i * chunk) ((i + 1) * chunk) blob ++ joined blob chunk (i + 1) n

drop_empty : (n : ℕ) → drop {A = ℕ} n [] ≡ []
drop_empty zero = refl
drop_empty (suc n) = refl

drop-drop : (a b : ℕ) (s : Bytes) → drop a (drop b s) ≡ drop (b + a) s
drop-drop a zero s = ap (λ n. drop n s) (omega arith)
drop-drop a (suc b) [] = drop_empty a ∙ sym (drop_empty (suc b + a))
drop-drop a (suc b) (x ∷ s) =
    drop-drop a b s ∙ ap (λ n. drop n (x ∷ s)) {x = suc (b + a)} (omega arith)

drop_all : (n : ℕ) (s : Bytes) → length s ≤ n → drop n s ≡ []
drop_all zero [] h = refl
drop_all zero (x ∷ s) h = absurd (omega arith)
drop_all (suc n) [] h = refl
drop_all (suc n) (x ∷ s) h = drop_all n s (omega arith)

chunk_step : (i chunk : ℕ) → (i + 1) * chunk ≡ i * chunk + chunk
chunk_step i chunk = grind arith

slice-drop :
    (blob : Bytes) (chunk i : ℕ)
    → slice (i * chunk) ((i + 1) * chunk) blob ++ drop ((i + 1) * chunk) blob
      ≡ drop (i * chunk) blob
slice-drop blob chunk i =
    let width : (i + 1) * chunk - i * chunk ≡ chunk = omega (arith, chunk_step i chunk) in
    rw (width, chunk_step i chunk, ← drop-drop chunk (i * chunk) blob)
      (take-append-drop chunk (drop (i * chunk) blob))

-- Enough slices from chunk `i` on give all that stands from there on.
joined-drop :
    (blob : Bytes) (chunk i n : ℕ)
    → length blob ≤ (i + n) * chunk
    → joined blob chunk i n ≡ drop (i * chunk) blob
joined-drop blob chunk i zero h = sym (drop_all (i * chunk) blob (rw add-zero at h))
joined-drop blob chunk i (suc n) h =
    let shift : i + suc n ≡ i + 1 + n = omega arith in
    ap (λ s. slice (i * chunk) ((i + 1) * chunk) blob ++ s)
      (joined-drop blob chunk (i + 1) n (rw shift at h))
    ∙ slice-drop blob chunk i

-- `ceil_div` many chunks are enough, and no fewer are.
pub ceil_div_bounds :
    (size chunk : ℕ)
    → 0 < chunk
    → 0 < size
    → (size ≤ ceil_div size chunk * chunk) × (ceil_div size chunk * chunk < size + chunk)
ceil_div_bounds size chunk h k =
    omega (arith, div-add-mod' (size + (chunk - 1)) chunk, mod-lt (size + (chunk - 1)) h)

factor_pos : (a b : ℕ) → 0 < a * b → 0 < a
factor_pos zero b h = absurd (omega arith)
factor_pos (suc a) b h = omega arith

pub ceil_div_pos : (size chunk : ℕ) → 0 < chunk → 0 < size → 0 < ceil_div size chunk
ceil_div_pos size chunk h k =
    factor_pos (ceil_div size chunk) chunk (omega (arith, ceil_div_bounds size chunk h k))

-- Enough slices from the start on give the whole.
pub joined_all :
    (blob : Bytes) (chunk n : ℕ) → length blob ≤ n * chunk → joined blob chunk 0 n ≡ blob
joined_all blob chunk n covers =
    joined-drop blob chunk 0 n (rw zero-add covers)
    ∙ ap (λ k. drop k blob) {x = 0 * chunk} {y = 0} (omega arith)
