-- ===== src/Client/Headers/Switches.antt =====
-- The switches and the correlation ID of the context headers, of pysoa/client/client.py.
use pysoa.Prelude.{
  String, ◌≡◌, refl, Bool, true, false, ◌||◌, Option, none, some, List, [], ◌∷◌, ◌++◌, ℤ, eqz,
  eqz_sound, eqz_refl, All, arith, Bool-cases, inl, inr,
}
use pysoa.Server.Types.{Context}
use pysoa.Client.Headers.{
  ContextDict, or_else, member, add, add_all, union, base_correlation_id, switches_of,
  make_context_header, parallel_headers,
}

-- No switch stands twice.
abbrev pub Distinct : List ℤ → Type 0
Distinct [] = Unit
Distinct (x ∷ xs) = (member x xs ≡ false) × Distinct xs

member-append : (s : ℤ) (xs ys : List ℤ) → member s (xs ++ ys) ≡ member s xs || member s ys
member-append s [] ys = refl
member-append s (x ∷ xs) ys = ground (arith, member-append s xs ys)

in_already : (s x : ℤ) (xs : List ℤ) → member x xs ≡ true → member s xs ≡ eqz x s || member s xs
in_already s x xs e = elim (Bool-cases (eqz x s)) [
  | inl same ↦ rw same (rw (eqz_sound x s same) at e)
  | inr differs ↦ rw differs refl
]

member-add : (s x : ℤ) (xs : List ℤ) → member s (add x xs) ≡ eqz x s || member s xs
member-add s x xs = elim (Bool-cases (member x xs)) [
  | inl e ↦ rw e (in_already s x xs e)
  | inr e ↦ rw e (ground (arith, member-append s xs (x ∷ [])))
]

member-add_all : (s : ℤ) (ys xs : List ℤ) → member s (add_all ys xs) ≡ member s ys || member s xs
member-add_all s [] xs = refl
member-add_all s (y ∷ ys) xs = ground (arith, member-add_all s ys (add y xs), member-add s y xs)

member-union : (s : ℤ) (xs ys : List ℤ) → member s (union xs ys) ≡ member s xs || member s ys
member-union s xs ys = ground (arith, member-add_all s ys (add_all xs []), member-add_all s xs [])

eqz_swap : (x y : ℤ) → eqz y x ≡ false → eqz x y ≡ false
eqz_swap x y e = elim (Bool-cases (eqz x y)) [
  | inl same ↦ absurd (ground (arith, eqz_refl y, rw (eqz_sound x y same) at e))
  | inr differs ↦ differs
]

split_or : (a b : Bool) → a || b ≡ false → (a ≡ false) × (b ≡ false)
split_or a b e = ground (arith, e)

append-Distinct :
    (x : ℤ) (xs : List ℤ) → member x xs ≡ false → Distinct xs → Distinct (xs ++ x ∷ [])
append-Distinct x [] e d = (refl, tt)
append-Distinct x (y ∷ xs) e d =
    let (head, rest) = split_or (eqz y x) (member x xs) e in
    (
      ground (arith, member-append y xs (x ∷ []), d.0, eqz_swap x y head),
      append-Distinct x xs rest d.1,
    )

add-Distinct : (x : ℤ) (xs : List ℤ) → Distinct xs → Distinct (add x xs)
add-Distinct x xs d = elim (Bool-cases (member x xs)) [
  | inl e ↦ rw e d
  | inr e ↦ rw e (append-Distinct x xs e d)
]

add_all-Distinct : (ys xs : List ℤ) → Distinct xs → Distinct (add_all ys xs)
add_all-Distinct [] xs d = d
add_all-Distinct (y ∷ ys) xs d = add_all-Distinct ys (add y xs) (add-Distinct y xs d)

union-Distinct : (xs ys : List ℤ) → Distinct (union xs ys)
union-Distinct xs ys = add_all-Distinct ys (add_all xs []) (add_all-Distinct xs [] tt)

member-unions :
    (s : ℤ) (xs ys zs : List ℤ)
    → member s (union xs (union ys zs)) ≡ member s xs || (member s ys || member s zs)
member-unions s xs ys zs = rw (member-union s xs (union ys zs), member-union s ys zs) refl

-- The correlation ID that a header has: what the call's dictionary holds, else the argument, else
-- what the client's context holds, else the new one.
abbrev pub chosen_id : ContextDict → String → Option String → Option ContextDict → Option String
chosen_id context new_id given none = base_correlation_id context.correlation_id new_id given
chosen_id context new_id given (some extra) =
    or_else extra.correlation_id (base_correlation_id context.correlation_id new_id given)

module _ (context : ContextDict) (switches : List ℤ) (given : Option String) where
  pub make_context_header_lem :
      (new_id : String) (extra : Option ContextDict)
      → let (header, left) = make_context_header context new_id switches given extra in
        ((s : ℤ)
          → member s header.switches
            ≡ member s (or_else context.switches [])
              || (member s switches || member s (switches_of extra)))
        × Distinct header.switches
        × (header.correlation_id ≡ chosen_id context new_id given extra)
        × (switches_of left ≡ [])
  unfolding make_context_header
  make_context_header_lem new_id none =
      let own = or_else context.switches [] in
      (λ s. member-unions s own switches [], union-Distinct own (union switches []), refl, refl)
  make_context_header_lem new_id (some extra) =
      let own = or_else context.switches [] in
      let popped_switches = or_else extra.switches [] in
      (
        λ s. member-unions s own switches popped_switches,
        union-Distinct own (union switches popped_switches),
        refl,
        refl,
      )

  later :
      (new_ids : List String) (extra : Option ContextDict)
      → switches_of extra ≡ []
      → All
          (λ (h : Context).
            (s : ℤ)
            → member s h.switches ≡ member s (or_else context.switches []) || member s switches)
          (parallel_headers context switches given extra new_ids)
  unfolding parallel_headers
  later [] extra e = tt
  later (new_id ∷ new_ids) extra e =
      let (members, _, _, left) = make_context_header_lem new_id extra in
      (λ s. ground (arith, members s, e), later new_ids _ left)

  -- Of the requests of call_jobs_parallel only the first carries the switches of the call's context
  -- dictionary: those of every later one are exactly the switches of the client's own context and of
  -- the argument.
  pub parallel_headers-first_only :
      (new_id : String) (new_ids : List String) (extra : Option ContextDict)
      → (first : Context) × (rest : List Context) × (parallel_headers context switches given extra
            (new_id ∷ new_ids)
          ≡ first ∷ rest)
        × ((s : ℤ)
            → member s first.switches
              ≡ member s (or_else context.switches [])
                || (member s switches || member s (switches_of extra)))
        × All
            (λ (h : Context).
              (s : ℤ)
              → member s h.switches ≡ member s (or_else context.switches []) || member s switches)
            rest
  unfolding parallel_headers
  parallel_headers-first_only new_id new_ids extra =
      let (members, _, _, left) = make_context_header_lem new_id extra in
      (_, _, refl, members, later new_ids _ left)
