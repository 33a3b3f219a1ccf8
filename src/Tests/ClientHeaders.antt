-- ===== src/Tests/ClientHeaders.antt =====
-- The headers of requests at concrete inputs.
use pysoa.Prelude.{◌≡◌, ◌||◌, none, some, List, [], ◌∷◌, ℤ, pos, All}
use pysoa.Value.{no_fields}
use pysoa.Server.Types.{Context}
use pysoa.Client.Headers.{ContextDict, member, parallel_headers}
use pysoa.Client.Headers.Switches.{parallel_headers-first_only}

abbrev own : ContextDict
own = record { switches = some (pos 1 ∷ []); correlation_id = none; others = no_fields }

abbrev extra : ContextDict
extra = record {
  switches = some (pos 3 ∷ pos 1 ∷ []);
  correlation_id = some (some "mine");
  others = no_fields;
}

parallel_headers-first_only_example :
    (first : Context) × (rest : List Context) × (parallel_headers own
        (pos 2 ∷ [])
        none
        (some extra)
        ("a" ∷ "b" ∷ "c" ∷ [])
      ≡ first ∷ rest)
    × ((s : ℤ)
        → member s first.switches
          ≡ member s (pos 1 ∷ []) || (member s (pos 2 ∷ []) || member s (pos 3 ∷ pos 1 ∷ [])))
    × All
        (λ (h : Context).
          (s : ℤ) → member s h.switches ≡ member s (pos 1 ∷ []) || member s (pos 2 ∷ []))
        rest
parallel_headers-first_only_example =
    parallel_headers-first_only own (pos 2 ∷ []) none "a" ("b" ∷ "c" ∷ []) (some extra)
