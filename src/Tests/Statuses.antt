-- ===== src/Tests/Statuses.antt =====
-- A status action at concrete inputs.
use pysoa.Prelude.{ℕ, ◌+◌, ◌≡◌, refl, true, false, Bool, none, some, List, [], ◌∷◌, String}
use pysoa.Value.{no_fields}
use pysoa.Server.Status.{CheckMethodStatus, problems, Check, Versions, status, run}
use pysoa.Server.Status.Checks.{run-sorted}

abbrev found : Bool → String → CheckMethodStatus
found is_error code = record { is_error = is_error; code = code; description = "" }

-- Two checks that count their calls.
abbrev checks : List (Check ℕ)
checks =
    (λ d w. (problems (found false "SLOW" ∷ found true "DOWN" ∷ []), d, w + 1))
    ∷ (λ d w. (problems (found true "FULL" ∷ []), d, w + 1))
    ∷ []

abbrev versions : Versions
versions = record { conformity = "1"; pysoa = "1"; python = "3"; version = "7" }

abbrev all_found : List CheckMethodStatus
all_found = found false "SLOW" ∷ found true "DOWN" ∷ found true "FULL" ∷ []

run-sorted_example : run versions none checks no_fields 5 ≡ (
  status (record {
    versions = versions;
    build = none;
    healthcheck = some (record {
      errors = ("DOWN", "") ∷ ("FULL", "") ∷ [];
      warnings = ("SLOW", "") ∷ [];
      diagnostics = [];
    });
  }),
  7,
)
run-sorted_example = run-sorted versions none checks no_fields 5 7 all_found [] refl (
  found false "SLOW" ∷ found true "DOWN" ∷ [],
  found true "FULL" ∷ [],
  refl,
  refl,
  (found true "FULL" ∷ [], [], refl, refl, (refl, refl, refl)),
)
