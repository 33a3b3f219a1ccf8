-- ===== src/Tests/Processes.antt =====
-- A monitor of a server process at concrete inputs.
use pysoa.Prelude.{ℕ, ◌≡◌, refl, true, false, List, [], ◌∷◌, map}
use pysoa.Standalone.{Round, new_monitor, run, append, is_exhausted}
use pysoa.Standalone.Respawns.{AreLimited, run-AreLimited}

abbrev crash : ℕ → Round
crash t = record { signaled_before = false; signaled_after = false; time = t }

-- The worker is started again when it has crashed for the third time within fifteen seconds.
abbrev crashes : List Round
crashes = map crash (1 ∷ 2 ∷ 3 ∷ 4 ∷ [])

third_crash : run 1 (new_monitor true) crashes ≡ 1 ∷ 2 ∷ 3 ∷ []
unfolding run append is_exhausted
third_crash = refl

run-AreLimited_example : AreLimited 1 (run 1 (new_monitor true) crashes)
run-AreLimited_example = run-AreLimited 1 true crashes
