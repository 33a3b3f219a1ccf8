-- ===== src/Server/Job/Stack.antt =====
-- The order of the stack of make_middleware_stack (pysoa/server/server.py).
use mathlib.Core.List.{foldl, reverse, reverse-cons, foldl-append}
use pysoa.Prelude.{◌≡◌, refl, ap, ◌∙◌, List, [], ◌∷◌}
use pysoa.Server.Job.{make_middleware_stack}

-- The stack as nested calls, the first middleware outermost.
abbrev pub nest {ℓ} : {T : Type ℓ} → List (T → T) → T → T
nest [] base = base
nest (m ∷ middleware) base = m (nest middleware base)

-- The loop over the reversed list nests the middleware in the order of the settings: the first one
-- is called first, and the last one calls the base.
pub make_middleware_stack-eq-nest {ℓ} :
    {T : Type ℓ} (middleware : List (T → T)) (base : T)
    → make_middleware_stack middleware base ≡ nest middleware base
unfolding make_middleware_stack
make_middleware_stack-eq-nest [] base = refl
make_middleware_stack-eq-nest (m ∷ middleware) base =
    ap (foldl (λ task ware. ware task) base) (reverse-cons m middleware)
    ∙ foldl-append (λ task ware. ware task) base (reverse middleware) (m ∷ [])
    ∙ ap m (make_middleware_stack-eq-nest middleware base)
