-- ===== src/Server/LocalActions/Modes.antt =====
-- What raise_action_errors changes of call_local_action, of pysoa/server/types.py.
use pysoa.Prelude.{
  String, Bool, true, false, Option, none, some, List, [], ◌∷◌, map, is_empty, Bool-cases, ◌≡◌, ◌≢◌,
  refl, ap, ◌⊎◌, inl, inr, arith,
}
use pysoa.Value.{Value}
use pysoa.Server.Types.{
  Error, Raised, harakiri_interrupt, action_error, job_error, other, Run, returns, raises,
  ActionResponse, error_response, EnrichedActionRequest, without_flag, replace_errors_if_necessary,
  replace_errors-flags,
}
use pysoa.Server.Job.{Server, ActionClass, ActionTask}
use pysoa.Server.LocalActions.{
  Update, refused, local_request, unknown_action, answered, called, found, call_local_action,
}

-- The call with `raise_action_errors` and the call without it: both return the same response, which
-- has no errors; or the one raises the errors that the other returns, up to the flag of whose they
-- are; or both raise the same, which is no ActionError.
abbrev pub Agrees : Run ActionResponse → Run ActionResponse → Type 0
Agrees loud quiet =
    ((r : ActionResponse) × (r.errors ≡ []) × (loud ≡ returns r) × (quiet ≡ returns r))
    ⊎ ((r : ActionResponse) × (errors : List Error) × (map without_flag errors
          ≡ map without_flag r.errors)
        × (loud ≡ raises (action_error errors))
        × (quiet ≡ returns r))
    ⊎ ((e : Raised) × ((errors : List Error) → e ≢ action_error errors)
        × (loud ≡ raises e)
        × (quiet ≡ raises e))

nothing : (errors : List Error) → is_empty errors ≡ true → errors ≡ []
nothing [] e = refl
nothing (x ∷ errors) e = ground (arith, e)

module _ {W : Type 0} where
  -- Classes that raise no ActionError when they are called with the settings.
  abbrev pub MakesActions : Server W → Type 0
  MakesActions server =
      (name : String) (action_type : ActionClass W) (w : W) (errors : List Error)
      → server.action_class_map name ≡ some action_type
      → (action_type w).0 ≢ raises (action_error errors)

  answered-Agrees :
      (is_caller_error : Bool) (action : String) (ran : Run ActionResponse × W)
      → Agrees
          (answered true is_caller_error action ran).0
          (answered false is_caller_error action ran).0
        × ((answered true is_caller_error action ran).1
            ≡ (answered false is_caller_error action ran).1)
  answered-Agrees b action (returns r, w) = elim (Bool-cases (is_empty r.errors)) [
    | inl e ↦ rw e (inl (r, nothing r.errors e, refl, refl), refl)
    | inr e ↦ rw e (
      inr (
          inl (
            r,
            replace_errors_if_necessary r.errors b,
            (replace_errors-flags r.errors b).1,
            refl,
            refl,
          )),
      refl,
    )
  ]
  answered-Agrees b action (raises (action_error errors), w) =
      (inr (inl (error_response action errors, errors, refl, refl, refl)), refl)
  answered-Agrees b action (raises harakiri_interrupt, w) =
      (inr (inr (harakiri_interrupt, λ es p. ground (arith, p), refl, refl)), refl)
  answered-Agrees b action (raises (job_error errors), w) =
      (inr (inr (job_error errors, λ es p. ground (arith, p), refl, refl)), refl)
  answered-Agrees b action (raises (other text traceback), w) =
      (inr (inr (other text traceback, λ es p. ground (arith, p), refl, refl)), refl)

  refused-Agrees :
      (action : String) (errors : List Error) (w : W)
      → Agrees (refused true action errors w).0 (refused false action errors w).0
        × ((refused true action errors w).1 ≡ (refused false action errors w).1)
  refused-Agrees action errors w =
      (inr (inl (error_response action errors, errors, refl, refl, refl)), refl)

  called-Agrees :
      (b : Bool) (request : EnrichedActionRequest) (made : Run (ActionTask W) × W)
      → ((errors : List Error) → made.0 ≢ raises (action_error errors))
      → Agrees (called true b request made).0 (called false b request made).0
        × ((called true b request made).1 ≡ (called false b request made).1)
  called-Agrees b request (raises e, w) h =
      (inr (inr (e, λ errors p. h errors (ap raises p), refl, refl)), refl)
  called-Agrees b request (returns action, w) h =
      answered-Agrees b request.action (action request w)

  found-Agrees :
      (b : Bool) (request : EnrichedActionRequest) (action_class : Option (ActionClass W)) (w : W)
      → ((action_type : ActionClass W) (errors : List Error)
          → action_class ≡ some action_type
          → (action_type w).0 ≢ raises (action_error errors))
      → Agrees (found true b request action_class w).0 (found false b request action_class w).0
        × ((found true b request action_class w).1 ≡ (found false b request action_class w).1)
  found-Agrees b request none w h =
      refused-Agrees request.action (unknown_action request.action ∷ []) w
  found-Agrees b request (some action_type) w h =
      called-Agrees b request (action_type w) (λ errors. h action_type errors refl)

  -- What `raise_action_errors` changes of call_local_action is only how errors come out: with and
  -- without it the same is done, and either both return the same response, which has no errors, or the
  -- one raises as an ActionError what the other returns in a response, but for the flag of whose
  -- errors they are, or both raise the same, which is no ActionError. This holds if no class of the
  -- server raises an ActionError when it is called with the settings.
  pub call_local_action-Agrees :
      (server : Server W) (self : EnrichedActionRequest) (action : String) (body : Value)
      (is_caller_error : Bool) (context : Option Update) (w : W)
      → MakesActions server
      → let call = λ (raise_action_errors : Bool).
        call_local_action
          (some server)
          self
          action
          body
          raise_action_errors
          is_caller_error
          context
          w in
        Agrees (call true).0 (call false).0 × ((call true).1 ≡ (call false).1)
  unfolding call_local_action
  call_local_action-Agrees server self action body b context w makes =
      found-Agrees b (local_request self action body context) (server.action_class_map action) w
        (λ action_type errors e. makes action action_type w errors e)
