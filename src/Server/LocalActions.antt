-- ===== src/Server/LocalActions.antt =====
-- EnrichedActionRequest.call_local_action of pysoa/server/types.py: an action that calls another of
-- its own service.
pub mod Modes
use pysoa.Prelude.{
  String, Bool, true, false, Option, none, some, List, [], ◌∷◌, map, if◌then◌else◌, is_empty,
  Bool-cases, str_eq, ℤ, ◌≡◌, ◌≢◌, refl, ap, ◌⊎◌, inl, inr, arith,
}
use pysoa.Value.{Value, Fields, no_fields, field}
use pysoa.Server.Types.{
  Error, new_error, Raised, harakiri_interrupt, action_error, job_error, other, Run, returns,
  raises, make_action_error, ActionResponse, error_response, Context, EnrichedActionRequest,
  without_flag, replace_errors_if_necessary, replace_errors-flags,
}
use pysoa.Server.Responses.{◌⧺◌}
use pysoa.Server.Job.{Server, ActionClass, ActionTask}

-- new_context.update(context): the entries that the dictionary has
pub record Update : Type 0 where
  pub switches : Option (List ℤ)
  pub correlation_id : Option (Option String)
  pub others : Fields

abbrev pub or_old {ℓ} : {A : Type ℓ} → Option A → A → A
or_old none old = old
or_old (some new) old = new

abbrev pub set_field : String → Value → Fields → Fields
set_field key value no_fields = field key value no_fields
set_field key value (field k v fields) =
    if str_eq k key then field k value fields else field k v (set_field key value fields)

abbrev pub set_fields : Fields → Fields → Fields
set_fields no_fields fields = fields
set_fields (field key value more) fields = set_fields more (set_field key value fields)

abbrev pub updated : Context → Option Update → Context
updated context none = context
updated context (some new) = record {
  switches = or_old new.switches context.switches;
  correlation_id = or_old new.correlation_id context.correlation_id;
  others = set_fields new.others context.others;
}

abbrev pub no_server : Error
no_server =
    new_error "SERVER_ERROR"
      "No `_server` attribute set on action request object (and can't make request without it)" none
      false

-- the request that the called action gets; its switches stay those of this one
abbrev pub local_request :
    EnrichedActionRequest → String → Value → Option Update → EnrichedActionRequest
local_request self action body context = record self {
  action = action;
  body = body;
  context = updated self.context context;
}

abbrev pub unknown_action : String → Error
unknown_action name =
    new_error "UNKNOWN" ("The action \"" ⧺ name ⧺ "\" was not found on this server.")
      (some "action") false

module _ {W : Type 0} where
  -- errors that are raised as they are, or returned
  abbrev pub refused : Bool → String → List Error → W → Run ActionResponse × W
  refused raise_action_errors action errors w = (
    if raise_action_errors
        then raises (make_action_error errors none)
        else returns (error_response action errors),
    w,
  )

  -- the `except ActionError` and what follows it
  abbrev pub answered : Bool → Bool → String → Run ActionResponse × W → Run ActionResponse × W
  answered raise_action_errors is_caller_error action (returns response, w) =
      if raise_action_errors
      then (if is_empty response.errors
          then (returns response, w)
          else (raises (make_action_error response.errors (some is_caller_error)), w))
      else (returns response, w)
  answered raise_action_errors is_caller_error action (raises (action_error errors), w) =
      refused raise_action_errors action errors w
  answered raise_action_errors is_caller_error action (raises harakiri_interrupt, w) =
      (raises harakiri_interrupt, w)
  answered raise_action_errors is_caller_error action (raises (job_error errors), w) =
      (raises (job_error errors), w)
  answered raise_action_errors is_caller_error action (raises (other text traceback), w) =
      (raises (other text traceback), w)

  abbrev pub called :
      Bool → Bool → EnrichedActionRequest → Run (ActionTask W) × W → Run ActionResponse × W
  called raise_action_errors is_caller_error request (raises e, w) = (raises e, w)
  called raise_action_errors is_caller_error request (returns action, w) =
      answered raise_action_errors is_caller_error request.action (action request w)

  abbrev pub found :
      Bool → Bool → EnrichedActionRequest → Option (ActionClass W) → W → Run ActionResponse × W
  found raise_action_errors is_caller_error request none w =
      refused raise_action_errors request.action (unknown_action request.action ∷ []) w
  found raise_action_errors is_caller_error request (some action_type) w =
      called raise_action_errors is_caller_error request (action_type w)

  unfoldable pub call_local_action :
      (server : Option (Server W)) (self : EnrichedActionRequest) (action : String) (body : Value)
      (raise_action_errors is_caller_error : Bool) (context : Option Update)
      → W
      → Run ActionResponse × W
  call_local_action none self action body raise_action_errors is_caller_error context w =
      refused raise_action_errors action (no_server ∷ []) w
  call_local_action (some server) self action body raise_action_errors is_caller_error context w =
      found raise_action_errors is_caller_error (local_request self action body context)
        (server.action_class_map action) w
