-- ===== src/Server/Job.antt =====
-- Server.make_middleware_stack, execute_job and process_job of pysoa/server/server.py. `W` is the
-- world that actions and middleware act on.
pub mod Stack
pub mod Execution
pub mod Processing
use mathlib.Core.List.{foldl, reverse}
use pysoa.Prelude.{
  String, true, false, not, Option, none, some, List, [], ◌∷◌, ◌++◌, is_empty, if◌then◌else◌,
  str_eq,
}
use pysoa.Server.Types.{
  Error, make_job_error, Run, returns, raises, ActionRequest, ActionResponse, Context, JobRequest,
  JobResponse, EnrichedActionRequest,
}
use pysoa.Server.Responses.{
  Answer, answer, not_found, stops, Formatting, job_answer, SchemaError, validation_errors,
  with_correlation_id,
}

-- `for ware in reversed(middleware): base = ware(base)`
unfoldable pub make_middleware_stack {ℓ} : {T : Type ℓ} → List (T → T) → T → T
make_middleware_stack middleware base = foldl (λ task ware. ware task) base (reverse middleware)

-- A callable that takes an `A` and returns a `B`, or raises.
abbrev pub Task : Type 0 → Type 0 → Type 0 → Type 0
Task W A B = A → W → Run B × W

abbrev pub ActionTask : Type 0 → Type 0
ActionTask W = Task W EnrichedActionRequest ActionResponse

abbrev pub JobTask : Type 0 → Type 0
JobTask W = Task W JobRequest JobResponse

-- A class, or other callable, that makes an action when it is called with the settings.
abbrev pub ActionClass : Type 0 → Type 0
ActionClass W = W → Run (ActionTask W) × W

-- What a server is made of, as far as running jobs goes. `schema_errors` is JobRequestSchema.errors;
-- `make_client` makes the client that middleware and actions may use, or raises, as the class of the
-- client does with invalid settings.
pub record Server (W : Type 0) : Type 0 where
  pub action_class_map : String → Option (ActionClass W)
  pub introspection_action : Option (ActionClass W)
  pub default_introspection_action : ActionClass W
  pub default_status_action : ActionClass W
  pub action_middleware : List (ActionTask W → ActionTask W)
  pub job_middleware : List (JobTask W → JobTask W)
  pub make_client : Context → W → Run (Unit {0}) × W
  pub schema_errors : JobRequest → List SchemaError
  pub formatting : Formatting

abbrev pub enrich : JobRequest → ActionRequest → EnrichedActionRequest
enrich job simple = record {
  action = simple.action;
  body = simple.body;
  switches = job.context.switches;
  context = job.context;
  control = job.control;
}

module _ {W : Type 0} where
  abbrev or_default : Option (ActionClass W) → ActionClass W → ActionClass W
  or_default (some custom) default = custom
  or_default none default = default

  -- The class of the action of this name, if the server has one.
  unfoldable pub find_action : Server W → String → Option (ActionClass W)
  find_action server name = elim (server.action_class_map name) [
    | some action_class ↦ some action_class
    | none ↦
        if str_eq name "introspect"
        then some (or_default server.introspection_action server.default_introspection_action)
        else if str_eq name "status"
        then some server.default_status_action
        else none
  ]

  -- The call of the class stands outside the `try`.
  abbrev call_action : Server W → EnrichedActionRequest → Run (ActionTask W) × W → Answer × W
  call_action server request (raises e, w) = (raises e, w)
  call_action server request (returns action, w) =
      let ran = make_middleware_stack server.action_middleware action request w in
      (answer request.action ran.0, ran.1)

  abbrev run_found : Server W → EnrichedActionRequest → Option (ActionClass W) → W → Answer × W
  run_found server request none w = (returns (not_found request.action, false), w)
  run_found server request (some action_class) w = call_action server request (action_class w)

  unfoldable pub run_action : Server W → EnrichedActionRequest → W → Answer × W
  run_action server request w = run_found server request (find_action server request.action) w

  -- `for i, simple_action_request in enumerate(job_request.actions)`
  unfoldable pub execute_actions :
      Server W
      → JobRequest
      → List ActionResponse
      → List ActionRequest
      → W
      → Run (List ActionResponse) × W
  execute_actions server job done [] w = (returns done, w)
  execute_actions server job done (a ∷ actions) w =
      let ran = run_action server (enrich job a) w in
      elim ran.0 [
        | raises e ↦ (raises e, ran.1)
        | returns one ↦ elim (stops job.control.continue_on_error one) [
          | true ↦ (returns (done ++ one.0 ∷ []), ran.1)
          | false ↦ execute_actions server job (done ++ one.0 ∷ []) actions ran.1
        ]
      ]

  abbrev pub job_of : Run (List ActionResponse) × W → Run JobResponse × W
  job_of (returns responses, w) =
      (returns (record { errors = []; correlation_id = none; actions = responses }), w)
  job_of (raises e, w) = (raises e, w)

  unfoldable pub execute_job : Server W → JobTask W
  execute_job server job w = job_of (execute_actions server job [] job.actions w)

  abbrev pub run_job : Server W → JobRequest → W → Run JobResponse × W
  run_job server job w = make_middleware_stack server.job_middleware (execute_job server) job w

  -- what follows `job_request['client'] = self.make_client(...)`
  abbrev pub with_client : Server W → JobRequest → Run (Unit {0}) × W → Run JobResponse × W
  with_client server job (raises e, w) = (raises e, w)
  with_client server job (returns _, w) =
      let ran = run_job server job w in
      (with_correlation_id job.context.correlation_id ran.0, ran.1)

  -- `if validation_errors: raise JobError(...)`, and what follows it
  abbrev pub processed : Server W → JobRequest → List Error → W → JobResponse × W
  processed server job [] w =
      let done = with_client server job (server.make_client job.context w) in
      (job_answer server.formatting done.0, done.1)
  processed server job (e ∷ errors) w =
      (job_answer server.formatting (raises (make_job_error (e ∷ errors) none)), w)

  unfoldable pub process_job : Server W → JobRequest → W → JobResponse × W
  process_job server job w =
      processed server job (validation_errors false (server.schema_errors job)) w
