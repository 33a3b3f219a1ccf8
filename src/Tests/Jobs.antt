-- ===== src/Tests/Jobs.antt =====
-- Jobs, actions, switches and signals of a server at concrete inputs.
use pysoa.Prelude.{
  ℕ, ◌≡◌, refl, sym, Bool, true, false, ◌+◌, none, some, List, [], ◌∷◌, arith, String, pos, ap,
  str_eq, if◌then◌else◌,
}
use pysoa.Value.{no_fields}
use pysoa.Server.Types.{
  new_error, action_error, job_error, Run, returns, raises, ActionRequest, ActionResponse,
  JobRequest, JobResponse, EnrichedActionRequest, empty_body,
}
use pysoa.Server.Job.{
  Server, ActionClass, ActionTask, find_action, execute_job, process_job, make_middleware_stack,
}
use pysoa.Server.Responses.{answer}
use pysoa.Server.Job.{enrich, execute_actions, run_action}
use pysoa.Server.Action.{Action, call}
use pysoa.Server.Action.Contract.{Passed, call-Passed}
use pysoa.Server.Switches.{
  ActionMap, default_action, with_int, with_value, get_uninitialized_action, or_else, valid_map,
}
use pysoa.Server.Switches.Selection.{
  first_on, last_default, last_plain, get_uninitialized_action-eq,
}
use pysoa.Server.Shutdown.{Round, transient_error, handled, run_loop, shut_down}
use pysoa.Server.Job.Execution.{AsControlled, ClassesReturn, execute_job-AsControlled}
use pysoa.Server.Job.Processing.{Answered, process_job-Answered}

-- An action that answers `greet`, fails for `refuse` and ends the job for any other name.
abbrev outcome : String → Run ActionResponse
outcome name =
    if str_eq name "greet"
    then returns (record { action = "greet"; errors = []; body = empty_body })
    else if str_eq name "refuse"
    then raises (action_error (new_error "NO" "No" none true ∷ []))
    else raises (job_error (new_error "STOP" "Stop" none false ∷ []))

abbrev pub task : ActionTask ℕ
task request w = (outcome request.action, w + 1)

abbrev pub task_class : ActionClass ℕ
task_class w = (returns task, w)

abbrev pub server : Server ℕ
server = record {
  action_class_map = λ name. some task_class;
  introspection_action = none;
  default_introspection_action = task_class;
  default_status_action = task_class;
  action_middleware = [];
  job_middleware = [];
  make_client = λ context w. (returns tt, w);
  schema_errors = λ job. [];
  formatting = λ errors. (none, "");
}

abbrev ask : String → ActionRequest
ask name = record { action = name; body = empty_body }

abbrev job_for : List ActionRequest → JobRequest
job_for actions = record {
  control = record { continue_on_error = false; suppress_response = false };
  context = record { switches = []; correlation_id = some "id"; others = no_fields };
  actions = actions;
}

abbrev pub job : JobRequest
job = job_for (ask "greet" ∷ ask "refuse" ∷ ask "greet" ∷ [])

pub some_class : (c d : ActionClass ℕ) → some c ≡ some d → c ≡ d
some_class c d e = ground (arith, e)

classes_return : (j : JobRequest) → ClassesReturn server j
unfolding find_action
classes_return j name c w e =
    (task, ap (λ (k : ActionClass ℕ). (k w).0) (sym (some_class task_class c e)))

process_job-Answered_example :
    Answered server job 5 (process_job server job 5).0 (process_job server job 5).1
process_job-Answered_example = process_job-Answered server job 5 refl (classes_return job)

abbrev answered : JobResponse
answered = record {
  errors = [];
  correlation_id = none;
  actions =
      record { action = "greet"; errors = []; body = empty_body }
      ∷ record { action = "refuse"; errors = new_error "NO" "No" none true ∷ []; body = empty_body }
      ∷ [];
}

answered_runs : (execute_job server job 5).0 ≡ returns answered
unfolding execute_job execute_actions run_action find_action answer make_middleware_stack
answered_runs = refl

execute_job-AsControlled_example :
    (answered.errors ≡ []) × AsControlled false job.actions answered.actions
execute_job-AsControlled_example = execute_job-AsControlled server job 5 answered answered_runs

abbrev doomed : JobRequest
doomed = job_for (ask "stop" ∷ [])

doomed_raises :
    (execute_job server doomed 5).0 ≡ raises (job_error (new_error "STOP" "Stop" none false ∷ []))
unfolding execute_job execute_actions run_action find_action answer make_middleware_stack
doomed_raises = refl

-- a map whose default stands first, and a request with the switches 3 and 9
abbrev actions : ActionMap String
actions =
    (default_action 4, "default")
    ∷ (with_int true (pos 5), "five")
    ∷ (with_value true (pos 9), "nine")
    ∷ []

get_uninitialized_action-eq_example :
    (get_uninitialized_action actions (pos 3 ∷ pos 9 ∷ [])
      ≡ or_else
          (first_on (pos 3 ∷ pos 9 ∷ []) actions)
          (or_else (last_default actions) (last_plain actions)))
    × ((a : String) × (get_uninitialized_action actions (pos 3 ∷ pos 9 ∷ []) ≡ some a))
unfolding valid_map
get_uninitialized_action-eq_example = get_uninitialized_action-eq actions (pos 3 ∷ pos 9 ∷ []) refl

abbrev action : Action ℕ
action = record {
  request_schema = some (λ body. []);
  response_schema = none;
  validate = λ request w. (returns tt, w + 1);
  run = λ request w. (returns none, w + 10);
  response_validation_error = λ name errors. (none, "");
}

abbrev to_greet : EnrichedActionRequest
to_greet = enrich job (ask "greet")

abbrev greeted : ActionResponse
greeted = record { action = "greet"; errors = []; body = empty_body }

greeted_called : (call action to_greet 5).0 ≡ returns greeted
unfolding call
greeted_called = refl

call-Passed_example : Passed action to_greet 5 greeted
call-Passed_example = call-Passed action to_greet 5 greeted greeted_called

abbrev rounds : List (Round × Bool)
rounds =
    (transient_error, false) ∷ (handled, false) ∷ (transient_error, false) ∷ (handled, true) ∷ []

rounds_shut_down : run_loop 0 false rounds ≡ shut_down
unfolding run_loop
rounds_shut_down = refl
