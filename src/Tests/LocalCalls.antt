-- ===== src/Tests/LocalCalls.antt =====
-- An action that calls another of its service at a concrete input.
use pysoa.Prelude.{ℕ, ◌≡◌, ◌≢◌, ◌∙◌, false, true, none, some, [], ap, arith}
use pysoa.Value.{no_fields}
use pysoa.Server.Types.{Raised, returns, raises, action_error, EnrichedActionRequest, empty_body}
use pysoa.Server.Job.{ActionClass}
use pysoa.Server.LocalActions.{call_local_action}
use pysoa.Server.LocalActions.Modes.{Agrees, MakesActions, call_local_action-Agrees}
use pysoa.Tests.Jobs.{server, task, task_class, some_class}

abbrev self : EnrichedActionRequest
self = record {
  action = "outer";
  body = empty_body;
  switches = [];
  context = record { switches = []; correlation_id = some "id"; others = no_fields };
  control = record { continue_on_error = false; suppress_response = false };
}

not_raised : {A : Type 0} (a : A) (e : Raised) → returns a ≢ raises e
not_raised a e p = ground (arith, p)

makes_actions : MakesActions server
makes_actions name action_type w errors e p =
    let made : returns task ≡ (action_type w).0 =
      ap (λ (k : ActionClass ℕ). (k w).0) (some_class task_class action_type e) in
    not_raised task (action_error errors) (made ∙ p)

call_local_action-Agrees_example :
    Agrees
      (call_local_action (some server) self "refuse" empty_body true false none 5).0
      (call_local_action (some server) self "refuse" empty_body false false none 5).0
    × ((call_local_action (some server) self "refuse" empty_body true false none 5).1
        ≡ (call_local_action (some server) self "refuse" empty_body false false none 5).1)
call_local_action-Agrees_example =
    call_local_action-Agrees server self "refuse" empty_body false none 5 makes_actions
