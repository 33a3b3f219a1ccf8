-- ===== src/Tests/Local.antt =====
-- A client and its server in one thread at concrete inputs.
use pysoa.Prelude.{ℕ, ◌≡◌, refl, Bool, true, false, none, some, List, [], ◌∷◌, ◌+◌}
use pysoa.Value.{no_fields}
use pysoa.Server.Types.{returns, JobRequest, empty_body}
use pysoa.Server.Job.{
  Server, ActionClass, ActionTask, find_action, execute_job, process_job, make_middleware_stack,
  execute_actions, run_action,
}
use pysoa.Server.Responses.{answer}
use pysoa.Server.Requests.{Meta, State, no_timer, finished, response_message, client_version_of}
use pysoa.LocalTransport.{Local, Hooks, World, send_request_message, local_calls}
use pysoa.LocalTransport.Delivery.{LeavesTransport, Delivered, send_request_message-Delivered}
use pysoa.LocalTransport.Channel.{Call, send, receive}

-- An action that counts its calls in the world beside the transport.
abbrev Here : Type 0
Here = World ℕ ℕ ℕ

abbrev task : ActionTask Here
task request (local, v) =
    (returns (record { action = request.action; errors = []; body = empty_body }), (local, v + 1))

abbrev task_class : ActionClass Here
task_class w = (returns task, w)

abbrev server : Server Here
server = record {
  action_class_map = λ name. some task_class;
  introspection_action = none;
  default_introspection_action = task_class;
  default_status_action = task_class;
  action_middleware = [];
  job_middleware = [];
  make_client = λ context w. (returns tt, w);
  schema_errors = λ job. [];
  formatting = λ errors. (none, "");
}

abbrev hooks : Hooks ℕ ℕ
hooks = record {
  pre_request = λ v. (finished, v + 10);
  post_request = λ v. (finished, v);
  idle = λ v. (finished, v);
  convert = λ version r. some 4;
  describe = λ r. (none, "", none);
}

abbrev job : Bool → JobRequest
job suppress = record {
  control = record { continue_on_error = false; suppress_response = suppress };
  context = record { switches = []; correlation_id = some "id"; others = no_fields };
  actions = record { action = "count"; body = empty_body } ∷ [];
}

abbrev meta : Meta ℕ
meta = record { client_version = none; others = 3 }

abbrev local : Local ℕ ℕ
local = record { current_request = none; response_messages = (6, meta, 9) ∷ [] }

abbrev idle_state : State ℕ
idle_state = record { idle_timer = no_timer; busy = false; contexts = []; replies = [] }

job_leaves : (suppress : Bool) → LeavesTransport hooks server (job suppress)
unfolding process_job execute_job execute_actions run_action find_action answer
    make_middleware_stack
job_leaves suppress w = refl

send_request_message-Delivered_example :
    Delivered hooks server 7 meta false
      ((6, meta, 9) ∷ [])
      []
      (λ m.
        response_message server
          (local_calls hooks server)
          (client_version_of meta)
          (process_job server (job false) (local, 10)).0
        ≡ some m)
      (send_request_message hooks server 7 meta (job false) idle_state (local, 0))
send_request_message-Delivered_example =
    send_request_message-Delivered hooks server 7 meta (job false) idle_state local 0
      (job_leaves false)

abbrev script : List (Call ℕ)
script = receive ∷ send 7 meta (job false) ∷ send 8 meta (job true) ∷ receive ∷ receive ∷ []
