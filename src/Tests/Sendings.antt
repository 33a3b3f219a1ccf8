-- ===== src/Tests/Sendings.antt =====
-- The request IDs of a client at concrete inputs.
use pysoa.Prelude.{ℕ, ◌+◌, ◌%◌, ◌==◌, if◌then◌else◌, ◌≡◌, refl, false, none, List, [], ◌∷◌, String}
use pysoa.Errors.{ok, err, connection_error}
use pysoa.Value.{Fields, no_fields}
use pysoa.Client.Handler.{Handler, send_request, get_handler}
use pysoa.Server.Types.{ActionRequest, JobRequest, Context}
use pysoa.Server.Job.{make_middleware_stack}
use pysoa.Client.Sending.{Client, Call, client_send_request}
use pysoa.Client.Sending.Numbers.{Rise, ids, client_send_request_rising}

-- Every third sending fails; the settings of a service are where its counter begins.
abbrev handler_class : String → ℕ → Handler ℕ
handler_class name start = record {
  request_counter = start;
  client_version = [];
  request_middleware = [];
  response_middleware = [];
  send_request_message =
      λ id version job expiry n. (if n % 3 == 2 then err connection_error else ok tt, n + 1);
  receive_response_message = λ timeout n. (ok none, n);
}

abbrev client : Client ℕ ℕ
client = record {
  settings = ("user", 500) ∷ ("book", 90) ∷ [];
  handlers = [];
  context = record { switches = none; correlation_id = none; others = no_fields };
}

abbrev to : String → Call (List ActionRequest)
to service = record {
  service = service;
  actions = [];
  switches = [];
  correlation_id = none;
  continue_on_error = false;
  context = none;
  control_extra = no_fields;
  message_expiry_in_seconds = none;
  suppress_response = false;
  new_id = "id";
}

abbrev calls : List (Call (List ActionRequest))
calls = to "user" ∷ to "book" ∷ to "user" ∷ to "nobody" ∷ to "user" ∷ []

-- a request whose control header says nothing
abbrev job_request : List ActionRequest → Fields → Context → JobRequest
job_request actions header context = record {
  control = record { continue_on_error = false; suppress_response = false };
  context = context;
  actions = actions;
}

-- the third sending fails, and its ID is not used again
ids_of_user : ids handler_class job_request "user" client calls 0 ≡ 500 ∷ 502 ∷ []
unfolding client_send_request get_handler send_request make_middleware_stack
ids_of_user = refl

client_send_request_rising_example :
    (high : ℕ) × Rise 0 (ids handler_class job_request "user" client calls 0) high
client_send_request_rising_example =
    client_send_request_rising handler_class job_request "user" client calls 0
