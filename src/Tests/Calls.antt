-- ===== src/Tests/Calls.antt =====
-- Requests that a server handles, futures and parallel calls of a client, at concrete inputs.
use pysoa.Prelude.{
  ℕ, ◌≡◌, refl, ◌+◌, Bool, true, false, Option, none, some, List, [], ◌∷◌, String, is_empty, str_eq,
  if◌then◌else◌, not, ◌==◌,
}
use pysoa.Errors.{connection_error, message_receive_timeout, value_error}
use pysoa.Server.Types.{Error, JobResponse, new_error, empty_body}
use pysoa.Server.Job.{process_job}
use pysoa.Server.Requests.{
  Meta, request, sent, message_too_large, finished, Calls, no_timer, State, handle_next_request,
}
use pysoa.Server.Requests.Replies.{IsReply, Ends, handle_next_request-Ends}
use pysoa.Client.Future.{Got, response, new_future, done, result, is_final, Settled, result-Settled}
use pysoa.Client.Parallel.{
  Send, sent_id, send_fails, Stream, Item, job, error, fails, transport, call_jobs_parallel,
}
use pysoa.Client.Single.{actions_response}
use pysoa.Client.Single.Results.{Ending, actions_response-Ending}
use pysoa.Tests.Jobs.{server, job as greeting}

abbrev meta : Meta ℕ
meta = record { client_version = none; others = 3 }

-- The message of a response is the list of its job errors' codes, and the transport takes only
-- messages that are not empty.
abbrev codes_of : List Error → List String
codes_of [] = []
codes_of (e ∷ errors) = e.code ∷ codes_of errors

abbrev calls : Calls ℕ (List String) ℕ
calls = record {
  receive = λ w. (request 7 meta greeting, w + 1);
  send = λ id m message w. (if is_empty message then message_too_large else sent, w + 1);
  pre_request = λ w. (finished, w);
  post_request = λ w. (finished, w);
  idle = λ w. (finished, w);
  convert = λ version r. some (codes_of r.errors);
  describe = λ r. (none, "", none);
}

abbrev idle_state : State (List String)
idle_state = record { idle_timer = no_timer; busy = false; contexts = []; replies = [] }

handle_next_request-Ends_example :
    Ends server calls false
      (IsReply server calls (0 ∷ 40 ∷ 0 ∷ []) (process_job server greeting 6).0)
      []
      (handle_next_request server calls idle_state 5)
    × ((handle_next_request server calls idle_state 5).1.contexts ≡ [])
handle_next_request-Ends_example =
    handle_next_request-Ends server calls idle_state 5 6 7 meta greeting refl

-- A future whose responses are numbers, 0 the false one; the world counts the calls.
abbrev fetch : Option ℕ → ℕ → Got ℕ String × ℕ
fetch timeout w = (response w, w + 1)

abbrev is_true : ℕ → Bool
is_true n = not (n == 0)

fresh_not_done : done {W = ℕ} is_true fetch new_future ≡ false
unfolding done
fresh_not_done = refl

result-Settled_example :
    let ran = result is_true fetch none new_future 0 in
    ((ran.0 ≡ response 0) × (ran.2 ≡ 1))
    × (is_final is_true fetch ran.0 ≡ true → Settled is_true fetch ran.0 ran.1)
    × (is_final is_true fetch ran.0 ≡ false → done is_true fetch ran.1 ≡ false)
result-Settled_example = result-Settled is_true fetch none new_future 0 fresh_not_done

-- Three jobs for two services: the second cannot be sent, and the third's service times out.
abbrev jobs : List (String × Send)
jobs = ("users", sent_id 11) ∷ ("users", send_fails connection_error) ∷ ("orders", sent_id 40) ∷ []

abbrev empty_response : JobResponse
empty_response = record { errors = []; correlation_id = none; actions = [] }

abbrev streams : String → Stream
streams name =
    if str_eq name "users"
    then ((11, empty_response) ∷ [], none)
    else ([], some message_receive_timeout)

abbrev items : List Item
items = job empty_response ∷ error connection_error ∷ error message_receive_timeout ∷ []

-- An exception that is not the transport's is raised, although errors of the transport are caught.
value_error_raised :
    call_jobs_parallel true true true (("users", send_fails value_error) ∷ []) streams
    ≡ fails (transport value_error)
unfolding call_jobs_parallel
value_error_raised = refl

-- A response with a refused action, behind one to another request.
abbrev refused : JobResponse
refused = record {
  errors = [];
  correlation_id = none;
  actions =
      record { action = "buy"; errors = new_error "NO" "No" none true ∷ []; body = empty_body }
      ∷ [];
}

abbrev two_responses : Stream
two_responses = ((6, empty_response) ∷ (7, refused) ∷ [], none)

actions_response-Ending_example :
    Ending true true "users" 7 two_responses (actions_response true true "users" 7 two_responses)
actions_response-Ending_example = actions_response-Ending true true "users" 7 two_responses
