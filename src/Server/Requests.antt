-- ===== src/Server/Requests.antt =====
-- Server.handle_next_request and handle_job_error_code of pysoa/server/server.py, without the log
-- lines and the counters. The hooks that subclasses override, perform_pre_request_actions,
-- perform_post_request_actions and perform_idle_actions, are parameters.
pub mod Replies
use pysoa.Prelude.{
  ℕ, String, Bool, true, false, Option, none, some, List, [], ◌∷◌, ◌++◌, if◌then◌else◌,
}
use pysoa.Value.{Value, atom, str, dict, field, no_fields}
use pysoa.Server.Types.{Error, new_error, Context, JobRequest, JobResponse, job_errors}
use pysoa.Server.Responses.{unhandled_error}
use pysoa.Server.Job.{Server, process_job}

-- `meta`, by the entry that the server reads
pub record Meta (N : Type 0) : Type 0 where
  pub client_version : Option (List ℕ)
  pub others : N

-- tuple(meta['client_version']) if 'client_version' in meta else (0, 40, 0)
abbrev pub client_version_of : {N : Type 0} → Meta N → List ℕ
client_version_of meta = elim meta.client_version [
  | some version ↦ version
  | none ↦ 0 ∷ 40 ∷ 0 ∷ []
]

-- How receive_request_message ends: with a request, with None in the place of one, with
-- MessageReceiveTimeout, or with another exception.
pub data Received (N : Type 0) : Type 0 where
  request : ℕ → Meta N → JobRequest → Received N
  none_returned timed_out receive_raises : Received N

-- How send_response_message ends.
pub data Sent : Type 0 where
  sent message_too_large invalid_field send_raises : Sent

-- How a hook, or the whole, ends.
pub data Ended : Type 0 where
  finished raised : Ended

-- What the server calls. `convert` is `attr.asdict` with the filter of a client's version, `none`
-- where it raises; `describe` is what handle_unhandled_exception finds of such an exception: its
-- text, its traceback and the `repr` of the response, `none` for what cannot be formatted.
pub record Calls (W M N : Type 0) : Type 0 where
  pub receive : W → Received N × W
  pub send : ℕ → Meta N → M → W → Sent × W
  pub pre_request : W → Ended × W
  pub post_request : W → Ended × W
  pub idle : W → Ended × W
  pub convert : List ℕ → JobResponse → Option M
  pub describe : JobResponse → Option String × String × Option String

pub data Timer : Type 0 where
  no_timer stopped started : Timer

-- `replies` are the messages that the transport has taken; `contexts` is the stack of
-- PySOALogContextFilter.
pub record State (M : Type 0) : Type 0 where
  pub idle_timer : Timer
  pub busy : Bool
  pub contexts : List (ℕ × Context)
  pub replies : List M

abbrev variables : Option String → Value
variables (some shown) = dict (field "job_response" (atom (str shown)) no_fields)
variables none = atom (str "Error formatting variables")

-- handle_unhandled_exception(e, JobResponse, variables={'job_response': job_response})
unfoldable pub conversion_failure : Option String × String × Option String → JobResponse
conversion_failure (text, traceback, repr) =
    job_errors (record (unhandled_error text traceback) { variables = some (variables repr) } ∷ [])

-- handle_job_error_code
unfoldable pub job_error_code : String → String → JobResponse
job_error_code code message = job_errors (new_error code message none false ∷ [])

abbrev pub response_too_large : JobResponse
response_too_large =
    job_error_code "RESPONSE_TOO_LARGE" "Could not send the response because it was too large"

abbrev pub response_not_serializable : JobResponse
response_not_serializable =
    job_error_code "RESPONSE_NOT_SERIALIZABLE"
      "Could not send the response because it failed to serialize"

module _ {W M N : Type 0} (server : Server W) (calls : Calls W M N) where
  abbrev pub Handling : Type 0
  Handling = Ended × State M × W

  -- the conversion, of the response or of the failure to convert it
  unfoldable pub response_message : List ℕ → JobResponse → Option M
  response_message version response = elim (calls.convert version response) [
    | some message ↦ some message
    | none ↦ calls.convert version (conversion_failure (calls.describe response))
  ]

  -- a call of send_response_message whose failure is not caught
  abbrev pub sent_last : M → State M → Sent × W → Handling
  sent_last message state (sent, w) =
      (finished, record state { replies = state.replies ++ message ∷ [] }, w)
  sent_last message state (_, w) = (raised, state, w)

  abbrev pub send_last : ℕ → Meta N → Option M → State M → W → Handling
  send_last id meta none state w = (raised, state, w)
  send_last id meta (some message) state w = sent_last message state (calls.send id meta message w)

  -- the first call of it, with its `except` clauses
  abbrev pub sent_first : ℕ → Meta N → M → State M → Sent × W → Handling
  sent_first id meta message state (message_too_large, w) =
      send_last id meta (calls.convert (client_version_of meta) response_too_large) state w
  sent_first id meta message state (invalid_field, w) =
      send_last id meta (calls.convert (client_version_of meta) response_not_serializable) state w
  sent_first id meta message state (sent, w) = sent_last message state (sent, w)
  sent_first id meta message state (send_raises, w) = sent_last message state (send_raises, w)

  unfoldable pub send_response : ℕ → Meta N → M → State M → W → Handling
  send_response id meta message state w =
      sent_first id meta message state (calls.send id meta message w)

  abbrev pub send_converted : ℕ → Meta N → Bool → Option M → State M → W → Handling
  send_converted id meta suppress none state w = (raised, state, w)
  send_converted id meta suppress (some message) state w =
      if suppress then (finished, state, w) else send_response id meta message state w

  abbrev pub after_pre : ℕ → Meta N → JobRequest → State M → Ended × W → Handling
  after_pre id meta job state (raised, w) = (raised, state, w)
  after_pre id meta job state (finished, w) =
      let processed = process_job server job w in
      send_converted id meta job.control.suppress_response
        (response_message (client_version_of meta) processed.0) state processed.1

  -- clear_logging_request_context
  abbrev pub popped : List (ℕ × Context) → List (ℕ × Context)
  popped [] = []
  popped (_ ∷ rest) = rest

  abbrev pub cleared : State M → State M
  cleared state = record state { contexts = popped state.contexts }

  -- the `finally`: what it raises takes the place of what was raised before
  abbrev pub at_last : Ended → State M → Ended × W → Handling
  at_last ended state (raised, w) = (raised, state, w)
  at_last ended state (finished, w) = (ended, record state { busy = false }, w)

  abbrev pub finally_clear : Handling → Handling
  finally_clear (ended, state, w) = at_last ended (cleared state) (calls.post_request w)

  -- no longer idle, and set_logging_request_context
  abbrev pub taken : ℕ → JobRequest → State M → State M
  taken id job state = record {
    idle_timer = no_timer;
    busy = true;
    contexts = (id, job.context) ∷ state.contexts;
    replies = state.replies;
  }

  unfoldable pub handle_request : ℕ → Meta N → JobRequest → State M → W → Handling
  handle_request id meta job state w =
      finally_clear (after_pre id meta job (taken id job state) (calls.pre_request w))

  -- the `except MessageReceiveTimeout`
  abbrev pub go_idle : State M → Ended × W → Handling
  go_idle state (raised, w) = (raised, record state { idle_timer = stopped }, w)
  go_idle state (finished, w) = (finished, record state { idle_timer = started; busy = false }, w)

  abbrev pub after_receive : State M → Received N × W → Handling
  after_receive state (request id meta job, w) = handle_request id meta job state w
  after_receive state (none_returned, w) = go_idle state (calls.idle w)
  after_receive state (timed_out, w) = go_idle state (calls.idle w)
  after_receive state (receive_raises, w) = (raised, state, w)

  -- `if not self._idle_timer`
  abbrev pub timer_started : Timer → Timer
  timer_started no_timer = started
  timer_started stopped = stopped
  timer_started started = started

  abbrev pub with_timer : State M → State M
  with_timer state = record state { idle_timer = timer_started state.idle_timer }

  unfoldable pub handle_next_request : State M → W → Handling
  unfolding handle_request
  handle_next_request state w = after_receive (with_timer state) (calls.receive w)
