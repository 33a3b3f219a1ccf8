-- ===== src/Client/Parallel.antt =====
-- Client.call_jobs_parallel_future of pysoa/client/client.py, without expansions: the requests that
-- it sends, and what its future's `get_response` makes of the responses.
pub mod Receiving
pub mod Order
use pysoa.Prelude.{
  ℕ, zero, suc, ◌+◌, String, Bool, true, false, not, ◌&&◌, Option, none, some, List, [], ◌∷◌, ◌++◌,
  ◌==◌, any, if◌then◌else◌, str_eq, is_empty, ℤ, pos, negsuc, eqz,
}
use pysoa.Errors.{TransportError, is_transport_error}
use pysoa.Server.Types.{Error, ActionResponse, JobResponse}

-- What the calls raise: what sending or a stream raises, an Exception about an ID that is not expected or a
-- response that is missing, JobError and CallActionError.
pub data Failure : Type 0 where
  transport : TransportError → Failure
  unexpected : String → ℕ → Failure
  missing : String → ℤ → Failure
  job_failed : List Error → Failure
  actions_failed : List ActionResponse → Failure

pub data Outcome {ℓ} (A : Type ℓ) : Type ℓ where
  gives : A → Outcome A
  fails : Failure → Outcome A

infixl 5 ◌>>=◌
abbrev pub ◌>>=◌ {ℓ κ} : {A : Type ℓ} {B : Type κ} → Outcome A → (A → Outcome B) → Outcome B
gives a >>= f = f a
fails e >>= f = fails e

-- What send_request comes back with for a job.
pub data Send : Type 0 where
  sent_id : ℕ → Send
  send_fails : TransportError → Send

-- The service's name, and the request's ID or a negative number.
abbrev pub Key : Type 0
Key = String × ℤ

abbrev pub key_eq : Key → Key → Bool
key_eq (s, n) (t, m) = str_eq s t && eqz n m

-- A dictionary, its newest entry first.
abbrev pub Entries : Type 0 → Type 0
Entries V = List (Key × V)

unfoldable pub find : {V : Type 0} → Key → Entries V → Option V
find key [] = none
find key ((k, v) ∷ entries) = if key_eq k key then some v else find key entries

-- service_request_ids
abbrev pub Requests : Type 0
Requests = List (String × List ℕ)

-- service_request_ids.setdefault(service, set()).add(id)
unfoldable pub add_request : String → ℕ → Requests → Requests
add_request s id [] = (s, id ∷ []) ∷ []
add_request s id ((t, ids) ∷ requests) =
    if str_eq t s
    then (t, if any (λ n. n == id) ids then ids else ids ++ id ∷ []) ∷ requests
    else (t, ids) ∷ add_request s id requests

-- response_reassembly_keys, service_request_ids and transport_errors
abbrev pub Sending : Type 0
Sending = List Key × Requests × Entries TransportError

abbrev with_key : Key → Outcome Sending → Outcome Sending
with_key key (gives (keys, requests, errors)) = gives (key ∷ keys, requests, errors)
with_key key (fails e) = fails e

-- `for job in jobs`; the next error's key is -(k + 1)
unfoldable pub send_jobs :
    (catch_transport_errors : Bool)
    → ℕ
    → List (String × Send)
    → Requests
    → Entries TransportError
    → Outcome Sending
unfolding is_transport_error
send_jobs catch k [] requests errors = gives ([], requests, errors)
send_jobs catch k ((s, sent_id id) ∷ jobs) requests errors =
    with_key (s, pos id) (send_jobs catch k jobs (add_request s id requests) errors)
send_jobs catch k ((s, send_fails e) ∷ jobs) requests errors =
    let rest =
      with_key (s, negsuc k)
        (send_jobs catch (k + 1) jobs requests (((s, negsuc k), e) ∷ errors)) in
    if catch && is_transport_error e then rest else fails (transport e)

-- What the generator of get_all_responses yields for a service, and what it then raises, if it does.
abbrev pub Stream : Type 0
Stream = List (ℕ × JobResponse) × Option TransportError

-- service_responses and transport_errors
abbrev pub Receiving : Type 0
Receiving = Entries JobResponse × Entries TransportError

abbrev pub remove : ℕ → List ℕ → List ℕ
remove id [] = []
remove id (n ∷ ids) = if n == id then ids else n ∷ remove id ids

-- `for request_id in request_ids`
abbrev pub add_errors :
    String → List ℕ → TransportError → Entries TransportError → Entries TransportError
add_errors s [] e errors = errors
add_errors s (id ∷ ids) e errors = add_errors s ids e (((s, pos id), e) ∷ errors)

-- `except PySOATransportError`
abbrev pub stream_end :
    Bool → String → List ℕ → Option TransportError → Receiving → Outcome Receiving
stream_end catch s ids none received = gives received
stream_end catch s ids (some e) (responses, errors) =
    if catch && is_transport_error e
    then gives (responses, add_errors s ids e errors)
    else fails (transport e)

unfoldable pub receive_service :
    Bool
    → String
    → List ℕ
    → List (ℕ × JobResponse)
    → Option TransportError
    → Receiving
    → Outcome Receiving
receive_service catch s ids [] end received = stream_end catch s ids end received
receive_service catch s ids ((id, response) ∷ stream) end (responses, errors) =
    let rest =
      receive_service catch s (if catch then remove id ids else ids) stream end
        (((s, pos id), response) ∷ responses, errors) in
    if any (λ n. n == id) ids then rest else fails (unexpected s id)

-- `for service_name, request_ids in six.iteritems(service_request_ids)`
unfoldable pub receive_all : Bool → (String → Stream) → Requests → Receiving → Outcome Receiving
unfolding receive_service
receive_all catch streams [] received = gives received
receive_all catch streams ((s, ids) ∷ requests) received =
    receive_service catch s ids (streams s).0 (streams s).1 received
    >>= receive_all catch streams requests

-- What stands in the list that is returned.
pub data Item : Type 0 where
  job : JobResponse → Item
  error : TransportError → Item

abbrev pub with_errors : List ActionResponse → List ActionResponse
with_errors [] = []
with_errors (a ∷ actions) =
    if is_empty a.errors then with_errors actions else a ∷ with_errors actions

-- raise_job_errors and raise_action_errors
unfoldable pub check_response : Bool → Bool → JobResponse → Outcome Item
check_response raise_job_errors raise_action_errors response =
    if raise_job_errors && not (is_empty response.errors)
    then fails (job_failed response.errors)
    else if raise_action_errors && not (is_empty (with_errors response.actions))
    then fails (actions_failed (with_errors response.actions))
    else gives (job response)

abbrev pub error_or_missing : Key → Option TransportError → Outcome Item
error_or_missing key (some e) = gives (error e)
error_or_missing (s, id) none = fails (missing s id)

abbrev pub response_or_error :
    Bool → Bool → Key → Option JobResponse → Option TransportError → Outcome Item
response_or_error jobs actions key (some response) e = check_response jobs actions response
response_or_error jobs actions key none e = error_or_missing key e

unfoldable pub item_of : Bool → Bool → Receiving → Key → Outcome Item
unfolding check_response find
item_of jobs actions (responses, errors) (s, negsuc k) =
    error_or_missing (s, negsuc k) (find (s, negsuc k) errors)
item_of jobs actions (responses, errors) (s, pos id) =
    response_or_error jobs actions (s, pos id) (find (s, pos id) responses)
      (find (s, pos id) errors)

-- `for service_name, request_id in response_reassembly_keys`
unfoldable pub reassemble : Bool → Bool → Receiving → List Key → Outcome (List Item)
reassemble jobs actions received [] = gives []
reassemble jobs actions received (key ∷ keys) = do
  first ← item_of jobs actions received key
  rest ← reassemble jobs actions received keys
  gives (first ∷ rest)

-- The sending and the `get_response` of the future.
unfoldable pub call_jobs_parallel :
    Bool → Bool → Bool → List (String × Send) → (String → Stream) → Outcome (List Item)
unfolding send_jobs receive_all reassemble
call_jobs_parallel catch raise_job_errors raise_action_errors jobs streams = do
  (keys, requests, errors) ← send_jobs catch 0 jobs [] []
  received ← receive_all catch streams requests ([], errors)
  reassemble raise_job_errors raise_action_errors received keys
