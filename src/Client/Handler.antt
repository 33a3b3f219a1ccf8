-- ===== src/Client/Handler.antt =====
-- ServiceHandler of pysoa/client/client.py, and Client._get_handler. `W` is the world that the
-- transport and the middleware act on; the metrics are left out.
pub mod Responses
use pysoa.Prelude.{
  ℕ, zero, suc, ◌+◌, String, Bool, true, false, Option, none, some, List, [], ◌∷◌, if◌then◌else◌,
  str_eq,
}
use pysoa.Errors.{TransportError, Result, ok, err}
use pysoa.Server.Types.{JobRequest, JobResponse}
use pysoa.Server.Job.{make_middleware_stack}
use pysoa.Client.Parallel.{Stream}

-- what send_request passes on: the ID, the client's version as the metadata, the request, its expiry
abbrev pub SendTask : Type 0 → Type 0
SendTask W = ℕ → List ℕ → JobRequest → Option ℕ → W → Result (Unit {0}) × W

-- What a received message's body is: None, or what `JobResponse(**message)` makes of it.
abbrev pub Body : Type 0
Body = Option (Result JobResponse)

-- the transport's receive_response_message; `none` stands for ReceivedMessage(None, None, None), the
-- argument is the timeout
abbrev pub ReceiveTask : Type 0 → Type 0
ReceiveTask W = Option ℕ → W → Result (Option (ℕ × Body)) × W

-- `none` stands for the pair of Nones; the argument is the timeout
abbrev pub GetTask : Type 0 → Type 0
GetTask W = Option ℕ → W → Result (Option (ℕ × JobResponse)) × W

-- `send_request_message` and `receive_response_message` are the transport's.
pub record Handler (W : Type 0) : Type 0 where
  pub request_counter : ℕ
  pub client_version : List ℕ
  pub request_middleware : List (SendTask W → SendTask W)
  pub response_middleware : List (GetTask W → GetTask W)
  pub send_request_message : SendTask W
  pub receive_response_message : ReceiveTask W

abbrev pub with_id : ℕ → Result (Unit {0}) → Result ℕ
with_id id (ok done) = ok id
with_id id (err e) = err e

-- `if message is None: return None, None`, and what follows it
abbrev pub with_body : ℕ → Body → Result (Option (ℕ × JobResponse))
with_body id none = ok none
with_body id (some (ok response)) = ok (some (id, response))
with_body id (some (err e)) = err e

abbrev pub get_response : Result (Option (ℕ × Body)) → Result (Option (ℕ × JobResponse))
get_response (ok none) = ok none
get_response (ok (some (id, body))) = with_body id body
get_response (err e) = err e

-- _base_get_response
abbrev pub base_get_response : {W : Type 0} → ReceiveTask W → GetTask W
base_get_response receive timeout w =
    let (received, w') = receive timeout w in (get_response received, w')

module _ {W : Type 0} where
  -- The counter goes on whether or not the request could be sent.
  unfoldable pub send_request : Handler W → JobRequest → Option ℕ → W → Result ℕ × Handler W × W
  send_request handler job expiry w =
      let id = handler.request_counter in
      let send = make_middleware_stack handler.request_middleware handler.send_request_message in
      let (result, w') = send id handler.client_version job expiry w in
      (with_id id result, record handler { request_counter = id + 1 }, w')

  unfoldable pub wrapped : Handler W → GetTask W
  wrapped handler =
      make_middleware_stack handler.response_middleware
        (base_get_response handler.receive_response_message)

  abbrev pub yielded : ℕ × JobResponse → Option (Stream × W) → Option (Stream × W)
  yielded response none = none
  yielded response (some ((responses, ended), w)) = some ((response ∷ responses, ended), w)

  -- one turn of the generator; `again` are those that follow
  abbrev pub turn :
      (W → Option (Stream × W)) → Result (Option (ℕ × JobResponse)) × W → Option (Stream × W)
  turn again (ok none, w) = some (([], none), w)
  turn again (ok (some response), w) = yielded response (again w)
  turn again (err e, w) = some (([], some e), w)

  -- get_all_responses, iterated to its end: the responses that it yields and the exception, if it
  -- ends in one; `none` if it has not ended after so many turns
  unfoldable pub get_all_responses : ℕ → Handler W → Option ℕ → W → Option (Stream × W)
  get_all_responses zero handler timeout w = none
  get_all_responses (suc turns) handler timeout w =
      turn (get_all_responses turns handler timeout) (wrapped handler timeout w)

-- How _get_handler ends; the other outcome is ImproperlyConfigured.
pub data Found (W : Type 0) : Type 0 where
  handler_of : Handler W → Found W
  improperly_configured : Found W

abbrev pub find_handler {ℓ} : {A : Type ℓ} → String → List (String × A) → Option A
find_handler name [] = none
find_handler name ((key, handler) ∷ handlers) =
    if str_eq key name then some handler else find_handler name handlers

module _ {W S : Type 0} (handler_class : String → S → Handler W) where
  -- a handler that is not there yet is made of the service's settings
  abbrev pub loaded :
      String
      → List (String × Handler W)
      → Option (Handler W)
      → Option S
      → Found W × List (String × Handler W)
  loaded name handlers (some handler) settings = (handler_of handler, handlers)
  loaded name handlers none none = (improperly_configured, handlers)
  loaded name handlers none (some settings) =
      let handler = handler_class name settings in (handler_of handler, (name, handler) ∷ handlers)

  unfoldable pub get_handler :
      List (String × S) → String → List (String × Handler W) → Found W × List (String × Handler W)
  get_handler settings name handlers =
      loaded name handlers (find_handler name handlers) (find_handler name settings)
