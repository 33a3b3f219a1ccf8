-- ===== src/Client/Sending.antt =====
-- Client.send_request of pysoa/client/client.py: the request that is made and the handler that sends
-- it. `job_request` makes a JobRequest of the actions, the control header and the context header.
pub mod Numbers
use pysoa.Prelude.{ℕ, String, Bool, Option, none, some, List, [], ◌∷◌, if◌then◌else◌, ℤ, str_eq}
use pysoa.Errors.{TransportError, Result, ok, err}
use pysoa.Value.{Fields}
use pysoa.Server.Types.{JobRequest, Context}
use pysoa.Client.Headers.{ContextDict, make_control_header, make_context_header, with_timeout}
use pysoa.Client.Handler.{
  Handler, send_request, Found, handler_of, improperly_configured, find_handler, get_handler,
}

-- A client; its settings are those of each service.
pub record Client (W S : Type 0) : Type 0 where
  pub settings : List (String × S)
  pub handlers : List (String × Handler W)
  pub context : ContextDict

-- The arguments of send_request; `new_id` is what `uuid.uuid1()` gives.
pub record Call (A : Type 0) : Type 0 where
  pub service : String
  pub actions : A
  pub switches : List ℤ
  pub correlation_id : Option String
  pub continue_on_error : Bool
  pub context : Option ContextDict
  pub control_extra : Fields
  pub message_expiry_in_seconds : Option ℕ
  pub suppress_response : Bool
  pub new_id : String

-- How send_request ends.
pub data Sent : Type 0 where
  sent : (request_id : ℕ) → Sent
  failed : TransportError → Sent
  not_configured : Sent

abbrev pub ended : Result ℕ → Sent
ended (ok id) = sent id
ended (err e) = failed e

-- the client's handlers after one of them was changed
abbrev pub put_handler :
    {W : Type 0} → String → Handler W → List (String × Handler W) → List (String × Handler W)
put_handler name handler [] = (name, handler) ∷ []
put_handler name handler ((key, h) ∷ handlers) =
    if str_eq key name
    then (key, handler) ∷ handlers
    else (key, h) ∷ put_handler name handler handlers

module _ {W S A : Type 0} (handler_class : String → S → Handler W)
    (job_request : A → Fields → Context → JobRequest) where
  -- The outcome, what is left of the caller's context, the client and the world.
  abbrev pub send_with :
      Client W S
      → Call A
      → W
      → Found W × List (String × Handler W)
      → Sent × Option ContextDict × Client W S × W
  send_with client call w (improperly_configured, handlers) =
      (not_configured, call.context, client, w)
  send_with client call w (handler_of handler, handlers) =
      let extra = with_timeout call.message_expiry_in_seconds call.control_extra in
      let control = make_control_header call.continue_on_error call.suppress_response extra in
      let header =
        make_context_header client.context call.new_id call.switches call.correlation_id
          call.context in
      let done =
        send_request handler (job_request call.actions control header.0)
          call.message_expiry_in_seconds w in
      (
        ended done.0,
        header.1,
        record client { handlers = put_handler call.service done.1 handlers },
        done.2,
      )

  unfoldable pub client_send_request :
      Client W S → Call A → W → Sent × Option ContextDict × Client W S × W
  client_send_request client call w =
      send_with client call w
        (get_handler handler_class client.settings call.service client.handlers)
