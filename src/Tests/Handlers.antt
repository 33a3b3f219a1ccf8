-- ===== src/Tests/Handlers.antt =====
-- A handler on a Redis transport at concrete inputs.
use pysoa.Prelude.{ℕ, ◌+◌, refl, false, none, some, [], ◌∷◌, Option, arith}
use pysoa.Errors.{Result, ok, err, connection_error}
use pysoa.Server.Types.{JobResponse}
use pysoa.Client.Handler.{Handler, Body, get_all_responses}
use pysoa.Client.Handler.Responses.{Ends, receive_response_message, get_all_responses-Ends}
use pysoa.RedisGateway.ClientTransport.{Transport}

abbrev response : JobResponse
response = record { errors = []; correlation_id = none; actions = [] }

-- A core that has a response at every call.
abbrev core : Option ℕ → ℕ → Result (ℕ × Body) × ℕ
core timeout v = (ok (v, some (ok response)), v + 1)

abbrev handler : Handler (Transport × ℕ)
handler = record {
  request_counter = 10;
  client_version = 1 ∷ 2 ∷ [];
  request_middleware = [];
  response_middleware = [];
  send_request_message = λ id version job expiry w. (err connection_error, w);
  receive_response_message = receive_response_message core;
}

abbrev two_outstanding : Transport
two_outstanding = record { requests_outstanding = 2; previous_error_was_transport_problem = false }

get_all_responses-Ends_example :
    Ends handler core none 2 (get_all_responses 3 handler none (two_outstanding, 8))
get_all_responses-Ends_example =
    get_all_responses-Ends handler core 3 none two_outstanding 8 refl refl (omega arith)
