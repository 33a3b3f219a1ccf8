-- ===== src/Server/Action.antt =====
-- pysoa/server/action/base.py: what a call of an Action does, around the methods that subclasses
-- write.
pub mod Contract
use pysoa.Prelude.{◌≡◌, true, Option, none, some, List, [], ◌∷◌, arith, String}
use pysoa.Value.{Value}
use pysoa.Server.Types.{
  Error, other, make_action_error, Run, returns, raises, ActionResponse, EnrichedActionRequest,
  empty_body,
}
use pysoa.Server.Responses.{SchemaError, validation_errors}

-- A class that extends Action. A schema is given by the `errors` of the Conformity field that it
-- is; `run` may return None. The text and the traceback of a ResponseValidationError are Python's.
pub record Action (W : Type 0) : Type 0 where
  pub request_schema : Option (Value → List SchemaError)
  pub response_schema : Option (Option Value → List SchemaError)
  pub validate : EnrichedActionRequest → W → Run (Unit {0}) × W
  pub run : EnrichedActionRequest → W → Run (Option Value) × W
  pub response_validation_error : String → List SchemaError → Option String × String

-- `if self.request_schema`, and the errors that it finds
abbrev pub schema_errors : {A : Type 0} → Option (A → List SchemaError) → A → List SchemaError
schema_errors none a = []
schema_errors (some errors) a = errors a

abbrev pub or_empty : Option Value → Value
or_empty none = empty_body
or_empty (some body) = body

module _ {W : Type 0} (action : Action W) (request : EnrichedActionRequest) where
  -- the validation of the response body, and the response
  abbrev pub respond : Option Value → List SchemaError → Run ActionResponse
  respond body [] = returns (record { action = request.action; errors = []; body = or_empty body })
  respond body (e ∷ errors) =
      let formatted = action.response_validation_error request.action (e ∷ errors) in
      raises (other formatted.0 formatted.1)

  abbrev pub after_run : Run (Option Value) × W → Run ActionResponse × W
  after_run (raises e, w) = (raises e, w)
  after_run (returns body, w) = (respond body (schema_errors action.response_schema body), w)

  abbrev pub after_validate : Run (Unit {0}) × W → Run ActionResponse × W
  after_validate (raises e, w) = (raises e, w)
  after_validate (returns _, w) = after_run (action.run request w)

  abbrev pub after_schema : List SchemaError → W → Run ActionResponse × W
  after_schema [] w = after_validate (action.validate request w)
  after_schema (e ∷ errors) w =
      (raises (make_action_error (validation_errors true (e ∷ errors)) none), w)

-- Action.__call__
unfoldable pub call : {W : Type 0} → Action W → EnrichedActionRequest → W → Run ActionResponse × W
call action request w =
    after_schema action request (schema_errors action.request_schema request.body) w
