-- ===== src/Server/Action/Contract.antt =====
-- The responses of Action.__call__ (pysoa/server/action/base.py).
use pysoa.Prelude.{◌≡◌, refl, Option, List, [], ◌∷◌, arith}
use pysoa.Value.{Value}
use pysoa.Server.Types.{Run, returns, raises, ActionResponse, EnrichedActionRequest}
use pysoa.Server.Responses.{SchemaError}
use pysoa.Server.Action.{
  Action, schema_errors, or_empty, respond, after_run, after_validate, after_schema, call,
}

module _ {W : Type 0} (action : Action W) (request : EnrichedActionRequest) where
  -- `run` returned this body, which its schema accepts, and the response holds it.
  pub record Ran (ran : Run (Option Value)) (r : ActionResponse) : Type 0 where
    pub body : Option Value
    pub returned : ran ≡ returns body
    pub accepted : schema_errors action.response_schema body ≡ []
    pub held : r ≡ record { action = request.action; errors = []; body = or_empty body }

  respond-Ran :
      (body : Option Value) (errors : List SchemaError) (r : ActionResponse)
      → schema_errors action.response_schema body ≡ errors
      → respond action request body errors ≡ returns r
      → Ran (returns body) r
  respond-Ran body [] r e h = record {
    body = body;
    returned = refl;
    accepted = e;
    held = ground (arith, h);
  }
  respond-Ran body (x ∷ errors) r e h = absurd (ground (arith, h))

  after_run-Ran :
      (ran : Run (Option Value) × W) (r : ActionResponse)
      → (after_run action request ran).0 ≡ returns r
      → Ran ran.0 r
  after_run-Ran (returns body, w) r h = respond-Ran body _ r refl h
  after_run-Ran (raises x, w) r h = absurd (ground (arith, h))

  -- the request's schema and `validate` let the request pass, and then `run` returned
  pub record Passed (w : W) (r : ActionResponse) : Type 0 where
    pub valid : schema_errors action.request_schema request.body ≡ []
    pub validated : (action.validate request w).0 ≡ returns tt
    pub ran : Ran (action.run request (action.validate request w).1).0 r

  validated_step :
      (checked : Run (Unit {0}) × W) (r : ActionResponse)
      → (after_validate action request checked).0 ≡ returns r
      → (checked.0 ≡ returns tt) × Ran (action.run request checked.1).0 r
  validated_step (returns tt, w) r h = (refl, after_run-Ran (action.run request w) r h)
  validated_step (raises x, w) r h = absurd (ground (arith, h))

  schema_step :
      (errors : List SchemaError) (w : W) (r : ActionResponse)
      → schema_errors action.request_schema request.body ≡ errors
      → (after_schema action request errors w).0 ≡ returns r
      → Passed w r
  schema_step [] w r e h =
      let (validated, ran) = validated_step (action.validate request w) r h in
      record { valid = e; validated = validated; ran = ran }
  schema_step (x ∷ errors) w r e h = absurd (ground (arith, h))

  -- An action returns a response only if the request's schema accepts the request, `validate` lets
  -- it pass, `run` returns a body and the response's schema accepts that; and the response is then
  -- that body, or an empty one for None, with the request's action name and no errors.
  pub call-Passed :
      (w : W) (r : ActionResponse) → (call action request w).0 ≡ returns r → Passed w r
  unfolding call
  call-Passed w r h = schema_step _ w r refl h
