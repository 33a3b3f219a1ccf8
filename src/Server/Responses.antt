-- ===== src/Server/Responses.antt =====
-- The responses that pysoa/server/server.py makes of what is raised: the `except` branches of
-- execute_job and process_job, and handle_unhandled_exception.
use Prim.Native.String
use pysoa.Prelude.{
  String, Bool, true, false, not, ◌&&◌, ◌||◌, Option, none, some, List, [], ◌∷◌, is_empty,
}
use pysoa.Server.Types.{
  Error, new_error, harakiri_interrupt, action_error, job_error, other, Run, returns, raises,
  ActionResponse, JobResponse, error_response, job_errors,
}

infixr 65 ◌⧺◌
abbrev pub ◌⧺◌ : String → String → String
a ⧺ b = String.◌++◌ a b

abbrev pub formatted : Option String → String
formatted (some text) = text
formatted none = "Error formatting error"

-- handle_unhandled_exception, where no variables are passed: the error of its response
unfoldable pub unhandled_error : Option String → String → Error
unhandled_error text traceback =
    let e = new_error "SERVER_ERROR" ("Internal server error: " ⧺ formatted text) none false in
    record e { traceback = some traceback }

abbrev pub action_timeout : String → Error
action_timeout name =
    new_error "ACTION_TIMEOUT"
      ("The action \"" ⧺ name ⧺ "\" ran for too long and had to be interrupted.") none false

abbrev pub job_timeout : Error
job_timeout =
    new_error "JOB_TIMEOUT"
      "The service job ran for too long and had to be interrupted (probably a middleware issue)."
      none false

-- The response to one action, and whether it was interrupted.
abbrev pub Answer : Type 0
Answer = Run (ActionResponse × Bool)

-- the `try` around `wrapper(action_request)`
unfoldable pub answer : String → Run ActionResponse → Answer
unfolding unhandled_error
answer name (returns response) = returns (response, false)
answer name (raises harakiri_interrupt) =
    returns (error_response name (action_timeout name ∷ []), true)
answer name (raises (action_error errors)) = returns (error_response name errors, false)
answer name (raises (job_error errors)) = raises (job_error errors)
answer name (raises (other text traceback)) =
    returns (error_response name (unhandled_error text traceback ∷ []), false)

unfoldable pub not_found : String → ActionResponse
not_found name = error_response name (
    new_error "UNKNOWN" ("The action \"" ⧺ name ⧺ "\" was not found on this server.")
      (some "action") true
    ∷ [])

-- `harakiri or (action_response.errors and not continue_on_error)`
abbrev pub stops : Bool → ActionResponse × Bool → Bool
stops continue_on_error (response, harakiri) =
    harakiri || not (is_empty response.errors) && not continue_on_error

-- The text and the traceback that Python gives of an ActionError, which process_job handles as any
-- other exception.
abbrev pub Formatting : Type 0
Formatting = List Error → Option String × String

-- the `except` branches of process_job
unfoldable pub job_answer : Formatting → Run JobResponse → JobResponse
unfolding unhandled_error
job_answer formatting (returns response) = response
job_answer formatting (raises harakiri_interrupt) = job_errors (job_timeout ∷ [])
job_answer formatting (raises (job_error errors)) = job_errors errors
job_answer formatting (raises (action_error errors)) =
    job_errors (unhandled_error (formatting errors).0 (formatting errors).1 ∷ [])
job_answer formatting (raises (other text traceback)) =
    job_errors (unhandled_error text traceback ∷ [])

-- an error of JobRequestSchema: its code, message and pointer
abbrev pub SchemaError : Type 0
SchemaError = String × String × Option String

abbrev pub validation_errors : Bool → List SchemaError → List Error
validation_errors is_caller_error [] = []
validation_errors is_caller_error ((code, message, pointer) ∷ errors) =
    new_error code message pointer is_caller_error ∷ validation_errors is_caller_error errors

-- `if 'correlation_id' in job_request['context']`
abbrev pub with_correlation_id : Option String → Run JobResponse → Run JobResponse
with_correlation_id none r = r
with_correlation_id (some id) (returns response) =
    returns (record response { correlation_id = some id })
with_correlation_id (some id) (raises e) = raises e
