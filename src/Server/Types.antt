-- ===== src/Server/Types.antt =====
-- pysoa/common/errors.py, pysoa/common/types.py, pysoa/server/errors.py and pysoa/server/types.py:
-- errors, requests, responses, and what server code may raise.
use pysoa.Prelude.{
  String, Bool, false, Option, none, some, List, [], ◌∷◌, map, if◌then◌else◌, ℤ, bool_eq, ◌≡◌, refl,
  arith, ◌⊎◌, inl, inr,
}
use pysoa.Value.{Value, Fields, dict, no_fields}

pub record Error : Type 0 where
  pub code : String
  pub message : String
  pub field : Option String
  pub traceback : Option String
  pub variables : Option Value
  pub denied_permissions : Option (List String)
  pub is_caller_error : Bool

abbrev pub new_error : String → String → Option String → Bool → Error
new_error code message field is_caller_error = record {
  code = code;
  message = message;
  field = field;
  traceback = none;
  variables = none;
  denied_permissions = none;
  is_caller_error = is_caller_error;
}

-- _replace_errors_if_necessary
unfoldable pub replace_errors_if_necessary : List Error → Bool → List Error
replace_errors_if_necessary [] is_caller_error = []
replace_errors_if_necessary (e ∷ errors) is_caller_error =
    (if bool_eq e.is_caller_error is_caller_error
      then e
      else record e { is_caller_error = is_caller_error })
    ∷ replace_errors_if_necessary errors is_caller_error

abbrev pub raised_errors : List Error → Option Bool → List Error
raised_errors errors none = errors
raised_errors errors (some b) = replace_errors_if_necessary errors b

-- What comes out of a call as an exception. `other` is any other exception, by its text (`none` if
-- that cannot be formatted) and its traceback.
pub data Raised : Type 0 where
  harakiri_interrupt : Raised
  action_error : List Error → Raised
  job_error : List Error → Raised
  other : Option String → String → Raised

-- JobError(errors, set_is_caller_error_to) and ActionError(errors, set_is_caller_error_to)
abbrev pub make_job_error : List Error → Option Bool → Raised
make_job_error errors set_to = job_error (raised_errors errors set_to)

abbrev pub make_action_error : List Error → Option Bool → Raised
make_action_error errors set_to = action_error (raised_errors errors set_to)

pub data Run {ℓ} (A : Type ℓ) : Type ℓ where
  returns : A → Run A
  raises : Raised → Run A

pub record ActionRequest : Type 0 where
  pub action : String
  pub body : Value

pub record ActionResponse : Type 0 where
  pub action : String
  pub errors : List Error
  pub body : Value

-- The context header by the entries that the server reads.
pub record Context : Type 0 where
  pub switches : List ℤ
  pub correlation_id : Option String
  pub others : Fields

pub record Control : Type 0 where
  pub continue_on_error : Bool
  pub suppress_response : Bool

pub record JobRequest : Type 0 where
  pub control : Control
  pub context : Context
  pub actions : List ActionRequest

-- The response context by the entry that the server writes.
pub record JobResponse : Type 0 where
  pub errors : List Error
  pub correlation_id : Option String
  pub actions : List ActionResponse

-- EnrichedActionRequest, without the client and the coroutine runner, which the server only hands on.
pub record EnrichedActionRequest : Type 0 where
  pub action : String
  pub body : Value
  pub switches : List ℤ
  pub context : Context
  pub control : Control

abbrev pub empty_body : Value
empty_body = dict no_fields

abbrev pub error_response : String → List Error → ActionResponse
error_response action errors = record { action = action; errors = errors; body = empty_body }

abbrev pub job_errors : List Error → JobResponse
job_errors errors = record { errors = errors; correlation_id = none; actions = [] }

-- Every error of an exception that sets the flag has it, and in all else the errors are as given.
abbrev pub without_flag : Error → Error
without_flag e = record e { is_caller_error = false }

pub replace_errors-flags :
    (errors : List Error) (b : Bool)
    → (map (λ (e : Error). e.is_caller_error) (replace_errors_if_necessary errors b)
        ≡ map (λ (e : Error). b) errors)
      × (map without_flag (replace_errors_if_necessary errors b) ≡ map without_flag errors)
unfolding replace_errors_if_necessary
replace_errors-flags [] b = (refl, refl)
replace_errors-flags (e ∷ errors) b =
    let (flags, rest) = replace_errors-flags errors b in
    (ground (arith, flags), ground (arith, rest))

pub Run-cases {ℓ} :
    {A : Type ℓ} (r : Run A) → ((e : Raised) × (r ≡ raises e)) ⊎ ((a : A) × (r ≡ returns a))
Run-cases (returns a) = inr (a, refl)
Run-cases (raises e) = inl (e, refl)
