-- ===== src/Server/Status.antt =====
-- BaseStatusAction of pysoa/server/action/status.py: the health checks, and the one of them that
-- asks the services that this one calls.
pub mod Checks
use pysoa.Prelude.{
  ℕ, String, Bool, true, false, not, ◌&&◌, Option, none, some, List, [], ◌∷◌, ◌++◌, map,
  if◌then◌else◌, is_empty, str_eq, ◌⊎◌, inl, inr,
}
use pysoa.Value.{Value, Fields, no_fields, field, atom, bool}
use pysoa.Errors.{TransportError}
use pysoa.Server.Types.{Error, ActionResponse, JobResponse}
use pysoa.Server.Responses.{◌⧺◌}
use pysoa.Client.Parallel.{Item, job, error}

-- CheckMethodStatus
pub record CheckMethodStatus : Type 0 where
  pub is_error : Bool
  pub code : String
  pub description : String

abbrev pub Diagnostics : Type 0
Diagnostics = List (String × Value)

-- How a check method ends: with problems, where none is any false value, or with an exception that
-- is a TypeError, or another one. `not_tuples` are problems that are no iterable of triples.
pub data Checked : Type 0 where
  problems : List CheckMethodStatus → Checked
  not_tuples : Checked
  type_error : Checked
  other_exception : Checked

-- a check method, which may write to the action's diagnostics
abbrev pub Check : Type 0 → Type 0
Check W = Diagnostics → W → Checked × Diagnostics × W

-- What stands under `healthcheck`.
pub record Health : Type 0 where
  pub errors : List (String × String)
  pub warnings : List (String × String)
  pub diagnostics : Diagnostics

pub record Versions : Type 0 where
  pub conformity : String
  pub pysoa : String
  pub python : String
  pub version : String

pub record Status : Type 0 where
  pub versions : Versions
  pub build : Option String
  pub healthcheck : Option Health

-- How `run` ends; the other outcomes are a RuntimeError and the exception of a check method.
pub data Outcome : Type 0 where
  status : Status → Outcome
  runtime_error : Outcome
  not_caught : Outcome

-- `for is_error, code, description in problems`
unfoldable pub parcel :
    List CheckMethodStatus
    → List (String × String) × List (String × String)
    → List (String × String) × List (String × String)
parcel [] sorted = sorted
parcel (p ∷ ps) (errors, warnings) =
    if p.is_error
    then parcel ps (errors ++ (p.code, p.description) ∷ [], warnings)
    else parcel ps (errors, warnings ++ (p.code, p.description) ∷ [])

-- How the loop over the check methods ends: with the errors and the warnings, or as `run` ends.
pub data Loop : Type 0 where
  passed : List (String × String) × List (String × String) → Loop
  fails : Outcome → Loop

module _ {W : Type 0} where
  abbrev pub go_on :
      (List (String × String) × List (String × String) → Diagnostics → W → Loop × Diagnostics × W)
      → List (String × String) × List (String × String)
      → Checked × Diagnostics × W
      → Loop × Diagnostics × W
  go_on again sorted (problems ps, diagnostics, w) = again (parcel ps sorted) diagnostics w
  go_on again sorted (not_tuples, diagnostics, w) = (fails runtime_error, diagnostics, w)
  go_on again sorted (type_error, diagnostics, w) = (fails runtime_error, diagnostics, w)
  go_on again sorted (other_exception, diagnostics, w) = (fails not_caught, diagnostics, w)

  -- `for check_method in check_methods`
  unfoldable pub run_checks :
      List (Check W)
      → List (String × String) × List (String × String)
      → Diagnostics
      → W
      → Loop × Diagnostics × W
  run_checks [] sorted diagnostics w = (passed sorted, diagnostics, w)
  run_checks (check ∷ checks) sorted diagnostics w =
      go_on (run_checks checks) sorted (check diagnostics w)

  abbrev pub reported : Status → Loop × Diagnostics × W → Outcome × W
  reported basic (fails outcome, diagnostics, w) = (outcome, w)
  reported basic (passed (errors, warnings), diagnostics, w) =
      let health : Health = record {
        errors = errors;
        warnings = warnings;
        diagnostics = diagnostics;
      } in
      (status (record basic { healthcheck = some health }), w)

-- body.get('verbose', True) is True, of a body that may be empty
abbrev is_true : Value → Bool
is_true (atom (bool b)) = b
is_true _ = false

abbrev pub is_verbose : Fields → Bool
is_verbose no_fields = true
is_verbose (field k v fields) = if str_eq k "verbose" then is_true v else is_verbose fields

-- `if self._build`
abbrev pub build_of : Option String → Option String
build_of none = none
build_of (some build) = if str_eq build "" then none else some build

unfoldable pub run :
    {W : Type 0} → Versions → Option String → List (Check W) → Fields → W → Outcome × W
unfolding run_checks parcel
run versions build checks body w =
    let basic : Status = record {
      versions = versions;
      build = build_of build;
      healthcheck = none;
    } in
    if is_verbose body then reported basic (run_checks checks ([], []) [] w) else (status basic, w)

-- What _check_client_settings makes of the item of a service: the problem, or the body that goes
-- into the diagnostics. `text` is what Python shows of an exception or of errors, `upper` is
-- service_name.upper().
pub record Texts : Type 0 where
  pub of_exception : TransportError → String
  pub of_errors : List Error → String
  pub upper : String → String

pub data Verdict : Type 0 where
  problem : CheckMethodStatus → Verdict
  healthy : Value → Verdict
  no_action : Verdict

abbrev pub an_error : String → String → Verdict
an_error code description =
    problem (record { is_error = true; code = code; description = description })

abbrev verdict_of_actions : Texts → String → List ActionResponse → Verdict
verdict_of_actions texts service [] = no_action
verdict_of_actions texts service (a ∷ actions) =
    if is_empty a.errors
    then healthy a.body
    else an_error (texts.upper service ⧺ "_STATUS_ERROR") (texts.of_errors a.errors)

unfoldable pub verdict : Texts → String → Item → Verdict
verdict texts service (error e) =
    an_error (texts.upper service ⧺ "_TRANSPORT_ERROR") (texts.of_exception e)
verdict texts service (job response) =
    if is_empty response.errors
    then verdict_of_actions texts service response.actions
    else an_error (texts.upper service ⧺ "_CALL_ERROR") (texts.of_errors response.errors)

-- `for i, service_name in enumerate(service_names)`: the problems and the diagnostics, `none` where
-- a response or an action is missing.
abbrev with_verdict :
    String
    → Verdict
    → Option (List CheckMethodStatus × Diagnostics)
    → Option (List CheckMethodStatus × Diagnostics)
with_verdict service no_action rest = none
with_verdict service _ none = none
with_verdict service (problem p) (some (ps, found)) = some (p ∷ ps, found)
with_verdict service (healthy body) (some (ps, found)) = some (ps, (service, body) ∷ found)

unfoldable pub check_services :
    Texts → List String → List Item → Option (List CheckMethodStatus × Diagnostics)
unfolding verdict
check_services texts [] items = some ([], [])
check_services texts (service ∷ services) [] = none
check_services texts (service ∷ services) (item ∷ items) =
    with_verdict service (verdict texts service item) (check_services texts services items)

-- _check_client_settings: `services` are the names in the client's settings, `called` is what
-- call_jobs_parallel returns, or the text of what it raises. None for no settings is no problems.
unfoldable pub check_client_settings :
    Texts → List String → String ⊎ List Item → Option (List CheckMethodStatus × Diagnostics)
unfolding check_services
check_client_settings texts [] called = some ([], [])
check_client_settings texts (service ∷ services) (inl text) =
    some (
      record { is_error = true; code = "CHECK_SERVICES_UNKNOWN_ERROR"; description = text } ∷ [],
      [],
    )
check_client_settings texts (service ∷ services) (inr items) =
    check_services texts (service ∷ services) items
