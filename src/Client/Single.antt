-- ===== src/Client/Single.antt =====
-- The results of call_actions_future, call_action_future and call_actions_parallel_future of
-- pysoa/client/client.py, without expansions.
pub mod Results
use pysoa.Prelude.{
  ℕ, String, Bool, true, false, not, ◌&&◌, Option, none, some, List, [], ◌∷◌, ◌++◌, ◌==◌,
  if◌then◌else◌, is_empty, ℤ, pos,
}
use pysoa.Errors.{TransportError}
use pysoa.Server.Types.{Error, ActionResponse, JobResponse}
use pysoa.Client.Parallel.{
  Failure, transport, missing, Outcome, gives, fails, ◌>>=◌, Stream, Item, job, error,
  check_response,
}

-- `for request_id, response in responses`, up to the `break`
unfoldable pub find_response : ℕ → List (ℕ × JobResponse) → Option JobResponse
find_response expected [] = none
find_response expected ((id, response) ∷ responses) =
    if id == expected then some response else find_response expected responses

abbrev checked : Bool → Bool → String → ℕ → Option JobResponse → Outcome Item
checked raise_job_errors raise_action_errors s expected none = fails (missing s (pos expected))
checked raise_job_errors raise_action_errors s expected (some response) =
    check_response raise_job_errors raise_action_errors response

-- `get_response` of call_actions_future, where the whole stream is read first
unfoldable pub actions_response : Bool → Bool → String → ℕ → Stream → Outcome Item
unfolding find_response check_response
actions_response raise_job_errors raise_action_errors s expected (responses, some e) =
    fails (transport e)
actions_response raise_job_errors raise_action_errors s expected (responses, none) =
    checked raise_job_errors raise_action_errors s expected (find_response expected responses)

-- What stands for an action in the results: its response, the errors of its job, or an exception.
pub data ActionItem : Type 0 where
  action : ActionResponse → ActionItem
  failed_job : List Error → ActionItem
  caught : TransportError → ActionItem

-- result.errors or result.actions[0], where `none` is the IndexError of a job with no action
abbrev first_action : List Error → List ActionResponse → Option ActionItem
first_action (e ∷ errors) actions = some (failed_job (e ∷ errors))
first_action [] (a ∷ actions) = some (action a)
first_action [] [] = none

-- `get_result` of call_action_future, and what `parse_results` yields for a job
unfoldable pub action_item : Item → Option ActionItem
action_item (job response) = first_action response.errors response.actions
action_item (error e) = some (caught e)

-- the generator of `parse_results`: what it yields, and whether it ends without an exception
unfoldable pub parse_results : List Item → List ActionItem × Bool
unfolding action_item
parse_results [] = ([], true)
parse_results (item ∷ items) =
    let rest = parse_results items in
    elim (action_item item) [ none ↦ ([], false) | some a ↦ (a ∷ rest.0, rest.1) ]
