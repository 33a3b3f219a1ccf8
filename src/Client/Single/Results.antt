-- ===== src/Client/Single/Results.antt =====
-- The results of call_actions_future and call_actions_parallel_future (pysoa/client/client.py).
use pysoa.Prelude.{
  ℕ, ◌≡◌, refl, ap, String, Bool, true, false, Option, none, some, List, [], ◌∷◌, ◌==◌, is_empty,
  arith, Bool-cases, inl, inr, ◌⊎◌, map, All, not, ◌&&◌, pos,
}
use pysoa.Errors.{TransportError}
use pysoa.Server.Types.{Error, ActionResponse, JobResponse}
use pysoa.Client.Parallel.{
  transport, missing, job_failed, actions_failed, Outcome, gives, fails, Stream, Item, job, error,
  with_errors, check_response,
}
use pysoa.Client.Parallel.Receiving.{Yields}
use pysoa.Client.Single.{
  find_response, checked, actions_response, ActionItem, action, failed_job, caught, first_action,
  action_item, parse_results,
}

find_response-Yields :
    (expected : ℕ) (responses : List (ℕ × JobResponse)) (r : JobResponse)
    → find_response expected responses ≡ some r
    → Yields expected r responses
unfolding find_response
find_response-Yields expected [] r e = absurd (ground (arith, e))
find_response-Yields expected ((id, q) ∷ responses) r e = elim (Bool-cases (id == expected)) [
  | inl here ↦ inl (ground (arith, here), ground (arith, e, here))
  | inr later ↦ inr (find_response-Yields expected responses r (ground (arith, e, later)))
]

find_response-none :
    (expected : ℕ) (responses : List (ℕ × JobResponse)) (r : JobResponse)
    → find_response expected responses ≡ none
    → Yields expected r responses
    → ⊥
unfolding find_response
find_response-none expected [] r e h = h
find_response-none expected ((id, q) ∷ responses) r e (inl (here, same)) = ground (arith, e, here)
find_response-none expected ((id, q) ∷ responses) r e (inr later) =
    elim (Bool-cases (id == expected)) [
      | inl here ↦ ground (arith, e, here)
      | inr other ↦ find_response-none expected responses r (ground (arith, e, other)) later
    ]

-- How a call of several actions can end.
pub data Ending (jobs actions : Bool) (s : String) (expected : ℕ) (stream : Stream)
    (o : Outcome Item) : Type 0 where
  -- The stream of the responses ended in this error.
  broken :
      (e : TransportError)
      → stream.1 ≡ some e
      → o ≡ fails (transport e)
      → Ending jobs actions s expected stream o
  -- It ended well, and yielded no response to the request.
  absent :
      stream.1 ≡ none
      → ((r : JobResponse) → Yields expected r stream.0 → ⊥)
      → o ≡ fails (missing s (pos expected))
      → Ending jobs actions s expected stream o
  -- The response has job errors, which are raised.
  job_refused :
      (r : JobResponse)
      → Yields expected r stream.0
      → jobs ≡ true
      → is_empty r.errors ≡ false
      → o ≡ fails (job_failed r.errors)
      → Ending jobs actions s expected stream o
  -- The response has actions with errors, which are raised.
  actions_refused :
      (r : JobResponse)
      → Yields expected r stream.0
      → actions ≡ true
      → is_empty (with_errors r.actions) ≡ false
      → o ≡ fails (actions_failed (with_errors r.actions))
      → Ending jobs actions s expected stream o
  -- The response is returned, and has no errors that were to be raised.
  returned :
      (r : JobResponse)
      → Yields expected r stream.0
      → (jobs ≡ true → is_empty r.errors ≡ true)
      → (actions ≡ true → is_empty (with_errors r.actions) ≡ true)
      → o ≡ gives (job r)
      → Ending jobs actions s expected stream o

module _ (jobs actions : Bool) (s : String) (expected : ℕ)
    (responses : List (ℕ × JobResponse)) where
  check_response-Ending :
      (r : JobResponse)
      → Yields expected r responses
      → Ending jobs actions s expected (responses, none) (check_response jobs actions r)
  unfolding check_response
  check_response-Ending r yields = elim (Bool-cases jobs) [
    | inl raise_jobs ↦ elim (Bool-cases (is_empty r.errors)) [
      | inr errors ↦ job_refused r yields raise_jobs errors (ground (arith, raise_jobs, errors))
      | inl fine ↦ by_actions (λ _. fine) (ground (arith, fine))
    ]
    | inr keep ↦ by_actions (λ h. absurd (ground (arith, h, keep))) (ground (arith, keep))
  ]
    where
      by_actions :
          (jobs ≡ true → is_empty r.errors ≡ true)
          → (jobs && not (is_empty r.errors)) ≡ false
          → Ending jobs actions s expected (responses, none) (check_response jobs actions r)
      by_actions fine passed = elim (Bool-cases actions) [
        | inl raise_actions ↦ elim (Bool-cases (is_empty (with_errors r.actions))) [
          | inr errors ↦
              actions_refused r yields raise_actions errors
                (ground (arith, passed, raise_actions, errors))
          | inl none_failed ↦
              returned r yields fine (λ _. none_failed) (ground (arith, passed, none_failed))
        ]
        | inr keep ↦
            returned r yields fine (λ h. absurd (ground (arith, h, keep)))
              (ground (arith, passed, keep))
      ]

  checked-Ending :
      (o : Option JobResponse)
      → find_response expected responses ≡ o
      → Ending jobs actions s expected (responses, none) (checked jobs actions s expected o)
  checked-Ending none e = absent refl (λ r y. find_response-none expected responses r e y) refl
  checked-Ending (some r) e = check_response-Ending r (find_response-Yields expected responses r e)

-- A call of several actions ends in one of five ways: with the error that ended the stream; with the
-- error that no response to its request was yielded, and then none was; with the job's errors or the
-- actions with errors of a response to its request, if these are to be raised and are there; or with
-- such a response that has no errors that were to be raised.
pub actions_response-Ending :
    (jobs actions : Bool) (s : String) (expected : ℕ) (stream : Stream)
    → Ending jobs actions s expected stream (actions_response jobs actions s expected stream)
unfolding actions_response
actions_response-Ending jobs actions s expected (responses, some e) = broken e refl refl
actions_response-Ending jobs actions s expected (responses, none) =
    checked-Ending jobs actions s expected responses (find_response expected responses) refl

-- The job was not answered, or its response has an error or an action.
abbrev pub Answers : Item → Type 0
Answers (job response) = (is_empty response.errors ≡ false) ⊎ (is_empty response.actions ≡ false)
Answers (error e) = Unit

first_action-some :
    (errors : List Error) (actions : List ActionResponse)
    → (is_empty errors ≡ false) ⊎ (is_empty actions ≡ false)
    → (a : ActionItem) × (first_action errors actions ≡ some a)
first_action-some (e ∷ errors) actions h = (failed_job (e ∷ errors), refl)
first_action-some [] (a ∷ actions) h = (action a, refl)
first_action-some [] [] (inl h) = absurd (ground (arith, h))
first_action-some [] [] (inr h) = absurd (ground (arith, h))

action_item-some : (item : Item) → Answers item → (a : ActionItem) × (action_item item ≡ some a)
unfolding action_item
action_item-some (job response) h = first_action-some response.errors response.actions h
action_item-some (error e) h = (caught e, refl)

-- If every response has an error or an action, the generator of call_actions_parallel ends without an
-- exception, and it has yielded one item for each job in their order, the one of `action_item`: the
-- job's errors if it has any, else its first action, and an exception in the place of a job as it is.
pub parse_results-map :
    (items : List Item)
    → All Answers items
    → ((parse_results items).1 ≡ true)
      × (map (λ a. some a) (parse_results items).0 ≡ map action_item items)
unfolding parse_results
parse_results-map [] h = (refl, refl)
parse_results-map (item ∷ items) h =
    let (a, found) = action_item-some item h.0 in
    let (ends, rest) = parse_results-map items h.1 in
    rw (found, parse_results) (ends, ap (λ xs. some a ∷ xs) rest)
