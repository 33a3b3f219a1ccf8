-- ===== src/Server/Job/Execution.antt =====
-- The responses of execute_job (pysoa/server/server.py).
use pysoa.Prelude.{
  String, ◌≡◌, refl, ◌∙◌, ap, sym, Bool, true, false, ◌⊎◌, inl, inr, Option, none, some, List, [],
  ◌∷◌, ◌++◌, append_assoc, append-nil, arith, subst, is_empty, Bool-cases,
}
use pysoa.Server.Types.{
  Error, Raised, job_error, action_error, harakiri_interrupt, other, Run, returns, raises,
  ActionRequest, ActionResponse, JobRequest, JobResponse, EnrichedActionRequest, Run-cases,
}
use pysoa.Server.Responses.{answer, stops, action_timeout}
use pysoa.Server.Job.{
  ActionTask, ActionClass, Server, enrich, find_action, call_action, run_found, run_action,
  execute_actions, job_of, execute_job,
}

-- The responses to a list of actions, as the control header wants them. There is one for each
-- action up to the last one that was run. Behind a response with errors there is another one only if
-- `continue_on_error` is set. The run ends before the last action only behind a response with
-- errors, and if `continue_on_error` is set, only behind that of an action that timed out.
abbrev pub AsControlled : Bool → List ActionRequest → List ActionResponse → Type 0
AsControlled continue_on_error [] [] = Unit
AsControlled continue_on_error [] (r ∷ responses) = ⊥
AsControlled continue_on_error (a ∷ actions) [] = ⊥
AsControlled continue_on_error (a ∷ actions) (r ∷ responses) =
    (((is_empty r.errors ≡ true) ⊎ (continue_on_error ≡ true))
      × AsControlled continue_on_error actions responses)
    ⊎ ((responses ≡ [])
        × (is_empty r.errors ≡ false)
        × (continue_on_error ≡ true → r.errors ≡ action_timeout a.action ∷ []))

-- Only a time-out is marked as interrupted.
answer_interrupted :
    (name : String) (x : Run ActionResponse) (r : ActionResponse)
    → answer name x ≡ returns (r, true)
    → r.errors ≡ action_timeout name ∷ []
unfolding answer
answer_interrupted name (returns response) r e = ground arith
answer_interrupted name (raises harakiri_interrupt) r e = ground arith
answer_interrupted name (raises (action_error errors)) r e = ground arith
answer_interrupted name (raises (job_error errors)) r e = ground arith
answer_interrupted name (raises (other text traceback)) r e = ground arith

-- An action's run raises only a JobError.
answer_raised :
    (name : String) (x : Run ActionResponse) (e : Raised)
    → answer name x ≡ raises e
    → (errors : List Error) × (e ≡ job_error errors)
unfolding answer
answer_raised name (returns response) e h = absurd (ground arith)
answer_raised name (raises harakiri_interrupt) e h = absurd (ground arith)
answer_raised name (raises (action_error errors)) e h = absurd (ground arith)
answer_raised name (raises (job_error errors)) e h = (errors, ground arith)
answer_raised name (raises (other text traceback)) e h = absurd (ground arith)

module _ {W : Type 0} (server : Server W) where
  run_found_interrupted :
      (request : EnrichedActionRequest) (c : Option (ActionClass W)) (w : W) (r : ActionResponse)
      → (run_found server request c w).0 ≡ returns (r, true)
      → r.errors ≡ action_timeout request.action ∷ []
  run_found_interrupted request none w r e = ground arith
  run_found_interrupted request (some c) w r e = called (c w) e
    where
      called :
          (m : Run (ActionTask W) × W)
          → (call_action server request m).0 ≡ returns (r, true)
          → r.errors ≡ action_timeout request.action ∷ []
      called (raises x, w') h = ground arith
      called (returns action, w') h = answer_interrupted request.action _ r h

  stop_cases :
      (c : Bool) (request : EnrichedActionRequest) (w : W) (one : ActionResponse × Bool)
      → (run_action server request w).0 ≡ returns one
      → stops c one ≡ true
      → (is_empty one.0.errors ≡ false)
        × (c ≡ true → one.0.errors ≡ action_timeout request.action ∷ [])
  unfolding run_action
  stop_cases c request w (r, false) e h = ground arith
  stop_cases c request w (r, true) e h =
      let timed_out = run_found_interrupted request (find_action server request.action) w r e in
      (ap is_empty timed_out, λ _. timed_out)

  module _ (job : JobRequest) where
    abbrev continues : Bool
    continues = job.control.continue_on_error

    -- the responses that a run adds to those that it starts from
    abbrev Added : List ActionRequest → List ActionResponse → List ActionResponse → Type 0
    Added actions done responses =
        (more : List ActionResponse) × (responses ≡ done ++ more)
        × AsControlled continues actions more

    Added-step :
        (a : ActionRequest) (actions : List ActionRequest) (done : List ActionResponse)
        (one : ActionResponse × Bool) (responses : List ActionResponse)
        → stops continues one ≡ false
        → Added actions (done ++ one.0 ∷ []) responses
        → Added (a ∷ actions) done responses
    Added-step a actions done one responses going (more, e, rest) =
        (one.0 ∷ more, e ∙ append_assoc done (one.0 ∷ []) more, inl (went_on one going, rest))
      where
        went_on :
            (one : ActionResponse × Bool)
            → stops continues one ≡ false
            → (is_empty one.0.errors ≡ true) ⊎ (continues ≡ true)
        went_on (r, h) e = ground arith

    execute_actions-Added :
        (actions : List ActionRequest) (done : List ActionResponse) (w : W)
        (responses : List ActionResponse)
        → (execute_actions server job done actions w).0 ≡ returns responses
        → Added actions done responses
    unfolding execute_actions
    execute_actions-Added [] done w responses e = ([], ground (arith, append-nil done), tt)
    execute_actions-Added (a ∷ actions) done w responses e =
        let ran = run_action server (enrich job a) w in
        elim (Run-cases ran.0) [
          | inl (x, failed) ↦ absurd (ground arith)
          | inr (one, went) ↦ elim (Bool-cases (stops continues one)) [
            | inl stopped ↦
                let (with_errors, timed_out) =
                  stop_cases continues (enrich job a) w one went stopped in
                (one.0 ∷ [], ground arith, inr (refl, with_errors, timed_out))
            | inr going ↦
                Added-step a actions done one responses going (
                  execute_actions-Added actions (done ++ one.0 ∷ []) ran.1 responses (ground arith))
          ]
        ]

    job_of-returns :
        (ran : Run (List ActionResponse) × W) (response : JobResponse)
        → (job_of ran).0 ≡ returns response
        → (ran.0 ≡ returns response.actions) × (response.errors ≡ [])
    job_of-returns (returns responses, w) response e = ground arith
    job_of-returns (raises x, w) response e = absurd (ground arith)

    job_of-raises :
        (ran : Run (List ActionResponse) × W) (x : Raised)
        → (job_of ran).0 ≡ raises x
        → ran.0 ≡ raises x
    job_of-raises (returns responses, w) x e = absurd (ground arith)
    job_of-raises (raises y, w) x e = ground arith

    -- The response to a job that ran has no job errors, and its action responses are those that
    -- the control header wants of the job's actions.
    pub execute_job-AsControlled :
        (w : W) (response : JobResponse)
        → (execute_job server job w).0 ≡ returns response
        → (response.errors ≡ []) × AsControlled continues job.actions response.actions
    unfolding execute_job
    execute_job-AsControlled w response e =
        let (ran, no_errors) =
          job_of-returns (execute_actions server job [] job.actions w) response e in
        let (more, same, controlled) =
          execute_actions-Added job.actions [] w response.actions ran in
        (no_errors, subst (λ rs. AsControlled continues job.actions rs) (sym same) controlled)

    -- No class of an action raises when it is called.
    abbrev pub ClassesReturn : Type 0
    ClassesReturn =
        (name : String) (c : ActionClass W) (w : W)
        → find_action server name ≡ some c
        → (action : ActionTask W) × ((c w).0 ≡ returns action)

    run_found_raised :
        (request : EnrichedActionRequest) (c : Option (ActionClass W)) (w : W) (x : Raised)
        → find_action server request.action ≡ c
        → ClassesReturn
        → (run_found server request c w).0 ≡ raises x
        → (errors : List Error) × (x ≡ job_error errors)
    run_found_raised request none w x found all e = absurd (ground arith)
    run_found_raised request (some c) w x found all e =
        called (c w) (all request.action c w found) e
      where
        called :
            (m : Run (ActionTask W) × W)
            → ((action : ActionTask W) × (m.0 ≡ returns action))
            → (call_action server request m).0 ≡ raises x
            → (errors : List Error) × (x ≡ job_error errors)
        called (raises y, w') (action, made) h = absurd (ground arith)
        called (returns action, w') made h = answer_raised request.action _ x h

    execute_actions_raised :
        (actions : List ActionRequest) (done : List ActionResponse) (w : W) (x : Raised)
        → ClassesReturn
        → (execute_actions server job done actions w).0 ≡ raises x
        → (errors : List Error) × (x ≡ job_error errors)
    unfolding execute_actions run_action
    execute_actions_raised [] done w x all e = absurd (ground arith)
    execute_actions_raised (a ∷ actions) done w x all e =
        let request = enrich job a in
        let ran = run_found server request (find_action server a.action) w in
        elim (Run-cases ran.0) [
          | inl (y, failed) ↦
              run_found_raised request (find_action server a.action) w x refl all (ground arith)
          | inr (one, went) ↦ elim (Bool-cases (stops continues one)) [
            | inl stopped ↦ absurd (ground arith)
            | inr going ↦
                execute_actions_raised actions (done ++ one.0 ∷ []) ran.1 x all (ground arith)
          ]
        ]

    -- Where no class of an action raises when it is called, all that running a job can raise is a
    -- JobError: every other exception of an action or of its middleware ends in a response.
    pub execute_job_raised :
        (w : W) (x : Raised)
        → ClassesReturn
        → (execute_job server job w).0 ≡ raises x
        → (errors : List Error) × (x ≡ job_error errors)
    unfolding execute_job
    execute_job_raised w x all e =
        execute_actions_raised job.actions [] w x all
          (job_of-raises (execute_actions server job [] job.actions w) x e)
