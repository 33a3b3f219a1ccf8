-- ===== src/Server/Job/Processing.antt =====
-- The answers of process_job (pysoa/server/server.py).
use pysoa.Prelude.{
  String, ◌≡◌, refl, ◌∙◌, ap, sym, subst, false, inl, inr, Option, none, some, List, [], ◌∷◌,
  is_empty,
}
use pysoa.Server.Types.{
  Error, job_error, returns, raises, JobRequest, JobResponse, Raised, Run-cases, job_errors,
}
use pysoa.Server.Responses.{
  Formatting, job_answer, validation_errors, SchemaError, with_correlation_id,
}
use pysoa.Server.Job.{
  make_middleware_stack, Server, execute_job, with_client, processed, process_job,
}
use pysoa.Server.Job.Execution.{
  AsControlled, ClassesReturn, execute_job-AsControlled, execute_job_raised,
}

-- How a job can be answered, from its schema's errors, its run and the answer.
pub data Answered {W : Type 0} (server : Server W) (job : JobRequest) (w : W)
    (response : JobResponse) (w' : W) : Type 0 where
  -- The request is invalid: the errors are the schema's, none the caller's, and nothing has run.
  refused :
      is_empty (server.schema_errors job) ≡ false
      → response.errors ≡ validation_errors false (server.schema_errors job)
      → response.actions ≡ []
      → w' ≡ w
      → Answered server job w response w'
  -- The client could not be made: what that raised is answered, and nothing has run.
  without_client :
      (e : Raised)
      → server.schema_errors job ≡ []
      → (server.make_client job.context w).0 ≡ raises e
      → response ≡ job_answer server.formatting (raises e)
      → w' ≡ (server.make_client job.context w).1
      → Answered server job w response w'
  -- Its actions have run as the control header wants them.
  ran :
      server.schema_errors job ≡ []
      → (server.make_client job.context w).0 ≡ returns tt
      → response.errors ≡ []
      → AsControlled job.control.continue_on_error job.actions response.actions
      → Answered server job w response w'
  -- A JobError ended the run, and the errors are its errors.
  failed :
      server.schema_errors job ≡ []
      → (server.make_client job.context w).0 ≡ returns tt
      → (execute_job server job (server.make_client job.context w).1).0
        ≡ raises (job_error response.errors)
      → response.actions ≡ []
      → Answered server job w response w'

with_correlation_id-returns :
    (id : Option String) (f : Formatting) (response : JobResponse)
    → ((job_answer f (with_correlation_id id (returns response))).errors ≡ response.errors)
      × ((job_answer f (with_correlation_id id (returns response))).actions ≡ response.actions)
unfolding job_answer
with_correlation_id-returns none f response = (refl, refl)
with_correlation_id-returns (some id) f response = (refl, refl)

with_correlation_id-raises :
    (id : Option String) (f : Formatting) (errors : List Error)
    → ((job_answer f (with_correlation_id id (raises (job_error errors)))).errors ≡ errors)
      × ((job_answer f (with_correlation_id id (raises (job_error errors)))).actions ≡ [])
unfolding job_answer
with_correlation_id-raises none f errors = (refl, refl)
with_correlation_id-raises (some id) f errors = (refl, refl)

module _ {W : Type 0} (server : Server W) (job : JobRequest) (w : W) where
  -- the world in which the client has been made
  abbrev world_with_client : W
  world_with_client = (server.make_client job.context w).1

  process_job-valid :
      server.schema_errors job ≡ []
      → (server.make_client job.context w).0 ≡ returns tt
      → server.job_middleware ≡ []
      → (process_job server job w).0
        ≡ job_answer server.formatting (
            with_correlation_id job.context.correlation_id
              (execute_job server job world_with_client).0)
  unfolding process_job make_middleware_stack
  process_job-valid valid made bare =
      ap (λ errors. (processed server job (validation_errors false errors) w).0) valid
      ∙ ap (λ r. job_answer server.formatting (with_client server job (r, world_with_client)).0)
          made
      ∙ ap
          (λ ms. job_answer server.formatting (
            with_correlation_id job.context.correlation_id
              (make_middleware_stack ms (execute_job server) job world_with_client).0))
          bare

  process_job-without_client :
      (e : Raised)
      → server.schema_errors job ≡ []
      → (server.make_client job.context w).0 ≡ raises e
      → process_job server job w ≡ (job_answer server.formatting (raises e), world_with_client)
  unfolding process_job
  process_job-without_client e valid raised =
      ap (λ errors. processed server job (validation_errors false errors) w) valid
      ∙ ap
          (λ r.
            let done = with_client server job (r, world_with_client) in
            (job_answer server.formatting done.0, done.1))
          raised

  process_job-refused :
      (x : SchemaError) (errors : List SchemaError)
      → server.schema_errors job ≡ x ∷ errors
      → process_job server job w ≡ (job_errors (validation_errors false (x ∷ errors)), w)
  unfolding process_job job_answer
  process_job-refused x errors e =
      ap (λ errors. processed server job (validation_errors false errors) w) e

  abbrev Done : Type 0
  Done = Answered server job w (process_job server job w).0 (process_job server job w).1

  done_made :
      server.schema_errors job ≡ []
      → (server.make_client job.context w).0 ≡ returns tt
      → server.job_middleware ≡ []
      → ClassesReturn server job
      → Done
  done_made valid made bare all = elim (Run-cases (execute_job server job world_with_client).0) [
    | inl (x, raised) ↦
        let (errors, same) = execute_job_raised server job world_with_client x all raised in
        let id = job.context.correlation_id in
        let is_job_error = raised ∙ ap raises same in
        let answer =
          process_job-valid valid made bare
          ∙ ap (λ r. job_answer server.formatting (with_correlation_id id r)) is_job_error in
        let (es, actions) = with_correlation_id-raises id server.formatting errors in
        failed valid made
          (is_job_error
            ∙ ap (λ es. raises (job_error es))
                (sym (ap (λ (r : JobResponse). r.errors) answer ∙ es)))
          (ap (λ (r : JobResponse). r.actions) answer ∙ actions)
    | inr (response, returned) ↦
        let (none_raised, controlled) =
          execute_job-AsControlled server job world_with_client response returned in
        let id = job.context.correlation_id in
        let answer =
          process_job-valid valid made bare
          ∙ ap (λ r. job_answer server.formatting (with_correlation_id id r)) returned in
        let (es, actions) = with_correlation_id-returns id server.formatting response in
        ran valid made (ap (λ (r : JobResponse). r.errors) answer ∙ es ∙ none_raised) (
          subst (λ rs. AsControlled job.control.continue_on_error job.actions rs)
            (sym (ap (λ (r : JobResponse). r.actions) answer ∙ actions)) controlled)
  ]

  done_valid :
      server.schema_errors job ≡ [] → server.job_middleware ≡ [] → ClassesReturn server job → Done
  done_valid valid bare all = elim (Run-cases (server.make_client job.context w).0) [
    | inl (e, raised) ↦
        let done = process_job-without_client e valid raised in
        without_client e valid raised (ap (λ (r : JobResponse × W). r.0) done)
          (ap (λ (r : JobResponse × W). r.1) done)
    | inr (_, made) ↦ done_made valid made bare all
  ]

  done_by_errors :
      (found : List SchemaError)
      → server.schema_errors job ≡ found
      → server.job_middleware ≡ []
      → ClassesReturn server job
      → Done
  done_by_errors [] e bare all = done_valid e bare all
  done_by_errors (x ∷ errors) e bare all =
      let done = process_job-refused x errors e in
      refused (ap is_empty e)
        (ap (λ (r : JobResponse × W). r.0.errors) done ∙ sym (ap (validation_errors false) e))
        (ap (λ (r : JobResponse × W). r.0.actions) done) (ap (λ (r : JobResponse × W). r.1) done)

  -- On a server without job middleware whose classes do not raise when they are called, every job
  -- is answered in one of four ways: refused by its schema, with the world left as it was; with
  -- what making the client raised, if it raised, and nothing has run; run as its control header
  -- wants; or ended by a JobError, whose errors are the answer.
  pub process_job-Answered :
      server.job_middleware ≡ []
      → ClassesReturn server job
      → Answered server job w (process_job server job w).0 (process_job server job w).1
  process_job-Answered bare all = done_by_errors (server.schema_errors job) refl bare all
