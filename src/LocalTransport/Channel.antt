-- ===== src/LocalTransport/Channel.antt =====
-- A client and its LocalClientTransport (pysoa/common/transport/local.py) as a channel of messages.
use pysoa.Prelude.{ℕ, ◌≡◌, true, false, Option, none, some, List, [], ◌∷◌, ◌++◌}
use pysoa.Server.Types.{JobRequest, JobResponse}
use pysoa.Server.Job.{Server}
use pysoa.Server.Requests.{Meta, client_version_of, Ended, finished, State, response_message}
use pysoa.LocalTransport.{
  Reply, Hooks, World, local_calls, After, send_request_message, receive_response_message,
}
use pysoa.LocalTransport.Delivery.{LeavesTransport}

-- A call of the client, and what comes out of it.
pub data Call (N : Type 0) : Type 0 where
  send : ℕ → Meta N → JobRequest → Call N
  receive : Call N

pub data Out (M N : Type 0) : Type 0 where
  sending : Ended → Out M N
  got : Option (Reply M N) → Out M N

module _ {V M N : Type 0} (hooks : Hooks V M) (server : Server (World V M N)) where
  abbrev sent : After V M N → Out M N × State M × World V M N
  sent (ended, state, w) = (sending ended, state, w)

  unfoldable pub call : Call N → State M → World V M N → Out M N × State M × World V M N
  call (send id meta job) state w = sent (send_request_message hooks server id meta job state w)
  call receive state (local, v) =
      let (reply, local') = receive_response_message local in (got reply, state, (local', v))

  -- The calls one after the other.
  unfoldable pub calls :
      List (Call N) → State M → World V M N → List (Out M N) × State M × World V M N
  calls [] state w = ([], state, w)
  calls (c ∷ cs) state w =
      let first = call c state w in
      let rest = calls cs first.1 first.2 in (first.0 ∷ rest.0, rest.1, rest.2)

  -- What the client may rely on: a queue of messages, that knows nothing of the server's state.
  pub data Step : List (Reply M N) → Call N → Out M N → List (Reply M N) → Type 0 where
    answered :
        (q : List (Reply M N)) (id : ℕ) (meta : Meta N) (job : JobRequest) (ended : Ended) (m : M)
        (r : JobResponse)
        → job.control.suppress_response ≡ false
        → response_message server (local_calls hooks server) (client_version_of meta) r ≡ some m
        → Step q (send id meta job) (sending ended) (q ++ (id, meta, m) ∷ [])
    unanswered :
        (q : List (Reply M N)) (id : ℕ) (meta : Meta N) (job : JobRequest) (ended : Ended)
        → (ended ≡ finished → job.control.suppress_response ≡ true)
        → Step q (send id meta job) (sending ended) q
    taken : (x : Reply M N) (q : List (Reply M N)) → Step (x ∷ q) receive (got (some x)) q
    nothing : Step [] receive (got none) []

  pub data Steps
      : List (Reply M N) → List (Call N) → List (Out M N) → List (Reply M N) → Type 0 where
    done : (q : List (Reply M N)) → Steps q [] [] q
    then :
        {q q' q'' : List (Reply M N)} {c : Call N} {cs : List (Call N)} {o : Out M N}
        {os : List (Out M N)}
        → Step q c o q'
        → Steps q' cs os q''
        → Steps q (c ∷ cs) (o ∷ os) q''

  abbrev pub queue : World V M N → List (Reply M N)
  queue w = w.0.response_messages

  abbrev pub CallLeaves : Call N → Type 0
  CallLeaves (send id meta job) = LeavesTransport hooks server job
  CallLeaves receive = Unit
