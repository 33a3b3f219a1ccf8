-- ===== src/LocalTransport.antt =====
-- pysoa/common/transport/local.py: LocalClientTransport, which runs its server in the client's
-- thread, and is the transport of both.
pub mod Delivery
pub mod Channel
use pysoa.Prelude.{ℕ, String, Option, none, some, List, [], ◌∷◌, ◌++◌}
use pysoa.Server.Types.{JobRequest, JobResponse}
use pysoa.Server.Job.{Server}
use pysoa.Server.Requests.{
  Meta, Received, request, receive_raises, Sent, sent, Ended, Calls, State, handle_next_request,
}

-- ReceivedMessage of a response
abbrev pub Reply : Type 0 → Type 0 → Type 0
Reply M N = ℕ × Meta N × M

-- ReceivedMessage of a request
abbrev pub Request : Type 0 → Type 0
Request N = ℕ × Meta N × JobRequest

pub record Local (M N : Type 0) : Type 0 where
  pub current_request : Option (Request N)
  pub response_messages : List (Reply M N)

-- The hooks of the server and its conversions, which act on the world without the transport.
pub record Hooks (V M : Type 0) : Type 0 where
  pub pre_request : V → Ended × V
  pub post_request : V → Ended × V
  pub idle : V → Ended × V
  pub convert : List ℕ → JobResponse → Option M
  pub describe : JobResponse → Option String × String × Option String

abbrev pub World : Type 0 → Type 0 → Type 0 → Type 0
World V M N = Local M N × V

-- how the handling of a request ends, the server's state, the transport and the rest
abbrev pub After : Type 0 → Type 0 → Type 0 → Type 0
After V M N = Ended × State M × World V M N

module _ {M N : Type 0} where
  abbrev pub popleft : Local M N → List (Reply M N) → Option (Reply M N) × Local M N
  popleft local [] = (none, local)
  popleft local (reply ∷ replies) = (some reply, record local { response_messages = replies })

  -- `none` stands for ReceivedMessage(None, None, None)
  unfoldable pub receive_response_message : Local M N → Option (Reply M N) × Local M N
  receive_response_message local = popleft local local.response_messages

module _ {V M N : Type 0} where
  -- a second call is the RuntimeError
  abbrev pub given : Option (Request N) → World V M N → Received N × World V M N
  given none w = (receive_raises, w)
  given (some (id, meta, job)) (local, v) =
      (request id meta job, (record local { current_request = none }, v))

  unfoldable pub receive_request_message : World V M N → Received N × World V M N
  receive_request_message (local, v) = given local.current_request (local, v)

  unfoldable pub send_response_message : ℕ → Meta N → M → World V M N → Sent × World V M N
  send_response_message id meta message (local, v) =
      let messages = local.response_messages ++ (id, meta, message) ∷ [] in
      (sent, (record local { response_messages = messages }, v))

  abbrev pub beside : (V → Ended × V) → World V M N → Ended × World V M N
  beside hook (local, v) = let (ended, v') = hook v in (ended, (local, v'))

  -- the `finally`
  abbrev pub without_request : After V M N → After V M N
  without_request (ended, state, (local, v)) =
      (ended, state, (record local { current_request = none }, v))

module _ {V M N : Type 0} (hooks : Hooks V M) (server : Server (World V M N)) where
  -- self.server.transport = self
  abbrev pub local_calls : Calls (World V M N) M N
  local_calls = record {
    receive = receive_request_message;
    send = send_response_message;
    pre_request = beside hooks.pre_request;
    post_request = beside hooks.post_request;
    idle = beside hooks.idle;
    convert = hooks.convert;
    describe = hooks.describe;
  }

  unfoldable pub send_request_message :
      ℕ → Meta N → JobRequest → State M → World V M N → After V M N
  unfolding receive_request_message send_response_message
  send_request_message id meta job state (local, v) =
      let current = record local { current_request = some (id, meta, job) } in
      without_request (handle_next_request server local_calls state (current, v))
