-- ===== src/Client/Sending/Numbers.antt =====
-- The IDs of the requests that a client of pysoa/client/client.py sends to a service.
use pysoa.Prelude.{
  ℕ, suc, ◌+◌, ◌≤◌, ◌≡◌, refl, sym, subst, ap, String, true, false, Option, none, some, List, [],
  ◌∷◌, ◌++◌, if◌then◌else◌, str_eq, eq_iff, eq_refl, arith, Bool-cases, inl, inr,
}
use pysoa.Errors.{Result, ok, err}
use pysoa.Value.{Fields}
use pysoa.Server.Types.{JobRequest, Context}
use pysoa.Client.Headers.{ContextDict}
use pysoa.Client.Handler.{
  Handler, send_request, handler_of, find_handler, get_handler, with_id, loaded,
}
use pysoa.Client.Sending.{
  Client, Call, Sent, sent, failed, not_configured, ended, put_handler, send_with,
  client_send_request,
}

-- These numbers rise, from at least the first one to below the second.
abbrev pub Rise : ℕ → List ℕ → ℕ → Type 0
Rise low [] high = low ≤ high
Rise low (id ∷ ids) high = (low ≤ id) × Rise (suc id) ids high

Rise-append :
    (low : ℕ) (ids more : List ℕ) (middle high : ℕ)
    → Rise low ids middle
    → Rise middle more high
    → Rise low (ids ++ more) high
Rise-append low [] [] middle high h h' = omega (arith, h, h')
Rise-append low [] (id ∷ more) middle high h h' = (omega (arith, h, h'.0), h'.1)
Rise-append low (id ∷ ids) more middle high h h' =
    (h.0, Rise-append (suc id) ids more middle high h.1 h')

-- the request ID that is returned for a call, if it is one of the service of this name
abbrev pub id_for : String → String → Sent → List ℕ
id_for name service (sent id) = if str_eq service name then id ∷ [] else []
id_for name service (failed e) = []
id_for name service not_configured = []

-- the counter of a handler, 0 for none
abbrev counter : {W : Type 0} → Option (Handler W) → ℕ
counter none = 0
counter (some handler) = handler.request_counter

-- the IDs of one call
one_id :
    (name service : String) (low id high : ℕ) (r : Result (Unit {0}))
    → str_eq service name ≡ true
    → low ≤ id
    → suc id ≤ high
    → Rise low (id_for name service (ended (with_id id r))) high
one_id name service low id high (ok _) e h h' = rw e (h, h')
one_id name service low id high (err x) e h h' = omega (arith, h, h')

no_id :
    (name service : String) (low high : ℕ) (s : Sent)
    → str_eq service name ≡ false
    → low ≤ high
    → Rise low (id_for name service s) high
no_id name service low high (sent id) e h = rw e h
no_id name service low high (failed x) e h = h
no_id name service low high not_configured e h = h

module _ {W : Type 0} (name : String) where
  put_here :
      (handler : Handler W) (handlers : List (String × Handler W))
      → find_handler name (put_handler name handler handlers) ≡ some handler
  put_here handler [] = rw (eq_refl name) refl
  put_here handler ((key, h) ∷ handlers) = elim (Bool-cases (str_eq key name)) [
    | inl e ↦ rw (e, e) refl
    | inr e ↦ rw (e, e) (put_here handler handlers)
  ]

  put_elsewhere :
      (service : String) (handler : Handler W) (handlers : List (String × Handler W))
      → str_eq service name ≡ false
      → find_handler name (put_handler service handler handlers) ≡ find_handler name handlers
  put_elsewhere service handler [] n = rw n refl
  put_elsewhere service handler ((key, h) ∷ handlers) n = elim (Bool-cases (str_eq key service)) [
    | inl e ↦
        let away = subst (λ k. str_eq k name ≡ false) (sym ((eq_iff key service).0 e)) n in
        rw (e, away) refl
    | inr e ↦ rw e (rw (put_elsewhere service handler handlers n) refl)
  ]

module _ {W S A : Type 0} (handler_class : String → S → Handler W)
    (job_request : A → Fields → Context → JobRequest) (name : String) where
  abbrev floor : Client W S → ℕ
  floor client = counter (find_handler name client.handlers)

  -- What came of a call, for the IDs of this service.
  abbrev Rises : ℕ → Call A → Sent × Option ContextDict × Client W S × W → Type 0
  Rises low call (s, left, client, w) = Rise low (id_for name call.service s) (floor client)

  abbrev counted : Handler W → Handler W
  counted handler = record handler { request_counter = handler.request_counter + 1 }

  abbrev after : Client W S → Call A → Handler W → List (String × Handler W) → ℕ
  after client call handler handlers =
      counter (find_handler name (put_handler call.service (counted handler) handlers))

  after_here :
      (client : Client W S) (call : Call A) (handler : Handler W)
      (handlers : List (String × Handler W))
      → str_eq call.service name ≡ true
      → suc handler.request_counter ≤ after client call handler handlers
  after_here client call handler handlers e =
      rw ((eq_iff call.service name).0 e, put_here name (counted handler) handlers) (omega arith)

  sent-Rises :
      (low : ℕ) (client : Client W S) (call : Call A) (w : W) (handler : Handler W)
      (handlers : List (String × Handler W))
      → (str_eq call.service name ≡ true → low ≤ handler.request_counter)
      → (str_eq call.service name ≡ false → low ≤ counter (find_handler name handlers))
      → Rises low call
          (send_with handler_class job_request client call w (handler_of handler, handlers))
  unfolding send_request
  sent-Rises low client call w handler handlers h h' =
      elim (Bool-cases (str_eq call.service name)) [
        | inl e ↦
            one_id name call.service low handler.request_counter
              (after client call handler handlers) _ e (h e)
              (after_here client call handler handlers e)
        | inr e ↦ no_id name call.service low (after client call handler handlers) _ e (
            subst (λ n. low ≤ counter n)
              (sym (put_elsewhere name call.service (counted handler) handlers e)) (h' e))
      ]

  floor_known :
      (client : Client W S) (call : Call A) (known : Option (Handler W))
      → find_handler call.service client.handlers ≡ known
      → str_eq call.service name ≡ true
      → floor client ≡ counter known
  floor_known client call known h e =
      subst (λ service. counter (find_handler service client.handlers) ≡ counter known)
        ((eq_iff call.service name).0 e) (ap counter h)

  -- a call, by what is known of the client's handlers
  call_Rises :
      (client : Client W S) (call : Call A) (w : W) (known : Option (Handler W))
      (settings : Option S)
      → find_handler call.service client.handlers ≡ known
      → Rises (floor client) call (
          send_with handler_class job_request client call w
            (loaded handler_class call.service client.handlers known settings))
  call_Rises client call w (some handler) settings h =
      sent-Rises (floor client) client call w handler client.handlers
        (λ e. let same = floor_known client call (some handler) h e in omega (arith, same))
        (λ e. omega arith)
  call_Rises client call w none none h = omega arith
  call_Rises client call w none (some settings) h =
      let new = handler_class call.service settings in
      sent-Rises (floor client) client call w new ((call.service, new) ∷ client.handlers)
        (λ e. let same = floor_known client call none h e in omega (arith, same))
        (λ e. rw e (omega arith))

  -- the IDs that the calls of this service return, one call after the other
  abbrev pub ids : Client W S → List (Call A) → W → List ℕ
  ids client [] w = []
  ids client (call ∷ calls) w =
      let out = client_send_request handler_class job_request client call w in
      id_for name call.service out.0 ++ ids out.2 calls out.3

  -- Whatever a client sends to whatever services, in whatever order, and whether or not it could be
  -- sent, the request IDs that its calls return for one service rise from call to call, from that
  -- service's counter on: no two of them are the same.
  pub client_send_request_rising :
      (client : Client W S) (calls : List (Call A)) (w : W)
      → (high : ℕ) × Rise (floor client) (ids client calls w) high
  unfolding client_send_request get_handler
  client_send_request_rising client [] w = (floor client, omega arith)
  client_send_request_rising client (call ∷ calls) w =
      let out = client_send_request handler_class job_request client call w in
      let first =
        call_Rises client call w (find_handler call.service client.handlers)
          (find_handler call.service client.settings) refl in
      let (high, rest) = client_send_request_rising out.2 calls out.3 in
      (
        high,
        Rise-append (floor client) (id_for name call.service out.0) (ids out.2 calls out.3)
            (floor out.2) high first rest,
      )
