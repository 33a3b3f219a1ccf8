-- ===== src/Client/Parallel/Receiving.antt =====
-- What the receiving of call_jobs_parallel_future stores: responses and errors of the streams.
use pysoa.Prelude.{
  eqz_sound, eqz_refl, ℕ, ◌≡◌, refl, ap, ◌∙◌, subst, String, Bool, true, false, ◌&&◌, ◌⊎◌, inl, inr,
  Option, none, some, List, [], ◌∷◌, if◌then◌else◌, str_eq, eq_iff, eq_refl, arith, pos, negsuc,
  eqz, All, Bool-cases, any, ◌==◌,
}
use pysoa.Errors.{TransportError, is_transport_error}
use pysoa.Server.Types.{JobResponse}
use pysoa.Client.Parallel.{
  Failure, Outcome, gives, fails, Key, key_eq, Entries, find, Requests, Stream, Receiving, remove,
  add_errors, stream_end, receive_service, receive_all,
}

-- what is found is an entry, under an equal key

pub and-left : (a b : Bool) → (a && b) ≡ true → (a ≡ true) × (b ≡ true)
and-left true b h = (refl, h)
and-left false b h = absurd (ground (arith, h))

key_eq_sound : (k l : Key) → key_eq k l ≡ true → k ≡ l
key_eq_sound (s, n) (t, m) h =
    let (same_service, same_id) = and-left (str_eq s t) (eqz n m) h in
    ap (λ u. (u, n)) ((eq_iff s t).0 same_service) ∙ ap (λ z. (t, z)) (eqz_sound n m same_id)

pub key_eq_refl : (k : Key) → key_eq k k ≡ true
key_eq_refl (s, n) = rw (eq_refl s, eqz_refl n) refl

module _ {V : Type 0} (P : Key → V → Type 0) where
  -- what holds of every entry holds of what is found
  pub find-All :
      (key : Key) (entries : Entries V) (v : V)
      → All (λ (e : Key × V). P e.0 e.1) entries
      → find key entries ≡ some v
      → P key v
  unfolding find
  find-All key [] v h e = absurd (ground (arith, e))
  find-All key ((k, w) ∷ entries) v h e = elim (Bool-cases (key_eq k key)) [
    | inl here ↦
        let same : w ≡ v = ground (arith, e, here) in
        subst (λ x. P key x) same (subst (λ k. P k w) (key_eq_sound k key here) h.0)
    | inr later ↦ find-All key entries v h.1 (ground (arith, e, later))
  ]

pub Outcome-cases :
    {A : Type 0} (o : Outcome A) → ((e : Failure) × (o ≡ fails e)) ⊎ ((a : A) × (o ≡ gives a))
Outcome-cases (gives a) = inr (a, refl)
Outcome-cases (fails e) = inl (e, refl)

-- The generator yields this response under this ID.
abbrev pub Yields : ℕ → JobResponse → List (ℕ × JobResponse) → Type 0
Yields id r [] = ⊥
Yields id r ((n, q) ∷ stream) = ((n ≡ id) × (q ≡ r)) ⊎ Yields id r stream

module _ (streams : String → Stream) where
  abbrev pub InStream : Key → JobResponse → Type 0
  InStream (s, pos id) r = Yields id r (streams s).0
  InStream (s, negsuc k) r = ⊥

  abbrev pub FailedStream : Key → TransportError → Type 0
  FailedStream (s, pos id) e = ((streams s).1 ≡ some e) × (is_transport_error e ≡ true)
  FailedStream (s, negsuc k) e = Unit

  -- What is stored comes from the streams, and the errors of sending are as in `base`.
  abbrev pub Received : Entries TransportError → Receiving → Type 0
  Received base (responses, errors) =
      All (λ (e : Key × JobResponse). InStream e.0 e.1) responses
      × All (λ (e : Key × TransportError). FailedStream e.0 e.1) errors
      × ((s : String) (k : ℕ) → find (s, negsuc k) errors ≡ find (s, negsuc k) base)

  find_other :
      {V : Type 0} (s t : String) (id k : ℕ) (v : V) (entries : Entries V)
      → find (s, negsuc k) (((t, pos id), v) ∷ entries) ≡ find (s, negsuc k) entries
  unfolding find
  find_other s t id k v entries = elim (Bool-cases (str_eq t s)) [
    | inl same ↦ rw same refl
    | inr different ↦ rw different refl
  ]

  add_errors-Received :
      (base : Entries TransportError) (s : String) (ids : List ℕ) (e : TransportError)
      (responses : Entries JobResponse) (errors : Entries TransportError)
      → ((streams s).1 ≡ some e) × (is_transport_error e ≡ true)
      → Received base (responses, errors)
      → Received base (responses, add_errors s ids e errors)
  add_errors-Received base s [] e responses errors failed h = h
  add_errors-Received base s (id ∷ ids) e responses errors failed (rs, es, same) =
      add_errors-Received base s ids e responses (((s, pos id), e) ∷ errors) failed
        (rs, (failed, es), λ t k. find_other t s id k e errors ∙ same t k)

  stream_end-Received :
      (base : Entries TransportError) (catch : Bool) (s : String) (ids : List ℕ)
      (end : Option TransportError) (received after : Receiving)
      → (streams s).1 ≡ end
      → Received base received
      → stream_end catch s ids end received ≡ gives after
      → Received base after
  stream_end-Received base catch s ids none received after e h done =
      subst (Received base) (ground (arith, done)) h
  stream_end-Received base catch s ids (some x) (responses, errors) after e h done =
      elim (Bool-cases (catch && is_transport_error x)) [
        | inl caught ↦ subst (Received base) (ground (arith, done, caught)) (
            add_errors-Received base s ids x responses errors
              (e, (and-left catch (is_transport_error x) caught).1) h)
        | inr raised ↦ absurd (ground (arith, done, raised))
      ]

  receive_service-Received :
      (base : Entries TransportError) (catch : Bool) (s : String) (ids : List ℕ)
      (stream : List (ℕ × JobResponse)) (end : Option TransportError) (received after : Receiving)
      → ((id : ℕ) (r : JobResponse) → Yields id r stream → Yields id r (streams s).0)
      → (streams s).1 ≡ end
      → Received base received
      → receive_service catch s ids stream end received ≡ gives after
      → Received base after
  unfolding receive_service
  receive_service-Received base catch s ids [] end received after part e h done =
      stream_end-Received base catch s ids end received after e h done
  receive_service-Received base catch s ids ((id, r) ∷ stream) end (responses, errors) after part e
        (rs, es, same) done =
      elim (Bool-cases (any (λ n. n == id) ids)) [
        | inl expected ↦
            receive_service-Received base catch s (if catch then remove id ids else ids) stream end
              (((s, pos id), r) ∷ responses, errors) after (λ n q y. part n q (inr y)) e
              ((part id r (inl (refl, refl)), rs), es, same) (ground (arith, done, expected))
        | inr other ↦ absurd (ground (arith, done, other))
      ]

  pub receive_all-Received :
      (base : Entries TransportError) (catch : Bool) (requests : Requests)
      (received after : Receiving)
      → Received base received
      → receive_all catch streams requests received ≡ gives after
      → Received base after
  unfolding receive_all
  receive_all-Received base catch [] received after h done =
      subst (Received base) (ground (arith, done)) h
  receive_all-Received base catch ((s, ids) ∷ requests) received after h done =
      elim (Outcome-cases (receive_service catch s ids (streams s).0 (streams s).1 received)) [
        | inl (x, failed) ↦ absurd (ground (arith, done, failed))
        | inr (next, went) ↦
            receive_all-Received base catch requests next after
              (receive_service-Received base catch s ids (streams s).0 (streams s).1 received next
                (λ id r y. y) refl h went)
              (ground (arith, done, went))
      ]
