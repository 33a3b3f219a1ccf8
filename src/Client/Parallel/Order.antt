-- ===== src/Client/Parallel/Order.antt =====
-- The order of what call_jobs_parallel_future returns.
use pysoa.Prelude.{ℕ, ◌<◌, ◌≡◌, String, Bool, true, some, List, [], ◌∷◌, pos, negsuc, All, is_empty}
use pysoa.Errors.{TransportError, is_transport_error}
use pysoa.Client.Parallel.{
  Send, sent_id, send_fails, Key, Entries, find, Sending, Stream, Receiving, Item, job, error,
  with_errors,
}
use pysoa.Client.Parallel.Receiving.{Yields, FailedStream}

-- The key of a job whose request was sent is its ID, and that of another one finds its error.
abbrev KeyFor : Entries TransportError → String × Send → Key → Type 0
KeyFor errors (s, sent_id id) key = key ≡ (s, pos id)
KeyFor errors (s, send_fails e) key =
    (k : ℕ) × (key ≡ (s, negsuc k))
    × (find (s, negsuc k) errors ≡ some e)
    × (is_transport_error e ≡ true)

abbrev KeysFor : Entries TransportError → List (String × Send) → List Key → Type 0
KeysFor errors [] [] = Unit
KeysFor errors [] (key ∷ keys) = ⊥
KeysFor errors (j ∷ jobs) [] = ⊥
KeysFor errors (j ∷ jobs) (key ∷ keys) = KeyFor errors j key × KeysFor errors jobs keys

-- No entry of the errors that a sending starts from is changed.
abbrev Keeps : ℕ → Entries TransportError → Entries TransportError → Type 0
Keeps k errors after =
    (s : String) (j : ℕ) → j < k → find (s, negsuc j) after ≡ find (s, negsuc j) errors

module _ (streams : String → Stream) (catch : Bool) where
  abbrev Errors : Entries TransportError → Type 0
  Errors errors = All (λ (e : Key × TransportError). FailedStream streams e.0 e.1) errors

  abbrev Sends : ℕ → List (String × Send) → Entries TransportError → Sending → Type 0
  Sends k jobs errors (keys, requests, after) =
      KeysFor after jobs keys × Keeps k errors after × Errors after

-- What stands in the place of a job.
module _ (streams : String → Stream) (raise_job_errors raise_action_errors : Bool) where
  abbrev pub ItemFor : String × Send → Item → Type 0
  ItemFor (s, sent_id id) (job response) =
      Yields id response (streams s).0
      × (raise_job_errors ≡ true → is_empty response.errors ≡ true)
      × (raise_action_errors ≡ true → is_empty (with_errors response.actions) ≡ true)
  ItemFor (s, sent_id id) (error e) = ((streams s).1 ≡ some e) × (is_transport_error e ≡ true)
  ItemFor (s, send_fails e) item = (item ≡ error e) × (is_transport_error e ≡ true)

  abbrev pub InOrder : List (String × Send) → List Item → Type 0
  InOrder [] [] = Unit
  InOrder [] (item ∷ items) = ⊥
  InOrder (j ∷ jobs) [] = ⊥
  InOrder (j ∷ jobs) (item ∷ items) = ItemFor j item × InOrder jobs items
