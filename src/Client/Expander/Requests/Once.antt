-- ===== src/Client/Expander/Requests/Once.antt =====
-- No value is asked for twice, of Client._expand_objects in pysoa/client/client.py.
use pysoa.Prelude.{
  String, ◌≡◌, refl, sym, subst, ◌∙◌, Bool, Option, none, some, List, [], ◌∷◌, ◌++◌, if◌then◌else◌,
  is_empty, append-nil, str_eq, eq_iff, Bool-cases, inl, inr,
}
use pysoa.Value.{Value, Fields}
use pysoa.Client.Expander.{Expansion}
use pysoa.Client.Expander.Requests.Sets.{Distinct, add_value-Distinct, minus-Distinct}
use pysoa.Client.Expander.Requests.{
  Instruction, Actions, Pending, Request, Made, made_for, request_key, Candidate, minus, ask_action,
  ask, ask_new, make_request, make_actions, make_requests, ask_wanted, ask_hashed, formulate_nodes,
  formulate, round_of, rounds_behind, expand_rounds,
}

module _ {K : Type 0} (eq : K → K → Bool) where
  -- all the values of these requests under a key, the newest first
  abbrev pub asked : String → List (Request K) → List K → List K
  asked key [] before = before
  asked key (r ∷ requests) before = asked key requests (
      if str_eq (request_key r.service r.action r.request_field) key
      then r.values ++ before
      else before)

  abbrev AreSets : Actions K → Type 0
  AreSets [] = Unit
  AreSets ((action, i) ∷ actions) = Distinct eq i.values × AreSets actions

  abbrev ArePending : Pending K → Type 0
  ArePending [] = Unit
  ArePending ((service, actions) ∷ pending) = AreSets actions × ArePending pending

  -- Under every key there is no value twice.
  abbrev AllDistinct : Made K → Type 0
  AllDistinct made = (key : String) → Distinct eq (made_for key made)

  -- These requests were logged, and there is still no value twice under a key.
  abbrev Logged : Made K → List (Request K) × Made K → Type 0
  Logged made (requests, after) =
      ((key : String) → made_for key after ≡ asked key requests (made_for key made))
      × AllDistinct after

  logged_under :
      (key key' : String) (values : List K) (made : Made K)
      → Distinct eq (values ++ made_for key made)
      → AllDistinct made
      → Distinct eq (made_for key' ((key, values) ∷ made))
  logged_under key key' values made d all = elim (Bool-cases (str_eq key key')) [
    | inl e ↦ rw e (subst (λ k. Distinct eq (values ++ made_for k made)) ((eq_iff key key').0 e) d)
    | inr e ↦ rw e (all key')
  ]

  ask_new-Logged :
      (service action : String) (i : Instruction K) (values : List K) (made : Made K)
      → Distinct eq (values ++ made_for (request_key service action i.request_field) made)
      → AllDistinct made
      → Logged made (ask_new eq service action i values made)
  ask_new-Logged service action i [] made d all = (λ key. refl, all)
  ask_new-Logged service action i (v ∷ values) made d all = (
    λ key. refl,
    λ key. logged_under (request_key service action i.request_field) key (v ∷ values) made d all,
  )

  new_values-Distinct :
      (values old : List K)
      → Distinct eq values
      → Distinct eq old
      → Distinct eq ((if is_empty old then values else minus eq values old) ++ old)
  new_values-Distinct values [] d d' = rw (append-nil values) d
  new_values-Distinct values (o ∷ old) d d' = minus-Distinct eq values (o ∷ old) d d'

  asked-append :
      (key : String) (rs rs' : List (Request K)) (before : List K)
      → asked key (rs ++ rs') before ≡ asked key rs' (asked key rs before)
  asked-append key [] rs' before = refl
  asked-append key (r ∷ rs) rs' before = asked-append key rs rs' _

  Logged-then :
      (made : Made K) (first : List (Request K) × Made K) (rest : List (Request K) × Made K)
      → Logged made first
      → Logged first.1 rest
      → Logged made (first.0 ++ rest.0, rest.1)
  Logged-then made first rest (log, all) (log', all') = (
    λ key. log' key ∙ rw (log key) (sym (asked-append key first.0 rest.0 (made_for key made))),
    all',
  )

  make_request-Logged :
      (service action : String) (i : Instruction K) (made : Made K)
      → Distinct eq i.values
      → AllDistinct made
      → Logged made (make_request eq service action i made)
  unfolding make_request
  make_request-Logged service action i made set all =
      let old = made_for (request_key service action i.request_field) made in
      ask_new-Logged service action i (if is_empty old then i.values else minus eq i.values old)
        made
        (new_values-Distinct i.values old set (all (request_key service action i.request_field)))
        all

  make_actions-Logged :
      (service : String) (actions : Actions K) (made : Made K)
      → AreSets actions
      → AllDistinct made
      → Logged made (make_actions eq service actions made)
  make_actions-Logged service [] made sets all = (λ key. refl, all)
  make_actions-Logged service ((action, i) ∷ actions) made sets all =
      let first = make_request eq service action i made in
      let logged = make_request-Logged service action i made sets.0 all in
      Logged-then made first (make_actions eq service actions first.1) logged
        (make_actions-Logged service actions first.1 sets.1 logged.1)

  make_requests-Logged :
      (pending : Pending K) (made : Made K)
      → ArePending pending
      → AllDistinct made
      → Logged made (make_requests eq pending made)
  unfolding make_requests
  make_requests-Logged [] made sets all = (λ key. refl, all)
  make_requests-Logged ((service, actions) ∷ pending) made sets all =
      let first = make_actions eq service actions made in
      let logged = make_actions-Logged service actions made sets.0 all in
      Logged-then made first (make_requests eq pending first.1) logged
        (make_requests-Logged pending first.1 sets.1 logged.1)

  ask_action-AreSets :
      (object : Fields) (e : Expansion) (v : K) (actions : Actions K)
      → AreSets actions
      → AreSets (ask_action eq object e v actions)
  ask_action-AreSets object e v [] sets = ((refl, tt), tt)
  ask_action-AreSets object e v ((action, i) ∷ actions) sets =
      elim (Bool-cases (str_eq action e.action)) [
        | inl same ↦ rw same (add_value-Distinct eq v i.values sets.0, sets.1)
        | inr other ↦ rw other (sets.0, ask_action-AreSets object e v actions sets.1)
      ]

  ask-ArePending :
      (object : Fields) (e : Expansion) (v : K) (pending : Pending K)
      → ArePending pending
      → ArePending (ask eq object e v pending)
  ask-ArePending object e v [] sets = (ask_action-AreSets object e v [] tt, tt)
  ask-ArePending object e v ((service, actions) ∷ pending) sets =
      elim (Bool-cases (str_eq service e.service)) [
        | inl same ↦ rw same (ask_action-AreSets object e v actions sets.0, sets.1)
        | inr other ↦ rw other (sets.0, ask-ArePending object e v pending sets.1)
      ]

  abbrev ArePending? : Option (Pending K) → Type 0
  ArePending? none = Unit
  ArePending? (some pending) = ArePending pending

  module _ (hash : Value → Option K) where
    ask_hashed-ArePending :
        (object : Fields) (e : Expansion) (v : Option K) (pending : Pending K)
        → ArePending pending
        → ArePending? (ask_hashed eq hash object e v pending)
    ask_hashed-ArePending object e none pending sets = tt
    ask_hashed-ArePending object e (some v) pending sets = ask-ArePending object e v pending sets

    ask_wanted-ArePending :
        (object : Fields) (e : Expansion) (value : Option Value) (pending : Pending K)
        → ArePending pending
        → ArePending? (ask_wanted eq hash object e value pending)
    ask_wanted-ArePending object e none pending sets = sets
    ask_wanted-ArePending object e (some value) pending sets =
        ask_hashed-ArePending object e (hash value) pending sets

    formulate_nodes-ArePending :
        (object : Fields) (es : List Expansion) (pending : Option (Pending K))
        → ArePending? pending
        → ArePending? (formulate_nodes eq hash object es pending)
    unfolding formulate_nodes
    formulate_nodes-ArePending object [] none sets = tt
    formulate_nodes-ArePending object [] (some pending) sets = sets
    formulate_nodes-ArePending object (e ∷ es) none sets = tt
    formulate_nodes-ArePending object (e ∷ es) (some pending) sets =
        formulate_nodes-ArePending object es _ (ask_wanted-ArePending object e _ pending sets)

    formulate-ArePending :
        (objects : List Candidate) (pending : Option (Pending K))
        → ArePending? pending
        → ArePending? (formulate eq hash objects pending)
    unfolding formulate
    formulate-ArePending [] pending sets = sets
    formulate-ArePending ((object, es) ∷ objects) pending sets =
        formulate-ArePending objects _ (formulate_nodes-ArePending object es pending sets)

    round_of-Logged :
        (pending : Option (Pending K)) (made : Made K)
        → ArePending? pending
        → AllDistinct made
        → Logged made (round_of eq hash pending made)
    round_of-Logged none made sets all = (λ key. refl, all)
    round_of-Logged (some pending) made sets all = make_requests-Logged pending made sets all

    rounds_behind-Logged :
        (made : Made K) (pending : Option (Pending K)) (first : List (Request K) × Made K)
        (rest : List (Request K) × Made K)
        → Logged made first
        → Logged first.1 rest
        → Logged made (rounds_behind eq hash pending first rest)
    rounds_behind-Logged made none first rest log log' = log
    rounds_behind-Logged made (some pending) first rest log log' =
        Logged-then made first rest log log'

    expand_rounds-Logged :
        (rounds : List (List Candidate)) (made : Made K)
        → AllDistinct made
        → Logged made (expand_rounds eq hash rounds made)
    unfolding expand_rounds
    expand_rounds-Logged [] made all = (λ key. refl, all)
    expand_rounds-Logged (objects ∷ rounds) made all =
        let pending = formulate eq hash objects (some []) in
        let first = round_of eq hash pending made in
        let logged = round_of-Logged pending made (formulate-ArePending objects (some []) tt) all in
        rounds_behind-Logged made pending first (expand_rounds eq hash rounds first.1) logged
          (expand_rounds-Logged rounds first.1 logged.1)

    -- Whatever objects there are to expand in whatever number of rounds, of all the requests that are
    -- sent to one action of a service with one field no two carry the same value, and no request
    -- carries a value twice: what was asked for once is not asked for again.
    pub expand_rounds-Distinct :
        (rounds : List (List Candidate)) (key : String)
        → Distinct eq (asked key (expand_rounds eq hash rounds []).0 [])
    expand_rounds-Distinct rounds key =
        let (log, all) = expand_rounds-Logged rounds [] (λ k. tt) in
        subst (Distinct eq) (log key) (all key)
