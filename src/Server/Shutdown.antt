-- ===== src/Server/Shutdown.antt =====
-- Server.handle_shutdown_signal and the loop of Server.run in pysoa/server/server.py.
pub mod Harakiri
pub mod Duplicates
use pysoa.Prelude.{
  ℕ, suc, ◌+◌, ◌-◌, ◌≤◌, ◌≡◌, Bool, true, false, not, ◌&&◌, ◌⊎◌, inl, inr, List, [], ◌∷◌, arith,
  Bool-cases, ltb, if◌then◌else◌,
}

pub data Signal : Type 0 where
  sigint sigterm sigalrm : Signal

abbrev pub same_signal : Signal → Signal → Bool
same_signal sigint sigint = true
same_signal sigterm sigterm = true
same_signal sigalrm sigalrm = true
same_signal _ _ = false

-- `signal in (signal.SIGINT, signal.SIGTERM)`; `Signals` before the first one are none of these.
pub record State : Type 0 where
  pub shutting_down : Bool
  pub last_signal : List Signal
  pub last_signal_received : ℕ

abbrev pub initial : State
initial = record { shutting_down = false; last_signal = []; last_signal_received = 0 }

-- the last signal is one of SIGINT and SIGTERM, and another one than this
abbrev pub other_interrupt : List Signal → Signal → Bool
other_interrupt [] s = false
other_interrupt (sigalrm ∷ _) s = false
other_interrupt (last ∷ _) s = not (same_signal last s)

-- What handling a signal ends in: the handler returns, or `sys.exit(1)`.
pub data Handled : Type 0 where
  goes_on : State → Handled
  exits : Handled

-- `now` in units of which a second has `second`. `locked` says that a signal is being handled.
unfoldable pub handle_shutdown_signal : ℕ → Bool → ℕ → Signal → State → Handled
handle_shutdown_signal second locked now s state =
    let received = record state { last_signal = s ∷ []; last_signal_received = now } in
    if locked
    then goes_on state
    else if state.shutting_down
    then (if other_interrupt state.last_signal s && ltb (now - state.last_signal_received) second
        then goes_on received
        else exits)
    else goes_on (record received { shutting_down = true })

abbrev pub go_on : (State → Handled) → Handled → Handled
go_on again (goes_on state) = again state
go_on again exits = exits

-- the handling of signals, each with whether the lock is held and with the time, one after the other
-- up to the end of the process
unfoldable pub handle_signals : (second : ℕ) → List (Bool × ℕ × Signal) → State → Handled
unfolding handle_shutdown_signal
handle_signals second [] state = goes_on state
handle_signals second ((locked, now, s) ∷ signals) state =
    go_on (handle_signals second signals) (handle_shutdown_signal second locked now s state)

-- The process is ended only by a signal that is handled during a shutdown, and then only by one
-- that is not the other of SIGINT and SIGTERM or that comes a second or more after the last one. A
-- signal that does not end it leaves the server shutting down, if it was or if the signal is
-- handled.
pub handle_shutdown_signal_cases :
    (second : ℕ) (locked : Bool) (now : ℕ) (s : Signal) (state : State)
    → (handle_shutdown_signal second locked now s state ≡ exits
        → (locked ≡ false)
          × (state.shutting_down ≡ true)
          × ((other_interrupt state.last_signal s ≡ false)
              ⊎ (second ≤ now - state.last_signal_received)))
      × ((after : State)
          → handle_shutdown_signal second locked now s state ≡ goes_on after
          → (state.shutting_down ≡ true) ⊎ (locked ≡ false)
          → after.shutting_down ≡ true)
unfolding handle_shutdown_signal
handle_shutdown_signal_cases second locked now s state =
    (λ h. (ground (arith, h), ground (arith, h), late h), λ after h k. ground (arith, h, k))
  where
    late :
        handle_shutdown_signal second locked now s state ≡ exits
        → (other_interrupt state.last_signal s ≡ false)
          ⊎ (second ≤ now - state.last_signal_received)
    late h = elim (Bool-cases (other_interrupt state.last_signal s)) [
      | inl interrupt ↦ inr (ground (arith, h, interrupt))
      | inr other ↦ inl other
    ]

-- How one round of the loop ends: handle_next_request returns, or what it raises. With each comes
-- whether the server is shutting down by then.
pub data Round : Type 0 where
  handled transient_error harakiri unknown_error : Round

-- How the loop ends, or the number of transient failures where it is still running.
pub data Outcome : Type 0 where
  running : ℕ → Outcome
  shut_down : Outcome
  too_many_errors : Outcome
  interrupted : Outcome
  crashed : Outcome

-- `while not self.shutting_down`, over the rounds to come
unfoldable pub run_loop : ℕ → Bool → List (Round × Bool) → Outcome
run_loop failures true rounds = shut_down
run_loop failures false [] = running failures
run_loop failures false ((handled, flag) ∷ rounds) = run_loop (failures - 1) flag rounds
run_loop failures false ((transient_error, flag) ∷ rounds) =
    let rest = run_loop (failures + 1) flag rounds in
    if ltb 5 failures then too_many_errors else rest
run_loop failures false ((harakiri, flag) ∷ rounds) = interrupted
run_loop failures false ((unknown_error, flag) ∷ rounds) = crashed

-- the transient errors among the rounds
abbrev pub transients : List (Round × Bool) → ℕ
transients [] = 0
transients ((transient_error, flag) ∷ rounds) = suc (transients rounds)
transients ((_, flag) ∷ rounds) = transients rounds

-- What the count of failures says.
abbrev pub Counted : ℕ → Outcome → Type 0
Counted seen (running n) = (n ≤ 6) × (n ≤ seen)
Counted seen too_many_errors = 7 ≤ seen
Counted seen _ = Unit

Counted-le : {a b : ℕ} (o : Outcome) → a ≤ b → Counted a o → Counted b o
Counted-le (running n) le h = omega arith
Counted-le too_many_errors le h = omega arith
Counted-le shut_down le h = tt
Counted-le interrupted le h = tt
Counted-le crashed le h = tt

-- While the loop runs, its count of transient failures is at most six, so the back-off exponent is
-- at most five; and it gives up only after seven transient errors, counting those it began with.
pub run_loop-Counted :
    (failures : ℕ) (flag : Bool) (rounds : List (Round × Bool))
    → failures ≤ 6
    → Counted (failures + transients rounds) (run_loop failures flag rounds)
unfolding run_loop
run_loop-Counted failures true rounds h = tt
run_loop-Counted failures false [] h = omega arith
run_loop-Counted failures false ((handled, flag) ∷ rounds) h =
    Counted-le (run_loop (failures - 1) flag rounds) (omega arith)
      (run_loop-Counted (failures - 1) flag rounds (omega arith))
run_loop-Counted failures false ((transient_error, flag) ∷ rounds) h =
    elim (Bool-cases (ltb 5 failures)) [
      | inl many ↦ rw many (ground (arith, many))
      | inr few ↦ rw few (
          Counted-le (run_loop (failures + 1) flag rounds) (omega arith)
            (run_loop-Counted (failures + 1) flag rounds (ground (arith, few))))
    ]
run_loop-Counted failures false ((harakiri, flag) ∷ rounds) h = tt
run_loop-Counted failures false ((unknown_error, flag) ∷ rounds) h = tt
