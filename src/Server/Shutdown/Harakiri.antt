-- ===== src/Server/Shutdown/Harakiri.antt =====
-- Server.harakiri and the heartbeat file of pysoa/server/server.py, without the dump of the threads.
use pysoa.Prelude.{
  ℕ, zero, suc, ◌+◌, ◌*◌, ◌≤◌, ◌<◌, ◌≡◌, refl, subst, ◌∙◌, ◌++◌, ◌&&◌, Bool, true, false, Option,
  none, some, List, [], ◌∷◌, map, arith, ltb, if◌then◌else◌, inl, inr, Bool-cases,
}
use pysoa.Server.Shutdown.{
  Signal, sigalrm, State, Handled, goes_on, exits, handle_shutdown_signal,
  handle_shutdown_signal_cases,
}

-- When an alarm is due that `signal.alarm(seconds)` sets, where a second has `second` ticks of the
-- clock; 0 seconds set none.
unfoldable pub set_alarm : (second now seconds : ℕ) → Option ℕ
set_alarm second now zero = none
set_alarm second now (suc seconds) = some (now + suc seconds * second)

-- How the handler ends: it returns at once, raises HarakiriInterrupt with the alarm set anew, or
-- ends the process with `os._exit(1)`, whatever the exit functions do.
pub data Harakiri : Type 0 where
  ignored : Harakiri
  interrupts : State → (due : Option ℕ) → Harakiri
  kills : Harakiri

unfoldable pub harakiri : (second shutdown_grace : ℕ) → Bool → ℕ → State → Harakiri
unfolding set_alarm
harakiri second shutdown_grace locked now state =
    if locked
    then ignored
    else if state.shutting_down
    then kills
    else interrupts
        (record { shutting_down = true; last_signal = sigalrm ∷ []; last_signal_received = now })
        (set_alarm second now shutdown_grace)

-- What reaches a server: a shutdown signal or the alarm, each with whether the lock is held and with
-- the time.
pub data Event : Type 0 where
  shutdown : Bool → ℕ → Signal → Event
  alarm : Bool → ℕ → Event

-- The server and when the alarm is due, or the end of the process.
pub data Process : Type 0 where
  runs : State → (due : Option ℕ) → Process
  ended : Process

abbrev after_shutdown : Option ℕ → Handled → Process
after_shutdown due (goes_on state) = runs state due
after_shutdown due exits = ended

-- The alarm that has come is not set any more.
abbrev after_alarm : State → Harakiri → Process
after_alarm state ignored = runs state none
after_alarm state (interrupts after due) = runs after due
after_alarm state kills = ended

module _ (second shutdown_grace : ℕ) where
  unfoldable pub handle : Event → State → Option ℕ → Process
  unfolding harakiri
  handle (shutdown locked now s) state due =
      after_shutdown due (handle_shutdown_signal second locked now s state)
  handle (alarm locked now) state due =
      after_alarm state (harakiri second shutdown_grace locked now state)

  abbrev pub go_on : (State → Option ℕ → Process) → Process → Process
  go_on again (runs state due) = again state due
  go_on again ended = ended

  -- the events one after the other, up to the end of the process
  unfoldable pub handle_all : List Event → State → Option ℕ → Process
  unfolding handle
  handle_all [] state due = runs state due
  handle_all (e ∷ events) state due = go_on (handle_all events) (handle e state due)

  -- The process has ended, or the server is shutting down.
  abbrev pub IsEnding : Process → Type 0
  IsEnding ended = Unit
  IsEnding (runs state due) = state.shutting_down ≡ true

  -- The process has ended, or the server is shutting down with its alarm due at this time.
  abbrev pub IsEndingAt : Option ℕ → Process → Type 0
  IsEndingAt due ended = Unit
  IsEndingAt due (runs state at) = (state.shutting_down ≡ true) × (at ≡ due)

  IsEnding-IsEndingAt : (due : Option ℕ) (p : Process) → IsEndingAt due p → IsEnding p
  IsEnding-IsEndingAt due ended h = tt
  IsEnding-IsEndingAt due (runs state at) h = h.0

  after_shutdown-IsEndingAt :
      (due : Option ℕ) (r : Handled)
      → ((after : State) → r ≡ goes_on after → after.shutting_down ≡ true)
      → IsEndingAt due (after_shutdown due r)
  after_shutdown-IsEndingAt due (goes_on after) f = (f after refl, refl)
  after_shutdown-IsEndingAt due exits f = tt

  -- A shutdown signal leaves the alarm as it is.
  shutdown-IsEndingAt :
      (locked : Bool) (now : ℕ) (s : Signal) (state : State) (due : Option ℕ)
      → state.shutting_down ≡ true
      → IsEndingAt due (handle (shutdown locked now s) state due)
  unfolding handle
  shutdown-IsEndingAt locked now s state due h =
      after_shutdown-IsEndingAt due (handle_shutdown_signal second locked now s state)
        (λ after e. (handle_shutdown_signal_cases second locked now s state).1 after e (inl h))

  handle-IsEnding :
      (e : Event) (state : State) (due : Option ℕ)
      → state.shutting_down ≡ true
      → IsEnding (handle e state due)
  unfolding handle harakiri
  handle-IsEnding (shutdown locked now s) state due h =
      IsEnding-IsEndingAt due (handle (shutdown locked now s) state due)
        (shutdown-IsEndingAt locked now s state due h)
  handle-IsEnding (alarm locked now) state due h = elim (Bool-cases locked) [
    | inl e ↦ rw e h
    | inr e ↦ rw (e, h) tt
  ]

  go_on-IsEnding :
      (events : List Event) (p : Process) → IsEnding p → IsEnding (go_on (handle_all events) p)
  unfolding handle_all
  go_on-IsEnding events ended h = tt
  go_on-IsEnding [] (runs state due) h = h
  go_on-IsEnding (e ∷ events) (runs state due) h =
      go_on-IsEnding events (handle e state due) (handle-IsEnding e state due h)

  abbrev pub shutdowns : List (Bool × ℕ × Signal) → List Event
  shutdowns signals = map (λ x. shutdown x.0 x.1 x.2) signals

  go_on-IsEndingAt :
      (signals : List (Bool × ℕ × Signal)) (due : Option ℕ) (p : Process)
      → IsEndingAt due p
      → IsEndingAt due (go_on (handle_all (shutdowns signals)) p)
  unfolding handle_all
  go_on-IsEndingAt signals due ended h = tt
  go_on-IsEndingAt [] due (runs state at) h = h
  go_on-IsEndingAt ((locked, now, s) ∷ signals) due (runs state at) h =
      go_on-IsEndingAt signals due (handle (shutdown locked now s) state at) (
        subst (λ d. IsEndingAt d (handle (shutdown locked now s) state at)) h.1
          (shutdown-IsEndingAt locked now s state at h.0))

  handle_all-append :
      (events more : List Event) (p : Process)
      → go_on (handle_all (events ++ more)) p
        ≡ go_on (handle_all more) (go_on (handle_all events) p)
  unfolding handle_all
  handle_all-append events more ended = refl
  handle_all-append [] more (runs state due) = refl
  handle_all-append (e ∷ events) more (runs state due) =
      handle_all-append events more (handle e state due)

  alarm_due :
      (now seconds : ℕ) → 0 < seconds → set_alarm second now seconds ≡ some (now + seconds * second)
  unfolding set_alarm
  alarm_due now zero p = absurd (omega (arith, p))
  alarm_due now (suc seconds) p = refl

  first_alarm :
      (now : ℕ) (state : State) (due : Option ℕ)
      → 0 < shutdown_grace
      → IsEndingAt (some (now + shutdown_grace * second)) (handle (alarm false now) state due)
  unfolding handle harakiri
  first_alarm now state due p = elim (Bool-cases state.shutting_down) [
    | inl e ↦ rw e tt
    | inr e ↦ rw e (refl, alarm_due now shutdown_grace p)
  ]

  last_alarm :
      (now : ℕ) (p : Process) → IsEnding p → go_on (handle_all (alarm false now ∷ [])) p ≡ ended
  unfolding handle_all handle harakiri
  last_alarm now ended h = refl
  last_alarm now (runs state due) h = rw h refl

  -- An alarm that is handled, and not dropped because another signal is just being handled, ends the
  -- process or leaves it shutting down with the alarm set anew, to shutdown_grace seconds later: it is
  -- still due at that time behind any shutdown signals, unless these end the process. And whatever
  -- signals and alarms come in between, when an alarm is handled again the process has ended. This
  -- holds for a shutdown_grace that is not 0, as the settings demand.
  pub handle_all_second_alarm :
      (state : State) (due : Option ℕ) (now now' : ℕ) (signals : List (Bool × ℕ × Signal))
      (events : List Event)
      → 0 < shutdown_grace
      → IsEndingAt
          (some (now + shutdown_grace * second))
          (handle_all (alarm false now ∷ shutdowns signals) state due)
        × (handle_all (alarm false now ∷ (events ++ alarm false now' ∷ [])) state due ≡ ended)
  unfolding handle_all
  handle_all_second_alarm state due now now' signals events p =
      let first = handle (alarm false now) state due in
      let set = first_alarm now state due p in
      let at = some (now + shutdown_grace * second) in
      (
        go_on-IsEndingAt signals at first set,
        handle_all-append events (alarm false now' ∷ []) first
            ∙ last_alarm now' (go_on (handle_all events) first)
                (go_on-IsEnding events first (IsEnding-IsEndingAt at first set)),
      )

-- The heartbeat file, if one is configured: the time that it holds, and when it was last updated.
pub record Heartbeat : Type 0 where
  pub is_open : Bool
  pub content : Option ℕ
  pub last_update : ℕ
  pub writes : List ℕ

-- _update_heartbeat_file: time.time() - last_update > 2.5, with `second` ticks of the clock in a
-- second
unfoldable pub update_heartbeat_file : ℕ → ℕ → Heartbeat → Heartbeat
update_heartbeat_file second now h =
    if h.is_open && ltb (h.last_update * 2 + 5 * second) (now * 2)
    then record h { content = some now; last_update = now; writes = h.writes ++ now ∷ [] }
    else h

-- Behind an update of an open file, the last update is at most two and a half seconds old.
update_heartbeat_file_recent :
    (second now : ℕ) (h : Heartbeat)
    → h.is_open ≡ true
    → now * 2 ≤ (update_heartbeat_file second now h).last_update * 2 + 5 * second
unfolding update_heartbeat_file
update_heartbeat_file_recent second now h opened = ground (arith, opened)
