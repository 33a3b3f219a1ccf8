-- ===== src/Tests/Signals.antt =====
-- Alarms and shutdown signals at concrete inputs.
use pysoa.Prelude.{ℕ, ◌≡◌, refl, Bool, true, false, none, some, List, [], ◌∷◌, ◌++◌, ◌↔◌, arith}
use pysoa.Server.Shutdown.{
  Signal, sigint, sigterm, sigalrm, initial, exits, goes_on, handle_shutdown_signal, handle_signals,
}
use pysoa.Server.Shutdown.Duplicates.{Insists, unlocked, handle_signals_exits}
use pysoa.Server.Shutdown.Harakiri.{
  Event, shutdown, alarm, runs, ended, IsEndingAt, shutdowns, set_alarm, harakiri, handle,
  handle_all, handle_all_second_alarm,
}

abbrev between : List Event
between = shutdown true 21 sigint ∷ alarm true 22 ∷ []

-- The first alarm at 20, with 10 ticks in a second and a grace of 3 seconds.
handle_all_second_alarm_example :
    IsEndingAt 10 3
      (some 50)
      (handle_all 10 3 (alarm false 20 ∷ shutdowns 10 3 ((true, 22, sigint) ∷ [])) initial none)
    × (handle_all 10 3 (alarm false 20 ∷ (between ++ alarm false 50 ∷ [])) initial none ≡ ended)
handle_all_second_alarm_example =
    handle_all_second_alarm 10 3 initial none 20 50 ((true, 22, sigint) ∷ []) between (omega arith)

still_set :
    handle_all 10 3 (alarm false 20 ∷ shutdown true 22 sigint ∷ []) initial none
    ≡ runs
        (record { shutting_down = true; last_signal = sigalrm ∷ []; last_signal_received = 20 })
        (some 50)
unfolding handle_all handle harakiri set_alarm handle_shutdown_signal
still_set = refl

-- SIGTERM half a second after SIGINT, and then SIGTERM again.
abbrev terms : List (Bool × ℕ × Signal)
terms = (false, 10, sigint) ∷ (true, 11, sigint) ∷ (false, 15, sigterm) ∷ (false, 16, sigterm) ∷ []

handle_signals_exits_example :
    (handle_signals 10 terms initial ≡ exits) ↔ Insists 10 (unlocked terms)
handle_signals_exits_example = handle_signals_exits 10 terms (tt, (tt, (tt, (tt, tt))))

terms_end : handle_signals 10 terms initial ≡ exits
unfolding handle_signals handle_shutdown_signal
terms_end = refl

pair_goes_on :
    handle_signals 10 ((false, 10, sigint) ∷ (false, 15, sigterm) ∷ []) initial
    ≡ goes_on
        (record { shutting_down = true; last_signal = sigterm ∷ []; last_signal_received = 15 })
unfolding handle_signals handle_shutdown_signal
pair_goes_on = refl
