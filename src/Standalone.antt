-- ===== src/Standalone.antt =====
-- pysoa/server/standalone.py: the forked server processes, the monitor that starts each of them
-- again, and the signals to all of them. Times are in ticks, of which `second` make a second.
pub mod Respawns
use pysoa.Prelude.{
  ℕ, ◌+◌, ◌*◌, ◌≡◌, Bool, true, false, not, ◌&&◌, ◌||◌, List, [], ◌∷◌, ◌++◌, ◌==◌, ltb, leb,
  if◌then◌else◌, length,
}

-- A deque with a maximal length, the oldest first.
pub record Deque : Type 0 where
  pub maxlen : ℕ
  pub times : List ℕ

-- what is left when the oldest is pushed out
abbrev pub rest_of_times : List ℕ → List ℕ
rest_of_times [] = []
rest_of_times (t ∷ ts) = ts

unfoldable pub append : Deque → ℕ → Deque
append d t =
    if length d.times == d.maxlen
    then record d { times = rest_of_times (d.times ++ t ∷ []) }
    else record d { times = d.times ++ t ∷ [] }

-- t - times[0] < span
abbrev pub oldest_within : ℕ → ℕ → List ℕ → Bool
oldest_within span t [] = false
oldest_within span t (t₀ ∷ ts) = ltb t (t₀ + span)

-- len(times) == times.maxlen and t - times[0] < span
unfoldable pub is_exhausted : ℕ → ℕ → Deque → Bool
is_exhausted span t d = length d.times == d.maxlen && oldest_within span t d.times

pub record Monitor : Type 0 where
  pub respawn : Bool
  pub one_minute_restart_times : Deque
  pub fifteen_second_restart_times : Deque

abbrev pub new_monitor : Bool → Monitor
new_monitor respawn = record {
  respawn = respawn;
  one_minute_restart_times = record { maxlen = 8; times = [] };
  fifteen_second_restart_times = record { maxlen = 3; times = [] };
}

-- One round of the monitor's loop: whether the processes were signaled at the loop's test, whether
-- they were when the process had ended, and when that was.
pub record Round : Type 0 where
  pub signaled_before : Bool
  pub signaled_after : Bool
  pub time : ℕ

abbrev pub restarted : ℕ → Monitor → Monitor
restarted t m = record m {
  one_minute_restart_times = append m.one_minute_restart_times t;
  fifteen_second_restart_times = append m.fifteen_second_restart_times t;
}

-- the loop of _ProcessMonitor.run behind the first start: the times at which it starts the process
-- again, over the rounds that come
unfoldable pub run : ℕ → Monitor → List Round → List ℕ
unfolding append is_exhausted
run second m [] = []
run second m (r ∷ rounds) =
    let later = run second (restarted r.time m) rounds in
    if r.signaled_before
    then []
    else if r.signaled_after || not m.respawn
    then []
    else if is_exhausted (60 * second) r.time m.one_minute_restart_times
    then []
    else if is_exhausted (15 * second) r.time m.fifteen_second_restart_times
    then []
    else r.time ∷ later

-- How many processes _run_server forks; it runs the server itself for no more than one.
unfoldable pub num_processes : (fork_processes cpu_count : ℕ) → ℕ
num_processes fork_processes cpu_count =
    if ltb (cpu_count * 5) fork_processes then cpu_count * 5 else fork_processes

-- What the signal handler `signaled` shares with the monitors.
pub record Signals : Type 0 where
  pub locked : Bool
  pub has_signaled : Bool
  pub terminated : List ℕ

-- `signaled`, where the monitors are known by their numbers. The lock stays taken by a signal that
-- finds the flag set.
unfoldable pub signaled : List ℕ → Signals → Signals
signaled monitors s =
    if s.locked
    then s
    else if s.has_signaled
    then record s { locked = true }
    else record { locked = false; has_signaled = true; terminated = s.terminated ++ monitors }
