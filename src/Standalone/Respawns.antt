-- ===== src/Standalone/Respawns.antt =====
-- How often the monitor of pysoa/server/standalone.py starts a process again.
use pysoa.Prelude.{
  ℕ, zero, suc, ◌+◌, ◌*◌, ◌≤◌, ◌<◌, ◌≡◌, refl, subst, Bool, true, false, not, ◌||◌, List, [], ◌∷◌,
  ◌++◌, ◌==◌, if◌then◌else◌, length, length-append, arith, Bool-cases, ◌⊎◌, inl, inr, append_assoc,
  append-nil,
}
use pysoa.Standalone.{
  Deque, rest_of_times, append, oldest_within, is_exhausted, Monitor, new_monitor, restarted, Round,
  run,
}

-- The n-th of these times, if there is one, is not before `least`.
abbrev pub NotBefore : ℕ → ℕ → List ℕ → Type 0
NotBefore least n [] = Unit
NotBefore least zero (t ∷ ts) = least ≤ t
NotBefore least (suc n) (t ∷ ts) = NotBefore least n ts

-- Between a time and the one that stands `k` behind it (counted from 0: k = 0 is the next) lies the
-- span at least.
abbrev pub Spaced : ℕ → ℕ → List ℕ → Type 0
Spaced k span [] = Unit
Spaced k span (t ∷ ts) = NotBefore (t + span) k ts × Spaced k span ts

later_kept :
    (least n t : ℕ) (ts : List ℕ)
    → n < length ts
    → NotBefore least n ts
    → NotBefore least n (ts ++ t ∷ [])
later_kept least n t [] h b = absurd (omega (arith, h))
later_kept least zero t (x ∷ ts) h b = b
later_kept least (suc n) t (x ∷ ts) h b = later_kept least n t ts (omega (arith, h)) b

later_none : (least n t : ℕ) (ts : List ℕ) → length ts < n → NotBefore least n (ts ++ t ∷ [])
later_none least zero t ts h = absurd (omega (arith, h))
later_none least (suc zero) t [] h = tt
later_none least (suc (suc n)) t [] h = tt
later_none least (suc n) t (x ∷ ts) h = later_none least n t ts (omega (arith, h))

later_last : (least t : ℕ) (ts : List ℕ) → least ≤ t → NotBefore least (length ts) (ts ++ t ∷ [])
later_last least t [] h = h
later_last least t (x ∷ ts) h = later_last least t ts h

module _ (k span t : ℕ) where
  same_length : (ts : List ℕ) → (length ts == k) ≡ true → length ts ≡ k
  same_length ts e = ground (arith, e)

  shorter : (ts : List ℕ) → (length ts == k) ≡ false → suc (length ts) ≤ suc k → length ts < k
  shorter ts e h = ground (arith, e, h)

  late : (x : ℕ) (ts : List ℕ) → oldest_within span t (x ∷ ts) ≡ false → x + span ≤ t
  late x ts e = ground (arith, e)

  only :
      (ts : List ℕ)
      → length ts ≤ suc k
      → (length ts ≡ suc k → oldest_within span t ts ≡ false)
      → Spaced k span ts
      → Spaced k span (ts ++ t ∷ [])
  only [] short old s = (tt, tt)
  only (x ∷ ts) short old s = (
    elim (Bool-cases (length ts == k)) [
      | inl e ↦
          subst (λ n. NotBefore (x + span) n (ts ++ t ∷ [])) (same_length ts e)
            (later_last (x + span) t ts (late x ts (old (omega (arith, same_length ts e)))))
      | inr e ↦ later_none (x + span) k t ts (shorter ts e short)
    ],
    only ts (omega (arith, short)) (λ full. absurd (omega (arith, full, short))) s.1,
  )

  front_and :
      (front ts : List ℕ)
      → length ts ≡ suc k
      → oldest_within span t ts ≡ false
      → Spaced k span (front ++ ts)
      → Spaced k span ((front ++ ts) ++ t ∷ [])
  front_and [] ts full old s = only ts (omega (arith, full)) (λ _. old) s
  front_and (x ∷ front) ts full old s = (
    later_kept (x + span) k t (front ++ ts) (omega (arith, full, length-append front ts)) s.0,
    front_and front ts full old s.1,
  )

-- The deque holds the end of the log: all of it, or as much as it can.
abbrev pub Window : ℕ → List ℕ → Deque → Type 0
Window k log d =
    (front : List ℕ) × (log ≡ front ++ d.times)
    × (d.maxlen ≡ suc k)
    × (((front ≡ []) × (length d.times ≤ suc k)) ⊎ (length d.times ≡ suc k))

pushed :
    (k t : ℕ) (front ts : List ℕ)
    → length ts ≡ suc k
    → (front' : List ℕ) × ((front ++ ts) ++ t ∷ [] ≡ front' ++ rest_of_times (ts ++ t ∷ []))
      × (length (rest_of_times (ts ++ t ∷ [])) ≡ suc k)
pushed k t front [] e = absurd (omega (arith, e))
pushed k t front (x ∷ ts) e = (
  front ++ x ∷ [],
  rw (append_assoc front (x ∷ ts) (t ∷ []), append_assoc front (x ∷ []) (ts ++ t ∷ [])) refl,
  omega (arith, length-append ts (t ∷ []), e),
)

append-Window :
    (k t : ℕ) (log : List ℕ) (d : Deque) → Window k log d → Window k (log ++ t ∷ []) (append d t)
unfolding append
append-Window k t log d (front, e, m, h) = elim (Bool-cases (length d.times == d.maxlen)) [
  | inl full ↦
      let (front', e', l) = pushed k t front d.times (ground (arith, full, m)) in
      rw full (front', rw e e', m, inr l)
  | inr room ↦ rw room (
    front,
    rw e (append_assoc front d.times (t ∷ [])),
    m,
    elim h [
      | inl (none_before, short) ↦
          inl (none_before, ground (arith, length-append d.times (t ∷ []), room, m, short))
      | inr full ↦ absurd (ground (arith, room, m, full))
    ],
  )
]

append-Spaced :
    (k span t : ℕ) (log : List ℕ) (d : Deque)
    → Window k log d
    → is_exhausted span t d ≡ false
    → Spaced k span log
    → Spaced k span (log ++ t ∷ [])
unfolding is_exhausted
append-Spaced k span t log d (front, l, m, h) e s = elim h [
  | inl (f, short) ↦
      rw (l, f) (only k span t d.times short (λ full. ground (arith, e, m, full)) (rw (l, f) at s))
  | inr full ↦ rw l (front_and k span t front d.times full (ground (arith, e, m, full)) (rw l at s))
]

unless :
    (P : List ℕ → Type 0) (b : Bool) (ts : List ℕ)
    → P []
    → (b ≡ false → P ts)
    → P (if b then [] else ts)
unless P true ts h f = h
unless P false ts h f = f refl

module _ (second : ℕ) where
  -- Of any four restarts the last is 15 seconds after the first at least, of any nine 60 seconds.
  abbrev pub AreLimited : List ℕ → Type 0
  AreLimited log = Spaced 2 (15 * second) log × Spaced 7 (60 * second) log

  started_again :
      (r : Round) (rounds : List Round) (m : Monitor) (log : List ℕ)
      → Window 2 log m.fifteen_second_restart_times
      → Window 7 log m.one_minute_restart_times
      → AreLimited log
      → is_exhausted (60 * second) r.time m.one_minute_restart_times ≡ false
      → is_exhausted (15 * second) r.time m.fifteen_second_restart_times ≡ false
      → (Window 2 (log ++ r.time ∷ []) (append m.fifteen_second_restart_times r.time)
          → Window 7 (log ++ r.time ∷ []) (append m.one_minute_restart_times r.time)
          → AreLimited (log ++ r.time ∷ [])
          → AreLimited ((log ++ r.time ∷ []) ++ run second (restarted r.time m) rounds))
      → AreLimited (log ++ r.time ∷ run second (restarted r.time m) rounds)
  started_again r rounds m log w w' s minute quarter again =
      subst AreLimited (append_assoc log (r.time ∷ []) (run second (restarted r.time m) rounds)) (
        again (append-Window 2 r.time log m.fifteen_second_restart_times w)
          (append-Window 7 r.time log m.one_minute_restart_times w')
          (
            append-Spaced 2 (15 * second) r.time log m.fifteen_second_restart_times w quarter s.0,
            append-Spaced 7 (60 * second) r.time log m.one_minute_restart_times w' minute s.1,
          ))

  run-limited :
      (rounds : List Round) (m : Monitor) (log : List ℕ)
      → Window 2 log m.fifteen_second_restart_times
      → Window 7 log m.one_minute_restart_times
      → AreLimited log
      → AreLimited (log ++ run second m rounds)
  unfolding run
  run-limited [] m log w w' s = rw (append-nil log) s
  run-limited (r ∷ rounds) m log w w' s =
      let P : List ℕ → Type 0 = λ ts. AreLimited (log ++ ts) in
      let stops : P [] = rw (append-nil log) s in
      let in_minute = is_exhausted (60 * second) r.time m.one_minute_restart_times in
      let in_quarter = is_exhausted (15 * second) r.time m.fifteen_second_restart_times in
      let later = r.time ∷ run second (restarted r.time m) rounds in
      let unless_quarter = if in_quarter then [] else later in
      let unless_minute = if in_minute then [] else unless_quarter in
      let stopped = r.signaled_after || not m.respawn in
      unless P r.signaled_before (if stopped then [] else unless_minute) stops (λ _.
        unless P stopped unless_minute stops (λ _.
          unless P in_minute unless_quarter stops (λ minute.
            unless P in_quarter later stops (λ quarter.
              started_again r rounds m log w w' s minute quarter
                (run-limited rounds (restarted r.time m) (log ++ r.time ∷ []))))))

  -- Whenever the process ends and whatever signals come, a monitor starts it again so seldom that of
  -- any four restarts one after the other the last is at least 15 seconds after the first, and of any
  -- nine the last is at least 60 seconds after the first.
  pub run-AreLimited :
      (respawn : Bool) (rounds : List Round) → AreLimited (run second (new_monitor respawn) rounds)
  run-AreLimited respawn rounds =
      run-limited rounds (new_monitor respawn) [] ([], refl, refl, inl (refl, omega arith))
        ([], refl, refl, inl (refl, omega arith)) (tt, tt)
