-- ===== src/Server/Shutdown/Duplicates.antt =====
-- Which shutdown signals end the process at once (Server.handle_shutdown_signal of
-- pysoa/server/server.py).
use pysoa.Prelude.{
  ℕ, ◌-◌, ◌<◌, ◌≡◌, refl, Bool, true, false, ◌&&◌, ◌⊎◌, inl, inr, ◌↔◌, List, [], ◌∷◌, All, arith,
  Bool-cases, ltb,
}
use pysoa.Server.Shutdown.{
  Signal, sigint, sigterm, sigalrm, State, initial, exits, other_interrupt, handle_shutdown_signal,
  handle_signals,
}

-- One of SIGINT and SIGTERM after the other.
abbrev pub AreBoth : Signal → Signal → Type 0
AreBoth sigint sigterm = Unit
AreBoth sigterm sigint = Unit
AreBoth _ _ = ⊥

-- what the handler is registered for
abbrev pub IsInterrupt : Signal → Type 0
IsInterrupt sigalrm = ⊥
IsInterrupt _ = Unit

-- The second signal is the other one and comes within a second.
abbrev pub IsDuplicate : ℕ → ℕ × Signal → ℕ × Signal → Type 0
IsDuplicate second (t, s) (t', s') = AreBoth s s' × (t' - t < second)

-- A signal is not the duplicate of the one before it.
abbrev pub Insists : ℕ → List (ℕ × Signal) → Type 0
Insists second [] = ⊥
Insists second (a ∷ []) = ⊥
Insists second (a ∷ b ∷ signals) = (IsDuplicate second a b → ⊥) ⊎ Insists second (b ∷ signals)

-- the signals that come while no other is being handled
abbrev pub unlocked : List (Bool × ℕ × Signal) → List (ℕ × Signal)
unlocked [] = []
unlocked ((true, t, s) ∷ signals) = unlocked signals
unlocked ((false, t, s) ∷ signals) = (t, s) ∷ unlocked signals

abbrev pub AreInterrupts : List (Bool × ℕ × Signal) → Type 0
AreInterrupts signals = All (λ (x : Bool × ℕ × Signal). IsInterrupt x.2) signals

both_of : (s s' : Signal) → IsInterrupt s' → other_interrupt (s ∷ []) s' ≡ true → AreBoth s s'
both_of sigint sigint i h = absurd (ground (arith, h))
both_of sigint sigterm i h = tt
both_of sigterm sigint i h = tt
both_of sigterm sigterm i h = absurd (ground (arith, h))
both_of sigalrm s' i h = absurd (ground (arith, h))
both_of sigint sigalrm i h = i
both_of sigterm sigalrm i h = i

of_both : (s s' : Signal) → AreBoth s s' → other_interrupt (s ∷ []) s' ≡ true
of_both sigint sigterm b = refl
of_both sigterm sigint b = refl
of_both sigint sigint b = absurd b
of_both sigint sigalrm b = absurd b
of_both sigterm sigterm b = absurd b
of_both sigterm sigalrm b = absurd b
of_both sigalrm _ b = absurd b

module _ (second : ℕ) where
  -- the test of the handler
  abbrev test : ℕ × Signal → ℕ × Signal → Bool
  test (t, s) (t', s') = other_interrupt (s ∷ []) s' && ltb (t' - t) second

  test-IsDuplicate : (a b : ℕ × Signal) → IsInterrupt b.1 → test a b ≡ true → IsDuplicate second a b
  test-IsDuplicate (t, s) (t', s') i h = (both_of s s' i (ground (arith, h)), ground (arith, h))

  of_duplicate : (a b : ℕ × Signal) → test a b ≡ false → IsDuplicate second a b → ⊥
  of_duplicate (t, s) (t', s') h (b, soon) = absurd (ground (arith, h, soon, of_both s s' b))

  -- shutting down since a last signal
  abbrev since : ℕ × Signal → State
  since (t, s) = record { shutting_down = true; last_signal = s ∷ []; last_signal_received = t }

  since_exits :
      (last : ℕ × Signal) (signals : List (Bool × ℕ × Signal))
      → AreInterrupts signals
      → (handle_signals second signals (since last) ≡ exits)
        ↔ Insists second (last ∷ unlocked signals)
  unfolding handle_signals handle_shutdown_signal
  since_exits last [] i = (λ h. absurd (ground (arith, h)), λ h. absurd h)
  since_exits last ((true, t, s) ∷ signals) i = since_exits last signals i.1
  since_exits last ((false, t, s) ∷ signals) i = elim (Bool-cases (test last (t, s))) [
    | inl duplicate ↦
        let (there, back) = since_exits (t, s) signals i.1 in
        rw duplicate (
          λ h. inr (there h),
          λ h. elim h [
            | inl other ↦ absurd (other (test-IsDuplicate last (t, s) i.0 duplicate))
            | inr later ↦ back later
          ],
        )
    | inr other ↦ rw other (λ h. inl (of_duplicate last (t, s) other), λ h. refl)
  ]

  -- Whatever SIGINTs and SIGTERMs a server gets that is not shutting down, at whatever times, it ends
  -- the process at once exactly if, of those that come while no other is being handled, one behind
  -- the first is not the other of SIGINT and SIGTERM, or comes a second or more after the one before.
  pub handle_signals_exits :
      (signals : List (Bool × ℕ × Signal))
      → AreInterrupts signals
      → (handle_signals second signals initial ≡ exits) ↔ Insists second (unlocked signals)
  unfolding handle_signals handle_shutdown_signal
  handle_signals_exits [] i = (λ h. absurd (ground (arith, h)), λ h. absurd h)
  handle_signals_exits ((true, t, s) ∷ signals) i = handle_signals_exits signals i.1
  handle_signals_exits ((false, t, s) ∷ signals) i = since_exits (t, s) signals i.1
