-- ===== src/Client/Future.antt =====
-- FutureSOAResponse of pysoa/client/client.py. `R` is the type of its responses, `E` that of the
-- exceptions, and `W` the world that receiving a response changes.
use pysoa.Prelude.{
  ℕ, ◌≡◌, refl, ap, ◌∙◌, sym, subst, Bool, true, false, not, ◌||◌, Option, none, some,
  if◌then◌else◌, arith,
}

-- How a call ends: it returns, raises MessageReceiveTimeout, raises another Exception, or is ended
-- by a BaseException that is none.
pub data Got (R E : Type 0) : Type 0 where
  response : R → Got R E
  timed_out : Got R E
  fails : E → Got R E
  interrupted : Got R E

-- `_response` and `_raise`
pub record Future (R E : Type 0) : Type 0 where
  pub held : Option R
  pub raised : Option E

-- What the constructor makes.
abbrev pub new_future : {R E : Type 0} → Future R E
new_future = record { held = none; raised = none }

module _ {R E W : Type 0} (truth : R → Bool) (get_response : Option ℕ → W → Got R E × W) where
  -- `if self._response`
  abbrev pub is_held : Option R → Bool
  is_held none = false
  is_held (some r) = truth r

  -- `if self._raise`: the tuple is never empty
  abbrev pub is_raised : Option E → Bool
  is_raised none = false
  is_raised (some e) = true

  unfoldable pub done : Future R E → Bool
  done f = is_held f.held || is_raised f.raised

  unfoldable pub running : Future R E → Bool
  unfolding done
  running f = not (done f)

  -- the `try`, and what it stores
  abbrev pub store : Got R E × W → Future R E → Got R E × Future R E × W
  store (response r, w) f = (response r, record f { held = some r }, w)
  store (timed_out, w) f = (timed_out, f, w)
  store (fails e, w) f = (fails e, record f { raised = some e }, w)
  store (interrupted, w) f = (interrupted, f, w)

  abbrev pub cached_or :
      Option R → Future R E → W → Got R E × Future R E × W → Got R E × Future R E × W
  cached_or none f w fresh = fresh
  cached_or (some r) f w fresh = if truth r then (response r, f, w) else fresh

  abbrev pub raised_or :
      Option E → Future R E → W → Got R E × Future R E × W → Got R E × Future R E × W
  raised_or (some e) f w other = (fails e, f, w)
  raised_or none f w other = other

  unfoldable pub result : Option ℕ → Future R E → W → Got R E × Future R E × W
  result timeout f w =
      raised_or f.raised f w (cached_or f.held f w (store (get_response timeout w) f))

  -- What `exception` returns, where it returns.
  abbrev pub exception_of : Got R E → Got (Option E) E
  exception_of (response r) = response none
  exception_of timed_out = timed_out
  exception_of (fails e) = response (some e)
  exception_of interrupted = interrupted

  unfoldable pub exception : Option ℕ → Future R E → W → Got (Option E) E × Future R E × W
  unfolding running result
  exception timeout f w =
      let ran = result timeout f w in
      if running f then (exception_of ran.0, ran.1, ran.2) else (response f.raised, f, w)

  -- A response that is true, or an exception other than a timeout.
  abbrev pub is_final : Got R E → Bool
  is_final (response r) = truth r
  is_final timed_out = false
  is_final (fails e) = true
  is_final interrupted = false

  -- What a later call finds.
  pub record Settled (g : Got R E) (f : Future R E) : Type 0 where
    pub finished : done f ≡ true
    pub same_result : (timeout : Option ℕ) (w : W) → result timeout f w ≡ (g, f, w)
    pub same_exception :
        (timeout : Option ℕ) (w : W) → exception timeout f w ≡ (exception_of g, f, w)

  Settled-response :
      (r : R) → truth r ≡ true → Settled (response r) (record { held = some r; raised = none })
  unfolding done result exception
  Settled-response r h = record {
    finished = rw h refl;
    same_result = λ t w. rw h refl;
    same_exception = λ t w. rw h refl;
  }

  Settled-fails :
      (held : Option R) (e : E)
      → is_held held ≡ false
      → Settled (fails e) (record { held = held; raised = some e })
  unfolding done result exception
  Settled-fails held e h = record {
    finished = rw h refl;
    same_result = λ t w. refl;
    same_exception = λ t w. rw h refl;
  }

  -- what a first call leaves
  abbrev Left : Got R E × Future R E × W → Type 0
  Left (g, f, w) = (is_final g ≡ true → Settled g f) × (is_final g ≡ false → done f ≡ false)

  store-Left :
      (held : Option R) (got : Got R E × W)
      → is_held held ≡ false
      → Left (store got (record { held = held; raised = none }))
  unfolding done
  store-Left held (response r, w) h =
      (λ final. Settled-response r final, λ not_final. rw not_final refl)
  store-Left held (timed_out, w) h = (λ final. absurd (ground (arith, final)), λ _. rw h refl)
  store-Left held (fails e, w) h =
      (λ _. Settled-fails held e h, λ not_final. absurd (ground (arith, not_final)))
  store-Left held (interrupted, w) h = (λ final. absurd (ground (arith, final)), λ _. rw h refl)

  cached_or-false :
      (held : Option R) (f : Future R E) (w : W) (fresh : Got R E × Future R E × W)
      → is_held held ≡ false
      → cached_or held f w fresh ≡ fresh
  cached_or-false none f w fresh h = refl
  cached_or-false (some r) f w fresh h = rw h refl

  raised-none :
      (held : Option R) (raised : Option E)
      → done (record { held = held; raised = raised }) ≡ false
      → (is_held held ≡ false) × (raised ≡ none)
  unfolding done
  raised-none held none h = (ground (arith, h), refl)
  raised-none held (some e) h = absurd (ground (arith, h))

  result-fresh :
      (timeout : Option ℕ) (f : Future R E) (w : W)
      → done f ≡ false
      → result timeout f w ≡ store (get_response timeout w) f
  unfolding result
  result-fresh timeout f w h =
      let (not_held, not_raised) = raised-none f.held f.raised h in
      ap (λ o. raised_or o f w (cached_or f.held f w (store (get_response timeout w) f))) not_raised
      ∙ cached_or-false f.held f w (store (get_response timeout w) f) not_held

  store-result :
      (got : Got R E × W) (f : Future R E) → ((store got f).0 ≡ got.0) × ((store got f).2 ≡ got.1)
  store-result (response r, w) f = (refl, refl)
  store-result (timed_out, w) f = (refl, refl)
  store-result (fails e, w) f = (refl, refl)
  store-result (interrupted, w) f = (refl, refl)

  Left-of : (f : Future R E) (got : Got R E × W) → done f ≡ false → Left (store got f)
  Left-of f got h =
      let (not_held, not_raised) = raised-none f.held f.raised h in
      subst (λ o. Left (store got (record { held = f.held; raised = o }))) (sym not_raised)
        (store-Left f.held got not_held)

  -- A call of `result` on a future that is not done receives a response and ends as that does. If
  -- this is a response that is true in Python, or an exception other than a timeout, the future is
  -- done, and every later call of `result` and `exception` ends in the same way, receives nothing
  -- and changes nothing. After a timeout or an interruption, and after a response that is false in
  -- Python, such as an empty list, the future is still not done.
  pub result-Settled :
      (timeout : Option ℕ) (f : Future R E) (w : W)
      → done f ≡ false
      → let ran = result timeout f w in
        ((ran.0 ≡ (get_response timeout w).0) × (ran.2 ≡ (get_response timeout w).1))
        × (is_final ran.0 ≡ true → Settled ran.0 ran.1)
        × (is_final ran.0 ≡ false → done ran.1 ≡ false)
  result-Settled timeout f w h =
      let (settled, unsettled) = Left-of f (get_response timeout w) h in
      rw (result-fresh timeout f w h) (store-result (get_response timeout w) f, settled, unsettled)
