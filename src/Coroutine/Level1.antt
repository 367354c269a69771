-- ===== src/Coroutine/Level1.antt =====
-- hypertile-sys/src/lib.rs: `run_level1`, which waits for the end of a root coroutine.
use hypertile.Base.{
  ℕ, zero, suc, ◌≡◌, ◌≢◌, refl, sym, ap, subst, ◌∙◌, inl, inr, Option, none, some, List, [], ◌∷◌,
  All,
}
use hypertile.Python.Outcome.{PyResult, ok, err}
use hypertile.Coroutine.Cell.{Failure, Interpreter, CoroutineTask, WakeArgs}
use hypertile.Coroutine.Run.{
  spawn_coroutine, new_task, run_coroutine, run_live, wake_fn, inject, take_handle, take_hook,
  Event, run_handle, call_hook, cancel, step, run,
}
use hypertile.Coroutine.Drive.{
  Progress, live, ended, stranded, drive, Matches, Follows, run-Follows, Progress-cases,
  spawn_coroutine-Follows,
}

-- What `recv_timeout` gives.
pub data Received (V X T : Type 0) : Type 0 where
  pair : V → Option (Failure X T) → Received V X T
  timeout : Received V X T
  disconnected : Received V X T

-- How `run_level1` fails: by the coroutine's exception, by a signal's, or without an end.
pub data Level1Error (X T : Type 0) : Type 0 where
  failed : Failure X T → Level1Error X T
  signalled : X → Level1Error X T
  no_completion : Level1Error X T

module _ {V X T : Type 0} where
  unfoldable pub unpack : V → Option (Failure X T) → PyResult V (Level1Error X T)
  unpack v none = ok v
  unpack v (some e) = err (failed e)

  -- One round of the loop, with what `check_signals` raises; none to go on.
  unfoldable pub round : Received V X T → Option X → Option (PyResult V (Level1Error X T))
  unfolding unpack
  round (pair v e) signal = some (unpack v e)
  round timeout none = none
  round timeout (some x) = some (err (signalled x))
  round disconnected signal = some (err no_completion)

received : {V X T K : Type 0} → List (K × V × Option (Failure X T)) → Option K → Received V X T
received [] none = disconnected
received [] (some k) = timeout
received ((k, v, e) ∷ rest) cb = pair v e

-- The done callback sends its arguments, and holds the sender as long as the task holds it.
unfoldable pub receive : {C V X T K : Type 0} → CoroutineTask C V X T K → Received V X T
unfolding received
receive s = received s.called s.done_callback

ended-inj :
    {C V X T : Type 0} {v w : V} {e f : Option (Failure X T)}
    (p : ◌≡◌ {A = Progress C V X T} (ended v e) (ended w f))
    → unpack v e ≡ unpack w f
ended-inj p = cc

live-ended :
    {C V X T : Type 0} {c : C} {w : V} {f : Option (Failure X T)}
    (p : ◌≡◌ {A = Progress C V X T} (live c) (ended w f))
    → ⊥
live-ended p = cc

stranded-ended :
    {C V X T : Type 0} {c : C} {w : V} {f : Option (Failure X T)}
    (p : ◌≡◌ {A = Progress C V X T} (stranded c) (ended w f))
    → ⊥
stranded-ended p = cc

module _ {C V X T K : Type 0} (I : Interpreter C V X T) where
  -- What happens to the task before each round, and the signal that the round then finds.
  unfoldable pub wait :
      List (List (Event V X) × Option X)
      → CoroutineTask C V X T K
      → Option (PyResult V (Level1Error X T))
  wait [] s = none
  wait ((es, signal) ∷ rounds) s =
      let s' = run I es s in
      elim (round (receive s') signal) [ none ↦ wait rounds s' | some r ↦ some r ]

  unfoldable pub run_level1 :
      C → K → List (List (Event V X) × Option X) → Option (PyResult V (Level1Error X T))
  run_level1 c k rounds = wait rounds (spawn_coroutine c (some k) none)

  -- The task after all rounds.
  unfoldable pub after :
      List (List (Event V X) × Option X) → CoroutineTask C V X T K → CoroutineTask C V X T K
  after [] s = s
  after ((es, signal) ∷ rounds) s = after rounds (run I es s)

  -- A coroutine that is gone is given nothing more.
  take_handle_gone :
      (n : ℕ) (s : CoroutineTask C V X T K)
      → s.coro ≡ none
      → ((take_handle I n s).coro ≡ none) × ((take_handle I n s).given ≡ s.given)
  unfolding take_handle run_coroutine
  take_handle_gone zero s g = (g, refl)
  take_handle_gone (suc n) s g =
      let s' = record s { queued = n } in
      subst
        (λ o.
          let q = elim o as (λ x. CoroutineTask C V X T K) [
            | none ↦ s'
            | some c ↦ run_live I c s'
          ] in
          (q.coro ≡ none) × (q.given ≡ s.given))
        (sym g) (g, refl)

  take_hook_gone :
      (n : ℕ) (a : WakeArgs V X) (s : CoroutineTask C V X T K)
      → s.coro ≡ none
      → ((take_hook I n a s).coro ≡ none) × ((take_hook I n a s).given ≡ s.given)
  unfolding take_hook wake_fn inject
  take_hook_gone zero a s g = (g, refl)
  take_hook_gone (suc n) a s g = (g, refl)

  step_gone :
      (e : Event V X) (s : CoroutineTask C V X T K)
      → s.coro ≡ none
      → ((step I e s).coro ≡ none) × ((step I e s).given ≡ s.given)
  unfolding step
  step_gone run_handle s g = take_handle_gone s.queued s g
  step_gone (call_hook a) s g = take_hook_gone s.hooks a s g
  step_gone cancel s g = (g, refl)

  run_gone :
      (es : List (Event V X)) (s : CoroutineTask C V X T K)
      → s.coro ≡ none
      → ((run I es s).coro ≡ none) × ((run I es s).given ≡ s.given)
  unfolding run
  run_gone [] s g = (g, refl)
  run_gone (e ∷ es) s g =
      let (g', h) = step_gone e s g in let (r, h') = run_gone es (step I e s) g' in (r, h' ∙ h)

  after_gone :
      (rounds : List (List (Event V X) × Option X)) (s : CoroutineTask C V X T K)
      → s.coro ≡ none
      → (after rounds s).given ≡ s.given
  unfolding after
  after_gone [] s g = refl
  after_gone ((es, signal) ∷ rounds) s g =
      let (g', h) = run_gone es s g in after_gone rounds (run I es s) g' ∙ h

  module _ (k : K) where
    receive-timeout :
        (s : CoroutineTask C V X T K)
        → s.done_callback ≡ some k
        → s.called ≡ []
        → receive s ≡ timeout
    unfolding receive received
    receive-timeout s d h = ap (λ l. received l s.done_callback) h ∙ ap (λ o. received [] o) d

    receive-ended :
        (v : V) (e : Option (Failure X T)) (s : CoroutineTask C V X T K)
        → Matches I (some k) (ended v e) s
        → receive s ≡ pair v e
    unfolding receive received
    receive-ended v e s (x, y, d, h) = ap (λ l. received l s.done_callback) h

    wait_ended :
        (c : C) (rounds : List (List (Event V X) × Option X)) (s : CoroutineTask C V X T K) (v : V)
        (e : Option (Failure X T))
        → All (λ r. r.1 ≡ none) rounds
        → Follows I (some k) c s
        → drive I c s.given ≢ ended v e
        → drive I c (after rounds s).given ≡ ended v e
        → wait rounds s ≡ some (unpack v e)
    unfolding wait after round
    wait_ended c [] s v e q f l z = absurd (l z)
    wait_ended c ((es, signal) ∷ rounds) s v e (h, q) f l z =
        let s' = run I es s in
        let f' = run-Follows I (some k) es c s f in
        let next = λ (r : Option (PyResult V (Level1Error X T))).
          elim r as (λ y. Option (PyResult V (Level1Error X T))) [
            | none ↦ wait rounds s'
            | some x ↦ some x
          ] in
        let goes_on =
          λ (d : s'.done_callback ≡ some k) (m : s'.called ≡ [])
              (l' : drive I c s'.given ≢ ended v e).
            ap (λ x. next (round (receive s') x)) h
            ∙ (ap (λ x. next (round x none)) (receive-timeout s' d m)
                ∙ wait_ended c rounds s' v e q f' l' z) in
        elim (Progress-cases (drive I c s'.given)) [
          | inl (d', l') ↦
              let (x, y, d, m) = subst (λ p. Matches I (some k) p s') l' f' in
              goes_on d m (λ p. live-ended (sym l' ∙ p))
          | inr (inl (w, g, l')) ↦
              let m = subst (λ p. Matches I (some k) p s') l' f' in
              ap (λ x. next (round x signal)) (receive-ended w g s' m)
              ∙ ap some (ended-inj (sym l' ∙ (ap (drive I c) (sym (after_gone rounds s' m.0)) ∙ z)))
          | inr (inr (d', l')) ↦
              let (x, y, d, m) = subst (λ p. Matches I (some k) p s') l' f' in
              goes_on d m (λ p. stranded-ended (sym l' ∙ p))
        ]

    -- If no round finds a signal, and the root coroutine has ended by the last one, `run_level1` returns
    -- what the inputs given to the coroutine lead it to: its value, or its exception.
    run_level1_ended :
        (c : C) (rounds : List (List (Event V X) × Option X)) (v : V) (e : Option (Failure X T))
        → All (λ r. r.1 ≡ none) rounds
        → drive I c (after rounds (spawn_coroutine c (some k) none)).given ≡ ended v e
        → run_level1 c k rounds ≡ some (unpack v e)
    unfolding run_level1 spawn_coroutine inject new_task drive run
    run_level1_ended c rounds v e q z =
        wait_ended c rounds (spawn_coroutine c (some k) none) v e q
          (spawn_coroutine-Follows I (some k) c none []) (λ p. live-ended p) z
