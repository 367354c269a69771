-- ===== src/Coroutine/Drive.antt =====
-- hypertile-sys/src/bilingual.rs: what the tasks of a coroutine do, beside the coroutine itself, given
-- one input after the other.
use hypertile.Base.{
  ℕ, zero, suc, ◌+◌, ◌≡◌, refl, sym, ap, subst, ◌∙◌, ◌⊎◌, inl, inr, Bool, true, Option, none, some,
  List, [], ◌∷◌, if◌then◌else◌, Bool-cases, arith,
}
use hypertile.Python.Outcome.{panic_message}
use hypertile.Coroutine.Cell.{
  Answer, yielded, stopped, raised, panicked, Failure, task_cancelled, panic_in_task, type_error,
  exception, Interpreter, Input, cancellation, resume, CoroutineTask,
}
use hypertile.Coroutine.Run.{
  unwrap_or, spawn_coroutine, give, hooked, finish, settle, inject, after_yield, undrivable,
  step_coroutine, cancel_live, run_live, take_handle, take_hook, wake_fn, run_coroutine, Event,
  run_handle, call_hook, cancel, step, run,
}

-- A coroutine goes on, has ended with a value and perhaps an exception, or is stranded by a panic.
pub data Progress (C V X T : Type 0) : Type 0 where
  live : C → Progress C V X T
  ended : V → Option (Failure X T) → Progress C V X T
  stranded : C → Progress C V X T

pub Progress-cases :
    {C V X T : Type 0} (p : Progress C V X T)
    → ((d : C) × (p ≡ live d))
      ⊎ ((v : V) × (f : Option (Failure X T)) × (p ≡ ended v f))
      ⊎ ((d : C) × (p ≡ stranded d))
Progress-cases (live d) = inl (d, refl)
Progress-cases (ended v f) = inr (inl (v, f, refl))
Progress-cases (stranded d) = inr (inr (d, refl))

module _ {C V X T : Type 0} (I : Interpreter C V X T) where
  -- An object without hook other than `None` ends the coroutine.
  pub progress : Answer V X T → C → Progress C V X T
  progress (yielded y) c =
      if hooked I y
      then live c
      else if y.is_none
      then live c
      else ended I.py_none (some (type_error (I.cannot_drive (unwrap_or y.type_name I.unknown))))
  progress (stopped v) c = ended (unwrap_or v I.py_none) none
  progress (raised x) c = ended I.py_none (some (exception x))
  progress (panicked p) c = ended I.py_none (some (panic_in_task (panic_message p I.panic_text)))

  -- A cancelled coroutine ends whatever it answers, unless it panics.
  pub cancel_progress : Answer V X T × C → Progress C V X T
  cancel_progress (panicked p, c) = stranded c
  cancel_progress (yielded y, c) = ended I.py_none (some task_cancelled)
  cancel_progress (stopped v, c) = ended I.py_none (some task_cancelled)
  cancel_progress (raised x, c) = ended I.py_none (some task_cancelled)

  pub drive_step : Input V X → Progress C V X T → Progress C V X T
  unfolding progress cancel_progress
  drive_step i (ended v e) = ended v e
  drive_step i (stranded c) = stranded c
  drive_step cancellation (live c) = cancel_progress (I.throw I.cancelled c)
  drive_step (resume r) (live c) = let (a, c') = give I r c in progress a c'

  -- The coroutine `c` after these inputs, the newest first.
  unfoldable pub drive : C → List (Input V X) → Progress C V X T
  unfolding drive_step
  drive c [] = live c
  drive c (i ∷ is) = drive_step i (drive c is)

  module _ {K : Type 0} (k : Option K) where
    -- A live coroutine has one continuation, a handle in the pool or a hook, and its done callback was
    -- not called; one that has ended has none, and the done callback was called once, with its end.
    abbrev pub Matches : Progress C V X T → CoroutineTask C V X T K → Type 0
    Matches (live c) s =
        (s.coro ≡ some c) × (s.queued + s.hooks ≡ 1) × (s.done_callback ≡ k) × (s.called ≡ [])
    Matches (ended v e) s =
        (s.coro ≡ none)
        × (s.queued + s.hooks ≡ 0)
        × (s.done_callback ≡ none)
        × (s.called ≡ elim k [ none ↦ [] | some cb ↦ (cb, v, e) ∷ [] ])
    Matches (stranded c) s =
        (s.coro ≡ some c) × (s.queued + s.hooks ≡ 0) × (s.done_callback ≡ k) × (s.called ≡ [])

    finish-Matches :
        (v : V) (e : Option (Failure X T)) (s : CoroutineTask C V X T K)
        → s.queued + s.hooks ≡ 0
        → s.done_callback ≡ k
        → s.called ≡ []
        → Matches (ended v e) (finish v e s)
    unfolding finish
    finish-Matches v e s n d h = (
      refl,
      n,
      refl,
      ap (λ l. elim s.done_callback [ none ↦ l | some cb ↦ (cb, v, e) ∷ l ]) h
          ∙ ap
              (λ o. elim o as (λ x. List (K × V × Option (Failure X T))) [
                | none ↦ []
                | some cb ↦ (cb, v, e) ∷ []
              ])
              d,
    )

    settle-Matches :
        (a : Answer V X T) (c : C) (s : CoroutineTask C V X T K)
        → s.coro ≡ some c
        → s.queued + s.hooks ≡ 0
        → s.done_callback ≡ k
        → s.called ≡ []
        → Matches (progress a c) (settle I a s)
    unfolding settle progress after_yield inject undrivable
    settle-Matches (stopped v) c s l n d h = finish-Matches (unwrap_or v I.py_none) none s n d h
    settle-Matches (raised x) c s l n d h = finish-Matches I.py_none (some (exception x)) s n d h
    settle-Matches (panicked p) c s l n d h =
        finish-Matches I.py_none (some (panic_in_task (panic_message p I.panic_text))) s n d h
    settle-Matches (yielded y) c s l n d h = elim (Bool-cases (hooked I y)) [
      | inl t ↦ rw (t) (l, omega (arith, n), d, h)
      | inr f ↦ rw (f) (elim (Bool-cases y.is_none) [
        | inl t ↦ rw (t) (l, omega (arith, n), d, h)
        | inr g ↦ rw (g) (finish-Matches I.py_none (some (undrivable I y)) s n d h)
      ])
    ]

    pub settle_given :
        (a : Answer V X T) (s : CoroutineTask C V X T K) → (settle I a s).given ≡ s.given
    unfolding settle after_yield inject finish
    settle_given (stopped v) s = refl
    settle_given (raised x) s = refl
    settle_given (panicked p) s = refl
    settle_given (yielded y) s = elim (Bool-cases (hooked I y)) [
      | inl t ↦ rw (t) refl
      | inr f ↦ rw (f) (elim (Bool-cases y.is_none) [ inl t ↦ rw (t) refl | inr g ↦ rw (g) refl ])
    ]

    abbrev pub Follows : C → CoroutineTask C V X T K → Type 0
    Follows c s = Matches (drive c s.given) s

    cancel_live-Matches :
        (a : Answer V X T × C) (s : CoroutineTask C V X T K)
        → s.queued + s.hooks ≡ 0
        → s.done_callback ≡ k
        → s.called ≡ []
        → Matches (cancel_progress a) (cancel_live I a s)
    unfolding cancel_live cancel_progress
    cancel_live-Matches (panicked p, c) s n d h = (refl, n, d, h)
    cancel_live-Matches (yielded y, c) s n d h =
        finish-Matches I.py_none (some task_cancelled) s n d h
    cancel_live-Matches (stopped v, c) s n d h =
        finish-Matches I.py_none (some task_cancelled) s n d h
    cancel_live-Matches (raised x, c) s n d h =
        finish-Matches I.py_none (some task_cancelled) s n d h

    cancel_live_given :
        (a : Answer V X T × C) (s : CoroutineTask C V X T K) → (cancel_live I a s).given ≡ s.given
    unfolding cancel_live finish
    cancel_live_given (panicked p, c) s = refl
    cancel_live_given (yielded y, c) s = refl
    cancel_live_given (stopped v, c) s = refl
    cancel_live_given (raised x, c) s = refl

    cancel_live-Follows :
        (c d : C) (s : CoroutineTask C V X T K)
        → drive c s.given ≡ live d
        → s.queued + s.hooks ≡ 0
        → s.done_callback ≡ k
        → s.called ≡ []
        → Follows c
            (cancel_live I (I.throw I.cancelled d) (record s { given = cancellation ∷ s.given }))
    unfolding drive drive_step
    cancel_live-Follows c d s e n q h =
        let a = I.throw I.cancelled d in
        let s' = record s { given = cancellation ∷ s.given } in
        subst (λ g. Matches (drive c g) (cancel_live I a s')) (sym (cancel_live_given a s'))
          (subst (λ p. Matches (drive_step cancellation p) (cancel_live I a s')) (sym e)
            (cancel_live-Matches a s' n q h))

    step_coroutine-Follows :
        (c d : C) (s : CoroutineTask C V X T K)
        → drive c s.given ≡ live d
        → s.queued + s.hooks ≡ 0
        → s.done_callback ≡ k
        → s.called ≡ []
        → Follows c (step_coroutine I d s)
    unfolding step_coroutine drive drive_step
    step_coroutine-Follows c d s e n q h =
        let r = give I s.pending_value d in
        let s' = record s {
          coro = some r.1;
          pending_value = none;
          given = resume s.pending_value ∷ s.given;
        } in
        subst (λ g. Matches (drive c g) (settle I r.0 s')) (sym (settle_given r.0 s'))
          (subst (λ p. Matches (drive_step (resume s.pending_value) p) (settle I r.0 s')) (sym e)
            (settle-Matches r.0 r.1 s' refl n q h))

    run_coroutine-Follows :
        (c d : C) (s : CoroutineTask C V X T K)
        → drive c s.given ≡ live d
        → s.coro ≡ some d
        → s.queued + s.hooks ≡ 0
        → s.done_callback ≡ k
        → s.called ≡ []
        → Follows c (run_coroutine I s)
    unfolding run_coroutine run_live
    run_coroutine-Follows c d s e l n q h =
        let dropped =
          cancel_live I (I.throw I.cancelled d) (record s { given = cancellation ∷ s.given }) in
        let branch = λ (b : Bool). Follows c (if b then dropped else step_coroutine I d s) in
        subst (Follows c) (sym (ap (λ o. elim o [ none ↦ s | some x ↦ run_live I x s ]) l))
          (elim (Bool-cases s.token) [
            | inl t ↦ subst branch (sym t) (cancel_live-Follows c d s e n q h)
            | inr f ↦ subst branch (sym f) (step_coroutine-Follows c d s e n q h)
          ])

    -- A task with the same coroutine, callback and traces, and as many continuations.
    same-Matches :
        (p : Progress C V X T) (s s' : CoroutineTask C V X T K)
        → s'.coro ≡ s.coro
        → s'.queued + s'.hooks ≡ s.queued + s.hooks
        → s'.done_callback ≡ s.done_callback
        → s'.called ≡ s.called
        → Matches p s
        → Matches p s'
    same-Matches (live d) s s' a b c e (x, y, z, w) = (a ∙ x, b ∙ y, c ∙ z, e ∙ w)
    same-Matches (ended v f) s s' a b c e (x, y, z, w) = (a ∙ x, b ∙ y, c ∙ z, e ∙ w)
    same-Matches (stranded d) s s' a b c e (x, y, z, w) = (a ∙ x, b ∙ y, c ∙ z, e ∙ w)

    take_handle-Follows :
        (n : ℕ) (c : C) (s : CoroutineTask C V X T K)
        → s.queued ≡ n
        → Follows c s
        → Follows c (take_handle I n s)
    unfolding take_handle
    take_handle-Follows zero c s q f = f
    take_handle-Follows (suc n) c s q f = elim (Progress-cases (drive c s.given)) [
      | inl (d, e) ↦
          let (x, y, z, w) = subst (λ p. Matches p s) e f in
          run_coroutine-Follows c d (record s { queued = n }) e x (omega arith) z w
      | inr (inl (v, g, e)) ↦
          let (x, y, z, w) = subst (λ p. Matches p s) e f in absurd (omega arith)
      | inr (inr (d, e)) ↦ let (x, y, z, w) = subst (λ p. Matches p s) e f in absurd (omega arith)
    ]

    pub step-Follows :
        (e : Event V X) (c : C) (s : CoroutineTask C V X T K) → Follows c s → Follows c (step I e s)
    unfolding step take_hook wake_fn inject
    step-Follows run_handle c s f = take_handle-Follows s.queued c s refl f
    step-Follows cancel c s f =
        same-Matches (drive c s.given) s (record s { token = true }) refl refl refl refl f
    step-Follows (call_hook a) c s f = hook s.hooks refl
      where
        hook : (n : ℕ) → s.hooks ≡ n → Follows c (take_hook I n a s)
        hook zero h = f
        hook (suc n) h =
            same-Matches (drive c s.given) s (wake_fn a (record s { hooks = n })) refl (omega arith)
              refl refl f

    pub run-Follows :
        (es : List (Event V X)) (c : C) (s : CoroutineTask C V X T K)
        → Follows c s
        → Follows c (run I es s)
    unfolding run
    run-Follows [] c s f = f
    run-Follows (e ∷ es) c s f = run-Follows es c (step I e s) (step-Follows e c s f)

    -- Whatever runs, calls of hooks and cancellations a spawned coroutine meets, it is where its inputs
    -- alone lead it. As long as it goes on it has exactly one handle in the pool or hook at a future,
    -- and its done callback was not called. Once it has ended it has neither, is dropped, and its done
    -- callback was called exactly once, with the value or the exception that it ended with. It is
    -- stranded exactly where it panics as the cancellation is thrown into it: then it is kept, it has
    -- neither handle nor hook, and its done callback is never called.
    pub spawn_coroutine-Follows :
        (c : C) (t : Option Bool) (es : List (Event V X))
        → Follows c (run I es (spawn_coroutine c k t))
    unfolding spawn_coroutine drive
    spawn_coroutine-Follows c t es =
        run-Follows es c (spawn_coroutine c k t) (refl, refl, refl, refl)
