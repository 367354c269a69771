-- ===== src/Runtime/Ending.antt =====
-- hypertile-core/src/runtime.rs: the end of a runtime, and what `spawn_local` adds to `spawn`.
use hypertile.Base.{
  ℕ, zero, suc, ◌+◌, ◌*◌, ◌≤◌, ◌<◌, ◌≡◌, ◌⊎◌, refl, sym, ap, ◌∙◌, subst, inl, inr, true, false,
  ◌&&◌, Option, none, some, List, [], ◌∷◌, ◌++◌, lt_or_ge, eq_or_ne, ltb, lt→ltb, ◌==◌,
  if◌then◌else◌, arith,
}
use mathlib.Core.List.{append-nil}
use hypertile.Registry.Defs.{contains, retain_other}
use hypertile.Registry.Lookup.{contains-retain_other}
use hypertile.Pool.Crossbeam.{Crossbeam}
use hypertile.Pool.Local.{
  Ret, Pool, put, try_push_local, local_deque, inject, inject_rest, set_running,
}
use hypertile.Timer.Driver.{TimerDriver, shutdown_timer}
use hypertile.Runtime.Shutdown.{
  wait_workers, Runtime, spawn, spawn_local, inject_returned, request_shutdown, shutdown, shutdowns,
  stopped, shutdown_with_timeout,
}

-- What a round read when the wait went on, and when it ended.
abbrev pub GoesOn : (ℕ → ℕ) → (ℕ → ℕ) → ℕ → ℕ → Type 0
GoesOn active clock deadline i = (0 < active i) × (clock i < deadline)

abbrev pub Ends : (ℕ → ℕ) → (ℕ → ℕ) → ℕ → ℕ → Type 0
Ends active clock deadline i = (active i ≡ 0) ⊎ (deadline ≤ clock i)

-- The wait ends after the round `i`, not before, and by the round `last`.
abbrev pub EndsFirst : (ℕ → ℕ) → (ℕ → ℕ) → ℕ → ℕ → ℕ → ℕ → Type 0
EndsFirst active clock deadline first last i =
    (i ≤ last)
    × Ends active clock deadline i
    × ((j : ℕ) → first ≤ j → j < i → GoesOn active clock deadline j)

module _ (active clock : ℕ → ℕ) (deadline : ℕ) where
  round_cases : (i : ℕ) → GoesOn active clock deadline i ⊎ Ends active clock deadline i
  round_cases i = elim (lt_or_ge 0 (active i)) [
    | inl a ↦ elim (lt_or_ge (clock i) deadline) [ inl c ↦ inl (a, c) | inr c ↦ inr (inr c) ]
    | inr a ↦ inr (inl (omega arith))
  ]

  GoesOn-test :
      (i : ℕ) → GoesOn active clock deadline i → (ltb 0 (active i) && ltb (clock i) deadline) ≡ true
  GoesOn-test i (a, c) = rw (lt→ltb 0 (active i) a, lt→ltb (clock i) deadline c) refl

  Ends-test :
      (i : ℕ) → Ends active clock deadline i → (ltb 0 (active i) && ltb (clock i) deadline) ≡ false
  Ends-test i e = ground arith

  wait_workers-Ends :
      (n i : ℕ)
      → Ends active clock deadline i
      → wait_workers active clock deadline (suc n) i ≡ some i
  unfolding wait_workers
  wait_workers-Ends n i e =
      ap (λ b. if b then wait_workers active clock deadline n (suc i) else some i) (Ends-test i e)

  wait_workers-GoesOn :
      (n i : ℕ)
      → GoesOn active clock deadline i
      → wait_workers active clock deadline (suc n) i ≡ wait_workers active clock deadline n (suc i)
  unfolding wait_workers
  wait_workers-GoesOn n i g =
      ap (λ b. if b then wait_workers active clock deadline n (suc i) else some i) (GoesOn-test i g)

  Ends-EndsFirst :
      (n i : ℕ)
      → Ends active clock deadline i
      → (k : ℕ) × (wait_workers active clock deadline (suc n) i ≡ some k)
        × EndsFirst active clock deadline i (i + n) k
  Ends-EndsFirst n i e =
      (i, wait_workers-Ends n i e, (omega arith, e, λ j l u. absurd (omega arith)))

  before_next :
      (i k : ℕ)
      → GoesOn active clock deadline i
      → ((j : ℕ) → suc i ≤ j → j < k → GoesOn active clock deadline j)
      → (j : ℕ) → i ≤ j
      → j < k
      → GoesOn active clock deadline j
  before_next i k g f j l u = elim (eq_or_ne i j) [
    | inl e ↦ subst (GoesOn active clock deadline) e g
    | inr n ↦ f j (omega arith) u
  ]

  -- The clock goes on by a millisecond in every round.
  module _ (ticks : (i : ℕ) → clock i + 1000000 ≤ clock (suc i)) where
    wait_workers-EndsFirst :
        (n i : ℕ)
        → deadline ≤ clock i + n * 1000000
        → (k : ℕ) × (wait_workers active clock deadline (suc n) i ≡ some k)
          × EndsFirst active clock deadline i (i + n) k
    wait_workers-EndsFirst zero i d = Ends-EndsFirst zero i (inr (omega arith))
    wait_workers-EndsFirst (suc n) i d = elim (round_cases i) [
      | inr e ↦ Ends-EndsFirst (suc n) i e
      | inl g ↦
          let next : deadline ≤ clock (suc i) + n * 1000000 = omega (arith, ticks i) in
          let (k, w, (b, e, f)) = wait_workers-EndsFirst n (suc i) next in
          (k, wait_workers-GoesOn (suc n) i g ∙ w, (omega (arith, b), e, before_next i k g f))
    ]

module _ {A : Type 0} {C : Crossbeam A} where
  -- If the clock goes on by a millisecond in every round, and the timeout has no more than `last`
  -- milliseconds, `shutdown_with_timeout` returns: it asks the pool to stop, shuts the timer down, and
  -- waits for the first of its rounds in which no worker is active or the timeout is over, which is at
  -- most the round `last`.
  pub shutdown_with_timeout_returns :
      (active clock : ℕ → ℕ) (timeout last : ℕ) (rt : Runtime C) (timer : Option TimerDriver)
      → ((i : ℕ) → clock i + 1000000 ≤ clock (suc i))
      → timeout ≤ last * 1000000
      → (i : ℕ) × (shutdown_with_timeout active clock (suc last) (clock 0) timeout (some rt) timer
          ≡ some (record {
            alive = active (suc i);
            runtime = some (request_shutdown rt);
            timer = shutdown_timer timer;
          }))
        × EndsFirst active clock (clock 0 + timeout) 0 last i
  unfolding shutdown_with_timeout stopped
  shutdown_with_timeout_returns active clock timeout last rt timer ticks l =
      let deadline = clock 0 + timeout in
      let (i, w, (b, e, f)) =
        wait_workers-EndsFirst active clock deadline ticks last 0 (omega arith) in
      (
        i,
        ap (stopped active (request_shutdown rt) (shutdown_timer timer)) w,
        (omega (arith, b), e, f),
      )

  shutdowns-nothing :
      (cs : List ℕ) (rt : Runtime C) → rt.worker_threads ≡ [] → (shutdowns cs rt).value ≡ []
  unfolding shutdowns shutdown retain_other
  shutdowns-nothing [] rt e = refl
  shutdowns-nothing (c ∷ cs) rt e =
      ap (λ ts. retain_other c ts ++ (shutdowns cs (shutdown c rt).pool).value) e
      ∙ shutdowns-nothing cs (shutdown c rt).pool refl

  shutdowns-left :
      (cs : List ℕ) (rt : Runtime C)
      → rt.worker_threads ≡ []
      → rt.core.running ≡ false
      → ((shutdowns cs rt).pool.worker_threads ≡ []) × ((shutdowns cs rt).pool.core.running ≡ false)
  unfolding shutdowns shutdown set_running
  shutdowns-left [] rt e r = (e, r)
  shutdowns-left (c ∷ cs) rt e r = shutdowns-left cs (shutdown c rt).pool refl refl

  -- However often `Runtime::shutdown` is called, and from which threads, the calls join the workers'
  -- threads that the runtime still had, each as often as it had it, but for the thread of the first
  -- call, which no call joins; no thread is left to join, and the pool is stopped.
  pub shutdowns-joins :
      (c : ℕ) (cs : List ℕ) (rt : Runtime C)
      → let r = shutdowns (c ∷ cs) rt in
        (r.value ≡ retain_other c rt.worker_threads)
        × ((j : ℕ) → contains r.value j ≡ (if c == j then false else contains rt.worker_threads j))
        × (r.pool.worker_threads ≡ [])
        × (r.pool.core.running ≡ false)
  unfolding shutdowns shutdown set_running
  shutdowns-joins c cs rt =
      let joined : (shutdowns (c ∷ cs) rt).value ≡ retain_other c rt.worker_threads =
        ap (λ ts. retain_other c rt.worker_threads ++ ts)
          (shutdowns-nothing cs (shutdown c rt).pool refl)
        ∙ append-nil (retain_other c rt.worker_threads) in
      let (e, r) = shutdowns-left cs (shutdown c rt).pool refl refl in
      (
        joined,
        λ j. ap (λ ts. contains ts j) joined ∙ contains-retain_other c j rt.worker_threads,
        e,
        r,
      )

  -- What `try_push_local` does, by the deque of the thread.
  abbrev tried : A → Pool C → Option (ℕ × C.Worker) → Ret (Option A) (Pool C)
  tried handle p none = record { value = some handle; pool = p }
  tried handle p (some (addr, d)) = record { value = none; pool = put addr (C.push handle d) p }

  tried_lem :
      (handle : A) (p : Pool C) (o : Option (ℕ × C.Worker))
      → (elim o [
        | none ↦ record { value = some handle; pool = p }
        | some (addr, d) ↦ record { value = none; pool = put addr (C.push handle d) p }
      ])
        ≡ tried handle p o
  tried_lem handle p none = refl
  tried_lem handle p (some (addr, d)) = refl

  tried-inject :
      (t : ℕ) (handle : A) (p : Pool C) (o : Option (ℕ × C.Worker))
      → try_push_local t handle p ≡ tried handle p o
      → inject_returned t (tried handle p o).value (tried handle p o).pool ≡ inject t handle p
  unfolding inject inject_rest
  tried-inject t handle p none e = refl
  tried-inject t handle p (some (addr, d)) e = sym (ap inject_rest e)

  -- `spawn_local` does to the pool what `spawn` does.
  pub spawn_local-spawn :
      (t : ℕ) (handle : A) (p : Pool C) → spawn_local t handle p ≡ spawn t handle p
  unfolding spawn_local spawn try_push_local
  spawn_local-spawn t handle p =
      let e : try_push_local t handle p ≡ tried handle p (local_deque t p) =
        tried_lem handle p (local_deque t p) in
      ap (λ (r : Ret (Option A) (Pool C)). inject_returned t r.value r.pool) e
      ∙ tried-inject t handle p (local_deque t p) e
