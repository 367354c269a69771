-- ===== src/Pool/Order.antt =====
-- hypertile-core/src/worker.rs: in which order `find_task` looks for a task.
use hypertile.Base.{ℕ, ◌%◌, ◌≡◌, ◌≢◌, refl, none, some, Option, false, true, ap, ◌==◌, arith, ◌∙◌}
use hypertile.Pool.Crossbeam.{Crossbeam, Steal, success}
use hypertile.Pool.Local.{Ret, Pool, local_pop, steal_injector_into_local}
use hypertile.Pool.Worker.{
  WorkerHandle, or_else, once, injector_first, search_local, search_shared, search, find_task,
}

module _ {A : Type 0} {C : Crossbeam A} where
  -- What a search step that found a task gives, whatever comes next.
  or_else_found :
      (r : Ret (Option A) (Pool C)) (k : Pool C → Ret (Option A) (Pool C)) (a : A)
      → r.value ≡ some a
      → or_else r k ≡ record { value = some a; pool = r.pool }
  or_else_found r k a e = rw (e, or_else) refl

  once_found :
      (r : Ret (Steal A) (Pool C)) (a : A)
      → r.value ≡ success a
      → once r ≡ record { value = some a; pool = r.pool }
  once_found r a e = rw (e, once) refl

  skip_injector :
      (t tick : ℕ) (p : Pool C)
      → tick % 64 ≢ 0
      → injector_first t tick p ≡ record { value = none; pool = p }
  unfolding injector_first
  skip_injector t tick p n = let skip : (tick % 64 == 0) ≡ false = ground arith in rw (skip) refl

  look_injector :
      (t tick : ℕ) (p : Pool C)
      → tick % 64 ≡ 0
      → injector_first t tick p ≡ once (steal_injector_into_local t p)
  unfolding injector_first
  look_injector t tick p z = let look : (tick % 64 == 0) ≡ true = ground arith in rw (look) refl

  search_own :
      (t id tick : ℕ) (p : Pool C) (a : A)
      → tick % 64 ≢ 0
      → (local_pop t p).value ≡ some a
      → search t id tick p ≡ record { value = some a; pool = (local_pop t p).pool }
  unfolding search search_local
  search_own t id tick p a n e =
      ap (λ r. or_else r (search_local t id)) (skip_injector t tick p n)
      ∙ or_else_found (local_pop t p) (search_shared t id) a e

  search_injector :
      (t id tick : ℕ) (p : Pool C) (a : A)
      → tick % 64 ≡ 0
      → (steal_injector_into_local t p).value ≡ success a
      → search t id tick p ≡ record { value = some a; pool = (steal_injector_into_local t p).pool }
  unfolding search
  search_injector t id tick p a z e =
      ap (λ r. or_else r (search_local t id))
        (look_injector t tick p z ∙ once_found (steal_injector_into_local t p) a e)

module _ {A : Type 0} {C : Crossbeam A} (h : WorkerHandle) (t : ℕ) (p : Pool C) (a : A) where
  -- A search whose number is no multiple of 64 takes the next task of the thread's own deque, if
  -- there is one, and changes nothing beyond that deque's pop.
  find_task_local :
      h.tick % 64 ≢ 0
      → (local_pop t p).value ≡ some a
      → let r = find_task h t p in (r.task ≡ some a) × (r.pool ≡ (local_pop t p).pool)
  unfolding find_task
  find_task_local n e =
      let s = search_own t h.id h.tick p a n e in (ap (λ x. x.value) s, ap (λ x. x.pool) s)

  -- A search whose number is a multiple of 64 takes a task of the injector, if the steal succeeds,
  -- even though the thread's own deque may have tasks.
  find_task_injector :
      h.tick % 64 ≡ 0
      → (steal_injector_into_local t p).value ≡ success a
      → let r = find_task h t p in
        (r.task ≡ some a) × (r.pool ≡ (steal_injector_into_local t p).pool)
  unfolding find_task
  find_task_injector z e =
      let s = search_injector t h.id h.tick p a z e in (ap (λ x. x.value) s, ap (λ x. x.pool) s)
