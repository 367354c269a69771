-- ===== src/Capi/Registration.antt =====
-- hypertile-capi/src/lib.rs: registering and deregistering threads loses no task.
use hypertile.Base.{ℕ, ◌≡◌, ◌≢◌, refl, ap, ◌∙◌, Option, none, some, List, [], ◌∷◌, arith}
use hypertile.Registry.Defs.{native}
use hypertile.Pool.Crossbeam.{Crossbeam}
use hypertile.Pool.Local.{Pool, set_local_worker}
use hypertile.Pool.Worker.{WorkerHandle, new_worker, install}
use hypertile.Pool.Conservation.{weigh}
use hypertile.Pool.Flush.{new_worker-weigh, drop_guard-weigh}
use hypertile.Pool.Leave.{drop_guard_stale}
use hypertile.Capi.Worker.{
  Threads, put_worker, drop_worker, register_worker, deregister_worker, deregister_from, Call,
  registering, deregistering, run,
}

module _ {A : Type 0} (C : Crossbeam A) where
  drop_worker-weigh :
      (w : A → ℕ) (t : ℕ) (o : Option WorkerHandle) (s : Threads C)
      → weigh C w (drop_worker t o s).pool ≡ weigh C w s.pool
  unfolding drop_worker
  drop_worker-weigh w t none s = refl
  drop_worker-weigh w t (some h) s = drop_guard-weigh C w t h.id s.pool

  register_worker-weigh :
      (w : A → ℕ) (t : ℕ) (s : Threads C)
      → weigh C w (register_worker t s).0.pool ≡ weigh C w s.pool
  unfolding register_worker
  register_worker-weigh w t s =
      drop_worker-weigh w t (s.workers t) _ ∙ new_worker-weigh C w t native s.pool

  deregister_from-weigh :
      (w : A → ℕ) (t : ℕ) (o : Option WorkerHandle) (s : Threads C)
      → weigh C w (deregister_from t o s).0.pool ≡ weigh C w s.pool
  unfolding deregister_from
  deregister_from-weigh w t none s = refl
  deregister_from-weigh w t (some h) s = drop_worker-weigh w t (some h) (put_worker t none s)

  deregister_worker-weigh :
      (w : A → ℕ) (t : ℕ) (s : Threads C)
      → weigh C w (deregister_worker t s).0.pool ≡ weigh C w s.pool
  unfolding deregister_worker
  deregister_worker-weigh w t s = deregister_from-weigh w t (s.workers t) s

  -- However threads register and deregister, each any number of times, the tasks in the queues of the
  -- pool keep their total weight, for any weight: none is lost and none is doubled.
  pub run-weigh :
      (w : A → ℕ) (cs : List Call) (s : Threads C) → weigh C w (run cs s).pool ≡ weigh C w s.pool
  unfolding run
  run-weigh w [] s = refl
  run-weigh w (registering t ∷ cs) s =
      run-weigh w cs (register_worker t s).0 ∙ register_worker-weigh w t s
  run-weigh w (deregistering t ∷ cs) s =
      run-weigh w cs (deregister_worker t s).0 ∙ deregister_worker-weigh w t s

  set_local_worker-local :
      (t id addr : ℕ) (p : Pool C) → (set_local_worker t id addr p).local t ≡ some (id, addr)
  unfolding set_local_worker
  set_local_worker-local t id addr p = ground arith

  -- A new worker owns the deque of its thread.
  new_worker-local :
      (t : ℕ) (p : Pool C)
      → (addr : ℕ) × ((new_worker t native p).pool.local t
          ≡ some ((new_worker t native p).value.id, addr))
  unfolding new_worker install
  new_worker-local t p = (_, set_local_worker-local t _ _ _)

  -- On a thread that has a worker, registering again drops that one, and the thread's deque is the new
  -- worker's, if their ids differ.
  register_worker-local :
      (t : ℕ) (h : WorkerHandle) (s : Threads C)
      → s.workers t ≡ some h
      → (new_worker t native s.pool).value.id ≢ h.id
      → let (s', id) = register_worker t s in (addr : ℕ) × (s'.pool.local t ≡ some (id, addr))
  unfolding register_worker drop_worker
  register_worker-local t h s e n =
      let (addr, l) = new_worker-local t s.pool in
      let stale = drop_guard_stale C t h.id _ addr (new_worker t native s.pool).pool l n in
      (addr, rw (e) (ap (λ f. f t) stale.2 ∙ l))
