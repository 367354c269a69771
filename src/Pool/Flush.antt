-- ===== src/Pool/Flush.antt =====
-- hypertile-core/src/worker.rs: what joining and leaving the pool does with queued tasks.
use hypertile.Base.{
  ℕ, zero, suc, ◌+◌, ◌<◌, length, none, some, ◌≡◌, refl, ap, ◌∙◌, Option, [], ◌∷◌, get_elem?, total,
  total-set, total-append, inl, inr, ◌==◌, Option-cases, Bool-cases, arith,
}
use hypertile.Registry.Defs.{WorkerKind, allocate_id, deregister}
use hypertile.Pool.Crossbeam.{Crossbeam, weigh_option, popped}
use hypertile.Pool.Local.{
  Ret, Pool, set_local_worker, take_any_local_worker, take_deque, take_local_worker, unpark_idle,
  inject, inject_rest, try_push_local, local_deque,
}
use hypertile.Pool.Worker.{flush, flush_taken, install, new_worker, drop_guard}
use hypertile.Pool.Conservation.{held, weigh, weigh-pop, inject-weigh}

module _ {A : Type 0} (C : Crossbeam A) (w : A → ℕ) where
  abbrev weigh_deque : Option C.Worker → ℕ
  weigh_deque none = 0
  weigh_deque (some d) = held C w d

  -- A deque that is flushed with enough fuel leaves all its tasks in the pool.
  flush-weigh :
      (fuel t : ℕ) (d : C.Worker) (p : Pool C)
      → length (C.items d) < fuel
      → weigh C w (flush fuel t d p) ≡ weigh C w p + held C w d
  unfolding flush total
  flush-weigh zero t d p l = absurd (omega arith)
  flush-weigh (suc fuel) t d p l = elim (Option-cases (C.pop d).0) [
    | inl o ↦ rw (o, flush) (omega (arith, ap (total w) (C.pop-none d o)))
    | inr (a, o) ↦
        rw (o, flush)
          (omega (
            arith,
            flush-weigh fuel t (C.pop d).1 (inject t a p) (
                omega (
                  arith,
                  ap length (C.items-pop d),
                  ap (λ x. length (popped x (C.items (C.pop d).1))) o,
                )),
            inject-weigh C w t a p,
            weigh-pop C w d,
            ap (weigh_option w) o,
          ))
  ]

  flush_taken-weigh :
      (t : ℕ) (r : Ret (Option C.Worker) (Pool C))
      → weigh C w (flush_taken t r) ≡ weigh C w r.pool + weigh_deque r.value
  unfolding total
  flush_taken-weigh t r = elim (Option-cases r.value) [
    | inl e ↦ rw e (omega arith)
    | inr (d, e) ↦ rw e (flush-weigh (suc (length (C.items d))) t d r.pool (omega arith))
  ]

  take_deque-weigh :
      (t addr : ℕ) (p : Pool C)
      → let r = take_deque t addr p in weigh C w r.pool + weigh_deque r.value ≡ weigh C w p
  unfolding take_deque total
  take_deque-weigh t addr p = elim (Option-cases (get_elem? p.heap addr)) [
    | inl e ↦ rw (e, take_deque) (omega arith)
    | inr (d, e) ↦
        rw (e, take_deque)
          (omega
            (arith, total-set (held C w) p.heap addr d C.new_fifo e, ap (total w) C.items-new_fifo))
  ]

  take_any-weigh :
      (t : ℕ) (p : Pool C)
      → let r = take_any_local_worker t p in weigh C w r.pool + weigh_deque r.value ≡ weigh C w p
  unfolding take_any_local_worker
  take_any-weigh t p = elim (Option-cases (p.local t)) [
    | inl e ↦ rw (e, take_any_local_worker) (omega arith)
    | inr ((id, addr), e) ↦ rw (e, take_any_local_worker) (take_deque-weigh t addr p)
  ]

  take-weigh :
      (t id : ℕ) (p : Pool C)
      → let r = take_local_worker t id p in weigh C w r.pool + weigh_deque r.value ≡ weigh C w p
  unfolding take_local_worker
  take-weigh t id p = elim (Option-cases (p.local t)) [
    | inl e ↦ rw (e, take_local_worker) (omega arith)
    | inr ((owner, addr), e) ↦ elim (Bool-cases (owner == id)) [
      | inl b ↦ rw (e, b, take_local_worker) (take_deque-weigh t addr p)
      | inr b ↦ rw (e, b, take_local_worker) (omega arith)
    ]
  ]

  try_push_local-local : (t : ℕ) (a : A) (p : Pool C) → (try_push_local t a p).pool.local ≡ p.local
  unfolding try_push_local
  try_push_local-local t a p = elim (Option-cases (local_deque t p)) [
    | inl e ↦ rw (e, try_push_local) refl
    | inr (d, e) ↦ rw (e, try_push_local) refl
  ]

  inject_rest-local : (r : Ret (Option A) (Pool C)) → (inject_rest r).local ≡ r.pool.local
  unfolding inject_rest unpark_idle
  inject_rest-local r = elim (Option-cases r.value) [
    | inl e ↦ rw (e, inject_rest) refl
    | inr (a, e) ↦ rw (e, inject_rest) refl
  ]

  inject-local : (t : ℕ) (a : A) (p : Pool C) → (inject t a p).local ≡ p.local
  unfolding inject
  inject-local t a p = inject_rest-local (try_push_local t a p) ∙ try_push_local-local t a p

  flush-local : (fuel t : ℕ) (d : C.Worker) (p : Pool C) → (flush fuel t d p).local ≡ p.local
  unfolding flush
  flush-local zero t d p = refl
  flush-local (suc fuel) t d p = elim (Option-cases (C.pop d).0) [
    | inl o ↦ rw (o, flush) refl
    | inr (a, o) ↦
        rw (o, flush) (flush-local fuel t (C.pop d).1 (inject t a p) ∙ inject-local t a p)
  ]

  flush_taken-local :
      (t : ℕ) (r : Ret (Option C.Worker) (Pool C)) → (flush_taken t r).local ≡ r.pool.local
  flush_taken-local t r = elim (Option-cases r.value) [
    | inl e ↦ rw e refl
    | inr (d, e) ↦ rw e (flush-local (suc (length (C.items d))) t d r.pool)
  ]

  -- The slot is empty afterwards.
  take_any-local : (t : ℕ) (p : Pool C) → (take_any_local_worker t p).pool.local t ≡ none
  unfolding take_any_local_worker take_deque
  take_any-local t p = ground arith

  -- The new deque is empty, and there is none that it displaces.
  install-weigh :
      (t id : ℕ) (kind : WorkerKind) (p : Pool C)
      → p.local t ≡ none
      → weigh C w (install t id kind p) ≡ weigh C w p
  unfolding install set_local_worker total
  install-weigh t id kind p e = rw (e) (
      omega
        (arith, total-append (held C w) p.heap (C.new_fifo ∷ []), ap (total w) C.items-new_fifo))

  -- Under any weight of the tasks, a thread that joins the pool, also one that was a worker already,
  -- leaves what the pool holds unchanged.
  pub new_worker-weigh :
      (t : ℕ) (kind : WorkerKind) (p : Pool C) → weigh C w (new_worker t kind p).pool ≡ weigh C w p
  unfolding new_worker
  new_worker-weigh t kind p =
      let q = record p { registry = (allocate_id p.registry).0 } in
      let r = take_any_local_worker t q in
      let left = ap (λ l. l t) (flush_taken-local t r) ∙ take_any-local t q in
      install-weigh t (allocate_id p.registry).1 kind (flush_taken t r) left
      ∙ (flush_taken-weigh t r ∙ take_any-weigh t q)

  -- Under any weight of the tasks, a worker that leaves the pool leaves what the pool holds
  -- unchanged.
  pub drop_guard-weigh : (t id : ℕ) (p : Pool C) → weigh C w (drop_guard t id p) ≡ weigh C w p
  unfolding drop_guard unpark_idle
  drop_guard-weigh t id p =
      flush_taken-weigh t
        (take_local_worker t id (record p { registry = deregister id p.registry }))
      ∙ take-weigh t id (record p { registry = deregister id p.registry })
