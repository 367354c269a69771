-- ===== src/Pool/Conservation.antt =====
-- hypertile-core/src/executor.rs, waker.rs and worker.rs: no method loses or doubles a task.
use hypertile.Base.{
  ℕ, zero, suc, ◌+◌, ◌%◌, ◌≡◌, refl, Bool, true, false, Option, none, some, List, [], ◌∷◌, length,
  get_elem?, get_elem?-set_ne, set, inl, inr, ap, ◌∙◌, total, total-set, total-append, Option-cases,
  Bool-cases, ltb, ◌==◌, arith,
}
use hypertile.Registry.Defs.{get_stealers}
use hypertile.Pool.Crossbeam.{Crossbeam, Steal, weigh_option, weigh_steal, popped}
use hypertile.Pool.Local.{
  Ret, Pool, local_deque, try_push_local, local_pop, steal_injector_into_local, steal_into_local,
  inject_rest, inject,
}
use hypertile.Pool.Worker.{
  WorkerHandle, or_else, once, twice, try_peer, steal_peers, peers, injector_first, search_shared,
  search_local, search, set_rng, fast_rand, find_task,
}

module _ {A : Type 0} (C : Crossbeam A) (w : A → ℕ) where
  -- What the injector and all deques hold, by the weight `w` of a task.
  abbrev pub held : C.Worker → ℕ
  held d = total w (C.items d)

  abbrev pub weigh : Pool C → ℕ
  weigh p = total w (C.waiting p.injector) + total held p.heap

  weigh-push : (a : A) (d : C.Worker) → held (C.push a d) ≡ held d + w a
  unfolding total
  weigh-push a d = rw (C.items-push a d) (omega (arith, total-append w (C.items d) (a ∷ [])))

  weigh-inject :
      (a : A) (q : C.Injector) → total w (C.waiting (C.inject a q)) ≡ total w (C.waiting q) + w a
  unfolding total
  weigh-inject a q =
      rw (C.waiting-inject a q) (omega (arith, total-append w (C.waiting q) (a ∷ [])))

  weigh-popped :
      (o : Option A) (xs : List A) → total w (popped o xs) ≡ weigh_option w o + total w xs
  unfolding total
  weigh-popped none xs = omega arith
  weigh-popped (some a) xs = refl

  pub weigh-pop : (d : C.Worker) → held d ≡ weigh_option w (C.pop d).0 + held (C.pop d).1
  weigh-pop d = ap (total w) (C.items-pop d) ∙ weigh-popped (C.pop d).0 (C.items (C.pop d).1)

  -- A deque that a thread owns stands at its address.
  local_deque_lem :
      (t addr : ℕ) (d : C.Worker) (p : Pool C)
      → local_deque t p ≡ some (addr, d)
      → get_elem? p.heap addr ≡ some d
  unfolding local_deque
  local_deque_lem t addr d p h = ground arith

  pub try_push_local-weigh :
      (t : ℕ) (a : A) (p : Pool C)
      → weigh (try_push_local t a p).pool + weigh_option w (try_push_local t a p).value
        ≡ weigh p + w a
  unfolding try_push_local
  try_push_local-weigh t a p = elim (Option-cases (local_deque t p)) [
    | inl e ↦ rw (e, try_push_local) refl
    | inr ((addr, d), e) ↦
        rw (e, try_push_local)
          (omega (
            arith,
            total-set held p.heap addr d (C.push a d) (local_deque_lem t addr d p e),
            weigh-push a d,
          ))
  ]

  pub local_pop-weigh :
      (t : ℕ) (p : Pool C)
      → weigh p ≡ weigh_option w (local_pop t p).value + weigh (local_pop t p).pool
  unfolding local_pop
  local_pop-weigh t p = elim (Option-cases (local_deque t p)) [
    | inl e ↦ rw (e, local_pop) (omega arith)
    | inr ((addr, d), e) ↦
        rw (e, local_pop)
          (omega (
            arith,
            total-set held p.heap addr d (C.pop d).1 (local_deque_lem t addr d p e),
            weigh-pop d,
          ))
  ]

  pub steal_injector_into_local-weigh :
      (t : ℕ) (p : Pool C)
      → let r = steal_injector_into_local t p in weigh p ≡ weigh_steal w r.value + weigh r.pool
  unfolding steal_injector_into_local
  steal_injector_into_local-weigh t p = elim (Option-cases (local_deque t p)) [
    | inl e ↦ rw (e, steal_injector_into_local) (omega (arith, C.injector_steal-total w p.injector))
    | inr ((addr, d), e) ↦
        rw (e, steal_injector_into_local)
          (omega (
            arith,
            C.injector_steal_batch-total w p.injector d,
            total-set held p.heap addr d (C.injector_steal_batch p.injector d).2
                (local_deque_lem t addr d p e),
          ))
  ]

  steal_owned-weigh :
      (t victim addr : ℕ) (v d : C.Worker) (p : Pool C)
      → get_elem? p.heap victim ≡ some v
      → local_deque t p ≡ some (addr, d)
      → (b : Bool) → (addr == victim) ≡ b
      → let r = steal_into_local t victim p in weigh p ≡ weigh_steal w r.value + weigh r.pool
  unfolding steal_into_local
  steal_owned-weigh t victim addr v d p e o true b =
      rw (e, o, b, steal_into_local)
        (omega (
          arith,
          C.steal_batch_self-total w d,
          total-set held p.heap addr d (C.steal_batch_self d).1 (local_deque_lem t addr d p o),
        ))
  steal_owned-weigh t victim addr v d p e o false b =
      rw (e, o, b, steal_into_local)
        (omega (
          arith,
          C.steal_batch-total w v d,
          total-set held p.heap victim v (C.steal_batch v d).1 e,
          total-set held (set p.heap victim (C.steal_batch v d).1) addr d (C.steal_batch v d).2 (
              get_elem?-set_ne p.heap (C.steal_batch v d).1 (ground arith)
              ∙ local_deque_lem t addr d p o),
        ))

  pub steal_into_local-weigh :
      (t victim : ℕ) (p : Pool C)
      → let r = steal_into_local t victim p in weigh p ≡ weigh_steal w r.value + weigh r.pool
  unfolding steal_into_local
  steal_into_local-weigh t victim p = elim (Option-cases (get_elem? p.heap victim)) [
    | inl e ↦ rw (e, steal_into_local) (omega arith)
    | inr (v, e) ↦ elim (Option-cases (local_deque t p)) [
      | inl o ↦
          rw (e, o, steal_into_local)
            (omega (arith, C.steal-total w v, total-set held p.heap victim v (C.steal v).1 e))
      | inr ((addr, d), o) ↦ steal_owned-weigh t victim addr v d p e o (addr == victim) refl
    ]
  ]

  inject_rest-weigh :
      (r : Ret (Option A) (Pool C)) → weigh (inject_rest r) ≡ weigh r.pool + weigh_option w r.value
  unfolding inject_rest
  inject_rest-weigh r = elim (Option-cases r.value) [
    | inl e ↦ rw (e, inject_rest) (omega arith)
    | inr (a, e) ↦ rw (e, inject_rest) (omega (arith, weigh-inject a r.pool.injector))
  ]

  -- Injection adds the task, and no other.
  pub inject-weigh : (t : ℕ) (a : A) (p : Pool C) → weigh (inject t a p) ≡ weigh p + w a
  unfolding inject
  inject-weigh t a p =
      omega (arith, inject_rest-weigh (try_push_local t a p), try_push_local-weigh t a p)

  -- `r` found a task in `p` or found none, and the rest is left.
  abbrev pub Finds : Pool C → Ret (Option A) (Pool C) → Type 0
  Finds p r = weigh p ≡ weigh_option w r.value + weigh r.pool

  pub or_else-Finds :
      (p : Pool C) (r : Ret (Option A) (Pool C)) (k : Pool C → Ret (Option A) (Pool C))
      → Finds p r
      → ((q : Pool C) → Finds q (k q))
      → Finds p (or_else r k)
  or_else-Finds p r k h hk = elim (Option-cases r.value) [
    | inl e ↦ rw e (omega (arith, ap (weigh_option w) e, hk r.pool))
    | inr (a, e) ↦ rw e (omega (arith, ap (weigh_option w) e))
  ]

  Steals : Pool C → Ret (Steal A) (Pool C) → Type 0
  Steals p r = weigh p ≡ weigh_steal w r.value + weigh r.pool

  once-Finds : (p : Pool C) (r : Ret (Steal A) (Pool C)) → Steals p r → Finds p (once r)
  unfolding Steals
  once-Finds p r h = ground arith

  twice-Finds :
      (p : Pool C) (r : Ret (Steal A) (Pool C)) (again : Pool C → Ret (Steal A) (Pool C))
      → Steals p r
      → ((q : Pool C) → Steals q (again q))
      → Finds p (twice r again)
  unfolding Steals
  twice-Finds p r again h ha = ground (arith, ha r.pool)

  try_peer-Finds :
      (t id : ℕ) (o : Option (ℕ × ℕ)) (rest : Pool C → Ret (Option A) (Pool C)) (p : Pool C)
      → ((q : Pool C) → Finds q (rest q))
      → Finds p (try_peer t id o rest p)
  unfolding try_peer Steals
  try_peer-Finds t id none rest p h = h p
  try_peer-Finds t id (some (peer, addr)) rest p h = elim (Bool-cases (peer == id)) [
    | inl e ↦ rw (e, try_peer) (h p)
    | inr e ↦
        rw (e, try_peer)
          (or_else-Finds p (twice (steal_into_local t addr p) (steal_into_local t addr)) rest
            (twice-Finds p (steal_into_local t addr p) (steal_into_local t addr)
              (steal_into_local-weigh t addr p) (steal_into_local-weigh t addr))
            h)
  ]

  steal_peers-Finds :
      (t id : ℕ) (ss : List (ℕ × ℕ)) (start n i : ℕ) (p : Pool C)
      → Finds p (steal_peers t id ss start n i p)
  unfolding steal_peers
  steal_peers-Finds t id ss start zero i p = omega arith
  steal_peers-Finds t id ss start (suc n) i p =
      try_peer-Finds t id (get_elem? ss ((start + i) % length ss))
        (steal_peers t id ss start n (i + 1)) p (steal_peers-Finds t id ss start n (i + 1))

  peers-Finds : (t id : ℕ) (p : Pool C) → Finds p (peers t id p)
  unfolding peers
  peers-Finds t id p = elim (Bool-cases (ltb 1 (length (get_stealers p.registry)))) [
    | inl e ↦ rw e (
        steal_peers-Finds t id (get_stealers p.registry) _ (length (get_stealers p.registry)) 0
          (set_rng t (fast_rand id (p.rng t)).0 p))
    | inr e ↦ rw e (omega arith)
  ]

  injector_first-Finds : (t tick : ℕ) (p : Pool C) → Finds p (injector_first t tick p)
  unfolding injector_first Steals
  injector_first-Finds t tick p =
      ground
        (arith, once-Finds p (steal_injector_into_local t p) (steal_injector_into_local-weigh t p))

  search_shared-Finds : (t id : ℕ) (p : Pool C) → Finds p (search_shared t id p)
  unfolding search_shared Steals
  search_shared-Finds t id p =
      or_else-Finds p (twice (steal_injector_into_local t p) (steal_injector_into_local t))
        (peers t id)
        (twice-Finds p (steal_injector_into_local t p) (steal_injector_into_local t)
          (steal_injector_into_local-weigh t p) (steal_injector_into_local-weigh t))
        (peers-Finds t id)

  search_local-Finds : (t id : ℕ) (p : Pool C) → Finds p (search_local t id p)
  unfolding search_local
  search_local-Finds t id p =
      or_else-Finds p (local_pop t p) (search_shared t id) (local_pop-weigh t p)
        (search_shared-Finds t id)

  search-Finds : (t id tick : ℕ) (p : Pool C) → Finds p (search t id tick p)
  unfolding search
  search-Finds t id tick p =
      or_else-Finds p (injector_first t tick p) (search_local t id) (injector_first-Finds t tick p)
        (search_local-Finds t id)

  -- Under any weight of the tasks, the task that `find_task` returns, if any, and what the pool then
  -- holds add up to what the pool held: no task is lost or doubled, by whatever batch was stolen.
  pub find_task-weigh :
      (h : WorkerHandle) (t : ℕ) (p : Pool C)
      → let r = find_task h t p in weigh p ≡ weigh_option w r.task + weigh r.pool
  unfolding find_task
  find_task-weigh h t p = search-Finds t h.id h.tick p
