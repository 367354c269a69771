-- ===== src/Pool/Worker.antt =====
-- hypertile-core/src/worker.rs: how a worker finds a task, and how it joins and leaves the pool.
use Prim.Native.Nat.{bit_xor}
use hypertile.Base.{
  ℕ, zero, suc, ◌+◌, ◌*◌, ◌/◌, ◌%◌, ◌^◌, Option, none, some, List, [], ◌∷◌, ◌++◌, length, get_elem?,
  ltb, ◌==◌, if◌then◌else◌,
}
use hypertile.Registry.Defs.{
  WorkerKind, allocate_id, register, deregister, get_stealers, word, fetch_add,
}
use hypertile.Pool.Crossbeam.{Crossbeam, Steal, empty, retry, success}
use hypertile.Pool.Local.{
  Ret, Pool, set_local_worker, take_any_local_worker, take_local_worker, local_pop,
  steal_injector_into_local, steal_into_local, unpark_idle, inject,
}

-- `fast_rand`: SplitMix64 over the state of the thread, seeded from the worker's id.
abbrev golden : ℕ
golden = 0x9e37_79b9_7f4a_7c15

seed : ℕ → ℕ
seed id =
    let s = word (word (id + golden) * 0xbf58_476d_1ce4_e5b9) in
    if s == 0 then 0x853c_49e6_5d6f_8304 else s

mix : ℕ → ℕ
mix s =
    let y = word (bit_xor s (s / 2 ^ 30) * 0xbf58_476d_1ce4_e5b9) in
    let z = word (bit_xor y (y / 2 ^ 27) * 0x94d0_49bb_1331_11eb) in bit_xor z (z / 2 ^ 31)

-- The new state, and the number.
unfoldable pub fast_rand : ℕ → ℕ → ℕ × ℕ
unfolding seed mix
fast_rand id state = let s = word ((if state == 0 then seed id else state) + golden) in (s, mix s)

pub record WorkerHandle : Type 0 where
  pub id : ℕ
  pub kind : WorkerKind
  pub tick : ℕ

pub record Found (P T : Type 0) : Type 0 where
  pub task : Option T
  pub handle : WorkerHandle
  pub pool : P

abbrev pub succeeded : {A : Type 0} → Steal A → Option A
succeeded (success a) = some a
succeeded _ = none

module _ {A : Type 0} {C : Crossbeam A} where
  -- A search step: go on only if nothing was found.
  abbrev pub or_else :
      Ret (Option A) (Pool C) → (Pool C → Ret (Option A) (Pool C)) → Ret (Option A) (Pool C)
  or_else r k = elim r.value [ some a ↦ record { value = some a; pool = r.pool } | none ↦ k r.pool ]

  abbrev pub once : Ret (Steal A) (Pool C) → Ret (Option A) (Pool C)
  once r = record { value = succeeded r.value; pool = r.pool }

  -- A second attempt if the first one asks for it.
  abbrev pub twice :
      Ret (Steal A) (Pool C) → (Pool C → Ret (Steal A) (Pool C)) → Ret (Option A) (Pool C)
  twice r again = elim r.value [
    | success a ↦ record { value = some a; pool = r.pool }
    | retry ↦ once (again r.pool)
    | empty ↦ record { value = none; pool = r.pool }
  ]

  -- One round of the loop over the peers, and the rounds that are left.
  unfoldable pub try_peer :
      ℕ → ℕ → Option (ℕ × ℕ) → (Pool C → Ret (Option A) (Pool C)) → Pool C → Ret (Option A) (Pool C)
  try_peer t id none rest p = rest p
  try_peer t id (some (peer, addr)) rest p =
      if peer == id
      then rest p
      else or_else (twice (steal_into_local t addr p) (steal_into_local t addr)) rest

  -- The loop over the peers: `n` rounds are left, `i` were made.
  unfoldable pub steal_peers : ℕ → ℕ → List (ℕ × ℕ) → ℕ → ℕ → ℕ → Pool C → Ret (Option A) (Pool C)
  steal_peers t id stealers start zero i p = record { value = none; pool = p }
  steal_peers t id stealers start (suc n) i p =
      try_peer t id (get_elem? stealers ((start + i) % length stealers))
        (steal_peers t id stealers start n (i + 1)) p

  abbrev pub set_rng : ℕ → ℕ → Pool C → Pool C
  set_rng t s p = record p { rng = λ u. if t == u then s else p.rng u }

  unfoldable pub peers : ℕ → ℕ → Pool C → Ret (Option A) (Pool C)
  peers t id p =
      let stealers = get_stealers p.registry in
      let n = length stealers in
      let (s, r) = fast_rand id (p.rng t) in
      if ltb 1 n
      then steal_peers t id stealers (r % n) n 0 (set_rng t s p)
      else record { value = none; pool = p }

  -- Every 64th search looks into the injector first.
  unfoldable pub injector_first : ℕ → ℕ → Pool C → Ret (Option A) (Pool C)
  injector_first t tick p =
      if tick % 64 == 0
      then once (steal_injector_into_local t p)
      else record { value = none; pool = p }

  -- The injector, then the peers.
  unfoldable pub search_shared : ℕ → ℕ → Pool C → Ret (Option A) (Pool C)
  search_shared t id p =
      or_else (twice (steal_injector_into_local t p) (steal_injector_into_local t)) (peers t id)

  unfoldable pub search_local : ℕ → ℕ → Pool C → Ret (Option A) (Pool C)
  search_local t id p = or_else (local_pop t p) (search_shared t id)

  unfoldable pub search : ℕ → ℕ → ℕ → Pool C → Ret (Option A) (Pool C)
  search t id tick p = or_else (injector_first t tick p) (search_local t id)

  unfoldable pub find_task : WorkerHandle → ℕ → Pool C → Found (Pool C) A
  find_task h t p =
      let r = search t h.id h.tick p in
      record { task = r.value; handle = record h { tick = fetch_add h.tick 1 }; pool = r.pool }

  -- `while let Some(task) = deque.pop() { core.inject(task) }`, with fuel, and the drop of the deque.
  unfoldable pub flush : ℕ → ℕ → C.Worker → Pool C → Pool C
  flush zero t d p = p
  flush (suc fuel) t d p = elim (C.pop d).0 [
    | none ↦ p
    | some a ↦ flush fuel t (C.pop d).1 (inject t a p)
  ]

  -- One round for each task in the deque, and one that finds it empty.
  abbrev pub flush_taken : ℕ → Ret (Option C.Worker) (Pool C) → Pool C
  flush_taken t r = elim r.value [
    | none ↦ r.pool
    | some d ↦ flush (suc (length (C.items d))) t d r.pool
  ]

  -- Installs a new deque, at the end of the heap, and registers its owner.
  unfoldable pub install : ℕ → ℕ → WorkerKind → Pool C → Pool C
  install t id kind p =
      let addr = length p.heap in
      let q = set_local_worker t id addr (record p { heap = p.heap ++ (C.new_fifo ∷ []) }) in
      record q {
        registry =
            register (record { id = id; kind = kind; stealer = addr; unparker = id }) q.registry;
      }

  -- `WorkerHandle::new` on thread `t`: the id and the pool.
  unfoldable pub new_worker : ℕ → WorkerKind → Pool C → Ret WorkerHandle (Pool C)
  new_worker t kind p =
      let (r, id) = allocate_id p.registry in
      record {
        value = record { id = id; kind = kind; tick = 0 };
        pool =
            install t id kind (flush_taken t (take_any_local_worker t (record p { registry = r })));
      }

  -- `Drop for WorkerGuard` on thread `t`.
  unfoldable pub drop_guard : ℕ → ℕ → Pool C → Pool C
  drop_guard t id p =
      unpark_idle
        (flush_taken t (take_local_worker t id (record p { registry = deregister id p.registry })))
