-- ===== src/Pool/Local.antt =====
-- hypertile-core/src/waker.rs and executor.rs: the pool, the deque of a thread, and injection.
use hypertile.Base.{
  ℕ, Bool, true, false, Option, none, some, List, [], ◌∷◌, ◌++◌, get_elem?, set, ◌==◌,
  if◌then◌else◌,
}
use hypertile.Registry.Defs.{WorkerRegistry, WorkerEntry, new_registry, unpark_one_idle, unpark_all}
use hypertile.Pool.Crossbeam.{Crossbeam, Steal, empty}

-- What a method returns, beside the new pool.
pub record Ret {ℓ} (A P : Type ℓ) : Type ℓ where
  pub value : A
  pub pool : P

-- The deque that a thread owns, with its address.
at_address : {D : Type 0} → Option (ℕ × ℕ) → List D → Option (ℕ × D)
at_address none heap = none
at_address (some (id, addr)) heap = elim (get_elem? heap addr) [
  | none ↦ none
  | some d ↦ some (addr, d)
]

abbrev note_unparked : Option (WorkerEntry ℕ ℕ) → List ℕ → List ℕ
note_unparked none us = us
note_unparked (some e) us = e.unparker ∷ us

module _ {A : Type 0} (C : Crossbeam A) where
  -- `ExecutorCore`, with the deques that workers own, at addresses, and the slot
  -- `LOCAL_WORKER_DEQUE` of each thread: the owner's id and the address of its deque. A stealer is
  -- an address, an unparker a number; `rng` is `RNG_STATE` of each thread, and `unparked` the trace
  -- of the unparkers used, newest first.
  pub record Pool : Type 0 where
    pub injector : C.Injector
    pub heap : List C.Worker
    pub local : ℕ → Option (ℕ × ℕ)
    pub registry : WorkerRegistry ℕ ℕ
    pub running : Bool
    pub rng : ℕ → ℕ
    pub unparked : List ℕ

module _ {A : Type 0} {C : Crossbeam A} where
  unfoldable pub new_core : Pool C
  unfolding new_registry
  new_core = record {
    injector = C.new_injector;
    heap = [];
    local = λ _. none;
    registry = new_registry ℕ ℕ;
    running = true;
    rng = λ _. 0;
    unparked = [];
  }

  abbrev pub set_slot : ℕ → Option (ℕ × ℕ) → Pool C → Pool C
  set_slot t o p = record p { local = λ u. if t == u then o else p.local u }

  abbrev pub put : ℕ → C.Worker → Pool C → Pool C
  put addr d p = record p { heap = set p.heap addr d }

  -- A deque that is dropped is lost with what it holds.
  drop_deque : Option (ℕ × ℕ) → Pool C → Pool C
  drop_deque none p = p
  drop_deque (some (id, addr)) p = put addr C.new_fifo p

  unfoldable pub set_local_worker : ℕ → ℕ → ℕ → Pool C → Pool C
  unfolding drop_deque
  set_local_worker t id addr p = set_slot t (some (id, addr)) (drop_deque (p.local t) p)

  -- The deque leaves the slot of its thread: what it holds is the caller's, and no more in the pool.
  unfoldable pub take_deque : ℕ → ℕ → Pool C → Ret (Option C.Worker) (Pool C)
  take_deque t addr p = elim (get_elem? p.heap addr) [
    | none ↦ record { value = none; pool = set_slot t none p }
    | some d ↦ record { value = some d; pool = set_slot t none (put addr C.new_fifo p) }
  ]

  take_slot : ℕ → Option (ℕ × ℕ) → Pool C → Ret (Option C.Worker) (Pool C)
  unfolding take_deque
  take_slot t none p = record { value = none; pool = p }
  take_slot t (some (id, addr)) p = take_deque t addr p

  unfoldable pub take_any_local_worker : ℕ → Pool C → Ret (Option C.Worker) (Pool C)
  unfolding take_slot
  take_any_local_worker t p = take_slot t (p.local t) p

  take_own : ℕ → ℕ → Option (ℕ × ℕ) → Pool C → Ret (Option C.Worker) (Pool C)
  unfolding take_deque
  take_own t id none p = record { value = none; pool = p }
  take_own t id (some (owner, addr)) p =
      if owner == id then take_deque t addr p else record { value = none; pool = p }

  unfoldable pub take_local_worker : ℕ → ℕ → Pool C → Ret (Option C.Worker) (Pool C)
  unfolding take_own
  take_local_worker t id p = take_own t id (p.local t) p

  unfoldable pub local_deque : ℕ → Pool C → Option (ℕ × C.Worker)
  unfolding at_address
  local_deque t p = at_address (p.local t) p.heap

  unfoldable pub try_push_local : ℕ → A → Pool C → Ret (Option A) (Pool C)
  unfolding local_deque
  try_push_local t a p = elim (local_deque t p) [
    | none ↦ record { value = some a; pool = p }
    | some (addr, d) ↦ record { value = none; pool = put addr (C.push a d) p }
  ]

  unfoldable pub local_pop : ℕ → Pool C → Ret (Option A) (Pool C)
  unfolding local_deque
  local_pop t p = elim (local_deque t p) [
    | none ↦ record { value = none; pool = p }
    | some (addr, d) ↦ record { value = (C.pop d).0; pool = put addr (C.pop d).1 p }
  ]

  unfoldable pub steal_injector_into_local : ℕ → Pool C → Ret (Steal A) (Pool C)
  unfolding local_deque
  steal_injector_into_local t p = elim (local_deque t p) [
    | none ↦
        let (s, q) = C.injector_steal p.injector in
        record { value = s; pool = record p { injector = q } }
    | some (addr, d) ↦
        let (s, q, d') = C.injector_steal_batch p.injector d in
        record { value = s; pool = record p { injector = q; heap = set p.heap addr d' } }
  ]

  -- The victim is the deque at `victim`; crossbeam knows when it is the thief's own.
  steal_from : Option (ℕ × C.Worker) → ℕ → C.Worker → Pool C → Ret (Steal A) (Pool C)
  steal_from none victim v p =
      let (s, v') = C.steal v in record { value = s; pool = put victim v' p }
  steal_from (some (addr, d)) victim v p =
      if addr == victim
      then (let (s, d') = C.steal_batch_self d in record { value = s; pool = put addr d' p })
      else (let (s, v', d') = C.steal_batch v d in
          record { value = s; pool = put addr d' (put victim v' p) })

  unfoldable pub steal_into_local : ℕ → ℕ → Pool C → Ret (Steal A) (Pool C)
  unfolding local_deque steal_from
  steal_into_local t victim p = elim (get_elem? p.heap victim) [
    | none ↦ record { value = empty; pool = p }
    | some v ↦ steal_from (local_deque t p) victim v p
  ]

  unfoldable pub unpark_idle : Pool C → Pool C
  unpark_idle p =
      let (r, who) = unpark_one_idle p.registry in
      record p { registry = r; unparked = note_unparked who p.unparked }

  unfoldable pub inject_rest : Ret (Option A) (Pool C) → Pool C
  unfolding unpark_idle
  inject_rest r = elim r.value [
    | none ↦ r.pool
    | some a ↦ unpark_idle (record (r.pool) { injector = C.inject a r.pool.injector })
  ]

  unfoldable pub inject : ℕ → A → Pool C → Pool C
  unfolding inject_rest
  inject t a p = inject_rest (try_push_local t a p)

  unfoldable pub set_running : Bool → Pool C → Pool C
  set_running true p = record p { running = true }
  set_running false p = record p { running = false; unparked = unpark_all p.registry ++ p.unparked }
