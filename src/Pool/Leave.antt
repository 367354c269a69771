-- ===== src/Pool/Leave.antt =====
-- hypertile-core/src/worker.rs: where the tasks of a worker go when its thread leaves or rejoins.
use mathlib.Core.List.{append-nil, append_assoc}
use hypertile.Base.{
  ℕ, zero, suc, ◌<◌, ◌≡◌, ◌≢◌, refl, sym, ap, ◌∙◌, none, some, List, [], ◌∷◌, ◌++◌, length,
  get_elem?, get_elem?-set_self, inl, inr, Option-cases, arith,
}
use hypertile.Registry.Defs.{deregister}
use hypertile.Pool.Crossbeam.{Crossbeam, popped}
use hypertile.Pool.Local.{
  Pool, set_slot, put, take_deque, take_local_worker, local_deque, try_push_local, unpark_idle,
  inject_rest, inject,
}
use hypertile.Pool.Worker.{flush, flush_taken, drop_guard}

module _ {A : Type 0} (C : Crossbeam A) where
  lt-length : {D : Type 0} (xs : List D) (i : ℕ) (d : D) → get_elem? xs i ≡ some d → i < length xs
  lt-length [] i d h = cc
  lt-length (x ∷ xs) zero d h = omega arith
  lt-length (x ∷ xs) (suc i) d h = omega (arith, lt-length xs i d h)

  local_deque-none : (t : ℕ) (p : Pool C) → p.local t ≡ none → local_deque t p ≡ none
  unfolding local_deque
  local_deque-none t p h = ground arith

  try_push_shared :
      (t : ℕ) (a : A) (p : Pool C)
      → p.local t ≡ none
      → try_push_local t a p ≡ record { value = some a; pool = p }
  unfolding try_push_local
  try_push_shared t a p h = rw (local_deque-none t p h, try_push_local)

  -- On a thread without a deque, a task goes to the injector, and an idle worker is unparked.
  inject_shared :
      (t : ℕ) (a : A) (p : Pool C)
      → p.local t ≡ none
      → inject t a p ≡ unpark_idle (record p { injector = C.inject a p.injector })
  unfolding inject
  inject_shared t a p h = ap inject_rest (try_push_shared t a p h)

  -- What `flush` leaves: the tasks `xs` behind those of the injector.
  pub record Flushed (xs : List A) (p q : Pool C) : Type 0 where
    pub moved : C.waiting q.injector ≡ C.waiting p.injector ++ xs
    pub heap : q.heap ≡ p.heap
    pub slots : q.local ≡ p.local

  flush_done : (d : C.Worker) (p : Pool C) → (C.pop d).0 ≡ none → Flushed (C.items d) p p
  flush_done d p o = record {
    moved = rw (C.pop-none d o) (sym (append-nil (C.waiting p.injector)));
    heap = refl;
    slots = refl;
  }

  flush_more :
      (t : ℕ) (a : A) (d : C.Worker) (p q : Pool C)
      → p.local t ≡ none
      → (C.pop d).0 ≡ some a
      → Flushed (C.items (C.pop d).1) (inject t a p) q
      → Flushed (C.items d) p q
  unfolding unpark_idle
  flush_more t a d p q slot o f = record {
    moved =
        f.moved
        ∙ (ap (λ x. C.waiting x.injector ++ C.items (C.pop d).1) put_in
            ∙ (ap (λ xs. xs ++ C.items (C.pop d).1) (C.waiting-inject a p.injector)
                ∙ (append_assoc (C.waiting p.injector) (a ∷ []) (C.items (C.pop d).1)
                    ∙ ap (◌++◌ (C.waiting p.injector)) (sym items_d))));
    heap = f.heap ∙ ap (λ x. x.heap) put_in;
    slots = f.slots ∙ ap (λ x. x.local) put_in;
  }
    where
      put_in : inject t a p ≡ unpark_idle (record p { injector = C.inject a p.injector })
      put_in = inject_shared t a p slot

      items_d : C.items d ≡ a ∷ C.items (C.pop d).1
      items_d = C.items-pop d ∙ ap (λ x. popped x (C.items (C.pop d).1)) o

  flush-Flushed :
      (fuel t : ℕ) (d : C.Worker) (p : Pool C)
      → p.local t ≡ none
      → length (C.items d) < fuel
      → Flushed (C.items d) p (flush fuel t d p)
  unfolding flush unpark_idle
  flush-Flushed zero t d p slot h = absurd (omega arith)
  flush-Flushed (suc fuel) t d p slot h = elim (Option-cases (C.pop d).0) [
    | inl o ↦ rw (o, flush) (flush_done d p o)
    | inr (a, o) ↦
        let put_in = inject_shared t a p slot in
        rw (o, flush)
          (flush_more t a d p _ slot o (
            flush-Flushed fuel t (C.pop d).1 (inject t a p)
              (ap (λ (x : Pool C). x.local t) put_in ∙ slot)
              (omega (
                arith,
                ap length (C.items-pop d),
                ap (λ x. length (popped x (C.items (C.pop d).1))) o,
              ))))
  ]

  -- The pool that a thread has left with its deque.
  abbrev left_by : ℕ → ℕ → Pool C → Pool C
  left_by t addr p = set_slot t none (put addr C.new_fifo p)

  take_own_slot :
      (t id addr : ℕ) (d : C.Worker) (p : Pool C)
      → p.local t ≡ some (id, addr)
      → get_elem? p.heap addr ≡ some d
      → take_local_worker t id p ≡ record { value = some d; pool = left_by t addr p }
  unfolding take_local_worker take_deque
  take_own_slot t id addr d p slot e = ground arith

  -- A worker that leaves on the thread that owns its deque puts its queued tasks, in their order,
  -- behind those of the injector; its deque is left empty, and its thread owns no deque any more.
  pub drop_guard-Flushed :
      (t id addr : ℕ) (d : C.Worker) (p : Pool C)
      → p.local t ≡ some (id, addr)
      → get_elem? p.heap addr ≡ some d
      → let q = drop_guard t id p in
        (C.waiting q.injector ≡ C.waiting p.injector ++ C.items d)
        × ((e : C.Worker) × (get_elem? q.heap addr ≡ some e) × (C.items e ≡ []))
        × (q.local t ≡ none)
  unfolding drop_guard unpark_idle
  drop_guard-Flushed t id addr d p slot e = (
    left.moved,
    (
      C.new_fifo,
      ap (λ h. get_elem? h addr) left.heap
          ∙ get_elem?-set_self p.heap addr C.new_fifo (lt-length p.heap addr d e),
      C.items-new_fifo,
    ),
    ap (λ f. f t) left.slots ∙ ground arith,
  )
    where
      q : Pool C
      q = record p { registry = deregister id p.registry }

      left : Flushed (C.items d) (left_by t addr q) (flush_taken t (take_local_worker t id q))
      left = rw (take_own_slot t id addr d q slot e) (
          flush-Flushed (suc (length (C.items d))) t d (left_by t addr q) (ground arith)
            (omega arith))

  -- A guard whose thread has a newer worker leaves the queues, the deques and that thread's slot
  -- alone.
  pub drop_guard_stale :
      (t id owner addr : ℕ) (p : Pool C)
      → p.local t ≡ some (owner, addr)
      → owner ≢ id
      → let q = drop_guard t id p in
        (q.injector ≡ p.injector) × (q.heap ≡ p.heap) × (q.local ≡ p.local)
  unfolding drop_guard unpark_idle take_local_worker
  drop_guard_stale t id owner addr p slot h = ground arith
