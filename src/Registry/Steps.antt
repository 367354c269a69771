-- ===== src/Registry/Steps.antt =====
-- hypertile-core/src/executor.rs: `unpark_one_idle` lock by lock, while other threads call methods.
use hypertile.Base.{
  ℕ, zero, suc, ◌+◌, ◌*◌, ◌≤◌, ◌≡◌, refl, ap, subst, ◌∙◌, inl, inr, Option, none, some, List, [],
  ◌∷◌, length, Option-cases, Bool-cases, ◌==◌, if◌then◌else◌, arith,
}
use hypertile.Registry.Defs.{
  WorkerEntry, WorkerRegistry, new_registry, lookup, pop_idle, unpark_one_idle, fetch_sub,
}
use hypertile.Registry.Lookup.{Distinct}
use hypertile.Registry.Invariant.{IsValid, Call, step, step-IsValid, run-new_registry-IsValid, run}

-- Where a thread is in `unpark_one_idle`: before it loads the count, before it takes the lock of the
-- stack, before it takes the lock of the workers with the id that it popped, and at its end, with the
-- worker that it unparked.
pub data Unparking (S U : Type 0) : Type 0 where
  loading : Unparking S U
  popping : Unparking S U
  looking : ℕ → Unparking S U
  finished : Option (WorkerEntry S U) → Unparking S U

module _ {S U : Type 0} where
  unfoldable pub pop_one : List ℕ → WorkerRegistry S U → Unparking S U × WorkerRegistry S U
  pop_one [] r = (finished none, r)
  pop_one (id ∷ idle) r =
      (looking id, record r { idle_stack = idle; idle_count = fetch_sub r.idle_count 1 })

  abbrev after_lookup : Option (WorkerEntry S U) → Unparking S U
  after_lookup none = popping
  after_lookup (some e) = finished (some e)

  -- What a thread does up to the next lock that it takes.
  unfoldable pub unpark_step :
      Unparking S U → WorkerRegistry S U → Unparking S U × WorkerRegistry S U
  unfolding pop_one
  unpark_step loading r = (if r.idle_count == 0 then finished none else popping, r)
  unpark_step popping r = pop_one r.idle_stack r
  unpark_step (looking id) r = (after_lookup (lookup id r.workers), r)
  unpark_step (finished who) r = (finished who, r)

  -- `n` steps with no other thread in between.
  abbrev pub alone : ℕ → Unparking S U → WorkerRegistry S U → Unparking S U × WorkerRegistry S U
  alone zero pc r = (pc, r)
  alone (suc n) pc r = let (pc', r') = unpark_step pc r in alone n pc' r'

  alone-popping :
      (r : WorkerRegistry S U) (idle : List ℕ) (count : ℕ)
      → let (rest, left, who) = pop_idle r.workers idle count in
        (n : ℕ) × (n ≤ 2 * length idle + 1)
        × (alone n popping (record r { idle_stack = idle; idle_count = count })
            ≡ (finished who, record r { idle_stack = rest; idle_count = left }))
  unfolding unpark_step pop_idle
  alone-popping r [] count = (1, omega arith, refl)
  alone-popping r (x ∷ idle) count =
      let (n, k, h) = alone-popping r idle (fetch_sub count 1) in
      let popped = record r { idle_stack = idle; idle_count = fetch_sub count 1 } in
      elim (Option-cases (lookup x r.workers)) [
        | inl e ↦
            rw (e, pop_idle)
              (suc (suc n), omega (arith, k), ap (λ o. alone n (after_lookup o) popped) e ∙ h)
        | inr (w, e) ↦ rw (e, pop_idle) (2, omega arith, ap (λ o. (after_lookup o, popped)) e)
      ]

  alone-unpark_one_idle :
      (r : WorkerRegistry S U)
      → let (q, who) = unpark_one_idle r in
        (n : ℕ) × (n ≤ 2 * length r.idle_stack + 2) × (alone n loading r ≡ (finished who, q))
  unfolding unpark_one_idle unpark_step
  alone-unpark_one_idle r = elim (Bool-cases (r.idle_count == 0)) [
    | inl z ↦ rw (z) (1, omega arith, ap (λ b. (if b then finished none else popping, r)) z)
    | inr p ↦
        let (n, k, h) = alone-popping r r.idle_stack r.idle_count in
        rw (p) (
          suc n,
          omega (arith, k),
          ap (λ b. alone n (if b then finished none else popping) r) p ∙ h,
        )
  ]

-- The registry, and where each thread is.
pub record Sharing (S U : Type 0) : Type 0 where
  pub registry : WorkerRegistry S U
  pub threads : ℕ → Unparking S U

-- A thread makes another call, which holds its lock to the end, enters `unpark_one_idle`, or goes
-- on in it.
pub data Turn (S U : Type 0) : Type 0 where
  calls : Call S U → Turn S U
  enters goes_on : ℕ → Turn S U

module _ {S U : Type 0} where
  abbrev pub place : ℕ → Unparking S U → Sharing S U → Sharing S U
  place t pc s = record s { threads = λ u. if t == u then pc else s.threads u }

  enter : Unparking S U → Unparking S U
  enter (finished who) = loading
  enter pc = pc

  unfoldable pub turn : Turn S U → Sharing S U → Sharing S U
  unfolding step enter
  turn (calls c) s = record s { registry = step c s.registry }
  turn (enters t) s = place t (enter (s.threads t)) s
  turn (goes_on t) s =
      let (pc, r) = unpark_step (s.threads t) s.registry in place t pc (record s { registry = r })

  unfoldable pub turns : List (Turn S U) → Sharing S U → Sharing S U
  turns [] s = s
  turns (e ∷ es) s = turns es (turn e s)

  abbrev pub nobody : Sharing S U
  nobody = record { registry = new_registry S U; threads = λ t. finished none }

  pop_one-IsValid :
      (idle : List ℕ) (r : WorkerRegistry S U)
      → r.idle_stack ≡ idle
      → IsValid r
      → IsValid (pop_one idle r).1
  unfolding pop_one
  pop_one-IsValid [] r e v = v
  pop_one-IsValid (x ∷ idle) r e v =
      let all = ap length e in
      let d = subst Distinct e v.distinct in
      record {
        counted = omega (arith, v.counted, all);
        distinct = d.1;
        keyed = v.keyed;
        cached = v.cached;
      }

  unpark_step-IsValid :
      (pc : Unparking S U) (r : WorkerRegistry S U) → IsValid r → IsValid (unpark_step pc r).1
  unfolding unpark_step
  unpark_step-IsValid loading r v = v
  unpark_step-IsValid popping r v = pop_one-IsValid r.idle_stack r refl v
  unpark_step-IsValid (looking id) r v = v
  unpark_step-IsValid (finished who) r v = v

  turns-IsValid :
      (es : List (Turn S U)) (s : Sharing S U) → IsValid s.registry → IsValid (turns es s).registry
  unfolding turns turn
  turns-IsValid [] s v = v
  turns-IsValid (calls c ∷ es) s v =
      turns-IsValid es (turn (calls c) s) (step-IsValid c s.registry v)
  turns-IsValid (enters t ∷ es) s v = turns-IsValid es (turn (enters t) s) v
  turns-IsValid (goes_on t ∷ es) s v =
      turns-IsValid es (turn (goes_on t) s) (unpark_step-IsValid (s.threads t) s.registry v)

  -- Any number of threads call methods of a new registry; those in `unpark_one_idle` let others in
  -- between their locks. The registry is valid after any sequence of turns. Whoever enters
  -- `unpark_one_idle` then, and is not interrupted, is at its end after at most 2 n + 2 steps, where n
  -- is the height of the idle stack, and has done what `unpark_one_idle` does: the same registry, and
  -- the same worker unparked.
  pub turns-unpark_one_idle :
      (es : List (Turn S U))
      → let r = (turns es nobody).registry in
        let (q, who) = unpark_one_idle r in
        IsValid r
        × ((n : ℕ) × (n ≤ 2 * length r.idle_stack + 2) × (alone n loading r ≡ (finished who, q)))
  unfolding new_registry run
  turns-unpark_one_idle es = (
    turns-IsValid es nobody (run-new_registry-IsValid []),
    alone-unpark_one_idle (turns es nobody).registry,
  )
