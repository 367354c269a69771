-- ===== src/Registry/Invariant.antt =====
-- hypertile-core/src/executor.rs: the invariant of the registry, kept by every method.
use mathlib.Core.Option
use hypertile.Base.{
  ℕ, ◌+◌, ◌-◌, ◌^◌, ◌≡◌, ◌≢◌, refl, none, false, List, [], ◌∷◌, map, length, arith,
}
use hypertile.Registry.Defs.{
  WorkerEntry, WorkerRegistry, new_registry, lookup, remove, contains, stealer_of, allocate_id,
  register, deregister, mark_idle, unmark_idle, pop_idle, unpark_one_idle, get_stealers, word,
}
use hypertile.Registry.Lookup.{
  Distinct, IsKeyed, lookup-remove, contains-retain_other, retain_other-Distinct,
  length-retain_other-le, insert-IsKeyed, remove-IsKeyed, lookup-stealers,
}

-- The idle count is the height of the stack, modulo 2^64; nobody is on the stack twice; entries
-- stand under their ids, once each; and the cache is built from the present workers.
pub record IsValid {S U : Type 0} (r : WorkerRegistry S U) : Type 0 where
  pub counted : r.idle_count ≡ word (length r.idle_stack)
  pub distinct : Distinct r.idle_stack
  pub keyed : IsKeyed r.workers
  pub cached : r.stealers_cache ≡ map stealer_of r.workers

-- The methods that change the registry.
pub data Call (S U : Type 0) : Type 0 where
  allocates : Call S U
  registers : WorkerEntry S U → Call S U
  deregisters marks unmarks : ℕ → Call S U
  unparks : Call S U

module _ {S U : Type 0} where
  unfoldable pub step : Call S U → WorkerRegistry S U → WorkerRegistry S U
  unfolding allocate_id register deregister mark_idle unmark_idle unpark_one_idle
  step allocates r = (allocate_id r).0
  step (registers e) r = register e r
  step (deregisters id) r = deregister id r
  step (marks id) r = mark_idle id r
  step (unmarks id) r = unmark_idle id r
  step unparks r = (unpark_one_idle r).0

  unfoldable pub run : WorkerRegistry S U → List (Call S U) → WorkerRegistry S U
  unfolding step
  run r [] = r
  run r (c ∷ cs) = run (step c r) cs

  pop_idle-Distinct :
      (ws : List (ℕ × WorkerEntry S U)) (idle : List ℕ) (n : ℕ)
      → n ≡ word (length idle)
      → Distinct idle
      → ((pop_idle ws idle n).1 ≡ word (length (pop_idle ws idle n).0))
        × Distinct (pop_idle ws idle n).0
  unfolding pop_idle
  pop_idle-Distinct ws [] n h d = (h, tt)
  pop_idle-Distinct ws (x ∷ idle) n h d =
      ground (arith, pop_idle-Distinct ws idle (word (n + (2 ^ 64 - word 1))) (omega arith) d.1)

  pub step-IsValid : (c : Call S U) (r : WorkerRegistry S U) → IsValid r → IsValid (step c r)
  unfolding step
  step-IsValid allocates r v = ground arith
  step-IsValid (registers e) r v = ground (arith, insert-IsKeyed e r.workers v.keyed)
  step-IsValid (deregisters id) r v = ground (
    arith,
    remove-IsKeyed id r.workers v.keyed,
    retain_other-Distinct id r.idle_stack v.distinct,
    length-retain_other-le id r.idle_stack,
  )
  step-IsValid (marks id) r v = ground arith
  step-IsValid (unmarks id) r v = ground (
    arith,
    retain_other-Distinct id r.idle_stack v.distinct,
    length-retain_other-le id r.idle_stack,
  )
  step-IsValid unparks r v =
      ground (arith, pop_idle-Distinct r.workers r.idle_stack r.idle_count v.counted v.distinct)

  run-IsValid : (r : WorkerRegistry S U) (cs : List (Call S U)) → IsValid r → IsValid (run r cs)
  unfolding run
  run-IsValid r [] v = v
  run-IsValid r (c ∷ cs) v = run-IsValid (step c r) cs (step-IsValid c r v)

  -- After any history of calls on a new registry, the idle count is the height of the idle stack
  -- modulo 2^64, no worker is on the stack twice, every entry stands under its own id and no id
  -- twice, and the stealers cache is the one of the present workers.
  pub run-new_registry-IsValid : (cs : List (Call S U)) → IsValid (run (new_registry S U) cs)
  unfolding new_registry
  run-new_registry-IsValid cs =
      run-IsValid (new_registry S U) cs
        (record { counted = refl; distinct = tt; keyed = tt; cached = refl })

  -- After any history, the list that thieves read finds the stealer of every registered worker, and
  -- no other.
  lookup-get_stealers :
      (cs : List (Call S U)) (id : ℕ)
      → let r = run (new_registry S U) cs in
        lookup id (get_stealers r) ≡ Option.map (λ e. e.stealer) (lookup id r.workers)
  unfolding get_stealers
  lookup-get_stealers cs id =
      let v = run-new_registry-IsValid cs in
      rw v.cached (lookup-stealers id (run (new_registry S U) cs).workers v.keyed)

  -- In a valid registry, a deregistered worker is neither registered, nor idle, nor a victim for
  -- thieves, and every other worker is registered and idle exactly as before.
  deregister_forgets :
      (id j : ℕ) (r : WorkerRegistry S U)
      → IsValid r
      → j ≢ id
      → let q = deregister id r in
        (lookup id q.workers ≡ none)
        × (contains q.idle_stack id ≡ false)
        × (lookup id q.stealers_cache ≡ none)
        × (lookup j q.workers ≡ lookup j r.workers)
        × (contains q.idle_stack j ≡ contains r.idle_stack j)
  unfolding deregister
  deregister_forgets id j r v h = ground (
    arith,
    lookup-remove id id r.workers,
    lookup-remove id j r.workers,
    contains-retain_other id id r.idle_stack,
    contains-retain_other id j r.idle_stack,
    lookup-stealers id (remove id r.workers) (remove-IsKeyed id r.workers v.keyed),
  )
