-- ===== src/Registry/Unpark.antt =====
-- hypertile-core/src/executor.rs: whom `unpark_one_idle` wakes.
use hypertile.Base.{
  ℕ, ◌+◌, ◌-◌, ◌^◌, ◌<◌, ◌≡◌, refl, inl, inr, Option, none, some, List, [], ◌∷◌, ◌++◌, length, All,
  ap, Option-cases, Bool-cases, ◌==◌, false, arith,
}
use hypertile.Registry.Defs.{
  WorkerEntry, WorkerRegistry, lookup, mark_idle, pop_idle, unpark_one_idle, contains, word,
}
use hypertile.Registry.Invariant.{IsValid}

module _ {S U : Type 0} where
  -- The stack `idle` is cut behind its first registered worker, which is `who`; with none on it, the
  -- stack is emptied.
  abbrev pub Unparks :
      List (ℕ × WorkerEntry S U) → List ℕ → List ℕ → Option (WorkerEntry S U) → Type 0
  Unparks ws idle rest none = (rest ≡ []) × All (λ id. lookup id ws ≡ none) idle
  Unparks ws idle rest (some e) =
      (gone : List ℕ) × (id : ℕ) × (idle ≡ gone ++ (id ∷ rest))
      × All (λ id. lookup id ws ≡ none) gone
      × (lookup id ws ≡ some e)

  skip-Unparks :
      (ws : List (ℕ × WorkerEntry S U)) (x : ℕ) (idle rest : List ℕ)
      (who : Option (WorkerEntry S U))
      → lookup x ws ≡ none
      → Unparks ws idle rest who
      → Unparks ws (x ∷ idle) rest who
  skip-Unparks ws x idle rest none h (e, all) = (e, (h, all))
  skip-Unparks ws x idle rest (some w) h (gone, id, e, all, found) =
      (x ∷ gone, id, ap (◌∷◌ x) e, (h, all), found)

  pop_idle-Unparks :
      (ws : List (ℕ × WorkerEntry S U)) (idle : List ℕ) (n : ℕ)
      → let r = pop_idle ws idle n in Unparks ws idle r.0 r.2
  unfolding pop_idle
  pop_idle-Unparks ws [] n = (refl, tt)
  pop_idle-Unparks ws (x ∷ idle) n = elim (Option-cases (lookup x ws)) [
    | inl e ↦
        rw (e, pop_idle)
          (skip-Unparks ws x idle _ _ e (pop_idle-Unparks ws idle (word (n + (2 ^ 64 - word 1)))))
    | inr (w, e) ↦ rw (e, pop_idle) ([], x, refl, tt, e)
  ]

  empty-Unparks :
      (ws : List (ℕ × WorkerEntry S U)) (idle : List ℕ)
      → length idle ≡ 0
      → Unparks ws idle idle none
  empty-Unparks ws [] h = (refl, tt)
  empty-Unparks ws (x ∷ idle) h = absurd (omega arith)

  -- In a valid registry with fewer than 2^64 idle workers, `unpark_one_idle` wakes the first
  -- registered worker from the top of the idle stack and keeps what lies below it; it wakes nobody
  -- only if no worker on the stack is registered, and then it empties the stack.
  pub unpark_one_idle-Unparks :
      (r : WorkerRegistry S U)
      → IsValid r
      → length r.idle_stack < 2 ^ 64
      → let (q, who) = unpark_one_idle r in Unparks r.workers r.idle_stack q.idle_stack who
  unfolding unpark_one_idle
  unpark_one_idle-Unparks r v h = elim (Bool-cases (r.idle_count == 0)) [
    | inl z ↦ rw z (empty-Unparks r.workers r.idle_stack (ground (arith, v.counted)))
    | inr p ↦ rw p (pop_idle-Unparks r.workers r.idle_stack r.idle_count)
  ]

  -- In a valid registry with fewer than 2^64 - 1 idle workers, a registered worker that has just
  -- been marked idle for the first time is the one that the next `unpark_one_idle` wakes, and the
  -- stack is then as it was before.
  unpark_one_idle-mark_idle :
      (r : WorkerRegistry S U) (id : ℕ) (e : WorkerEntry S U)
      → IsValid r
      → length r.idle_stack + 1 < 2 ^ 64
      → contains r.idle_stack id ≡ false
      → lookup id r.workers ≡ some e
      → let (q, who) = unpark_one_idle (mark_idle id r) in
        (who ≡ some e) × (q.idle_stack ≡ r.idle_stack) × (q.idle_count ≡ r.idle_count)
  unfolding unpark_one_idle mark_idle pop_idle
  unpark_one_idle-mark_idle r id e v h new found = ground (arith, v.counted)
