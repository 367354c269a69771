-- ===== src/Registry/Ids.antt =====
-- hypertile-core/src/executor.rs: which ids `allocate_id` hands out.
use hypertile.Base.{ℕ, suc, ◌+◌, ◌^◌, ◌<◌, ◌≡◌, List, [], ◌∷◌, ◌∙◌, arith}
use hypertile.Registry.Defs.{WorkerRegistry, new_registry, allocate_id, word}
use hypertile.Registry.Invariant.{Call, allocates, step, run}

module _ {S U : Type 0} where
  -- how many ids the calls allocate
  abbrev pub allocations : List (Call S U) → ℕ
  allocations [] = 0
  allocations (allocates ∷ cs) = suc (allocations cs)
  allocations (_ ∷ cs) = allocations cs

  next_id-step :
      (c : Call S U) (cs : List (Call S U)) (r : WorkerRegistry S U)
      → word ((step c r).next_id + allocations cs) ≡ word (r.next_id + allocations (c ∷ cs))
  unfolding step
  next_id-step c cs r = ground arith

  next_id-run :
      (r : WorkerRegistry S U) (cs : List (Call S U))
      → word (run r cs).next_id ≡ word (r.next_id + allocations cs)
  unfolding run
  next_id-run r [] = omega arith
  next_id-run r (c ∷ cs) = next_id-run (step c r) cs ∙ next_id-step c cs r

  next_id-lt :
      (c : Call S U) (r : WorkerRegistry S U) → r.next_id < 2 ^ 64 → (step c r).next_id < 2 ^ 64
  unfolding step
  next_id-lt c r h = ground arith

  run_lt :
      (r : WorkerRegistry S U) (cs : List (Call S U))
      → r.next_id < 2 ^ 64
      → (run r cs).next_id < 2 ^ 64
  unfolding run
  run_lt r [] h = h
  run_lt r (c ∷ cs) h = run_lt (step c r) cs (next_id-lt c r h)

  -- After any history with `n` allocations on a new registry, where n + 1 < 2^64, the next id is
  -- n + 1: ids are never 0, and no two allocations give the same one.
  allocate_id-run :
      (cs : List (Call S U))
      → allocations cs + 1 < 2 ^ 64
      → (allocate_id (run (new_registry S U) cs)).1 ≡ allocations cs + 1
  unfolding allocate_id new_registry
  allocate_id-run cs h =
      omega (arith, next_id-run (new_registry S U) cs, run_lt (new_registry S U) cs (omega arith))
