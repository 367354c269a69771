-- ===== src/Runtime/Bounds.antt =====
-- hypertile-core/src/runtime.rs: bounds on the size of a fresh pool.
use hypertile.Base.{
  ℕ, zero, suc, ◌+◌, ◌≤◌, ◌<◌, ◌^◌, ◌≡◌, ◌⊎◌, inl, inr, refl, max, Option, none, some, List,
  Option-cases, arith,
}
use hypertile.Runtime.Sizing.{
  worker_count_for_cores, default_worker_count, parse_usize, trim, parse_worker_count,
  workers_from_env, resolve_worker_count,
}

-- A machine gets at least one worker for each core; up to 28 cores it gets 4 more, from 32 cores on
-- it gets no more, and it never gets more than 4 beyond its cores nor, below 32 cores, more than 32.
worker_count_for_cores_bounds :
    (cores : ℕ)
    → cores < 2 ^ 64
    → let w = worker_count_for_cores cores in
      (cores ≤ w)
      × (w ≤ cores + 4)
      × (w ≤ max cores 32)
      × (cores ≤ 28 → w ≡ cores + 4)
      × (32 ≤ cores → w ≡ cores)
unfolding worker_count_for_cores
worker_count_for_cores_bounds cores h =
    (omega arith, omega arith, omega arith, λ a. omega arith, λ a. omega arith)

worker_count_positive : (cores : ℕ) → 0 < worker_count_for_cores (max cores 1)
unfolding worker_count_for_cores
worker_count_positive cores = omega arith

default_worker_count_positive : (o : Option ℕ) → 0 < default_worker_count o
unfolding default_worker_count
default_worker_count_positive (some p) = worker_count_positive p
default_worker_count_positive none = worker_count_positive 4

-- What the environment gives is a positive number.
workers_from_env_positive : (env : Option (List ℕ)) (n : ℕ) → workers_from_env env ≡ some n → 0 < n
unfolding workers_from_env parse_worker_count
workers_from_env_positive none n h = cc
workers_from_env_positive (some raw) n h = elim (Option-cases (parse_usize (trim raw))) [
  | inl e ↦ ground arith
  | inr (zero, e) ↦ ground arith
  | inr (suc m, e) ↦ ground arith
]

-- A fresh pool has at least one worker; it has the requested number if that is not 0, else the
-- number in the environment if that is usable, else the default for the machine.
resolve_worker_count_sources :
    (env : Option (List ℕ)) (parallelism : Option ℕ) (requested : ℕ)
    → let w = resolve_worker_count env parallelism requested in
      (0 < w)
      × ((0 < requested × (w ≡ requested))
          ⊎ ((requested ≡ 0)
              × ((workers_from_env env ≡ some w)
                  ⊎ ((workers_from_env env ≡ none) × (w ≡ default_worker_count parallelism)))))
unfolding resolve_worker_count
resolve_worker_count_sources env o (suc r) = (grind arith, inl (omega arith, grind arith))
resolve_worker_count_sources env o zero = elim (Option-cases (workers_from_env env)) [
  | inl e ↦ rw (e) (default_worker_count_positive o, inr (refl, inr (refl, refl)))
  | inr (n, e) ↦ rw (e) (workers_from_env_positive env n e, inr (refl, inl refl))
]
