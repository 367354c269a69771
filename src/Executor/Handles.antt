-- ===== src/Executor/Handles.antt =====
-- hypertile-core/src/executor.rs, task.rs and worker.rs: no task is lost between its cell and the pool.
use hypertile.Base.{
  ℕ, ◌+◌, ◌≡◌, ◌≢◌, refl, sym, ap, ◌∙◌, subst, Option, none, some, some-inj, List, [], ◌∷◌, ◌++◌,
  length, get_elem?, get_elem?-length, get_elem?-append_last, get_elem?-append_other, eq_or_ne, inl,
  inr, total, All, arith,
}
use hypertile.Task.Cell.{scheduled, Pc, resting}
use hypertile.Task.Methods.{new}
use hypertile.Task.System.{System, start}
use hypertile.Task.Invariant.{IsSafe, start-IsSafe}
use hypertile.Task.Safety.{Quiet, IsSafe-Quiet, IsSafe-scheduled}
use hypertile.Task.Tally.{handles, inside, outside}
use hypertile.Pool.Crossbeam.{Crossbeam, weigh_option}
use hypertile.Pool.Local.{Pool, new_core, inject}
use hypertile.Pool.Worker.{find_task}
use hypertile.Pool.Conservation.{weigh, inject-weigh, find_task-weigh}
use hypertile.Pool.Worker.{new_worker, drop_guard}
use hypertile.Pool.Flush.{new_worker-weigh, drop_guard-weigh}
use hypertile.Executor.Machine.{
  Executor, Act, joining, leaving, spawning, stepping, working, new_executor, spawn, run_from,
  run_in, found, act, acts,
}
use hypertile.Executor.Queued.{
  of_task, of_self, of_other, queued_of, IsKept, step_in-IsKept, begin-IsKept,
}

module _ {C : Crossbeam ℕ} {F T P W : Type 0} where
  run_in-IsKept :
      (id k : ℕ) (p : Pool C) (o : Option (System F T P W)) (x : Executor C F T P W)
      → get_elem? x.tasks id ≡ o
      → ((w : ℕ → ℕ) → weigh C w x.pool ≡ w id + weigh C w p)
      → IsKept x
      → IsKept (run_in id k p o x)
  unfolding run_in run_from
  run_in-IsKept id k p none x here m h = h
  run_in-IsKept id k p (some sys) x here m h = by_place (get_elem? sys.threads k) refl
    where
      by_place :
          (o : Option (Pc F T P W)) → get_elem? sys.threads k ≡ o → IsKept (run_from id k p sys o x)
      by_place (some resting) at = begin-IsKept id k p sys _ x here at m refl h
      by_place o at = h

  found-IsKept :
      (k : ℕ) (o : Option ℕ) (p : Pool C) (x : Executor C F T P W)
      → ((w : ℕ → ℕ) → weigh C w x.pool ≡ weigh_option w o + weigh C w p)
      → IsKept x
      → IsKept (found k o p x)
  unfolding found
  found-IsKept k none p x m h = record {
    queued = λ j. omega (arith, m (of_task j), h.queued j);
    safe = h.safe;
  }
  found-IsKept k (some id) p x m h = run_in-IsKept id k p (get_elem? x.tasks id) x refl m h

  spawn-IsKept :
      (t : ℕ) (f : F) (n : ℕ) (x : Executor C F T P W) → IsKept x → IsKept (spawn t f n x)
  unfolding spawn start new
  spawn-IsKept t f n x h = record { queued = queued; safe = safe }
    where
      cell : System F T P W
      cell = start f n

      last : weigh C (of_task (length x.tasks)) (inject t (length x.tasks) x.pool) ≡ 1
      last =
          let i = length x.tasks in
          omega (
            arith,
            inject-weigh C (of_task i) t i x.pool,
            of_self i,
            h.queued i,
            ap queued_of (get_elem?-length x.tasks),
          )

      other :
          (j : ℕ)
          → length x.tasks ≢ j
          → weigh C (of_task j) (inject t (length x.tasks) x.pool) ≡ weigh C (of_task j) x.pool
      other j n = omega (
        arith,
        inject-weigh C (of_task j) t (length x.tasks) x.pool,
        of_other j (length x.tasks) n,
      )

      queued :
          (j : ℕ)
          → weigh C (of_task j) (inject t (length x.tasks) x.pool)
            ≡ queued_of (get_elem? (x.tasks ++ (cell ∷ [])) j)
      queued j = elim (eq_or_ne (length x.tasks) j) [
        | inl e ↦
            subst
              (λ i.
                weigh C (of_task i) (inject t (length x.tasks) x.pool)
                ≡ queued_of (get_elem? (x.tasks ++ (cell ∷ [])) i))
              e (last ∙ sym (ap queued_of (get_elem?-append_last x.tasks cell)))
        | inr n ↦
            other j n ∙ (h.queued j ∙ sym (ap queued_of (get_elem?-append_other x.tasks cell j n)))
      ]

      safe :
          (j : ℕ) (sys : System F T P W)
          → get_elem? (x.tasks ++ (cell ∷ [])) j ≡ some sys
          → IsSafe sys
      safe j sys g = elim (eq_or_ne (length x.tasks) j) [
        | inl e ↦
            let q =
              subst (λ i. get_elem? (x.tasks ++ (cell ∷ [])) i ≡ some cell) e
                (get_elem?-append_last x.tasks cell) in
            subst IsSafe (some-inj (sym q ∙ g)) (start-IsSafe f n)
        | inr n ↦ h.safe j sys (sym (get_elem?-append_other x.tasks cell j n) ∙ g)
      ]

  -- Joining and leaving move handles within the pool.
  same_pool :
      (p : Pool C) (x : Executor C F T P W)
      → ((j : ℕ) → weigh C (of_task j) p ≡ weigh C (of_task j) x.pool)
      → IsKept x
      → IsKept (record x { pool = p })
  same_pool p x same h = record { queued = λ j. same j ∙ h.queued j; safe = h.safe }

  act-IsKept : (a : Act F T P W) (x : Executor C F T P W) → IsKept x → IsKept (act a x)
  unfolding act
  act-IsKept (joining t kind) x h =
      same_pool (new_worker t kind x.pool).pool x
        (λ j. new_worker-weigh C (of_task j) t kind x.pool) h
  act-IsKept (leaving t id) x h =
      same_pool (drop_guard t id x.pool) x (λ j. drop_guard-weigh C (of_task j) t id x.pool) h
  act-IsKept (spawning t f n) x h = spawn-IsKept t f n x h
  act-IsKept (stepping t id k e) x h = step_in-IsKept t id k e (get_elem? x.tasks id) x refl h
  act-IsKept (working t w k) x h =
      let r = find_task w t x.pool in
      found-IsKept k r.task r.pool x (λ v. find_task-weigh C v w t x.pool) h

  acts-IsKept : (es : List (Act F T P W)) (x : Executor C F T P W) → IsKept x → IsKept (acts es x)
  unfolding acts
  acts-IsKept [] x h = h
  acts-IsKept (a ∷ rest) x h = acts-IsKept rest (act a x) (act-IsKept a x h)

module _ (C : Crossbeam ℕ) {F T P W : Type 0} (events : List (Act F T P W)) where
  abbrev pub fresh : Executor C F T P W
  fresh = new_executor

  abbrev pub reached : Executor C F T P W
  reached = acts events fresh

  fresh-IsKept : IsKept fresh
  unfolding new_executor new_core total
  fresh-IsKept = record {
    queued = λ j. rw (C.waiting-new_injector) (omega arith);
    safe = λ j sys g. cc;
  }

  pub kept : IsKept reached
  kept = acts-IsKept events fresh fresh-IsKept

  abbrev pub handles_of : ℕ → ℕ
  handles_of id = weigh C (of_task id) reached.pool

  -- However threads join and leave the pool, spawn tasks, step through their cells and work, the
  -- injector and the deques of the pool hold as many handles of a task as its cell has been queued
  -- and not taken, and none of a task that was not spawned.
  pub acts-queued : (id : ℕ) → handles_of id ≡ queued_of (get_elem? reached.tasks id)
  acts-queued id = kept.queued id

  -- However threads join and leave the pool, spawn tasks, step through their cells and work, a
  -- task in SCHEDULED has exactly one handle or runner: a handle in the queues of the pool or in
  -- the hands of a thread, or a thread that runs it.
  pub acts_scheduled :
      (id : ℕ) (sys : System F T P W)
      → get_elem? reached.tasks id ≡ some sys
      → sys.shared.state ≡ scheduled
      → handles_of id
          + total handles sys.threads
          + (total inside sys.threads + total outside sys.threads)
        ≡ 1
  acts_scheduled id sys g h =
      let q = kept.queued id ∙ ap queued_of g in
      omega (arith, IsSafe-scheduled sys (kept.safe id sys g) h, q)

  -- However threads join and leave the pool, spawn tasks, step through their cells and work, a
  -- task in which no thread is in a method is not RUNNING: it is idle with its future, and the
  -- pool holds no handle of it; or it is scheduled with its future, and the pool holds exactly
  -- one; or it is completed with the future dropped, one outcome published, at most one stale
  -- handle in the pool, and no join waker left.
  pub acts-Quiet :
      (id : ℕ) (sys : System F T P W)
      → get_elem? reached.tasks id ≡ some sys
      → All (λ p. p ≡ resting) sys.threads
      → let s = sys.shared in Quiet s.state (handles_of id) s.future s.join_waker s.published
  acts-Quiet id sys g h =
      let s = sys.shared in
      subst (λ n. Quiet s.state n s.future s.join_waker s.published)
        (sym (kept.queued id ∙ ap queued_of g)) (IsSafe-Quiet sys (kept.safe id sys g) h)
