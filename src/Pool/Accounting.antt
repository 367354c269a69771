-- ===== src/Pool/Accounting.antt =====
-- hypertile-core/src/worker.rs: `run_loop` loses and doubles no task.
use hypertile.Base.{
  ℕ, zero, suc, ◌+◌, ◌≡◌, Bool, true, false, Option, none, some, [], ◌||◌, ltb, total,
  if◌then◌else◌, ap, arith,
}
use hypertile.Registry.Defs.{mark_idle}
use hypertile.Pool.Crossbeam.{Crossbeam, Steal, weigh_option, weigh_steal}
use hypertile.Pool.Local.{Ret, Pool, local_pop, steal_injector_into_local}
use hypertile.Pool.Worker.{or_else, once, find_task}
use hypertile.Pool.Conservation.{
  weigh, Finds, or_else-Finds, local_pop-weigh, steal_injector_into_local-weigh, find_task-weigh,
}
use hypertile.Pool.Loop.{
  TaskKind, rust, python, is_bilingual, Loop, count_task, keep_budget, check_budget, run_task,
  drain_local, spin, idle, no_task, round, run_loop, run_one, run_until_idle, if_task-case,
  option-case, while-case,
}

module _ {A : Type 0} (C : Crossbeam A) (w g : A → ℕ) where
  -- The tasks in the pool and those that ran are those that were there at first, of weight `m`, and
  -- those that came from tasks.
  abbrev pub Balanced : ℕ → Loop C → Type 0
  Balanced m l = weigh C w l.pool + total w l.ran ≡ m + total g l.ran

  -- The same with the task `a` taken from the pool.
  abbrev pub Taken : ℕ → A → Loop C → Type 0
  Taken m a l = weigh C w l.pool + w a + total w l.ran ≡ m + total g l.ran

  module _ (task_kind : A → TaskKind) (run : A → Pool C → Pool C) (t m : ℕ)
      (adds : (a : A) (p : Pool C) → weigh C w (run a p) ≡ weigh C w p + g a) where
    pub run_task-Balanced :
        (a : A) (l : Loop C) → Taken m a l → Balanced m (run_task task_kind run t a l)
    unfolding run_task total
    run_task-Balanced a l h = omega (arith, h, adds a l.pool)

    if_task-Taken :
        (p : Pool C) (r : Ret (Option A) (Pool C)) (l : Loop C) (a : A)
        → Finds C w p r
        → weigh C w p + total w l.ran ≡ m + total g l.ran
        → r.value ≡ some a
        → Taken m a (record l { pool = r.pool })
    if_task-Taken p r l a f h e = omega (arith, f, h, ap (weigh_option w) e)

    if_task-Balanced :
        (p : Pool C) (r : Ret (Option A) (Pool C)) (l : Loop C)
        → Finds C w p r
        → weigh C w p + total w l.ran ≡ m + total g l.ran
        → r.value ≡ none
        → Balanced m (record l { pool = r.pool })
    if_task-Balanced p r l f h e = omega (arith, f, h, ap (weigh_option w) e)

    drain_local-Balanced :
        (n : ℕ) (l : Loop C) → Balanced m l → Balanced m (drain_local task_kind run t n l)
    unfolding drain_local
    drain_local-Balanced zero l h = h
    drain_local-Balanced (suc n) l h =
        let r = local_pop t l.pool in
        let l' = record l { pool = r.pool } in
        if_task-case (Balanced m) r.value _ _
          (λ a e. drain_local-Balanced n (run_task task_kind run t a l') (
            run_task-Balanced a l' (if_task-Taken l.pool r l a (local_pop-weigh C w t l.pool) h e)))
          (λ e. if_task-Balanced l.pool r l (local_pop-weigh C w t l.pool) h e)

    stolen-Finds :
        (p : Pool C) (r : Ret (Steal A) (Pool C))
        → weigh C w p ≡ weigh_steal w r.value + weigh C w r.pool
        → Finds C w p (once r)
    stolen-Finds p r h = ground arith

    spin-Finds : (n : ℕ) (p : Pool C) → Finds C w p (spin task_kind run t n p)
    unfolding spin
    spin-Finds zero p = omega arith
    spin-Finds (suc n) p =
        or_else-Finds C w p (local_pop t p)
          (λ q. or_else (once (steal_injector_into_local t q)) (spin task_kind run t n))
          (local_pop-weigh C w t p)
          λ q.
            or_else-Finds C w q (once (steal_injector_into_local t q)) (spin task_kind run t n)
              (stolen-Finds q (steal_injector_into_local t q)
                (steal_injector_into_local-weigh C w t q))
              (spin-Finds n)

    idle-Balanced : (l : Loop C) → Balanced m l → Balanced m (idle task_kind run t l)
    unfolding idle
    idle-Balanced l h =
        let marked = record (l.pool) { registry = mark_idle l.handle.id (l.pool).registry } in
        let r = once (steal_injector_into_local t marked) in
        let f =
          stolen-Finds marked (steal_injector_into_local t marked)
            (steal_injector_into_local-weigh C w t marked) in
        if_task-case (Balanced m) r.value _ _
          (λ a e. run_task-Balanced a _ (if_task-Taken marked r l a f h e))
          (λ e. if_task-Balanced marked r l f h e)

    no_task-Balanced : (l : Loop C) → Balanced m l → Balanced m (no_task task_kind run t l)
    unfolding no_task
    no_task-Balanced l h =
        let r = spin task_kind run t 32 l.pool in
        let l' = record l { pool = r.pool } in
        if_task-case (Balanced m) r.value _ _
          (λ a e. run_task-Balanced a l' (if_task-Taken l.pool r l a (spin-Finds 32 l.pool) h e))
          (λ e. idle-Balanced l' (if_task-Balanced l.pool r l (spin-Finds 32 l.pool) h e))

    count_task-Taken :
        (k : TaskKind) (a : A) (l : Loop C)
        → Taken m a l
        → Taken m a (count_task task_kind run t k l)
    unfolding count_task
    count_task-Taken rust a l h = h
    count_task-Taken python a l h = h

    if-case :
        {L : Type 0} (Q : L → Type 0) (b : Bool) (x y : L) → Q x → Q y → Q (if b then x else y)
    if-case Q true x y f h = f
    if-case Q false x y f h = h

    keep_budget-Taken :
        (a : A) (l : Loop C) → Taken m a l → Taken m a (keep_budget task_kind run t l)
    unfolding keep_budget
    keep_budget-Taken a l h =
        if-case (Taken m a) (ltb 32 l.consecutive_rust || ltb 32 l.consecutive_python) _ l h h

    check_budget-Taken :
        (a : A) (l : Loop C) → Taken m a l → Taken m a (check_budget task_kind run t a l)
    unfolding check_budget
    check_budget-Taken a l h =
        if-case (Taken m a) (is_bilingual l.handle.kind) _ l
          (keep_budget-Taken a (count_task task_kind run t (task_kind a) l)
            (count_task-Taken (task_kind a) a l h))
          h

    round-Balanced : (l : Loop C) → Balanced m l → Balanced m (round task_kind run t l)
    unfolding round
    round-Balanced l h =
        let f = find_task l.handle t l.pool in
        let l' = record l { handle = f.handle; pool = f.pool } in
        let found = find_task-weigh C w l.handle t l.pool in
        if_task-case (Balanced m) f.task _ _
          (λ a e.
            drain_local-Balanced 16 (run_task task_kind run t a (check_budget task_kind run t a l'))
              (run_task-Balanced a (check_budget task_kind run t a l')
                (check_budget-Taken a l' (omega (arith, found, h, ap (weigh_option w) e)))))
          (λ e. no_task-Balanced l' (omega (arith, found, h, ap (weigh_option w) e)))

    pub run_one-Balanced : (l : Loop C) → Balanced m l → Balanced m (run_one task_kind run t l).0
    unfolding run_one
    run_one-Balanced l h =
        let f = find_task l.handle t l.pool in
        let l' = record l { handle = f.handle; pool = f.pool } in
        let found = find_task-weigh C w l.handle t l.pool in
        option-case (λ (r : Loop C × Bool). Balanced m r.0) f.task (l', false)
          (λ a. (run_task task_kind run t a l', true))
          (λ e. omega (arith, found, h, ap (weigh_option w) e))
          (λ a e. run_task-Balanced a l' (omega (arith, found, h, ap (weigh_option w) e)))

    pub run_until_idle-Balanced :
        (n : ℕ) (l : Loop C) → Balanced m l → Balanced m (run_until_idle task_kind run t n l)
    unfolding run_until_idle
    run_until_idle-Balanced zero l h = h
    run_until_idle-Balanced (suc n) l h =
        let l' = (run_one task_kind run t l).0 in
        while-case (Balanced m) (run_one task_kind run t l).1 l'
          (run_until_idle task_kind run t n l') (run_one-Balanced l h)
          (run_until_idle-Balanced n l' (run_one-Balanced l h))

    rounds-Balanced :
        (n : ℕ) (l : Loop C) → Balanced m l → Balanced m (run_loop task_kind run t n l)
    unfolding run_loop
    rounds-Balanced zero l h = h
    rounds-Balanced (suc n) l h =
        while-case (Balanced m) (l.pool).running l
          (run_loop task_kind run t n (round task_kind run t l)) h
          (rounds-Balanced n (round task_kind run t l) (round-Balanced l h))

  -- However many rounds the loop of a worker makes that has run no task yet: if running a task
  -- changes the weight of the pool by just what `g` says, then under the weight `w` what the pool
  -- holds at the end and the tasks that ran add up to what the pool held at the start and what the
  -- tasks that ran have added. So each task is run once or is still in the pool.
  pub run_loop-Balanced :
      (task_kind : A → TaskKind) (run : A → Pool C → Pool C) (t n : ℕ) (l : Loop C)
      → ((a : A) (p : Pool C) → weigh C w (run a p) ≡ weigh C w p + g a)
      → l.ran ≡ []
      → let l' = run_loop task_kind run t n l in
        weigh C w l'.pool + total w l'.ran ≡ weigh C w l.pool + total g l'.ran
  unfolding total
  run_loop-Balanced task_kind run t n l adds e =
      rounds-Balanced task_kind run t (weigh C w l.pool) adds n l
        (omega (arith, ap (total w) e, ap (total g) e))
