-- ===== src/Pool/Budget.antt =====
-- hypertile-core/src/worker.rs: the budget of `run_loop`.
use hypertile.Base.{ℕ, zero, suc, ◌≤◌, ◌≡◌, ◌⊎◌, inl, inr, Bool-cases, arith}
use hypertile.Pool.Crossbeam.{Crossbeam}
use hypertile.Pool.Local.{Pool, local_pop}
use hypertile.Pool.Worker.{find_task}
use hypertile.Pool.Loop.{
  TaskKind, rust, python, is_bilingual, Loop, count_task, keep_budget, check_budget, run_task,
  drain_local, spin, idle, no_task, round, run_loop, if_task-case, while-case,
}

-- A streak of tasks of one kind is at most 32 long, and there is none of the other kind.
abbrev pub Within : ℕ → ℕ → Type 0
Within a b = ((a ≤ 32) × (b ≡ 0)) ⊎ ((a ≡ 0) × (b ≤ 32))

module _ {A : Type 0} {C : Crossbeam A} (task_kind : A → TaskKind) (run : A → Pool C → Pool C)
    (t : ℕ) where
  abbrev pub WithinBudget : Loop C → Type 0
  WithinBudget l = Within l.consecutive_rust l.consecutive_python

  count_task-keep_budget :
      (k : TaskKind) (l : Loop C)
      → WithinBudget l
      → WithinBudget (keep_budget task_kind run t (count_task task_kind run t k l))
  unfolding count_task keep_budget
  count_task-keep_budget rust l h = ground arith
  count_task-keep_budget python l h = ground arith

  check_budget-WithinBudget :
      (a : A) (l : Loop C) → WithinBudget l → WithinBudget (check_budget task_kind run t a l)
  unfolding check_budget
  check_budget-WithinBudget a l h = elim (Bool-cases (is_bilingual l.handle.kind)) [
    | inl e ↦ rw (e) (count_task-keep_budget (task_kind a) l h)
    | inr e ↦ rw (e) h
  ]

  run_task-WithinBudget :
      (a : A) (l : Loop C) → WithinBudget l → WithinBudget (run_task task_kind run t a l)
  unfolding run_task
  run_task-WithinBudget a l h = h

  drain_local-WithinBudget :
      (n : ℕ) (l : Loop C) → WithinBudget l → WithinBudget (drain_local task_kind run t n l)
  unfolding drain_local
  drain_local-WithinBudget zero l h = h
  drain_local-WithinBudget (suc n) l h =
      if_task-case WithinBudget (local_pop t l.pool).value _ _
        (λ a e.
          let l' = record l { pool = (local_pop t l.pool).pool } in
          drain_local-WithinBudget n (run_task task_kind run t a l') (run_task-WithinBudget a l' h))
        (λ e. h)

  idle-WithinBudget : (l : Loop C) → WithinBudget l → WithinBudget (idle task_kind run t l)
  unfolding idle run_task
  idle-WithinBudget l h = if_task-case WithinBudget _ _ _ (λ a e. h) (λ e. h)

  no_task-WithinBudget : (l : Loop C) → WithinBudget l → WithinBudget (no_task task_kind run t l)
  unfolding no_task
  no_task-WithinBudget l h =
      if_task-case WithinBudget (spin task_kind run t 32 l.pool).value _ _
        (λ a e.
          run_task-WithinBudget a (record l { pool = (spin task_kind run t 32 l.pool).pool }) h)
        (λ e. idle-WithinBudget (record l { pool = (spin task_kind run t 32 l.pool).pool }) h)

  round-WithinBudget : (l : Loop C) → WithinBudget l → WithinBudget (round task_kind run t l)
  unfolding round
  round-WithinBudget l h =
      let f = find_task l.handle t l.pool in
      let l' = record l { handle = f.handle; pool = f.pool } in
      if_task-case WithinBudget f.task _ _
        (λ a e.
          drain_local-WithinBudget 16
            (run_task task_kind run t a (check_budget task_kind run t a l'))
            (run_task-WithinBudget a (check_budget task_kind run t a l')
              (check_budget-WithinBudget a l' h)))
        (λ e. no_task-WithinBudget l' h)

  -- However many rounds a worker's loop makes, and whatever its tasks do, it counts a streak of at most
  -- 32 tasks of one kind, and none of the other kind, if it did so before.
  pub run_loop-WithinBudget :
      (n : ℕ) (l : Loop C) → WithinBudget l → WithinBudget (run_loop task_kind run t n l)
  unfolding run_loop
  run_loop-WithinBudget zero l h = h
  run_loop-WithinBudget (suc n) l h =
      while-case WithinBudget (l.pool).running l
        (run_loop task_kind run t n (round task_kind run t l)) h
        (run_loop-WithinBudget n (round task_kind run t l) (round-WithinBudget l h))
