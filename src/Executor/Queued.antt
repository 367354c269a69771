-- ===== src/Executor/Queued.antt =====
-- hypertile-core/src/executor.rs and task.rs: the handles of a task lie in the pool.
use hypertile.Base.{
  ℕ, suc, ◌+◌, ◌≡◌, ◌≢◌, refl, sym, ap, ◌∙◌, subst, Bool, true, false, Option, none, some, List,
  get_elem?, set, get_elem?-set_self, get_elem?-set_ne, get_elem?-lt, some-inj, eq_or_ne, inl, inr,
  ◌==◌, if◌then◌else◌, arith,
}
use hypertile.Task.Cell.{Shared, Pc, resting, run, complete, wake, cancel, join, Event, call_run}
use hypertile.Task.Methods.{step}
use hypertile.Task.System.{System, advance, advance-Advanced}
use hypertile.Task.Invariant.{IsSafe, advance-IsSafe}
use hypertile.Pool.Crossbeam.{Crossbeam}
use hypertile.Pool.Local.{Pool}
use hypertile.Pool.Conservation.{weigh, inject-weigh}
use hypertile.Executor.Machine.{
  Executor, pushes, takes, schedule, after_step, step_from, step_in, begin,
}

-- The weight that counts the handles of the task `id`.
abbrev pub of_task : ℕ → ℕ → ℕ
of_task id a = if a == id then 1 else 0

pub of_self : (id : ℕ) → of_task id id ≡ 1
of_self id = ground arith

pub of_other : (j id : ℕ) → id ≢ j → of_task j id ≡ 0
of_other j id n = ground arith

module _ {C : Crossbeam ℕ} where
  schedule_other :
      (b : Bool) (t id j : ℕ) (p : Pool C)
      → id ≢ j
      → weigh C (of_task j) (schedule b t id p) ≡ weigh C (of_task j) p
  unfolding schedule
  schedule_other true t id j p n = omega (arith, inject-weigh C (of_task j) t id p, of_other j id n)
  schedule_other false t id j p n = refl

  schedule_same :
      (b : Bool) (t id m : ℕ) (p : Pool C)
      → weigh C (of_task id) (schedule b t id p) + m
        ≡ weigh C (of_task id) p + (if b then suc m else m)
  unfolding schedule
  schedule_same true t id m p = omega (arith, inject-weigh C (of_task id) t id p, of_self id)
  schedule_same false t id m p = refl

module _ {F T P W : Type 0} where
  step_queued :
      (e : Event F T P W) (p q : Pc F T P W) (s s' : Shared F T P W)
      → step e p s ≡ some (s', q)
      → takes e p ≡ false
      → s'.queued ≡ (if pushes p then suc s.queued else s.queued)
  unfolding step
  step_queued e resting q s s' m z = ground arith
  step_queued e (run p) q s s' m z = ground arith
  step_queued e (complete p) q s s' m z = ground arith
  step_queued e (wake p) q s s' m z = ground arith
  step_queued e (cancel p) q s s' m z = ground arith
  step_queued e (join p) q s s' m z = ground arith

  call_run-queued :
      (q : Pc F T P W) (s s' : Shared F T P W)
      → step call_run resting s ≡ some (s', q)
      → s.queued ≡ suc s'.queued
  unfolding step
  call_run-queued q s s' m = ground arith

  -- The handles that the cell of a task counts; a task that was never spawned has none.
  abbrev pub queued_of : Option (System F T P W) → ℕ
  queued_of none = 0
  queued_of (some sys) = sys.shared.queued

  -- The task `id` has the cell `sys`, and gets `sys'`.
  module _ (ts : List (System F T P W)) (id : ℕ) (sys sys' : System F T P W)
      (here : get_elem? ts id ≡ some sys) where
    set-here : get_elem? (set ts id sys') id ≡ some sys'
    set-here = get_elem?-set_self ts id sys' (get_elem?-lt ts id sys here)

    -- Its handles change as those in the pool do.
    set-queued :
        (before after : ℕ → ℕ)
        → ((j : ℕ) → before j ≡ queued_of (get_elem? ts j))
        → ((j : ℕ) → id ≢ j → after j ≡ before j)
        → after id + sys.shared.queued ≡ before id + sys'.shared.queued
        → (j : ℕ) → after j ≡ queued_of (get_elem? (set ts id sys') j)
    set-queued before after kept other same j = elim (eq_or_ne id j) [
      | inl e ↦
          subst (λ i. after i ≡ queued_of (get_elem? (set ts id sys') i)) e
            (at_id ∙ sym (ap queued_of set-here))
      | inr n ↦ other j n ∙ (kept j ∙ sym (ap queued_of (get_elem?-set_ne ts sys' n)))
    ]
      where
        at_id : after id ≡ sys'.shared.queued
        at_id = omega (arith, same, kept id, ap queued_of here)

  set-IsSafe :
      (ts : List (System F T P W)) (id : ℕ) (sys sys' : System F T P W)
      → get_elem? ts id ≡ some sys
      → IsSafe sys'
      → ((j : ℕ) (s : System F T P W) → get_elem? ts j ≡ some s → IsSafe s)
      → (j : ℕ) (s : System F T P W) → get_elem? (set ts id sys') j ≡ some s
      → IsSafe s
  set-IsSafe ts id sys sys' here v safe j s g = elim (eq_or_ne id j) [
    | inl e ↦
        let q : get_elem? (set ts id sys') j ≡ some sys' =
          subst (λ i. get_elem? (set ts id sys') i ≡ some sys') e (set-here ts id sys sys' here) in
        subst IsSafe (some-inj (sym q ∙ g)) v
    | inr n ↦ safe j s (sym (get_elem?-set_ne ts sys' n) ∙ g)
  ]

module _ {C : Crossbeam ℕ} {F T P W : Type 0} where
  -- The handles of each task in the pool are as many as its cell counts, and its cell is safe.
  pub record IsKept (x : Executor C F T P W) : Type 0 where
    pub queued : (id : ℕ) → weigh C (of_task id) x.pool ≡ queued_of (get_elem? x.tasks id)
    pub safe : (id : ℕ) (sys : System F T P W) → get_elem? x.tasks id ≡ some sys → IsSafe sys

  after_step-IsKept :
      (t id k : ℕ) (e : Event F T P W) (sys : System F T P W) (p : Pc F T P W)
      (o : Option (System F T P W)) (x : Executor C F T P W)
      → get_elem? x.tasks id ≡ some sys
      → get_elem? sys.threads k ≡ some p
      → takes e p ≡ false
      → advance k e sys ≡ o
      → IsKept x
      → IsKept (after_step t id (pushes p) o x)
  unfolding after_step
  after_step-IsKept t id k e sys p none x here at z a h = h
  after_step-IsKept t id k e sys p (some sys') x here at z a h =
      let moved = advance-Advanced k e sys sys' a in
      let same : moved.from ≡ p = some-inj (sym moved.here ∙ at) in
      let q =
        step_queued e p moved.to sys.shared sys'.shared
          (subst (λ r. step e r sys.shared ≡ some (sys'.shared, moved.to)) same moved.moved) z in
      let same_weight =
        schedule_same (pushes p) t id sys.shared.queued x.pool
        ∙ ap (λ m. weigh C (of_task id) x.pool + m) (sym q) in
      record {
        queued =
            set-queued x.tasks id sys sys' here (λ j. weigh C (of_task j) x.pool)
              (λ j. weigh C (of_task j) (schedule (pushes p) t id x.pool)) h.queued
              (λ j. schedule_other (pushes p) t id j x.pool) same_weight;
        safe =
            set-IsSafe x.tasks id sys sys' here
              (advance-IsSafe k e sys sys' moved (h.safe id sys here)) h.safe;
      }

  pub step_in-IsKept :
      (t id k : ℕ) (e : Event F T P W) (o : Option (System F T P W)) (x : Executor C F T P W)
      → get_elem? x.tasks id ≡ o
      → IsKept x
      → IsKept (step_in t id k e o x)
  unfolding step_in
  step_in-IsKept t id k e none x here h = h
  step_in-IsKept t id k e (some sys) x here h = by_place (get_elem? sys.threads k) refl
    where
      by_test :
          (p : Pc F T P W) (b : Bool)
          → get_elem? sys.threads k ≡ some p
          → takes e p ≡ b
          → IsKept (if b then x else after_step t id (pushes p) (advance k e sys) x)
      by_test p true at z = h
      by_test p false at z = after_step-IsKept t id k e sys p (advance k e sys) x here at z refl h

      by_place :
          (o : Option (Pc F T P W))
          → get_elem? sys.threads k ≡ o
          → IsKept (step_from t id k e sys o x)
      by_place none at = h
      by_place (some p) at = by_test p (takes e p) at refl

  pub begin-IsKept :
      (id k : ℕ) (p : Pool C) (sys : System F T P W) (o : Option (System F T P W))
      (x : Executor C F T P W)
      → get_elem? x.tasks id ≡ some sys
      → get_elem? sys.threads k ≡ some resting
      → ((w : ℕ → ℕ) → weigh C w x.pool ≡ w id + weigh C w p)
      → advance k call_run sys ≡ o
      → IsKept x
      → IsKept (begin id p o x)
  unfolding begin
  begin-IsKept id k p sys none x here at m a h = h
  begin-IsKept id k p sys (some sys') x here at m a h =
      let moved = advance-Advanced k call_run sys sys' a in
      let same : moved.from ≡ resting = some-inj (sym moved.here ∙ at) in
      let q =
        call_run-queued moved.to sys.shared sys'.shared (
          subst (λ r. step call_run r sys.shared ≡ some (sys'.shared, moved.to)) same
            moved.moved) in
      record {
        queued =
            set-queued x.tasks id sys sys' here (λ j. weigh C (of_task j) x.pool)
              (λ j. weigh C (of_task j) p) h.queued
              (λ j n. omega (arith, m (of_task j), of_other j id n))
              (omega (arith, m (of_task id), of_self id, q));
        safe =
            set-IsSafe x.tasks id sys sys' here
              (advance-IsSafe k call_run sys sys' moved (h.safe id sys here)) h.safe;
      }
