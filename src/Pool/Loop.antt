-- ===== src/Pool/Loop.antt =====
-- hypertile-core/src/worker.rs: `run_loop`, `run_until_idle` and `run_one`.
use hypertile.Base.{
  ℕ, zero, suc, ◌≡◌, refl, Bool, true, false, Option, none, some, List, ◌∷◌, ◌||◌, ltb,
  if◌then◌else◌,
}
use hypertile.Registry.Defs.{WorkerKind, native, bilingual, mark_idle, unmark_idle}
use hypertile.Pool.Crossbeam.{Crossbeam}
use hypertile.Pool.Local.{Ret, Pool, local_pop, steal_injector_into_local}
use hypertile.Pool.Worker.{WorkerHandle, or_else, once, find_task}

pub data TaskKind : Type 0 where
  rust python : TaskKind

abbrev pub is_bilingual : WorkerKind → Bool
is_bilingual bilingual = true
is_bilingual native = false

-- A worker in its loop; `ran` is the trace of the tasks that it ran, the newest first.
pub record Loop {A : Type 0} (C : Crossbeam A) : Type 0 where
  pub handle : WorkerHandle
  pub consecutive_rust : ℕ
  pub consecutive_python : ℕ
  pub pool : Pool C
  pub ran : List A

abbrev pub task_budget : ℕ
task_budget = 32

-- `if let Some(task) = o`
unfoldable pub if_task : {A : Type 0} {C : Crossbeam A} → Option A → (A → Loop C) → Loop C → Loop C
if_task none k l = l
if_task (some a) k l = k a

pub if_task-case :
    {A : Type 0} {C : Crossbeam A} (Q : Loop C → Type 0) (o : Option A) (k : A → Loop C)
    (l : Loop C)
    → ((a : A) → o ≡ some a → Q (k a))
    → (o ≡ none → Q l)
    → Q (if_task o k l)
unfolding if_task
if_task-case Q none k l f g = g refl
if_task-case Q (some a) k l f g = f a refl

pub option-case :
    {A L : Type 0} (Q : L → Type 0) (o : Option A) (x : L) (k : A → L)
    → (o ≡ none → Q x)
    → ((a : A) → o ≡ some a → Q (k a))
    → Q (elim o [ none ↦ x | some a ↦ k a ])
option-case Q none x k f g = f refl
option-case Q (some a) x k f g = g a refl

pub while-case :
    {L : Type 0} (Q : L → Type 0) (b : Bool) (stop next : L)
    → Q stop
    → Q next
    → Q (elim b [ false ↦ stop | true ↦ next ])
while-case Q false stop next f g = f
while-case Q true stop next f g = g

-- `t` is the thread. What running a task does to the pool is a parameter.
module _ {A : Type 0} {C : Crossbeam A} (task_kind : A → TaskKind) (run : A → Pool C → Pool C)
    (t : ℕ) where
  unfoldable pub count_task : TaskKind → Loop C → Loop C
  count_task rust l = record l { consecutive_rust = suc l.consecutive_rust; consecutive_python = 0 }
  count_task python l = record l {
    consecutive_rust = 0;
    consecutive_python = suc l.consecutive_python;
  }

  unfoldable pub keep_budget : Loop C → Loop C
  keep_budget l =
      if ltb task_budget l.consecutive_rust || ltb task_budget l.consecutive_python
      then record l { consecutive_rust = 0; consecutive_python = 0 }
      else l

  -- The check of the budget, which only bilingual workers have.
  unfoldable pub check_budget : A → Loop C → Loop C
  check_budget a l =
      if is_bilingual l.handle.kind then keep_budget (count_task (task_kind a) l) else l

  unfoldable pub run_task : A → Loop C → Loop C
  run_task a l = record l { pool = run a l.pool; ran = a ∷ l.ran }

  -- The local batch, of `n` tasks at most.
  unfoldable pub drain_local : ℕ → Loop C → Loop C
  drain_local zero l = l
  drain_local (suc n) l =
      let r = local_pop t l.pool in
      let l' = record l { pool = r.pool } in if_task r.value (λ a. drain_local n (run_task a l')) l'

  -- The spin, of `n` rounds at most.
  unfoldable pub spin : ℕ → Pool C → Ret (Option A) (Pool C)
  spin zero p = record { value = none; pool = p }
  spin (suc n) p =
      or_else (local_pop t p) (λ q. or_else (once (steal_injector_into_local t q)) (spin n))

  -- The second look into the injector, and the parking, which ends by itself.
  unfoldable pub idle : Loop C → Loop C
  idle l =
      let id = l.handle.id in
      let marked = record (l.pool) { registry = mark_idle id (l.pool).registry } in
      let r = once (steal_injector_into_local t marked) in
      let left = record l {
        pool = record (r.pool) { registry = unmark_idle id (r.pool).registry };
      } in
      if_task r.value (λ a. run_task a left) left

  unfoldable pub no_task : Loop C → Loop C
  no_task l =
      let r = spin 32 l.pool in
      let spun = record l { pool = r.pool } in if_task r.value (λ a. run_task a spun) (idle spun)

  -- One round of the loop.
  unfoldable pub round : Loop C → Loop C
  round l =
      let f = find_task l.handle t l.pool in
      let l' = record l { handle = f.handle; pool = f.pool } in
      if_task f.task (λ a. drain_local 16 (run_task a (check_budget a l'))) (no_task l')

  -- At most `n` rounds.
  unfoldable pub run_loop : ℕ → Loop C → Loop C
  run_loop zero l = l
  run_loop (suc n) l = elim (l.pool).running [ false ↦ l | true ↦ run_loop n (round l) ]

  unfoldable pub run_one : Loop C → Loop C × Bool
  run_one l =
      let f = find_task l.handle t l.pool in
      let l' = record l { handle = f.handle; pool = f.pool } in
      elim f.task [ none ↦ (l', false) | some a ↦ (run_task a l', true) ]

  -- At most `n` rounds.
  unfoldable pub run_until_idle : ℕ → Loop C → Loop C
  run_until_idle zero l = l
  run_until_idle (suc n) l =
      let (l', found) = run_one l in elim found [ false ↦ l' | true ↦ run_until_idle n l' ]
