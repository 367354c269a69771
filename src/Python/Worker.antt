-- ===== src/Python/Worker.antt =====
-- hypertile-sys/src/lib.rs and hypertile-core/src/registration.rs: the workers that Python registers.
-- A character is its code.
use hypertile.Base.{
  ℕ, ◌+◌, Bool, true, false, ◌&&◌, Option, none, some, List, [], ◌∷◌, ◌++◌, map, get_elem?, set,
  leb, ◌==◌, if◌then◌else◌,
}
use hypertile.Registry.Defs.{WorkerKind, native, bilingual}
use hypertile.Pool.Crossbeam.{Crossbeam}
use hypertile.Pool.Local.{Pool}
use hypertile.Pool.Worker.{WorkerHandle, new_worker, drop_guard}
use hypertile.Pool.Loop.{TaskKind, Loop}
use hypertile.Pool.Loop
use hypertile.Python.Outcome.{PyResult, ok, err}

pub data RegistrationError : Type 0 where
  deregistered : RegistrationError
  invalid_kind : List ℕ → RegistrationError

-- `to_lowercase`, as far as the two words are concerned.
abbrev pub lowercase : ℕ → ℕ
lowercase c = if leb 65 c && leb c 90 then c + 32 else c

abbrev pub same_text : List ℕ → List ℕ → Bool
same_text [] [] = true
same_text (c ∷ cs) (d ∷ ds) = (c == d) && same_text cs ds
same_text cs ds = false

-- "bilingual" and "native"
abbrev pub bilingual_text : List ℕ
bilingual_text = 98 ∷ 105 ∷ 108 ∷ 105 ∷ 110 ∷ 103 ∷ 117 ∷ 97 ∷ 108 ∷ []

abbrev pub native_text : List ℕ
native_text = 110 ∷ 97 ∷ 116 ∷ 105 ∷ 118 ∷ 101 ∷ []

unfoldable pub worker_kind : List ℕ → PyResult WorkerKind RegistrationError
worker_kind kind =
    let other = map lowercase kind in
    if same_text other bilingual_text
    then ok bilingual
    else if same_text other native_text
    then ok native
    else err (invalid_kind other)

-- `RegisteredWorker`, on the thread that made it.
pub record Registered : Type 0 where
  pub thread : ℕ
  pub handle : WorkerHandle

unfoldable pub worker_id : Option Registered → PyResult ℕ RegistrationError
worker_id none = err deregistered
worker_id (some w) = ok w.handle.id

-- The pool, the trace of the tasks that ran, and the objects `PyRegisteredWorker`.
pub record Module {A : Type 0} (C : Crossbeam A) : Type 0 where
  pub pool : Pool C
  pub ran : List A
  pub workers : List (Option Registered)

module _ {A : Type 0} {C : Crossbeam A} where
  unfoldable pub register_as :
      ℕ
      → PyResult WorkerKind RegistrationError
      → Module C
      → Module C × PyResult WorkerHandle RegistrationError
  register_as t (err e) m = (m, err e)
  register_as t (ok kind) m =
      let r = new_worker t kind m.pool in
      (
        record m {
          pool = r.pool;
          workers = m.workers ++ (some (record { thread = t; handle = r.value }) ∷ []);
        },
        ok r.value,
      )

  -- `register_worker` on the thread `t`; the new object is the last.
  unfoldable pub register_worker :
      ℕ → List ℕ → Module C → Module C × PyResult WorkerHandle RegistrationError
  unfolding worker_kind register_as
  register_worker t kind m = register_as t (worker_kind kind) m

  -- The worker of the object `i`.
  abbrev pub inner : ℕ → Module C → Option Registered
  inner i m = elim (get_elem? m.workers i) [ none ↦ none | some o ↦ o ]

  abbrev pub loop_of : Registered → Module C → Loop C
  loop_of w m = record {
    handle = w.handle;
    consecutive_rust = 0;
    consecutive_python = 0;
    pool = m.pool;
    ran = m.ran;
  }

  abbrev pub after_loop : ℕ → Registered → Loop C → Module C → Module C
  after_loop i w l m = record m {
    pool = l.pool;
    ran = l.ran;
    workers = set m.workers i (some (record w { handle = l.handle }));
  }

  unfoldable pub deregister : ℕ → Option Registered → Module C → Module C
  deregister i none m = m
  deregister i (some w) m = record m {
    pool = drop_guard w.thread w.handle.id m.pool;
    workers = set m.workers i none;
  }

  module _ (task_kind : A → TaskKind) (run : A → Pool C → Pool C) where
    unfoldable pub run_one :
        ℕ → Option Registered → Module C → Module C × PyResult Bool RegistrationError
    run_one i none m = (m, err deregistered)
    run_one i (some w) m =
        let (l, found) = Loop.run_one task_kind run w.thread (loop_of w m) in
        (after_loop i w l m, ok found)

    -- At most `n` tasks.
    unfoldable pub run_until_idle :
        ℕ → ℕ → Option Registered → Module C → Module C × PyResult Unit RegistrationError
    run_until_idle n i none m = (m, err deregistered)
    run_until_idle n i (some w) m =
        (after_loop i w (Loop.run_until_idle task_kind run w.thread n (loop_of w m)) m, ok tt)

-- What Python calls: `register_worker`, and the methods of an object; `__exit__` deregisters it.
pub data Call : Type 0 where
  registering : ℕ → List ℕ → Call
  running_one : ℕ → Call
  running_until_idle : ℕ → ℕ → Call
  deregistering : ℕ → Call

module _ {A : Type 0} {C : Crossbeam A} (task_kind : A → TaskKind) (run : A → Pool C → Pool C) where
  unfoldable pub call : Call → Module C → Module C
  unfolding register_worker run_one run_until_idle deregister
  call (registering t kind) m = (register_worker t kind m).0
  call (running_one i) m = (run_one task_kind run i (inner i m) m).0
  call (running_until_idle n i) m = (run_until_idle task_kind run n i (inner i m) m).0
  call (deregistering i) m = deregister i (inner i m) m

  unfoldable pub calls : List Call → Module C → Module C
  calls [] m = m
  calls (c ∷ cs) m = calls cs (call c m)
