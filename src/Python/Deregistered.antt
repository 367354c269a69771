-- ===== src/Python/Deregistered.antt =====
-- hypertile-sys/src/lib.rs: a worker that was deregistered.
use hypertile.Base.{
  ℕ, ◌<◌, ◌≡◌, ◌≢◌, sym, subst, ap, ◌∙◌, get_elem?-some, get_elem?-lt, Option, none, some, List, [],
  ◌∷◌, length, get_elem?, get_elem?-set_self, get_elem?-set_ne, get_elem?-append_some, eq_or_ne,
  inl, inr,
}
use hypertile.Registry.Defs.{WorkerKind}
use hypertile.Pool.Crossbeam.{Crossbeam}
use hypertile.Pool.Local.{Pool}
use hypertile.Pool.Loop.{TaskKind}
use hypertile.Python.Outcome.{PyResult, ok, err}
use hypertile.Python.Worker.{
  RegistrationError, deregistered, worker_kind, Registered, worker_id, Module, register_as,
  register_worker, inner, deregister, run_one, run_until_idle, Call, registering, running_one,
  running_until_idle, deregistering, call, calls,
}

-- The object `i` is there and has no worker.
abbrev pub IsGone : ℕ → List (Option Registered) → Type 0
IsGone i ws = get_elem? ws i ≡ some none

module _ {A : Type 0} {C : Crossbeam A} (i : ℕ) where
  inner-IsGone : (m : Module C) → IsGone i m.workers → inner i m ≡ none
  inner-IsGone m h = ap (λ o. elim o [ none ↦ none | some r ↦ r ]) h

  register_as-IsGone :
      (t : ℕ) (kind : PyResult WorkerKind RegistrationError) (m : Module C)
      → IsGone i m.workers
      → IsGone i (register_as t kind m).0.workers
  unfolding register_as
  register_as-IsGone t (err e) m h = h
  register_as-IsGone t (ok kind) m h = get_elem?-append_some m.workers _ i none h

  deregister-IsGone :
      (j : ℕ) (o : Option Registered) (m : Module C)
      → j ≢ i
      → IsGone i m.workers
      → IsGone i (deregister j o m).workers
  unfolding deregister
  deregister-IsGone j none m n h = h
  deregister-IsGone j (some r) m n h = get_elem?-set_ne m.workers none n ∙ h

  module _ (task_kind : A → TaskKind) (run : A → Pool C → Pool C) where
    run_one-IsGone :
        (j : ℕ) (o : Option Registered) (m : Module C)
        → j ≢ i
        → IsGone i m.workers
        → IsGone i (run_one task_kind run j o m).0.workers
    unfolding run_one
    run_one-IsGone j none m n h = h
    run_one-IsGone j (some r) m n h = get_elem?-set_ne m.workers _ n ∙ h

    run_until_idle-IsGone :
        (k j : ℕ) (o : Option Registered) (m : Module C)
        → j ≢ i
        → IsGone i m.workers
        → IsGone i (run_until_idle task_kind run k j o m).0.workers
    unfolding run_until_idle
    run_until_idle-IsGone k j none m n h = h
    run_until_idle-IsGone k j (some r) m n h = get_elem?-set_ne m.workers _ n ∙ h

    -- What the methods of the object do.
    methods-IsGone :
        (n : ℕ) (m : Module C)
        → IsGone i m.workers
        → (run_one task_kind run i (inner i m) m ≡ (m, err deregistered))
          × (run_until_idle task_kind run n i (inner i m) m ≡ (m, err deregistered))
          × (worker_id (inner i m) ≡ err deregistered)
          × (deregister i (inner i m) m ≡ m)
    unfolding run_one run_until_idle worker_id deregister
    methods-IsGone n m h =
        let e = inner-IsGone m h in
        (
          ap (λ o. run_one task_kind run i o m) e,
          ap (λ o. run_until_idle task_kind run n i o m) e,
          ap worker_id e,
          ap (λ o. deregister i o m) e,
        )

    -- A method of the object itself leaves it as it is.
    same-IsGone :
        (f : ℕ → Module C) (j : ℕ) (m : Module C)
        → j ≡ i
        → f i ≡ m
        → IsGone i m.workers
        → IsGone i (f j).workers
    same-IsGone f j m e q h =
        subst (λ k. IsGone i (f k).workers) (sym e) (subst (λ n. IsGone i n.workers) (sym q) h)

    call-IsGone :
        (c : Call) (m : Module C) → IsGone i m.workers → IsGone i (call task_kind run c m).workers
    unfolding call register_worker
    call-IsGone (registering t kind) m h = register_as-IsGone t (worker_kind kind) m h
    call-IsGone (running_one j) m h = elim (eq_or_ne j i) [
      | inl e ↦
          same-IsGone (λ k. (run_one task_kind run k (inner k m) m).0) j m e
            (ap (λ r. r.0) (methods-IsGone 0 m h).0) h
      | inr n ↦ run_one-IsGone j (inner j m) m n h
    ]
    call-IsGone (running_until_idle k j) m h = elim (eq_or_ne j i) [
      | inl e ↦
          same-IsGone (λ l. (run_until_idle task_kind run k l (inner l m) m).0) j m e
            (ap (λ r. r.0) (methods-IsGone k m h).1) h
      | inr n ↦ run_until_idle-IsGone k j (inner j m) m n h
    ]
    call-IsGone (deregistering j) m h = elim (eq_or_ne j i) [
      | inl e ↦ same-IsGone (λ l. deregister l (inner l m) m) j m e (methods-IsGone 0 m h).3 h
      | inr n ↦ deregister-IsGone j (inner j m) m n h
    ]

    calls-IsGone :
        (cs : List Call) (m : Module C)
        → IsGone i m.workers
        → IsGone i (calls task_kind run cs m).workers
    unfolding calls
    calls-IsGone [] m h = h
    calls-IsGone (c ∷ cs) m h = calls-IsGone cs (call task_kind run c m) (call-IsGone c m h)

    gone_now :
        (o : Option Registered) (m : Module C)
        → get_elem? m.workers i ≡ some o
        → IsGone i (deregister i o m).workers
    unfolding deregister
    gone_now none m h = h
    gone_now (some r) m h =
        get_elem?-set_self m.workers i none (get_elem?-lt m.workers i (some r) h)

    gone : (m : Module C) → i < length m.workers → IsGone i (deregister i (inner i m) m).workers
    gone m l =
        let (o, h) = get_elem?-some m.workers i l in
        let e : inner i m ≡ o = ap (λ q. elim q [ none ↦ none | some r ↦ r ]) h in
        subst (λ q. IsGone i (deregister i q m).workers) (sym e) (gone_now o m h)

    -- Once the object `i` was deregistered, whatever Python calls afterwards, `run_one`,
    -- `run_until_idle` and `worker_id` raise `RegistrationError` and leave everything as it is, and
    -- so does `deregister`, which raises nothing.
    pub deregister_for_good :
        (cs : List Call) (n : ℕ) (m : Module C)
        → i < length m.workers
        → let q = calls task_kind run cs (call task_kind run (deregistering i) m) in
          (run_one task_kind run i (inner i q) q ≡ (q, err deregistered))
          × (run_until_idle task_kind run n i (inner i q) q ≡ (q, err deregistered))
          × (worker_id (inner i q) ≡ err deregistered)
          × (deregister i (inner i q) q ≡ q)
    unfolding call
    deregister_for_good cs n m l =
        let d = deregister i (inner i m) m in
        methods-IsGone n (calls task_kind run cs d) (calls-IsGone cs d (gone m l))
