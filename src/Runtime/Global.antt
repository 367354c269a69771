-- ===== src/Runtime/Global.antt =====
-- hypertile-core/src/runtime.rs: the global runtime, as seen by any number of threads that start and
-- configure it. A runtime is its number of workers.
use hypertile.Base.{ℕ, Option, none, some, List, [], ◌∷◌, replicate, get_elem?, set}
use hypertile.Runtime.Sizing.{resolve_worker_count}

-- Where a thread is in `configure_global_runtime`: outside, or with its candidate built.
pub data Pc : Type 0 where
  resting : Pc
  candidate : ℕ → Pc

-- A thread calls `global_runtime` or `configure_global_runtime`, or goes on with the latter.
pub data Event : Type 0 where
  get_or_init publish : Event
  configure : ℕ → Event

-- `used` are the runtimes that calls returned, `granted` those of `Ok`, `refused` the sizes in
-- `RuntimeAlreadyStarted`, and `stopped` the candidates that were dropped.
pub record Global : Type 0 where
  pub runtime : Option ℕ
  pub pcs : List Pc
  pub used : List ℕ
  pub granted : List ℕ
  pub refused : List ℕ
  pub stopped : List ℕ

unfoldable pub unstarted : ℕ → Global
unstarted threads = record {
  runtime = none;
  pcs = replicate threads resting;
  used = [];
  granted = [];
  refused = [];
  stopped = [];
}

module _ (env : Option (List ℕ)) (parallelism : Option ℕ) where
  -- `GLOBAL_RUNTIME.get_or_init`
  unfoldable pub get_or_init_step : Option ℕ → Global → Global
  get_or_init_step (some n) g = record g { used = n ∷ g.used }
  get_or_init_step none g =
      let n = resolve_worker_count env parallelism 0 in
      record g { runtime = some n; used = n ∷ g.used }

  -- The first half of `configure_global_runtime`.
  unfoldable pub configure_step : ℕ → ℕ → Option ℕ → Global → Global
  configure_step i requested (some n) g = record g { refused = n ∷ g.refused }
  configure_step i requested none g = record g {
    pcs = set g.pcs i (candidate (resolve_worker_count env parallelism requested));
  }

  -- `GLOBAL_RUNTIME.set(candidate)` and what follows.
  unfoldable pub publish_step : ℕ → ℕ → Option ℕ → Global → Global
  publish_step i n (some m) g = record g {
    pcs = set g.pcs i resting;
    refused = m ∷ g.refused;
    stopped = n ∷ g.stopped;
  }
  publish_step i n none g = record g {
    runtime = some n;
    pcs = set g.pcs i resting;
    granted = n ∷ g.granted;
  }

  unfoldable pub thread_step : ℕ → Option Pc → Event → Global → Global
  unfolding get_or_init_step configure_step publish_step
  thread_step i (some resting) get_or_init g = get_or_init_step g.runtime g
  thread_step i (some resting) (configure requested) g = configure_step i requested g.runtime g
  thread_step i (some (candidate n)) publish g = publish_step i n g.runtime g
  thread_step i o e g = g

  -- One step of thread `i`.
  unfoldable pub step : ℕ → Event → Global → Global
  unfolding thread_step
  step i e g = thread_step i (get_elem? g.pcs i) e g

  unfoldable pub run : List (ℕ × Event) → Global → Global
  run [] g = g
  run ((i, e) ∷ es) g = run es (step i e g)

  -- `init_global_runtime` on thread `i`, with no other thread in between: what it returns is the
  -- runtime that is there then.
  unfoldable pub init_global_runtime : ℕ → ℕ → Global → Global × Option ℕ
  unfolding step
  init_global_runtime i requested g =
      let after = step i publish (step i (configure requested) g) in (after, after.runtime)
