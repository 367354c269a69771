-- ===== src/Runtime/Once.antt =====
-- hypertile-core/src/runtime.rs: the global runtime is started once, and everyone sees the same one.
use hypertile.Base.{
  ℕ, ◌≤◌, ◌≡◌, refl, ap, Option, none, some, List, [], ◌∷◌, length, get_elem?, All, arith,
}
use hypertile.Runtime.Global.{
  Pc, resting, candidate, Event, get_or_init, publish, configure, Global, unstarted,
  get_or_init_step, configure_step, publish_step, thread_step, step, run,
}

-- All that calls returned is the runtime that is there.
pub record Agrees (g : Global) : Type 0 where
  pub used : All (λ n. g.runtime ≡ some n) g.used
  pub granted : All (λ n. g.runtime ≡ some n) g.granted
  pub refused : All (λ n. g.runtime ≡ some n) g.refused
  pub once : length g.granted ≤ 1
  pub fresh : g.runtime ≡ none → g.granted ≡ []

-- A list whose members would all be the runtime is empty while there is none.
nothing :
    (xs : List ℕ) (P : ℕ → Type 0) (o : Option ℕ) → o ≡ none → All (λ n. o ≡ some n) xs → All P xs
nothing [] P o e a = tt
nothing (x ∷ xs) P o e a = cc

unstarted-Agrees : (threads : ℕ) → Agrees (unstarted threads)
unfolding unstarted
unstarted-Agrees threads = record {
  used = tt;
  granted = tt;
  refused = tt;
  once = omega arith;
  fresh = λ h. refl;
}

module _ (env : Option (List ℕ)) (parallelism : Option ℕ) where
  get_or_init-Agrees :
      (o : Option ℕ) (g : Global)
      → g.runtime ≡ o
      → Agrees g
      → Agrees (get_or_init_step env parallelism o g)
  unfolding get_or_init_step
  get_or_init-Agrees (some n) g e a = record {
    used = (e, a.used);
    granted = a.granted;
    refused = a.refused;
    once = a.once;
    fresh = a.fresh;
  }
  get_or_init-Agrees none g e a = record {
    used = (refl, nothing g.used _ g.runtime e a.used);
    granted = nothing g.granted _ g.runtime e a.granted;
    refused = nothing g.refused _ g.runtime e a.refused;
    once = a.once;
    fresh = λ h. cc;
  }

  configure-Agrees :
      (i requested : ℕ) (o : Option ℕ) (g : Global)
      → g.runtime ≡ o
      → Agrees g
      → Agrees (configure_step env parallelism i requested o g)
  unfolding configure_step
  configure-Agrees i requested (some n) g e a = record {
    used = a.used;
    granted = a.granted;
    refused = (e, a.refused);
    once = a.once;
    fresh = a.fresh;
  }
  configure-Agrees i requested none g e a = record {
    used = a.used;
    granted = a.granted;
    refused = a.refused;
    once = a.once;
    fresh = a.fresh;
  }

  publish-Agrees :
      (i n : ℕ) (o : Option ℕ) (g : Global)
      → g.runtime ≡ o
      → Agrees g
      → Agrees (publish_step env parallelism i n o g)
  unfolding publish_step
  publish-Agrees i n (some m) g e a = record {
    used = a.used;
    granted = a.granted;
    refused = (e, a.refused);
    once = a.once;
    fresh = a.fresh;
  }
  publish-Agrees i n none g e a = record {
    used = nothing g.used _ g.runtime e a.used;
    granted = (refl, nothing g.granted _ g.runtime e a.granted);
    refused = nothing g.refused _ g.runtime e a.refused;
    once = omega (arith, ap length (a.fresh e));
    fresh = λ h. cc;
  }

  thread_step-Agrees :
      (i : ℕ) (o : Option Pc) (e : Event) (g : Global)
      → Agrees g
      → Agrees (thread_step env parallelism i o e g)
  unfolding thread_step
  thread_step-Agrees i (some resting) get_or_init g a = get_or_init-Agrees g.runtime g refl a
  thread_step-Agrees i (some resting) (configure requested) g a =
      configure-Agrees i requested g.runtime g refl a
  thread_step-Agrees i (some resting) publish g a = a
  thread_step-Agrees i (some (candidate n)) publish g a = publish-Agrees i n g.runtime g refl a
  thread_step-Agrees i (some (candidate n)) get_or_init g a = a
  thread_step-Agrees i (some (candidate n)) (configure requested) g a = a
  thread_step-Agrees i none get_or_init g a = a
  thread_step-Agrees i none publish g a = a
  thread_step-Agrees i none (configure requested) g a = a

  run-Agrees : (es : List (ℕ × Event)) (g : Global) → Agrees g → Agrees (run env parallelism es g)
  unfolding run step
  run-Agrees [] g a = a
  run-Agrees ((i, e) ∷ es) g a =
      run-Agrees es (step env parallelism i e g) (thread_step-Agrees i (get_elem? g.pcs i) e g a)

  -- However the calls of any number of threads interleave, each runtime that a call returned, and each
  -- size that a refusal reported, is the one global runtime, and at most one call of
  -- `configure_global_runtime` succeeded.
  pub run-unstarted :
      (threads : ℕ) (es : List (ℕ × Event))
      → let g = run env parallelism es (unstarted threads) in
        All (λ n. g.runtime ≡ some n) g.used
        × All (λ n. g.runtime ≡ some n) g.granted
        × All (λ n. g.runtime ≡ some n) g.refused
        × (length g.granted ≤ 1)
  run-unstarted threads es = (a.used, a.granted, a.refused, a.once)
    where
      a : Agrees (run env parallelism es (unstarted threads))
      a = run-Agrees es (unstarted threads) (unstarted-Agrees threads)

  thread_step-runtime :
      (i n : ℕ) (o : Option Pc) (e : Event) (g : Global)
      → g.runtime ≡ some n
      → (thread_step env parallelism i o e g).runtime ≡ some n
  unfolding thread_step get_or_init_step configure_step publish_step
  thread_step-runtime i n (some resting) get_or_init g h = rw (h) refl
  thread_step-runtime i n (some resting) (configure requested) g h = rw (h) refl
  thread_step-runtime i n (some resting) publish g h = h
  thread_step-runtime i n (some (candidate m)) publish g h = rw (h) refl
  thread_step-runtime i n (some (candidate m)) get_or_init g h = h
  thread_step-runtime i n (some (candidate m)) (configure requested) g h = h
  thread_step-runtime i n none get_or_init g h = h
  thread_step-runtime i n none publish g h = h
  thread_step-runtime i n none (configure requested) g h = h

  -- Once started, the global runtime keeps its size, whatever is called after.
  run-runtime :
      (n : ℕ) (es : List (ℕ × Event)) (g : Global)
      → g.runtime ≡ some n
      → (run env parallelism es g).runtime ≡ some n
  unfolding run step
  run-runtime n [] g h = h
  run-runtime n ((i, e) ∷ es) g h =
      run-runtime n es (step env parallelism i e g)
        (thread_step-runtime i n (get_elem? g.pcs i) e g h)
