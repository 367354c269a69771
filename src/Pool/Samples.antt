-- ===== src/Pool/Samples.antt =====
-- Deques as lists, and a pool over them.
use hypertile.Base.{
  ℕ, ◌+◌, ◌≡◌, refl, Option, none, some, List, [], ◌∷◌, ◌++◌, total, total-append, arith,
}
use hypertile.Registry.Defs.{native}
use hypertile.Pool.Crossbeam.{Crossbeam, Steal, empty, success, popped, weigh_steal}
use hypertile.Pool.Local.{Pool, new_core, inject}
use hypertile.Pool.Worker.{WorkerHandle, new_worker}

abbrev pub pop_list : List ℕ → Option ℕ × List ℕ
pop_list [] = (none, [])
pop_list (x ∷ xs) = (some x, xs)

abbrev pub steal_list : List ℕ → Steal ℕ × List ℕ
steal_list [] = (empty, [])
steal_list (x ∷ xs) = (success x, xs)

-- Takes one task and moves another.
abbrev pub batch_list : List ℕ → List ℕ → Steal ℕ × List ℕ × List ℕ
batch_list [] d = (empty, [], d)
batch_list (x ∷ []) d = (success x, [], d)
batch_list (x ∷ y ∷ xs) d = (success x, xs, d ++ (y ∷ []))

pub items-pop_list : (d : List ℕ) → d ≡ popped (pop_list d).0 (pop_list d).1
items-pop_list [] = refl
items-pop_list (x ∷ xs) = refl

pub pop_list-none : (d : List ℕ) → (pop_list d).0 ≡ none → d ≡ []
pop_list-none [] h = refl
pop_list-none (x ∷ xs) h = cc

pub steal_list-empty : (d : List ℕ) → (steal_list d).0 ≡ empty → d ≡ []
steal_list-empty [] h = refl
steal_list-empty (x ∷ xs) h = cc

pub steal_list-total :
    (w : ℕ → ℕ) (d : List ℕ) → total w d ≡ weigh_steal w (steal_list d).0 + total w (steal_list d).1
unfolding total
steal_list-total w [] = refl
steal_list-total w (x ∷ xs) = refl

pub batch_list-empty : (q d : List ℕ) → (batch_list q d).0 ≡ empty → q ≡ []
batch_list-empty [] d h = refl
batch_list-empty (x ∷ []) d h = cc
batch_list-empty (x ∷ y ∷ xs) d h = cc

pub batch_list-total :
    (w : ℕ → ℕ) (q d : List ℕ)
    → let (s, q', d') = batch_list q d in
      total w q + total w d ≡ weigh_steal w s + total w q' + total w d'
unfolding total
batch_list-total w [] d = omega arith
batch_list-total w (x ∷ []) d = omega arith
batch_list-total w (x ∷ y ∷ xs) d = omega (arith, total-append w d (y ∷ []))

abbrev pub lists : Crossbeam ℕ
lists = record {
  Worker = List ℕ;
  Injector = List ℕ;
  items = λ d. d;
  waiting = λ q. q;
  new_fifo = [];
  new_injector = [];
  push = λ a d. d ++ (a ∷ []);
  pop = pop_list;
  inject = λ a q. q ++ (a ∷ []);
  injector_steal = steal_list;
  injector_steal_batch = batch_list;
  steal = steal_list;
  steal_batch = batch_list;
  steal_batch_self = steal_list;
  items-new_fifo = refl;
  waiting-new_injector = refl;
  items-push = λ a d. refl;
  items-pop = items-pop_list;
  pop-none = pop_list-none;
  waiting-inject = λ a q. refl;
  injector_steal-total = steal_list-total;
  injector_steal-empty = steal_list-empty;
  injector_steal_batch-total = batch_list-total;
  injector_steal_batch-empty = batch_list-empty;
  steal-total = steal_list-total;
  steal_batch-total = batch_list-total;
  steal_batch_self-total = steal_list-total;
}

-- Tasks 10, 11 and 12 are in the injector; thread 0 has the worker 1 with the tasks 20 and 21.
abbrev pub shared_tasks : Pool lists
shared_tasks = inject 5 12 (inject 5 11 (inject 5 10 new_core))

abbrev pub busy : Pool lists
busy = inject 0 21 (inject 0 20 (new_worker 0 native shared_tasks).pool)

abbrev pub handle : ℕ → WorkerHandle
handle tick = record { id = 1; kind = native; tick = tick }
