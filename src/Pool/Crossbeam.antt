-- ===== src/Pool/Crossbeam.antt =====
-- The deques of the crossbeam library, which the executor uses and does not implement: their
-- operations, a view of what they hold, and what their documentation promises.
use hypertile.Base.{ℕ, ◌+◌, ◌≡◌, Option, none, some, List, [], ◌∷◌, ◌++◌, total}

pub data Steal {ℓ} (A : Type ℓ) : Type ℓ where
  empty retry : Steal A
  success : A → Steal A

module _ {ℓ} {A : Type ℓ} where
  abbrev pub popped : Option A → List A → List A
  popped none xs = xs
  popped (some a) xs = a ∷ xs

  abbrev pub weigh_option : (A → ℕ) → Option A → ℕ
  weigh_option w none = 0
  weigh_option w (some a) = w a

  abbrev pub weigh_steal : (A → ℕ) → Steal A → ℕ
  weigh_steal w (success a) = w a
  weigh_steal w _ = 0

-- A steal may lose a race, and then asks for a retry; a value that holds its own race results is as
-- good as any. That no task is lost or doubled is said by weights: `total w` of what is held, with
-- any weight of the tasks, adds up.
pub record Crossbeam (A : Type 0) : Type 1 where
  pub Worker : Type 0
  pub Injector : Type 0
  pub items : Worker → List A  -- next to be popped first
  pub waiting : Injector → List A  -- oldest first
  pub new_fifo : Worker
  pub new_injector : Injector
  pub push : A → Worker → Worker
  pub pop : Worker → Option A × Worker
  pub inject : A → Injector → Injector
  pub injector_steal : Injector → Steal A × Injector
  pub injector_steal_batch : Injector → Worker → Steal A × Injector × Worker
  pub steal : Worker → Steal A × Worker
  pub steal_batch : Worker → Worker → Steal A × Worker × Worker
  pub steal_batch_self : Worker → Steal A × Worker
  pub items-new_fifo : items new_fifo ≡ []
  pub waiting-new_injector : waiting new_injector ≡ []
  pub items-push : (a : A) (d : Worker) → items (push a d) ≡ items d ++ (a ∷ [])
  pub items-pop : (d : Worker) → items d ≡ popped (pop d).0 (items (pop d).1)
  pub pop-none : (d : Worker) → (pop d).0 ≡ none → items d ≡ []
  pub waiting-inject : (a : A) (q : Injector) → waiting (inject a q) ≡ waiting q ++ (a ∷ [])
  pub injector_steal-total :
      (w : A → ℕ) (q : Injector)
      → let (s, q') = injector_steal q in
        total w (waiting q) ≡ weigh_steal w s + total w (waiting q')
  pub injector_steal-empty : (q : Injector) → (injector_steal q).0 ≡ empty → waiting q ≡ []
  pub injector_steal_batch-total :
      (w : A → ℕ) (q : Injector) (d : Worker)
      → let (s, q', d') = injector_steal_batch q d in
        total w (waiting q) + total w (items d)
        ≡ weigh_steal w s + total w (waiting q') + total w (items d')
  pub injector_steal_batch-empty :
      (q : Injector) (d : Worker) → (injector_steal_batch q d).0 ≡ empty → waiting q ≡ []
  pub steal-total :
      (w : A → ℕ) (d : Worker)
      → let (s, d') = steal d in total w (items d) ≡ weigh_steal w s + total w (items d')
  pub steal_batch-total :
      (w : A → ℕ) (v d : Worker)
      → let (s, v', d') = steal_batch v d in
        total w (items v) + total w (items d)
        ≡ weigh_steal w s + total w (items v') + total w (items d')
  pub steal_batch_self-total :
      (w : A → ℕ) (d : Worker)
      → let (s, d') = steal_batch_self d in total w (items d) ≡ weigh_steal w s + total w (items d')
