-- ===== src/Python/Completion.antt =====
-- hypertile-sys/src/lib.rs: `add_completion_callback`, and the end of a task on the pool, as any
-- number of threads interleave. A callback is a number.
use hypertile.Base.{
  ◌≡◌, refl, ap, ◌∙◌, ℕ, Bool, true, false, Option, none, some, List, [], ◌∷◌, ◌++◌, get_elem?, set,
  if◌then◌else◌,
}
use hypertile.Python.Flag.{Flag}

-- Where a thread is. The producer `i` computes, stores its result and finishes; the last one drains
-- the callbacks. A thread that adds a callback holds the lock from `checking` on.
pub data Pc : Type 0 where
  storing finishing : ℕ → Pc
  draining : Pc
  adding checking pushing : ℕ → Pc
  rechecking : Pc
  calling : List ℕ → Pc
  resting : Pc

-- `memory` is where results go; `called` and `stored` are traces of the callbacks that were called and
-- of the producers that stored, each newest first.
pub record Shared (F : Flag) (M : Type 0) : Type 0 where
  pub flag : F.State
  pub memory : M
  pub callbacks : List ℕ
  pub locked : Bool
  pub called : List ℕ
  pub stored : List ℕ

-- `store i` writes the result of producer `i`, and `share i` is what it counts for.
module _ {M : Type 0} (F : Flag) (store : ℕ → M → M) (share : ℕ → ℕ) where
  finish_step : ℕ → Shared F M → Shared F M × Pc
  finish_step i s =
      let (f, last) = F.finish (share i) s.flag in
      (record s { flag = f }, if last then draining else resting)

  check_step : ℕ → Shared F M → Shared F M × Pc
  check_step c s =
      if F.is_done s.flag then (record s { locked = false }, calling (c ∷ [])) else (s, pushing c)

  recheck_step : Shared F M → Shared F M × Pc
  recheck_step s =
      if F.is_done s.flag
      then (record s { callbacks = []; locked = false }, calling s.callbacks)
      else (record s { locked = false }, resting)

  -- The next atomic access of a thread; none if it has to wait for the lock or has none left.
  unfoldable pub step : Pc → Shared F M → Option (Shared F M × Pc)
  unfolding finish_step check_step recheck_step
  step (storing i) s =
      some (record s { memory = store i s.memory; stored = i ∷ s.stored }, finishing i)
  step (finishing i) s = some (finish_step i s)
  step draining s =
      if s.locked then none else some (record s { callbacks = [] }, calling s.callbacks)
  step (adding c) s = if s.locked then none else some (record s { locked = true }, checking c)
  step (checking c) s = some (check_step c s)
  step (pushing c) s = some (record s { callbacks = s.callbacks ++ (c ∷ []) }, rechecking)
  step rechecking s = some (recheck_step s)
  step (calling []) s = some (s, resting)
  step (calling (c ∷ cs)) s = some (record s { called = c ∷ s.called }, calling cs)
  step resting s = none

pub record System (F : Flag) (M : Type 0) : Type 0 where
  pub shared : Shared F M
  pub threads : List Pc

unfoldable pub start : {M : Type 0} (F : Flag) → F.State → M → List Pc → System F M
start F f m ts = record {
  shared = record {
    flag = f;
    memory = m;
    callbacks = [];
    locked = false;
    called = [];
    stored = [];
  };
  threads = ts;
}

module _ {M : Type 0} (F : Flag) (store : ℕ → M → M) (share : ℕ → ℕ) where
  land : ℕ → System F M → Option (Shared F M × Pc) → System F M
  land k sys none = sys
  land k sys (some (s, q)) = record { shared = s; threads = set sys.threads k q }

  move : ℕ → System F M → Option Pc → System F M
  unfolding land
  move k sys none = sys
  move k sys (some p) = land k sys (step F store share p sys.shared)

  -- Thread `k` makes its next access, if it can.
  unfoldable pub advance : ℕ → System F M → System F M
  unfolding move
  advance k sys = move k sys (get_elem? sys.threads k)

  unfoldable pub run : List ℕ → System F M → System F M
  run [] sys = sys
  run (k ∷ ks) sys = run ks (advance k sys)

  pub advance_lem :
      (k : ℕ) (sys : System F M) (p q : Pc) (s : Shared F M)
      → get_elem? sys.threads k ≡ some p
      → step F store share p sys.shared ≡ some (s, q)
      → advance k sys ≡ record { shared = s; threads = set sys.threads k q }
  unfolding advance land
  advance_lem k sys p q s e h = ap (move k sys) e ∙ ap (land k sys) h

  -- A step of the system leaves it as it is, or is a step of one thread.
  pub advance_cases {κ} :
      (P : System F M → Type κ) (k : ℕ) (sys : System F M)
      → P sys
      → ((p q : Pc) (s : Shared F M)
          → get_elem? sys.threads k ≡ some p
          → step F store share p sys.shared ≡ some (s, q)
          → P (record { shared = s; threads = set sys.threads k q }))
      → P (advance k sys)
  unfolding advance land
  advance_cases P k sys same moved = by_thread (get_elem? sys.threads k) refl
    where
      by_step :
          (p : Pc) (r : Option (Shared F M × Pc))
          → get_elem? sys.threads k ≡ some p
          → step F store share p sys.shared ≡ r
          → P (land k sys r)
      by_step p none e h = same
      by_step p (some (s, q)) e h = moved p q s e h

      by_thread : (o : Option Pc) → get_elem? sys.threads k ≡ o → P (move k sys o)
      by_thread none e = same
      by_thread (some p) e = by_step p (step F store share p sys.shared) e refl

  pub run_inv {κ} :
      (P : System F M → Type κ)
      → ((k : ℕ) (sys : System F M) → P sys → P (advance k sys))
      → (ks : List ℕ) (sys : System F M) → P sys
      → P (run ks sys)
  unfolding run
  run_inv P keep [] sys h = h
  run_inv P keep (k ∷ ks) sys h = run_inv P keep ks (advance k sys) (keep k sys h)
