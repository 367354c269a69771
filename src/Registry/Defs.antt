-- ===== src/Registry/Defs.antt =====
-- hypertile-core/src/executor.rs: `WorkerRegistry`. Each method is one function on the whole record.
-- A method that changes the registry holds the lock of what it changes to its end, except
-- `unpark_one_idle`, which takes and releases its locks for each worker that it pops: here is a call
-- that no other thread interrupts, and Registry/Steps has it lock by lock. A stealer and an unparker
-- are opaque handles.
use hypertile.Base.{
  ℕ, ◌+◌, ◌-◌, ◌%◌, ◌^◌, Bool, true, false, Option, none, some, List, [], ◌∷◌, map, length, ltb,
  ◌==◌, if◌then◌else◌,
}

-- `WorkerId` is a `usize`.
abbrev pub word : ℕ → ℕ
word n = n % 2 ^ 64

pub data WorkerKind : Type 0 where
  native bilingual : WorkerKind

pub record WorkerEntry {ℓ} (S U : Type ℓ) : Type ℓ where
  pub id : ℕ
  pub kind : WorkerKind
  pub stealer : S
  pub unparker : U

-- The hash map is a list of keys and entries, the idle stack has its top first.
pub record WorkerRegistry {ℓ} (S U : Type ℓ) : Type ℓ where
  pub workers : List (ℕ × WorkerEntry S U)
  pub idle_stack : List ℕ
  pub idle_count : ℕ
  pub stealers_cache : List (ℕ × S)
  pub next_id : ℕ

abbrev pub first_worker_id : ℕ
first_worker_id = 1

-- `HashMap::get`, `insert` and `remove`
module _ {ℓ} {V : Type ℓ} where
  unfoldable pub lookup : ℕ → List (ℕ × V) → Option V
  lookup k [] = none
  lookup k ((j, v) ∷ m) = if j == k then some v else lookup k m

  unfoldable pub insert : ℕ → V → List (ℕ × V) → List (ℕ × V)
  insert k v [] = (k, v) ∷ []
  insert k v ((j, u) ∷ m) = if j == k then (k, v) ∷ m else (j, u) ∷ insert k v m

  unfoldable pub remove : ℕ → List (ℕ × V) → List (ℕ × V)
  remove k [] = []
  remove k ((j, v) ∷ m) = if j == k then remove k m else (j, v) ∷ remove k m

-- `Vec::contains`, and `retain(|&w_id| w_id != id)`
unfoldable pub contains : List ℕ → ℕ → Bool
contains [] a = false
contains (x ∷ xs) a = if x == a then true else contains xs a

unfoldable pub retain_other : ℕ → List ℕ → List ℕ
retain_other a [] = []
retain_other a (x ∷ xs) = if x == a then retain_other a xs else x ∷ retain_other a xs

-- `fetch_add` and `fetch_sub` wrap.
abbrev pub fetch_add : ℕ → ℕ → ℕ
fetch_add n k = word (n + k)

abbrev pub fetch_sub : ℕ → ℕ → ℕ
fetch_sub n k = word (n + (2 ^ 64 - word k))

module _ {ℓ} {S U : Type ℓ} where
  abbrev pub stealer_of : ℕ × WorkerEntry S U → ℕ × S
  stealer_of (k, e) = (e.id, e.stealer)

  rebuild_stealers_cache : List (ℕ × WorkerEntry S U) → List (ℕ × S)
  rebuild_stealers_cache ws = map stealer_of ws

  unfoldable pub allocate_id : WorkerRegistry S U → WorkerRegistry S U × ℕ
  allocate_id r = (record r { next_id = fetch_add r.next_id 1 }, r.next_id)

  unfoldable pub register : WorkerEntry S U → WorkerRegistry S U → WorkerRegistry S U
  unfolding rebuild_stealers_cache
  register e r =
      let ws = insert e.id e r.workers in
      record r { workers = ws; stealers_cache = rebuild_stealers_cache ws }

  -- Takes `id` off the idle stack, and adjusts the count by what was taken off.
  unfoldable pub unmark_idle : ℕ → WorkerRegistry S U → WorkerRegistry S U
  unmark_idle id r =
      let idle = retain_other id r.idle_stack in
      let removed = length r.idle_stack - length idle in
      record r {
        idle_stack = idle;
        idle_count = if ltb 0 removed then fetch_sub r.idle_count removed else r.idle_count;
      }

  unfoldable pub deregister : ℕ → WorkerRegistry S U → WorkerRegistry S U
  unfolding rebuild_stealers_cache unmark_idle
  deregister id r =
      let ws = remove id r.workers in
      unmark_idle id (record r { workers = ws; stealers_cache = rebuild_stealers_cache ws })

  unfoldable pub mark_idle : ℕ → WorkerRegistry S U → WorkerRegistry S U
  mark_idle id r =
      if contains r.idle_stack id
      then r
      else record r { idle_stack = id ∷ r.idle_stack; idle_count = fetch_add r.idle_count 1 }

  -- The loop of `unpark_one_idle`: what is left of the stack, the count, and whom it unparked.
  unfoldable pub pop_idle :
      List (ℕ × WorkerEntry S U) → List ℕ → ℕ → List ℕ × ℕ × Option (WorkerEntry S U)
  pop_idle ws [] count = ([], count, none)
  pop_idle ws (id ∷ idle) count = elim (lookup id ws) [
    | some e ↦ (idle, fetch_sub count 1, some e)
    | none ↦ pop_idle ws idle (fetch_sub count 1)
  ]

  -- The method returns true if it unparked a worker, which is given here.
  unfoldable pub unpark_one_idle :
      WorkerRegistry S U → WorkerRegistry S U × Option (WorkerEntry S U)
  unpark_one_idle r =
      if r.idle_count == 0
      then (r, none)
      else (let (idle, count, who) = pop_idle r.workers r.idle_stack r.idle_count in
          (record r { idle_stack = idle; idle_count = count }, who))

  unfoldable pub unpark_all : WorkerRegistry S U → List U
  unpark_all r = map (λ w. w.1.unparker) r.workers

  unfoldable pub get_stealers : WorkerRegistry S U → List (ℕ × S)
  get_stealers r = r.stealers_cache

  unfoldable pub active_count : WorkerRegistry S U → ℕ
  active_count r = length r.workers

unfoldable pub new_registry {ℓ} : (S U : Type ℓ) → WorkerRegistry S U
new_registry S U = record {
  workers = [];
  idle_stack = [];
  idle_count = 0;
  stealers_cache = [];
  next_id = first_worker_id;
}
