-- ===== src/Python/Flag.antt =====
-- hypertile-sys/src/lib.rs: what tells that a task is done. `spawn_native_pipeline` and
-- `spawn_callable` store a flag, the batches count the items that are left.
use hypertile.Base.{ℕ, ◌+◌, ◌≤◌, ◌<◌, ◌^◌, ◌≡◌, Bool, true, ◌==◌, arith}
use hypertile.Registry.Defs.{fetch_sub}

-- `Counts s n`: the state `s` stands for `n` items that are left. `finish c` takes `c` items off, and
-- tells whether these were the last ones.
pub record Flag : Type 1 where
  pub State : Type 0
  pub is_done : State → Bool
  pub finish : ℕ → State → State × Bool
  pub Counts : State → ℕ → Type 0
  pub is_done-Counts : (s : State) (n : ℕ) → Counts s n → is_done s ≡ (n == 0)
  pub finish-Counts : (s : State) (c n : ℕ) → 0 < c → Counts s (c + n) → Counts (finish c s).0 n
  pub finish_last : (s : State) (c n : ℕ) → 0 < c → Counts s (c + n) → (finish c s).1 ≡ (n == 0)

-- `done: AtomicBool`, stored by one producer.
unfoldable pub store_done : Bool → Bool × Bool
store_done b = (true, true)

abbrev pub BoolCounts : Bool → ℕ → Type 0
BoolCounts b n = (b ≡ (n == 0)) × (n ≤ 1)

pub is_done-BoolCounts : (b : Bool) (n : ℕ) → BoolCounts b n → b ≡ (n == 0)
is_done-BoolCounts b n h = h.0

pub store_done-BoolCounts :
    (b : Bool) (c n : ℕ) → 0 < c → BoolCounts b (c + n) → BoolCounts (store_done b).0 n
unfolding store_done
store_done-BoolCounts b c n p h = ground arith

pub store_done_last :
    (b : Bool) (c n : ℕ) → 0 < c → BoolCounts b (c + n) → (store_done b).1 ≡ (n == 0)
unfolding store_done
store_done_last b c n p h = ground arith

-- `remaining: AtomicUsize`
unfoldable pub count_down : ℕ → ℕ → ℕ × Bool
count_down c s = (fetch_sub s c, s == c)

abbrev pub WordCounts : ℕ → ℕ → Type 0
WordCounts s n = (s ≡ n) × (n < 2 ^ 64)

pub is_done-WordCounts : (s n : ℕ) → WordCounts s n → (s == 0) ≡ (n == 0)
is_done-WordCounts s n h = ground arith

pub count_down-WordCounts :
    (s c n : ℕ) → 0 < c → WordCounts s (c + n) → WordCounts (count_down c s).0 n
unfolding count_down
count_down-WordCounts s c n p h = (omega arith, omega arith)

pub count_down_last : (s c n : ℕ) → 0 < c → WordCounts s (c + n) → (count_down c s).1 ≡ (n == 0)
unfolding count_down
count_down_last s c n p h = ground arith

abbrev pub bool_flag : Flag
bool_flag = record {
  State = Bool;
  is_done = λ b. b;
  finish = λ c b. store_done b;
  Counts = BoolCounts;
  is_done-Counts = is_done-BoolCounts;
  finish-Counts = store_done-BoolCounts;
  finish_last = store_done_last;
}

abbrev pub counter : Flag
counter = record {
  State = ℕ;
  is_done = λ s. s == 0;
  finish = count_down;
  Counts = WordCounts;
  is_done-Counts = is_done-WordCounts;
  finish-Counts = count_down-WordCounts;
  finish_last = count_down_last;
}
