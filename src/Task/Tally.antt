-- ===== src/Task/Tally.antt =====
-- hypertile-core/src/task.rs: how many threads stand at which places of the methods.
use hypertile.Base.{ℕ, ◌+◌, ◌≤◌, ◌≡◌, List, some, get_elem?, set, total, total-set, le-total}
use hypertile.Task.Cell.{
  running, idle, starting, taking, polling, publishing, settling, settling_cas, discarding,
  requeueing, locking, swapping, storing, unlocking, handing_off, marking_cas, enqueueing, dropping,
  recording, notifying, checking, parking, Pc, run, complete, wake, cancel, join,
}

module _ {ℓ} {F T P W : Type ℓ} where
  -- a handle of the task, popped and not yet run, or not yet pushed
  abbrev pub handles : Pc F T P W → ℕ
  handles (run starting) = 1
  handles (run requeueing) = 1
  handles (wake enqueueing) = 1
  handles _ = 0

  -- a runner, with the future in the cell
  abbrev pub inside : Pc F T P W → ℕ
  inside (run taking) = 1
  inside (run settling) = 1
  inside (run (settling_cas _)) = 1
  inside _ = 0

  -- a runner, with the future taken out
  abbrev pub outside : Pc F T P W → ℕ
  outside (run (polling _)) = 1
  outside (run (publishing _)) = 1
  outside (complete (locking _)) = 1
  outside (complete (swapping _)) = 1
  outside _ = 0

  -- the methods that drop the future of a completed task
  abbrev pub clearing : Pc F T P W → ℕ
  clearing (run (publishing _)) = 1
  clearing (run settling) = 1
  clearing (run (settling_cas _)) = 1
  clearing (run discarding) = 1
  clearing (cancel dropping) = 1
  clearing _ = 0

  -- a compare-exchange from a state that the loops never try
  abbrev pub odd : Pc F T P W → ℕ
  odd (run (settling_cas running)) = 0
  odd (run (settling_cas _)) = 1
  odd (wake (marking_cas running)) = 0
  odd (wake (marking_cas idle)) = 0
  odd (wake (marking_cas _)) = 1
  odd _ = 0

  -- the holders of the `result` mutex: around the swap, about to write, and the two in `poll`
  abbrev pub swappers : Pc F T P W → ℕ
  swappers (complete (swapping _)) = 1
  swappers (complete unlocking) = 1
  swappers _ = 0

  abbrev pub storers : Pc F T P W → ℕ
  storers (complete (storing _)) = 1
  storers _ = 0

  abbrev pub checkers : Pc F T P W → ℕ
  checkers (join (checking _)) = 1
  checkers _ = 0

  abbrev pub parkers : Pc F T P W → ℕ
  parkers (join (parking _)) = 1
  parkers _ = 0

  -- a `cancel` that won and has not written the result
  abbrev pub cancels : Pc F T P W → ℕ
  cancels (cancel dropping) = 1
  cancels (cancel recording) = 1
  cancels _ = 0

  -- the result is written, the join waker not yet taken
  abbrev pub notifiers : Pc F T P W → ℕ
  notifiers (complete handing_off) = 1
  notifiers (cancel notifying) = 1
  notifiers _ = 0

  -- a thread that saw the task completed, or completed it
  abbrev pub late : Pc F T P W → ℕ
  late (run discarding) = 1
  late (complete (storing _)) = 1
  late (complete unlocking) = 1
  late (complete handing_off) = 1
  late (cancel dropping) = 1
  late (cancel recording) = 1
  late (cancel notifying) = 1
  late _ = 0

pub record Tally : Type 0 where
  pub handle : ℕ
  pub in_cell : ℕ
  pub taken : ℕ
  pub clear : ℕ
  pub stray : ℕ
  pub swap : ℕ
  pub store : ℕ
  pub check : ℕ
  pub park : ℕ
  pub cancel : ℕ
  pub notify : ℕ
  pub after : ℕ

abbrev pub tally {ℓ} : {F T P W : Type ℓ} → List (Pc F T P W) → Tally
tally ts = record {
  handle = total handles ts;
  in_cell = total inside ts;
  taken = total outside ts;
  clear = total clearing ts;
  stray = total odd ts;
  swap = total swappers ts;
  store = total storers ts;
  check = total checkers ts;
  park = total parkers ts;
  cancel = total cancels ts;
  notify = total notifiers ts;
  after = total late ts;
}

-- One number of the tally, when a thread goes from weight `a` to weight `b`.
abbrev Shifts : ℕ → ℕ → ℕ → ℕ → Type 0
Shifts a b n n' = (n' + a ≡ n + b) × (a ≤ n)

-- One thread goes from `p` to `q`.
pub record Shift {ℓ} {F T P W : Type ℓ} (p q : Pc F T P W) (t t' : Tally) : Type 0 where
  pub handle : Shifts (handles p) (handles q) t.handle t'.handle
  pub in_cell : Shifts (inside p) (inside q) t.in_cell t'.in_cell
  pub taken : Shifts (outside p) (outside q) t.taken t'.taken
  pub clear : Shifts (clearing p) (clearing q) t.clear t'.clear
  pub stray : Shifts (odd p) (odd q) t.stray t'.stray
  pub swap : Shifts (swappers p) (swappers q) t.swap t'.swap
  pub store : Shifts (storers p) (storers q) t.store t'.store
  pub check : Shifts (checkers p) (checkers q) t.check t'.check
  pub park : Shifts (parkers p) (parkers q) t.park t'.park
  pub cancel : Shifts (cancels p) (cancels q) t.cancel t'.cancel
  pub notify : Shifts (notifiers p) (notifiers q) t.notify t'.notify
  pub after : Shifts (late p) (late q) t.after t'.after

pub tally-Shift {ℓ} :
    {F T P W : Type ℓ} (ts : List (Pc F T P W)) (i : ℕ) (p q : Pc F T P W)
    → get_elem? ts i ≡ some p
    → Shift p q (tally ts) (tally (set ts i q))
tally-Shift ts i p q h = record {
  handle = (total-set handles ts i p q h, le-total handles ts i p h);
  in_cell = (total-set inside ts i p q h, le-total inside ts i p h);
  taken = (total-set outside ts i p q h, le-total outside ts i p h);
  clear = (total-set clearing ts i p q h, le-total clearing ts i p h);
  stray = (total-set odd ts i p q h, le-total odd ts i p h);
  swap = (total-set swappers ts i p q h, le-total swappers ts i p h);
  store = (total-set storers ts i p q h, le-total storers ts i p h);
  check = (total-set checkers ts i p q h, le-total checkers ts i p h);
  park = (total-set parkers ts i p q h, le-total parkers ts i p h);
  cancel = (total-set cancels ts i p q h, le-total cancels ts i p h);
  notify = (total-set notifiers ts i p q h, le-total notifiers ts i p h);
  after = (total-set late ts i p q h, le-total late ts i p h);
}
