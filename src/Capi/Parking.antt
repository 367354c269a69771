-- ===== src/Capi/Parking.antt =====
-- hypertile-capi/src/lib.rs: what holds of a thread at each place of `hypertile_poll` and
-- `hypertile_wait`, and what other threads leave of it.
use hypertile.Base.{Parker, ℕ, ◌≡◌, ◌⊎◌, inl, inr, Bool, true, false, Option, none, some, []}
use hypertile.Registry.Defs.{contains}
use hypertile.Batch.Run.{HypertileStatus, pending, err_not_initialized}
use hypertile.Capi.Task.{
  TaskResult, read_result, Producer, storing, finishing, draining, unparking, gone, Pc, polling,
  poll_reading, waiting, registering, checking, pushing, looping, parking, wait_reading, polled,
  waited, System,
}

-- Whether the task has stored its flag, and has taken the unparkers.
abbrev pub is_finished : Producer → Bool
is_finished storing = false
is_finished finishing = false
is_finished draining = true
is_finished (unparking is) = true
is_finished gone = true

abbrev pub is_drained : Producer → Bool
is_drained storing = false
is_drained finishing = false
is_drained draining = false
is_drained (unparking is) = true
is_drained gone = true

-- Whether the task is about to unpark a thread.
abbrev pub unparks : Producer → ℕ → Bool
unparks (unparking is) k = contains is k
unparks p k = false

abbrev pub stored_at : {T : Type 0} → TaskResult T → Producer → Option (TaskResult T)
stored_at r storing = none
stored_at r _ = some r

-- What a thread is to get.
abbrev pub outcome : {T : Type 0} → TaskResult T → Bool → HypertileStatus × Option ℕ
outcome r out = read_result err_not_initialized out (some r)

module _ {P : Parker} {T : Type 0} (r : TaskResult T) where
  -- Thread `k` has its token, or someone is to unpark it.
  abbrev pub Woken : ℕ → P.Token → System P T → Type 0
  Woken k t s =
      (contains s.unparkers k ≡ true)
      ⊎ ((unparks s.producer k ≡ true) ⊎ ((s.done ≡ true) × (u : P.Token) × (t ≡ P.unpark u)))

  abbrev pub At : ℕ → Pc → P.Token → Bool → System P T → Type 0
  At k poll_reading t out s = s.done ≡ true
  At k wait_reading t out s = s.done ≡ true
  At k checking t out s = s.lock ≡ some k
  At k pushing t out s = (s.lock ≡ some k) × (is_drained s.producer ≡ false)
  At k looping t out s = (s.done ≡ true) ⊎ (contains s.unparkers k ≡ true)
  At k parking t out s = Woken k t s
  At k (polled a) t out s = (a ≡ outcome r out) ⊎ (a ≡ (pending, none))
  At k (waited a) t out s = a ≡ outcome r out
  At k _ t out s = Unit

  -- What the steps of the others leave of thread `j`.
  pub record Keeps (j : ℕ) (t : P.Token) (s : System P T) (t' : P.Token) (s' : System P T)
      : Type 0 where
    pub lock : s.lock ≡ some j → s'.lock ≡ some j
    pub undrained : s.lock ≡ some j → is_drained s.producer ≡ false → is_drained s'.producer ≡ false
    pub done : s.done ≡ true → s'.done ≡ true
    pub looping :
        contains s.unparkers j ≡ true → (s'.done ≡ true) ⊎ (contains s'.unparkers j ≡ true)
    pub woken : Woken j t s → Woken j t' s'

  pub Keeps-At :
      (j : ℕ) (p : Pc) (t t' : P.Token) (out : Bool) (s s' : System P T)
      → Keeps j t s t' s'
      → At j p t out s
      → At j p t' out s'
  Keeps-At j poll_reading t t' out s s' h a = h.done a
  Keeps-At j wait_reading t t' out s s' h a = h.done a
  Keeps-At j checking t t' out s s' h a = h.lock a
  Keeps-At j pushing t t' out s s' h (a, b) = (h.lock a, h.undrained a b)
  Keeps-At j looping t t' out s s' h (inl a) = inl (h.done a)
  Keeps-At j looping t t' out s s' h (inr a) = h.looping a
  Keeps-At j parking t t' out s s' h a = h.woken a
  Keeps-At j (polled b) t t' out s s' h a = a
  Keeps-At j (waited b) t t' out s s' h a = a
  Keeps-At j polling t t' out s s' h a = a
  Keeps-At j waiting t t' out s s' h a = a
  Keeps-At j registering t t' out s s' h a = a

  pub record Invariant (s : System P T) : Type 0 where
    pub done : s.done ≡ is_finished s.producer
    pub stored : s.result ≡ stored_at r s.producer
    pub drained : is_drained s.producer ≡ true → s.unparkers ≡ []
    pub threads : (k : ℕ) → let w = s.threads k in At k w.pc w.token w.out s
