-- ===== src/Python/Step.antt =====
-- hypertile-sys/src/lib.rs: what one access of one thread does to what the threads share.
use hypertile.Base.{
  ℕ, ◌+◌, ◌≤◌, ◌<◌, ◌≡◌, sym, subst, Bool, true, some, List, [], ◌∷◌, length, total, total-append,
  ◌==◌, ◌⊎◌, if◌then◌else◌, arith,
}
use hypertile.Registry.Defs.{contains}
use hypertile.Python.Flag.{Flag}
use hypertile.Python.Completion.{
  Pc, storing, finishing, draining, adding, checking, pushing, rechecking, calling, resting, Shared,
  step,
}

-- The weight of the callbacks that a thread has in hand.
abbrev pub held : (ℕ → ℕ) → Pc → ℕ
held w (adding c) = w c
held w (checking c) = w c
held w (pushing c) = w c
held w (calling cs) = total w cs
held w _ = 0

-- Whether it holds the lock.
abbrev pub holds : Pc → ℕ
holds (checking c) = 1
holds (pushing c) = 1
holds rechecking = 1
holds _ = 0

-- What it has yet to count as finished.
abbrev pub owed : (ℕ → ℕ) → Pc → ℕ
owed share (storing i) = share i
owed share (finishing i) = share i
owed share _ = 0

-- Whether it is about to take the queue of callbacks.
abbrev pub answers : Pc → ℕ
answers draining = 1
answers (pushing c) = 1
answers rechecking = 1
answers _ = 0

-- Whether it is there only because the task is done.
abbrev pub late : Pc → ℕ
late draining = 1
late (calling cs) = length cs
late _ = 0

-- Whether it is producer `i`, before its result is stored.
abbrev pub stores : ℕ → Pc → ℕ
stores i (storing j) = if j == i then 1 else 0
stores i _ = 0

abbrev pub bit : Bool → ℕ
bit b = if b then 1 else 0

module _ {M : Type 0} (F : Flag) (store : ℕ → M → M) (share : ℕ → ℕ) where
  pub step-held :
      (w : ℕ → ℕ) (p q : Pc) (s s' : Shared F M)
      → step F store share p s ≡ some (s', q)
      → total w s'.called + total w s'.callbacks + held w q
        ≡ total w s.called + total w s.callbacks + held w p
  unfolding step total
  step-held w (storing i) q s s' h = ground arith
  step-held w (finishing i) q s s' h = ground arith
  step-held w draining q s s' h = ground arith
  step-held w (adding c) q s s' h = ground arith
  step-held w (checking c) q s s' h = ground arith
  step-held w (pushing c) q s s' h = ground (arith, total-append w s.callbacks (c ∷ []))
  step-held w rechecking q s s' h = ground arith
  step-held w (calling []) q s s' h = ground arith
  step-held w (calling (c ∷ cs)) q s s' h = ground arith
  step-held w resting q s s' h = cc

  pub step-holds :
      (p q : Pc) (s s' : Shared F M)
      → step F store share p s ≡ some (s', q)
      → holds p ≤ bit s.locked
      → bit s'.locked + holds p ≡ bit s.locked + holds q
  unfolding step
  step-holds (storing i) q s s' h l = ground arith
  step-holds (finishing i) q s s' h l = ground arith
  step-holds draining q s s' h l = ground arith
  step-holds (adding c) q s s' h l = ground arith
  step-holds (checking c) q s s' h l = ground arith
  step-holds (pushing c) q s s' h l = ground arith
  step-holds rechecking q s s' h l = ground arith
  step-holds (calling []) q s s' h l = ground arith
  step-holds (calling (c ∷ cs)) q s s' h l = ground arith
  step-holds resting q s s' h l = cc

  -- What a step does to the flag, and to what the thread owes.
  abbrev pub flag_after : Pc → Shared F M → F.State
  flag_after (finishing i) s = (F.finish (share i) s.flag).0
  flag_after _ s = s.flag

  abbrev pub owed_after : Pc → ℕ
  owed_after (storing i) = share i
  owed_after _ = 0

  step-flag_after :
      (p q : Pc) (s s' : Shared F M)
      → step F store share p s ≡ some (s', q)
      → (s'.flag ≡ flag_after p s) × (owed share q ≡ owed_after p)
  unfolding step
  step-flag_after (storing i) q s s' h = ground arith
  step-flag_after (finishing i) q s s' h = ground arith
  step-flag_after draining q s s' h = ground arith
  step-flag_after (adding c) q s s' h = ground arith
  step-flag_after (checking c) q s s' h = ground arith
  step-flag_after (pushing c) q s s' h = ground arith
  step-flag_after rechecking q s s' h = ground arith
  step-flag_after (calling []) q s s' h = ground arith
  step-flag_after (calling (c ∷ cs)) q s s' h = ground arith
  step-flag_after resting q s s' h = cc

  Counts-after :
      (n : ℕ) (p : Pc) (s : Shared F M)
      → ((i : ℕ) → 0 < share i)
      → F.Counts s.flag (owed share p + n)
      → F.Counts (flag_after p s) (owed_after p + n)
  Counts-after n (finishing i) s pos c =
      subst (F.Counts (F.finish (share i) s.flag).0) (omega arith)
        (F.finish-Counts s.flag (share i) n (pos i) c)
  Counts-after n (storing i) s pos c = c
  Counts-after n draining s pos c = c
  Counts-after n (adding x) s pos c = c
  Counts-after n (checking x) s pos c = c
  Counts-after n (pushing x) s pos c = c
  Counts-after n rechecking s pos c = c
  Counts-after n (calling cs) s pos c = c
  Counts-after n resting s pos c = c

  pub step-Counts :
      (n : ℕ) (p q : Pc) (s s' : Shared F M)
      → ((i : ℕ) → 0 < share i)
      → step F store share p s ≡ some (s', q)
      → F.Counts s.flag (owed share p + n)
      → F.Counts s'.flag (owed share q + n)
  step-Counts n p q s s' pos h c =
      let (f, o) = step-flag_after p q s s' h in
      subst (λ x. F.Counts x (owed share q + n)) (sym f)
        (subst (λ x. F.Counts (flag_after p s) (x + n)) (sym o) (Counts-after n p s pos c))

  -- The queue is taken after the task is done: whoever makes it done, or adds to it, comes back to it.
  pub step-answers :
      (n r : ℕ) (p q : Pc) (s s' : Shared F M)
      → ((i : ℕ) → 0 < share i)
      → step F store share p s ≡ some (s', q)
      → F.Counts s.flag (owed share p + n)
      → (F.is_done s.flag ≡ true → 0 < length s.callbacks → 0 < answers p + r)
      → F.is_done s'.flag ≡ true
      → 0 < length s'.callbacks
      → 0 < answers q + r
  unfolding step
  step-answers n r (finishing i) q s s' pos h c a d l =
      let after =
        F.is_done-Counts (F.finish (share i) s.flag).0 n
          (F.finish-Counts s.flag (share i) n (pos i) c) in
      let last = F.finish_last s.flag (share i) n (pos i) c in ground arith
  step-answers n r (storing i) q s s' pos h c a d l = ground arith
  step-answers n r draining q s s' pos h c a d l = ground arith
  step-answers n r (adding x) q s s' pos h c a d l = ground arith
  step-answers n r (checking x) q s s' pos h c a d l = ground arith
  step-answers n r (pushing x) q s s' pos h c a d l = ground arith
  step-answers n r rechecking q s s' pos h c a d l = ground arith
  step-answers n r (calling []) q s s' pos h c a d l = ground arith
  step-answers n r (calling (x ∷ xs)) q s s' pos h c a d l = ground arith
  step-answers n r resting q s s' pos h c a d l = cc

  -- Nothing is called before the task is done.
  pub step-late :
      (n r : ℕ) (p q : Pc) (s s' : Shared F M)
      → ((i : ℕ) → 0 < share i)
      → step F store share p s ≡ some (s', q)
      → F.Counts s.flag (owed share p + n)
      → (0 < length s.called + late p + r → F.is_done s.flag ≡ true)
      → 0 < length s'.called + late q + r
      → F.is_done s'.flag ≡ true
  unfolding step
  step-late n r (finishing i) q s s' pos h c a l =
      let after =
        F.is_done-Counts (F.finish (share i) s.flag).0 n
          (F.finish-Counts s.flag (share i) n (pos i) c) in
      let last = F.finish_last s.flag (share i) n (pos i) c in
      let before = F.is_done-Counts s.flag (share i + n) c in ground (arith, pos i)
  step-late n r (storing i) q s s' pos h c a l = ground arith
  step-late n r draining q s s' pos h c a l = ground arith
  step-late n r (adding x) q s s' pos h c a l = ground arith
  step-late n r (checking x) q s s' pos h c a l = ground arith
  step-late n r (pushing x) q s s' pos h c a l = ground arith
  step-late n r rechecking q s s' pos h c a l = ground arith
  step-late n r (calling []) q s s' pos h c a l = ground arith
  step-late n r (calling (x ∷ xs)) q s s' pos h c a l = ground arith
  step-late n r resting q s s' pos h c a l = cc

  -- A producer that has not stored is about to, and what was stored stays.
  pub step-stores :
      (i r : ℕ) (p q : Pc) (s s' : Shared F M)
      → step F store share p s ≡ some (s', q)
      → (contains s.stored i ≡ true) ⊎ (0 < stores i p + r)
      → (contains s'.stored i ≡ true) ⊎ (0 < stores i q + r)
  unfolding step contains
  step-stores i r (storing j) q s s' h a = ground arith
  step-stores i r (finishing j) q s s' h a = ground arith
  step-stores i r draining q s s' h a = ground arith
  step-stores i r (adding x) q s s' h a = ground arith
  step-stores i r (checking x) q s s' h a = ground arith
  step-stores i r (pushing x) q s s' h a = ground arith
  step-stores i r rechecking q s s' h a = ground arith
  step-stores i r (calling []) q s s' h a = ground arith
  step-stores i r (calling (x ∷ xs)) q s s' h a = ground arith
  step-stores i r resting q s s' h a = cc

  -- The memory is what the producers that stored made of it, in their order.
  abbrev pub replay : M → List ℕ → M
  replay m [] = m
  replay m (i ∷ is) = store i (replay m is)

  pub step-replay :
      (m : M) (p q : Pc) (s s' : Shared F M)
      → step F store share p s ≡ some (s', q)
      → s.memory ≡ replay m s.stored
      → s'.memory ≡ replay m s'.stored
  unfolding step
  step-replay m (storing j) q s s' h a = ground arith
  step-replay m (finishing j) q s s' h a = ground arith
  step-replay m draining q s s' h a = ground arith
  step-replay m (adding x) q s s' h a = ground arith
  step-replay m (checking x) q s s' h a = ground arith
  step-replay m (pushing x) q s s' h a = ground arith
  step-replay m rechecking q s s' h a = ground arith
  step-replay m (calling []) q s s' h a = ground arith
  step-replay m (calling (x ∷ xs)) q s s' h a = ground arith
  step-replay m resting q s s' h a = cc
