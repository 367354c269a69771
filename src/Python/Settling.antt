-- ===== src/Python/Settling.antt =====
-- hypertile-sys/src/lib.rs: threads that add callbacks and producers that finish come to rest.
use hypertile.Base.{
  ℕ, zero, suc, ◌+◌, ◌<◌, ◌≡◌, ◌⊎◌, inl, inr, refl, sym, ap, subst, true, false, some, List, [],
  ◌∷◌, length, length-append, get_elem?, set, total, total_find, All, Nat-cases, Bool-cases, arith,
}
use hypertile.Python.Flag.{Flag}
use hypertile.Python.Completion.{
  Pc, storing, finishing, draining, adding, checking, pushing, rechecking, calling, resting, Shared,
  System, step, advance_lem, run,
}
use hypertile.Python.Step.{holds, bit}
use hypertile.Python.Invariant.{total_apart, Invariant, step-Invariant}

-- What a thread has left to do, beside taking the queue.
abbrev pub left : Pc → ℕ
left (storing i) = 4
left (finishing i) = 3
left draining = 2
left (adding c) = 6
left (checking c) = 5
left (pushing c) = 4
left rechecking = 2
left (calling cs) = suc (length cs)
left resting = 0

module _ {M : Type 0} (F : Flag) (store : ℕ → M → M) (share : ℕ → ℕ) where
  step-left :
      (p q : Pc) (s s' : Shared F M)
      → step F store share p s ≡ some (s', q)
      → left q + length s'.callbacks < left p + length s.callbacks
  unfolding step
  step-left (storing j) q s s' h = ground arith
  step-left (finishing j) q s s' h = ground arith
  step-left draining q s s' h = ground arith
  step-left (adding x) q s s' h = ground arith
  step-left (checking x) q s s' h = ground arith
  step-left (pushing x) q s s' h = ground (arith, length-append s.callbacks (x ∷ []))
  step-left rechecking q s s' h = ground arith
  step-left (calling []) q s s' h = ground arith
  step-left (calling (x ∷ xs)) q s s' h = ground arith
  step-left resting q s s' h = cc

  -- A thread can go on if it holds the lock, or if it has something left and nobody does.
  can_step :
      (p : Pc) (s : Shared F M)
      → (0 < holds p) ⊎ ((s.locked ≡ false) × (0 < left p))
      → (r : Shared F M × Pc) × (step F store share p s ≡ some r)
  unfolding step
  can_step (storing j) s h = (_, refl)
  can_step (finishing j) s h = (_, refl)
  can_step draining s (inl h) = absurd (omega arith)
  can_step draining s (inr (u, l)) =
      ((record s { callbacks = [] }, calling s.callbacks), ground arith)
  can_step (adding x) s (inl h) = absurd (omega arith)
  can_step (adding x) s (inr (u, l)) = ((record s { locked = true }, checking x), ground arith)
  can_step (checking x) s h = (_, refl)
  can_step (pushing x) s h = (_, refl)
  can_step rechecking s h = (_, refl)
  can_step (calling []) s h = (_, refl)
  can_step (calling (x ∷ xs)) s h = (_, refl)
  can_step resting s (inl h) = absurd (omega arith)
  can_step resting s (inr (u, l)) = absurd (omega arith)

  -- What the system has left to do.
  abbrev pub to_do : System F M → ℕ
  to_do sys = total left sys.threads + length sys.shared.callbacks

  some_thread :
      (m : M) (ps : List ℕ) (pos : (i : ℕ) → 0 < share i) (sys : System F M)
      → Invariant F store share pos m ps sys
      → 0 < total left sys.threads
      → (k : ℕ) × (p : Pc) × (get_elem? sys.threads k ≡ some p)
        × ((0 < holds p) ⊎ ((sys.shared.locked ≡ false) × (0 < left p)))
  some_thread m ps pos sys v l = elim (Bool-cases sys.shared.locked) [
    | inl on ↦
        let (k, p, e, h) = total_find holds sys.threads (omega (arith, v.locked, ap bit on)) in
        (k, p, e, inl h)
    | inr off ↦ let (k, p, e, h) = total_find left sys.threads l in (k, p, e, inr (off, h))
  ]

  total_resting : (ts : List Pc) → total left ts ≡ 0 → All (λ p. p ≡ resting) ts
  unfolding total
  total_resting [] h = tt
  total_resting (resting ∷ ts) h = (refl, total_resting ts (omega arith))
  total_resting (storing i ∷ ts) h = absurd (omega arith)
  total_resting (finishing i ∷ ts) h = absurd (omega arith)
  total_resting (draining ∷ ts) h = absurd (omega arith)
  total_resting (adding c ∷ ts) h = absurd (omega arith)
  total_resting (checking c ∷ ts) h = absurd (omega arith)
  total_resting (pushing c ∷ ts) h = absurd (omega arith)
  total_resting (rechecking ∷ ts) h = absurd (omega arith)
  total_resting (calling cs ∷ ts) h = absurd (omega arith)

  pub settle_within :
      (fuel : ℕ) (m : M) (ps : List ℕ) (pos : (i : ℕ) → 0 < share i) (sys : System F M)
      → Invariant F store share pos m ps sys
      → to_do sys < fuel
      → (ks : List ℕ) × All (λ p. p ≡ resting) (run F store share ks sys).threads
  unfolding run
  settle_within zero m ps pos sys v h = absurd (omega arith)
  settle_within (suc fuel) m ps pos sys v h = elim (Nat-cases (total left sys.threads)) [
    | inl done ↦ ([], total_resting sys.threads done)
    | inr (n, e) ↦
        let (k, p, here, can) = some_thread m ps pos sys v (omega (arith, e)) in
        let ((s, q), st) = can_step p sys.shared can in
        let (r, r1, r2) = total_apart left sys.threads k p q here in
        let (ks, rest) =
          settle_within fuel m ps pos (record { shared = s; threads = set sys.threads k q })
            (step-Invariant F store share pos m ps k sys p q s v here st)
            (omega (arith, step-left p q sys.shared s st)) in
        (
          k ∷ ks,
          subst (λ x. All (λ p. p ≡ resting) (run F store share ks x).threads)
              (sym (advance_lem F store share k sys p q s here st)) rest,
        )
  ]
