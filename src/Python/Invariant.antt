-- ===== src/Python/Invariant.antt =====
-- hypertile-sys/src/lib.rs: what holds while threads add callbacks and producers finish.
use hypertile.Base.{
  ℕ, ◌+◌, ◌-◌, ◌<◌, ◌≡◌, ◌⊎◌, inl, inr, refl, sym, subst, true, some, List, length, get_elem?, set,
  total, total-set, le-total, arith,
}
use hypertile.Registry.Defs.{contains}
use hypertile.Python.Flag.{Flag}
use hypertile.Python.Completion.{Pc, Shared, System, step, advance_cases, run, run_inv}
use hypertile.Python.Step.{
  held, holds, owed, answers, late, stores, bit, replay, step-held, step-holds, step-Counts,
  step-answers, step-late, step-stores, step-replay,
}

-- A weighted sum over the threads, with one of them apart.
pub total_apart :
    (f : Pc → ℕ) (ts : List Pc) (k : ℕ) (p q : Pc)
    → get_elem? ts k ≡ some p
    → (r : ℕ) × (total f ts ≡ f p + r) × (total f (set ts k q) ≡ f q + r)
total_apart f ts k p q e =
    let here = le-total f ts k p e in
    let there = total-set f ts k p q e in (total f ts - f p, omega arith, omega arith)

-- What the callbacks weigh: called, queued and in hand.
abbrev pub load : {M : Type 0} (F : Flag) (w : ℕ → ℕ) → System F M → ℕ
load F w sys = total w sys.shared.called + total w sys.shared.callbacks + total (held w) sys.threads

module _ {M : Type 0} (F : Flag) (store : ℕ → M → M) (share : ℕ → ℕ)
    (pos : (i : ℕ) → 0 < share i) where
  pub record Invariant (m : M) (producers : List ℕ) (sys : System F M) : Type 0 where
    pub counted : F.Counts sys.shared.flag (total (owed share) sys.threads)
    pub locked : bit sys.shared.locked ≡ total holds sys.threads
    pub answered :
        F.is_done sys.shared.flag ≡ true
        → 0 < length sys.shared.callbacks
        → 0 < total answers sys.threads
    pub late_done :
        0 < length sys.shared.called + total late sys.threads → F.is_done sys.shared.flag ≡ true
    pub stored :
        (i : ℕ)
        → contains producers i ≡ true
        → (contains sys.shared.stored i ≡ true) ⊎ (0 < total (stores i) sys.threads)
    pub replayed : sys.shared.memory ≡ replay F store share m sys.shared.stored

  pub step-Invariant :
      (m : M) (ps : List ℕ) (k : ℕ) (sys : System F M) (p q : Pc) (s : Shared F M)
      → Invariant m ps sys
      → get_elem? sys.threads k ≡ some p
      → step F store share p sys.shared ≡ some (s, q)
      → Invariant m ps (record { shared = s; threads = set sys.threads k q })
  step-Invariant m ps k sys p q s v e h =
      let ts = sys.threads in
      let (ro, o1, o2) = total_apart (owed share) ts k p q e in
      let (rh, h1, h2) = total_apart holds ts k p q e in
      let (ra, a1, a2) = total_apart answers ts k p q e in
      let (rl, l1, l2) = total_apart late ts k p q e in
      let c = subst (F.Counts sys.shared.flag) o1 v.counted in
      record {
        counted =
            subst (F.Counts s.flag) (sym o2)
              (step-Counts F store share ro p q sys.shared s pos h c);
        locked = omega (arith, v.locked, step-holds F store share p q sys.shared s h);
        answered = λ d l.
            subst (λ n. 0 < n) (sym a2)
              (step-answers F store share ro ra p q sys.shared s pos h c
                (λ d' l'. subst (λ n. 0 < n) a1 (v.answered d' l')) d l);
        late_done = λ l.
            step-late F store share ro rl p q sys.shared s pos h c (λ l'. v.late_done (omega arith))
              (omega arith);
        stored = λ i known.
            let (rs, s1, s2) = total_apart (stores i) ts k p q e in
            elim (step-stores F store share i rs p q sys.shared s h
              (elim (v.stored i known) [ inl x ↦ inl x | inr y ↦ inr (subst (λ n. 0 < n) s1 y) ])) [
                | inl x ↦ inl x
                | inr y ↦ inr (subst (λ n. 0 < n) (sym s2) y)
              ];
        replayed = step-replay F store share m p q sys.shared s h v.replayed;
      }

  pub run-Invariant :
      (m : M) (ps ks : List ℕ) (sys : System F M)
      → Invariant m ps sys
      → Invariant m ps (run F store share ks sys)
  run-Invariant m ps = run_inv F store share (Invariant m ps) λ k sys v.
      advance_cases F store share (Invariant m ps) k sys v
        λ p q s e h. step-Invariant m ps k sys p q s v e h

  -- No step loses or doubles a callback.
  pub run-load :
      (w : ℕ → ℕ) (ks : List ℕ) (sys : System F M)
      → load F w (run F store share ks sys) ≡ load F w sys
  run-load w ks sys =
      run_inv F store share (λ x. load F w x ≡ load F w sys)
        (λ k x h.
          advance_cases F store share (λ y. load F w y ≡ load F w sys) k x h
            λ p q s e st.
              let (r, r1, r2) = total_apart (held w) x.threads k p q e in
              omega (arith, h, step-held F store share w p q x.shared s st))
        ks sys refl
