-- ===== src/Python/Callbacks.antt =====
-- hypertile-sys/src/lib.rs: what becomes of the callbacks of a task.
use hypertile.Base.{
  ℕ, suc, ◌+◌, ◌≤◌, ◌<◌, ◌≡◌, inl, inr, refl, sym, ap, subst, ◌∙◌, true, List, [], ◌∷◌, ◌++◌, map,
  length, total, total_mono, All, ◌==◌, if◌then◌else◌, arith,
}
use hypertile.Registry.Defs.{contains}
use hypertile.Python.Flag.{Flag}
use hypertile.Python.Completion.{
  Pc, storing, finishing, draining, adding, checking, pushing, rechecking, calling, resting, System,
  run, start,
}
use hypertile.Python.Step.{held, holds, owed, answers, late, stores}
use hypertile.Python.Invariant.{Invariant, run-Invariant, run-load}
use hypertile.Python.Settling.{to_do, settle_within}

-- How often a callback is in a list.
abbrev pub count : ℕ → List ℕ → ℕ
count a = total (λ c. if c == a then 1 else 0)

-- One thread for each producer, and one for each callback that is added.
abbrev pub threads_of : List ℕ → List ℕ → List Pc
threads_of ps cs = map storing ps ++ map adding cs

abbrev pub Resting : List Pc → Type 0
Resting ts = All (λ p. p ≡ resting) ts

total-Resting : (f : Pc → ℕ) (ts : List Pc) → f resting ≡ 0 → Resting ts → total f ts ≡ 0
unfolding total
total-Resting f [] z h = refl
total-Resting f (p ∷ ts) z h = omega (arith, ap f h.0, total-Resting f ts z h.1)

-- Weights of the threads at the start.
total-threads_of :
    (f : Pc → ℕ) (g h : ℕ → ℕ) (ps cs : List ℕ)
    → ((i : ℕ) → f (storing i) ≡ g i)
    → ((c : ℕ) → f (adding c) ≡ h c)
    → total f (threads_of ps cs) ≡ total g ps + total h cs
unfolding total
total-threads_of f g h [] [] p q = refl
total-threads_of f g h [] (c ∷ cs) p q = omega (arith, q c, total-threads_of f g h [] cs p q)
total-threads_of f g h (i ∷ ps) cs p q = omega (arith, p i, total-threads_of f g h ps cs p q)

total-nothing : (xs : List ℕ) → total (λ x. 0) xs ≡ 0
unfolding total
total-nothing [] = refl
total-nothing (x ∷ xs) = omega (arith, total-nothing xs)

contains-total :
    (i : ℕ) (ps : List ℕ) → contains ps i ≡ true → 0 < total (λ j. if j == i then 1 else 0) ps
unfolding contains total
contains-total i [] h = cc
contains-total i (p ∷ ps) h = ground (arith, contains-total i ps)

le_of_done : (n : ℕ) → (n == 0) ≡ true → n ≡ 0
le_of_done n h = ground arith

empty : (xs : List ℕ) → (0 < length xs → ⊥) → xs ≡ []
empty [] h = refl
empty (x ∷ xs) h = absurd (h (omega arith))

nothing_at_start :
    (f : Pc → ℕ) (ps cs : List ℕ)
    → ((i : ℕ) → f (storing i) ≡ 0)
    → ((c : ℕ) → f (adding c) ≡ 0)
    → total f (threads_of ps cs) ≡ 0
nothing_at_start f ps cs p q =
    omega
      (arith, total-threads_of f (λ i. 0) (λ d. 0) ps cs p q, total-nothing ps, total-nothing cs)

module _ {M : Type 0} (F : Flag) (store : ℕ → M → M) (share : ℕ → ℕ)
    (pos : (i : ℕ) → 0 < share i) where
  -- At the start nothing was called.
  start-Invariant :
      (f : F.State) (m : M) (ps cs : List ℕ)
      → F.Counts f (total share ps)
      → Invariant F store share pos m ps (start F f m (threads_of ps cs))
  unfolding start total
  start-Invariant f m ps cs c = record {
    counted = subst (F.Counts f) (sym owes) c;
    locked = sym (nothing_at_start holds ps cs (λ i. refl) (λ d. refl));
    answered = λ d l. absurd (omega arith);
    late_done = λ l. absurd (omega (arith, nothing_at_start late ps cs (λ i. refl) (λ d. refl)));
    stored = λ i h. inr (
        omega (
          arith,
          contains-total i ps h,
          total-threads_of (stores i) (λ j. if j == i then 1 else 0) (λ d. 0) ps cs (λ j. refl)
              (λ d. refl),
        ));
    replayed = refl;
  }
    where
      owes : total (owed share) (threads_of ps cs) ≡ total share ps
      owes = omega (
        arith,
        total-threads_of (owed share) share (λ d. 0) ps cs (λ i. refl) (λ d. refl),
        total-nothing cs,
      )

  stores-owed : (i : ℕ) (p : Pc) → stores i p ≤ owed share p
  stores-owed i (storing j) = ground (arith, pos j)
  stores-owed i (finishing j) = omega arith
  stores-owed i draining = omega arith
  stores-owed i (adding c) = omega arith
  stores-owed i (checking c) = omega arith
  stores-owed i (pushing c) = omega arith
  stores-owed i rechecking = omega arith
  stores-owed i (calling cs) = omega arith
  stores-owed i resting = omega arith

  module _ (f : F.State) (m : M) (ps cs : List ℕ) (counts : F.Counts f (total share ps)) where
    pub reached :
        (ks : List ℕ)
        → Invariant F store share pos m ps (run F store share ks (start F f m (threads_of ps cs)))
    reached ks =
        run-Invariant F store share pos m ps ks (start F f m (threads_of ps cs))
          (start-Invariant f m ps cs counts)

    -- Once every producer has finished, each has stored.
    pub all_stored :
        (sys : System F M)
        → Invariant F store share pos m ps sys
        → F.is_done sys.shared.flag ≡ true
        → (i : ℕ) → contains ps i ≡ true
        → contains sys.shared.stored i ≡ true
    all_stored sys v d i h = elim (v.stored i h) [
      | inl s ↦ s
      | inr w ↦
          let n = F.is_done-Counts sys.shared.flag (total (owed share) sys.threads) v.counted in
          absurd (
            omega (
              arith,
              le_of_done (total (owed share) sys.threads) (sym n ∙ d),
              total_mono (stores i) (owed share) sys.threads (stores-owed i),
            ))
    ]

    -- After any schedule in which some callback was called, the task is done, and each producer has
    -- stored its result.
    pub called_late :
        (ks : List ℕ) (i : ℕ)
        → 0 < length (run F store share ks (start F f m (threads_of ps cs))).shared.called
        → contains ps i ≡ true
        → let s = (run F store share ks (start F f m (threads_of ps cs))).shared in
          (F.is_done s.flag ≡ true) × (contains s.stored i ≡ true)
    called_late ks i l h =
        let v = reached ks in
        let d = v.late_done (omega arith) in
        (d, all_stored (run F store share ks (start F f m (threads_of ps cs))) v d i h)

    -- If the done flag or count starts out with what the producers of a task are to take off it,
    -- any schedule of the producers and of the threads that add callbacks can be continued until
    -- every thread is at rest.
    pub settles :
        (ks : List ℕ)
        → (js : List ℕ) × Resting
            (run F store share js (run F store share ks (start F f m (threads_of ps cs)))).threads
    settles ks =
        let sys = run F store share ks (start F f m (threads_of ps cs)) in
        settle_within F store share (suc (to_do F store share sys)) m ps pos sys (reached ks)
          (omega arith)

    no_queue :
        (sys : System F M)
        → Invariant F store share pos m ps sys
        → F.is_done sys.shared.flag ≡ true
        → Resting sys.threads
        → sys.shared.callbacks ≡ []
    no_queue sys v d rest =
        empty sys.shared.callbacks
          λ l. omega (arith, v.answered d l, total-Resting answers sys.threads refl rest)

    -- Let a done flag or a count start out with what the producers of a task are to take off it.
    -- After any schedule of the producers and of the threads that add callbacks that leaves every
    -- thread at rest, the task is done, and each callback was called as often as it was added.
    pub called_once :
        (ks : List ℕ)
        → Resting (run F store share ks (start F f m (threads_of ps cs))).threads
        → let s = (run F store share ks (start F f m (threads_of ps cs))).shared in
          (F.is_done s.flag ≡ true) × ((a : ℕ) → count a s.called ≡ count a cs)
    unfolding start total
    called_once ks rest =
        let sys = run F store share ks (start F f m (threads_of ps cs)) in
        let v = reached ks in
        let n = F.is_done-Counts sys.shared.flag (total (owed share) sys.threads) v.counted in
        let d : F.is_done sys.shared.flag ≡ true =
          n ∙ ap (λ x. x == 0) (total-Resting (owed share) sys.threads refl rest) in
        (
          d,
          λ a. omega (
            arith,
            run-load F store share pos (λ c. if c == a then 1 else 0) ks
                (start F f m (threads_of ps cs)),
            total-Resting (held (λ c. if c == a then 1 else 0)) sys.threads refl rest,
            total-threads_of (held (λ c. if c == a then 1 else 0)) (λ i. 0)
                (λ c. if c == a then 1 else 0) ps cs (λ i. refl) (λ c. refl),
            total-nothing ps,
            ap (total (λ c. if c == a then 1 else 0)) (no_queue sys v d rest),
          ),
        )
