-- ===== src/Task/Agreement.antt =====
-- hypertile-core/src/task.rs: what `JoinHandle::poll` returns, against what was published.
use hypertile.Base.{
  ℕ, ◌+◌, ◌≤◌, ◌≡◌, refl, ◌⊎◌, inl, inr, Option, none, some, List, [], ◌∷◌, min, length, All,
  Option-cases, arith,
}
use hypertile.Task.Cell.{
  cancelled, Outcome, err, Shared, starting, taking, polling, publishing, settling, settling_cas,
  discarding, requeueing, locking, swapping, storing, unlocking, handing_off, marking, marking_cas,
  enqueueing, cancelling, dropping, recording, notifying, entering, checking, parking, Pc, resting,
  run, complete, wake, cancel, join, Event,
}
use hypertile.Task.Methods.{step}
use hypertile.Task.Tally.{Tally, Shift}
use hypertile.Task.Publication.{Publication}

module _ {ℓ} {T P : Type ℓ} where
  -- The oldest entry of a trace.
  abbrev pub oldest : List (Outcome T P) → Option (Outcome T P)
  oldest [] = none
  oldest (x ∷ []) = some x
  oldest (x ∷ y ∷ ys) = oldest (y ∷ ys)

  -- Nothing was read yet and the result waits, or the first read returned `o`; nothing but `o` and
  -- a cancellation is ever read.
  abbrev pub Reads : Outcome T P → Option (Outcome T P) → List (Outcome T P) → Type ℓ
  Reads o r js =
      (((js ≡ []) × (r ≡ some o)) ⊎ (oldest js ≡ some o))
      × ((r ≡ none) ⊎ (r ≡ some o))
      × All (λ x. (x ≡ o) ⊎ (x ≡ err cancelled)) js

  -- Before the result is published, a read returns a cancellation only while a cancel is under way.
  pub Agrees : List (Outcome T P) → Option (Outcome T P) → List (Outcome T P) → ℕ → Type ℓ
  Agrees [] r js c = (r ≡ none) × (min 1 (length js) ≤ c) × All (λ x. x ≡ err cancelled) js
  Agrees (o ∷ _) r js c = Reads o r js

  oldest-cons :
      (o x : Outcome T P) (js : List (Outcome T P)) → oldest js ≡ some o → oldest (x ∷ js) ≡ some o
  oldest-cons o x [] h = cc
  oldest-cons o x (y ∷ js) h = h

  oldest_of_All :
      (js : List (Outcome T P))
      → All (λ x. x ≡ err cancelled) js
      → ((js ≡ []) ⊎ (oldest js ≡ some (err cancelled)))
  oldest_of_All [] a = inl refl
  oldest_of_All (x ∷ []) a = inr (cc a.0)
  oldest_of_All (x ∷ y ∷ ys) a = elim (oldest_of_All (y ∷ ys) a.1) [ inl e ↦ cc | inr f ↦ inr f ]

  weaken :
      (o : Outcome T P) (js : List (Outcome T P))
      → All (λ x. x ≡ err cancelled) js
      → All (λ x. (x ≡ o) ⊎ (x ≡ err cancelled)) js
  weaken o [] a = tt
  weaken o (x ∷ xs) a = (inr a.0, weaken o xs a.1)

  -- While nothing is published the cancels under way may change, but not vanish.
  keep-Agrees :
      (ps : List (Outcome T P)) (r : Option (Outcome T P)) (js : List (Outcome T P)) (c c' : ℕ)
      → c ≤ c' + length ps
      → Agrees ps r js c
      → Agrees ps r js c'
  unfolding Agrees
  keep-Agrees [] r js c c' h a = (a.0, omega arith, a.2)
  keep-Agrees (o ∷ ps) r js c c' h a = a

  -- `complete` publishes `o`.
  store-Agrees :
      (o : Outcome T P) (ps : List (Outcome T P)) (r : Option (Outcome T P))
      (js : List (Outcome T P)) (c c' : ℕ)
      → c + length ps ≡ 0
      → Agrees ps r js c
      → Agrees (o ∷ ps) (some o) js c'
  unfolding Agrees
  store-Agrees o [] r [] c c' h a = (inl (refl, refl), inr refl, tt)
  store-Agrees o [] r (x ∷ js) c c' h a = absurd (omega arith)
  store-Agrees o (p ∷ ps) r js c c' h a = absurd (omega arith)

  -- `cancel` publishes a cancellation.
  record-Agrees :
      (ps : List (Outcome T P)) (r : Option (Outcome T P)) (js : List (Outcome T P)) (c c' : ℕ)
      → length ps ≡ 0
      → Agrees ps r js c
      → Agrees (err cancelled ∷ ps) (some (err cancelled)) js c'
  unfolding Agrees
  record-Agrees [] r js c c' h (e, n, a) = elim (oldest_of_All js a) [
    | inl none_read ↦ (inl (none_read, refl), inr refl, weaken (err cancelled) js a)
    | inr first ↦ (inr first, inr refl, weaken (err cancelled) js a)
  ]
  record-Agrees (p ∷ ps) r js c c' h a = absurd (omega arith)

  -- `poll` takes the result.
  take-Agrees :
      (o : Outcome T P) (ps js : List (Outcome T P)) (c c' : ℕ)
      → Agrees ps (some o) js c
      → Agrees ps none (o ∷ js) c'
  unfolding Agrees
  take-Agrees o [] js c c' a = cc a.0
  take-Agrees o (p ∷ ps) js c c' (reads, result, all) =
      (inr (first reads), inl refl, (inl same, all))
    where
      same : o ≡ p
      same = ground arith

      first : ((js ≡ []) × (some o ≡ some p)) ⊎ (oldest js ≡ some p) → oldest (o ∷ js) ≡ some p
      first (inl (e, here)) = rw e here
      first (inr f) = oldest-cons p o js f

  -- `poll` finds the task completed and no result.
  check-Agrees :
      (ps js : List (Outcome T P)) (c c' : ℕ)
      → 1 ≤ c' + length ps
      → Agrees ps none js c
      → Agrees ps none (err cancelled ∷ js) c'
  unfolding Agrees
  check-Agrees [] js c c' h (e, n, a) = (refl, omega arith, (refl, a))
  check-Agrees (p ∷ ps) js c c' h (inl (_, e), result, all) = cc e
  check-Agrees (p ∷ ps) js c c' h (inr f, result, all) =
      (inr (oldest-cons p (err cancelled) js f), inl refl, (inr refl, all))

pub Agrees-published {ℓ} :
    {T P : Type ℓ} (o : Outcome T P) (ps js : List (Outcome T P)) (r : Option (Outcome T P)) (c : ℕ)
    → Agrees (o ∷ ps) r js c
    → Reads o r js
unfolding Agrees
Agrees-published o ps js r c a = a

pub start-Agrees {ℓ} : (T P : Type ℓ) → Agrees {T = T} {P = P} [] none [] 0
unfolding Agrees
start-Agrees T P = (refl, omega arith, tt)

module _ {F T P W : Type 0} {s s' : Shared F T P W} {t t' : Tally} where
  pub step-Agrees :
      (e : Event F T P W) (p q : Pc F T P W)
      → step e p s ≡ some (s', q)
      → Shift p q t t'
      → t.stray ≡ 0
      → Publication s t
      → Agrees s.published s.result s.joined t.cancel
      → Agrees s'.published s'.result s'.joined t'.cancel
  unfolding step
  step-Agrees e resting q m h z o a =
      ground (arith, keep-Agrees s.published s.result s.joined t.cancel t'.cancel)
  step-Agrees e (run starting) q m h z o a =
      ground (arith, keep-Agrees s.published s.result s.joined t.cancel t'.cancel)
  step-Agrees e (run taking) q m h z o a =
      ground (arith, keep-Agrees s.published s.result s.joined t.cancel t'.cancel)
  step-Agrees e (run (polling f)) q m h z o a =
      ground (arith, keep-Agrees s.published s.result s.joined t.cancel t'.cancel)
  step-Agrees e (run (publishing f)) q m h z o a =
      ground (arith, keep-Agrees s.published s.result s.joined t.cancel t'.cancel)
  step-Agrees e (run settling) q m h z o a =
      ground (arith, keep-Agrees s.published s.result s.joined t.cancel t'.cancel)
  step-Agrees e (run (settling_cas curr)) q m h z o a =
      ground (arith, keep-Agrees s.published s.result s.joined t.cancel t'.cancel)
  step-Agrees e (run discarding) q m h z o a =
      ground (arith, keep-Agrees s.published s.result s.joined t.cancel t'.cancel)
  step-Agrees e (run requeueing) q m h z o a =
      ground (arith, keep-Agrees s.published s.result s.joined t.cancel t'.cancel)
  step-Agrees e (complete (locking r)) q m h z o a =
      ground (arith, keep-Agrees s.published s.result s.joined t.cancel t'.cancel)
  step-Agrees e (complete (swapping r)) q m h z o a =
      ground (arith, keep-Agrees s.published s.result s.joined t.cancel t'.cancel)
  step-Agrees e (complete (storing r)) q m h z o a =
      ground (arith, store-Agrees r s.published s.result s.joined t.cancel t'.cancel)
  step-Agrees e (complete unlocking) q m h z o a =
      ground (arith, keep-Agrees s.published s.result s.joined t.cancel t'.cancel)
  step-Agrees e (complete handing_off) q m h z o a =
      ground (arith, keep-Agrees s.published s.result s.joined t.cancel t'.cancel)
  step-Agrees e (wake marking) q m h z o a =
      ground (arith, keep-Agrees s.published s.result s.joined t.cancel t'.cancel)
  step-Agrees e (wake (marking_cas curr)) q m h z o a =
      ground (arith, keep-Agrees s.published s.result s.joined t.cancel t'.cancel)
  step-Agrees e (wake enqueueing) q m h z o a =
      ground (arith, keep-Agrees s.published s.result s.joined t.cancel t'.cancel)
  step-Agrees e (cancel cancelling) q m h z o a =
      ground (arith, keep-Agrees s.published s.result s.joined t.cancel t'.cancel)
  step-Agrees e (cancel dropping) q m h z o a =
      ground (arith, keep-Agrees s.published s.result s.joined t.cancel t'.cancel)
  step-Agrees e (cancel recording) q m h z o a =
      ground (arith, record-Agrees s.published s.result s.joined t.cancel t'.cancel)
  step-Agrees e (cancel notifying) q m h z o a =
      ground (arith, keep-Agrees s.published s.result s.joined t.cancel t'.cancel)
  step-Agrees e (join (entering w)) q m h z o a = elim (Option-cases s.result) [
    | inl unread ↦ ground (arith, keep-Agrees s.published s.result s.joined t.cancel t'.cancel)
    | inr (r, waits) ↦ ground (arith, take-Agrees r s.published s.joined t.cancel t'.cancel)
  ]
  step-Agrees e (join (checking w)) q m h z o a = ground (
    arith,
    keep-Agrees s.published s.result s.joined t.cancel t'.cancel,
    check-Agrees s.published s.joined t.cancel t'.cancel,
  )
  step-Agrees e (join (parking w)) q m h z o a =
      ground (arith, keep-Agrees s.published s.result s.joined t.cancel t'.cancel)
