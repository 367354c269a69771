-- ===== src/Capi/Holder.antt =====
-- hypertile-capi/src/lib.rs: who holds the lock of the unparkers.
use hypertile.Base.{
  Parker, place, place_self, place_other, ℕ, ◌≡◌, refl, inl, inr, Bool, true, false, Option, none,
  some, List, [], ◌∷◌, if◌then◌else◌, sym, ◌∙◌, ap, subst, eq_or_ne, some-inj,
}
use hypertile.Batch.Run.{pending}
use hypertile.Capi.Task.{
  TaskResult, Producer, storing, finishing, draining, unparking, gone, Pc, polling, poll_reading,
  waiting, registering, checking, pushing, looping, parking, wait_reading, polled, waited, Thread,
  System, go_to, unpark_thread, drain, produce, take_lock, park_thread, call_step, Turn, worker,
  caller, advance, run,
}
use hypertile.Capi.Waiters.{true-false}

abbrev pub holds : Pc → Bool
holds checking = true
holds pushing = true
holds polling = false
holds poll_reading = false
holds waiting = false
holds registering = false
holds looping = false
holds parking = false
holds wait_reading = false
holds (polled a) = false
holds (waited a) = false

module _ {P : Parker} {T : Type 0} (r : TaskResult T) where
  -- Whom the lock names is in `checking` or `pushing`.
  abbrev pub Held : System P T → Type 0
  Held s = (h : ℕ) → s.lock ≡ some h → holds (s.threads h).pc ≡ true

  place-Held :
      (k : ℕ) (w : Thread P) (s : System P T)
      → Held s
      → (s.lock ≡ some k → holds w.pc ≡ true)
      → (h : ℕ) → s.lock ≡ some h
      → holds (place k w s.threads h).pc ≡ true
  place-Held k w s v new h l = elim (eq_or_ne h k) [
    | inl e ↦
        subst (λ i. holds (place k w s.threads i).pc ≡ true) (sym e)
          (ap (λ x. holds x.pc) (place_self k w s.threads) ∙ new (l ∙ ap some e))
    | inr n ↦ ap (λ x. holds x.pc) (place_other k h w s.threads n) ∙ v h l
  ]

  module _ (k : ℕ) (s : System P T) (v : Held s) where
    -- A thread that does not hold the lock moves on.
    go_to-Held : (p q : Pc) → (s.threads k).pc ≡ p → holds p ≡ false → Held (go_to k q s)
    unfolding go_to
    go_to-Held p q e n =
        place-Held k (record (s.threads k) { pc = q }) s v
          (λ l. absurd (true-false (sym (v k l) ∙ (ap holds e ∙ n))))

    branch-Held :
        (b : Bool) (p q q' : Pc)
        → (s.threads k).pc ≡ p
        → holds p ≡ false
        → Held (go_to k (if b then q else q') s)
    branch-Held true p q q' e n = go_to-Held p q e n
    branch-Held false p q q' e n = go_to-Held p q' e n

    take_lock-Held : (l : Option ℕ) → s.lock ≡ l → Held (take_lock k l s)
    unfolding take_lock go_to
    take_lock-Held (some h) e = v
    take_lock-Held none e = λ h l.
        subst (λ i. holds (place k (record (s.threads k) { pc = checking }) s.threads i).pc ≡ true)
          (some-inj l)
          (ap (λ x. holds x.pc) (place_self k (record (s.threads k) { pc = checking }) s.threads))

    check-Held :
        (b : Bool)
        → Held (if b then go_to k looping (record s { lock = none }) else go_to k pushing s)
    unfolding go_to
    check-Held true = λ h l. cc
    check-Held false = place-Held k (record (s.threads k) { pc = pushing }) s v (λ l. refl)

    park-Held : (o : Option P.Token) → (s.threads k).pc ≡ parking → Held (park_thread k o s)
    unfolding park_thread
    park-Held none e = v
    park-Held (some t) e =
        place-Held k (record (s.threads k) { pc = looping; token = t }) s v
          (λ l. absurd (true-false (sym (v k l) ∙ ap holds e)))

    call_step-Held : (p : Pc) → (s.threads k).pc ≡ p → Held (call_step k p s)
    unfolding call_step go_to
    call_step-Held polling e =
        branch-Held s.done polling poll_reading (polled (pending, none)) e refl
    call_step-Held poll_reading e = go_to-Held poll_reading _ e refl
    call_step-Held waiting e = branch-Held s.done waiting wait_reading registering e refl
    call_step-Held registering e = take_lock-Held s.lock refl
    call_step-Held checking e = check-Held s.done
    call_step-Held pushing e = λ h l. cc
    call_step-Held looping e = branch-Held s.done looping wait_reading parking e refl
    call_step-Held parking e = park-Held (P.park (s.threads k).token) e
    call_step-Held wait_reading e = go_to-Held wait_reading _ e refl
    call_step-Held (polled a) e = v
    call_step-Held (waited a) e = v

  drain-Held : (l : Option ℕ) (s : System P T) → Held s → Held (drain l s)
  unfolding drain
  drain-Held none s v = v
  drain-Held (some h) s v = v

  produce-Held : (p : Producer) (s : System P T) → Held s → Held (produce r p s)
  unfolding produce unpark_thread
  produce-Held storing s v = v
  produce-Held finishing s v = v
  produce-Held draining s v = drain-Held s.lock s v
  produce-Held (unparking (i ∷ is)) s v =
      place-Held i (record (s.threads i) { token = P.unpark (s.threads i).token }) s v (v i)
  produce-Held (unparking []) s v = v
  produce-Held gone s v = v

  advance-Held : (t : Turn) (s : System P T) → Held s → Held (advance r t s)
  unfolding advance
  advance-Held worker s v = produce-Held s.producer s v
  advance-Held (caller k) s v = call_step-Held k s v (s.threads k).pc refl

  pub run-Held : (ts : List Turn) (s : System P T) → Held s → Held (run r ts s)
  unfolding run
  run-Held [] s v = v
  run-Held (t ∷ ts) s v = run-Held ts (advance r t s) (advance-Held t s v)
