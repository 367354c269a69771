-- ===== src/Capi/Calls.antt =====
-- hypertile-capi/src/lib.rs: which of its functions a thread is in.
use hypertile.Base.{
  Parker, place, place_self, place_other, ℕ, ◌≡◌, refl, inl, inr, Bool, true, false, Option, none,
  some, List, [], ◌∷◌, if◌then◌else◌, sym, ◌∙◌, ap, subst, eq_or_ne,
}
use hypertile.Batch.Run.{pending}
use hypertile.Capi.Task.{
  TaskResult, Producer, storing, finishing, draining, unparking, gone, Pc, polling, poll_reading,
  waiting, registering, checking, pushing, looping, parking, wait_reading, polled, waited, System,
  Thread, go_to, unpark_thread, drain, take_lock, park_thread, call_step, produce, Turn, worker,
  caller, advance, run,
}

-- Where a call of `hypertile_wait` can be.
abbrev pub waits : Pc → Bool
waits waiting = true
waits registering = true
waits checking = true
waits pushing = true
waits looping = true
waits parking = true
waits wait_reading = true
waits (waited a) = true
waits polling = false
waits poll_reading = false
waits (polled a) = false

module _ {P : Parker} {T : Type 0} (r : TaskResult T) where
  -- The same kind of call, with the same `out_result`.
  abbrev pub Same : Thread P → Thread P → Type 0
  Same w w' = (waits w.pc ≡ waits w'.pc) × (w.out ≡ w'.out)

  place-Same :
      (j k : ℕ) (w : Thread P) (ts : ℕ → Thread P) → Same w (ts j) → Same (place j w ts k) (ts k)
  place-Same j k w ts h = elim (eq_or_ne k j) [
    | inl e ↦
        subst
          (λ i. (waits (place j w ts i).pc ≡ waits (ts i).pc) × ((place j w ts i).out ≡ (ts i).out))
          (sym e)
          (
            ap (λ x. waits x.pc) (place_self j w ts) ∙ h.0,
            ap (λ x. x.out) (place_self j w ts) ∙ h.1,
          )
    | inr n ↦
        (ap (λ x. waits x.pc) (place_other j k w ts n), ap (λ x. x.out) (place_other j k w ts n))
  ]

  module _ (k : ℕ) (s : System P T) where
    go_to-Same :
        (j : ℕ) (p : Pc)
        → waits p ≡ waits (s.threads j).pc
        → Same ((go_to j p s).threads k) (s.threads k)
    unfolding go_to
    go_to-Same j p e = place-Same j k (record (s.threads j) { pc = p }) s.threads (e, refl)

    branch-Same :
        (j : ℕ) (b : Bool) (p q : Pc)
        → waits p ≡ waits (s.threads j).pc
        → waits q ≡ waits (s.threads j).pc
        → Same ((go_to j (if b then p else q) s).threads k) (s.threads k)
    branch-Same j true p q e f = go_to-Same j p e
    branch-Same j false p q e f = go_to-Same j q f

    register-Same :
        (j : ℕ) (l : Option ℕ)
        → true ≡ waits (s.threads j).pc
        → Same ((take_lock j l s).threads k) (s.threads k)
    unfolding take_lock go_to
    register-Same j none e = place-Same j k _ s.threads (e, refl)
    register-Same j (some h) e = (refl, refl)

    check-Same :
        (j : ℕ) (b : Bool)
        → true ≡ waits (s.threads j).pc
        → Same
            ((if b then go_to j looping (record s { lock = none }) else go_to j pushing s).threads
              k)
            (s.threads k)
    unfolding go_to
    check-Same j true e = place-Same j k _ s.threads (e, refl)
    check-Same j false e = place-Same j k _ s.threads (e, refl)

    park-Same :
        (j : ℕ) (o : Option P.Token)
        → true ≡ waits (s.threads j).pc
        → Same ((park_thread j o s).threads k) (s.threads k)
    unfolding park_thread
    park-Same j none e = (refl, refl)
    park-Same j (some t) e = place-Same j k _ s.threads (e, refl)

    call_step-Same :
        (j : ℕ) (p : Pc)
        → waits p ≡ waits (s.threads j).pc
        → Same ((call_step j p s).threads k) (s.threads k)
    unfolding call_step go_to
    call_step-Same j polling e = branch-Same j s.done poll_reading (polled (pending, none)) e e
    call_step-Same j poll_reading e = go_to-Same j _ e
    call_step-Same j waiting e = branch-Same j s.done wait_reading registering e e
    call_step-Same j registering e = register-Same j s.lock e
    call_step-Same j checking e = check-Same j s.done e
    call_step-Same j pushing e = place-Same j k _ s.threads (e, refl)
    call_step-Same j looping e = branch-Same j s.done wait_reading parking e e
    call_step-Same j parking e = park-Same j (P.park (s.threads j).token) e
    call_step-Same j wait_reading e = go_to-Same j _ e
    call_step-Same j (polled a) e = (refl, refl)
    call_step-Same j (waited a) e = (refl, refl)

    drain-Same : (l : Option ℕ) → Same ((drain l s).threads k) (s.threads k)
    unfolding drain
    drain-Same none = (refl, refl)
    drain-Same (some h) = (refl, refl)

    produce-Same : (p : Producer) → Same ((produce r p s).threads k) (s.threads k)
    unfolding produce unpark_thread
    produce-Same storing = (refl, refl)
    produce-Same finishing = (refl, refl)
    produce-Same draining = drain-Same s.lock
    produce-Same (unparking (i ∷ is)) = place-Same i k _ s.threads (refl, refl)
    produce-Same (unparking []) = (refl, refl)
    produce-Same gone = (refl, refl)

    advance-Same : (t : Turn) → Same ((advance r t s).threads k) (s.threads k)
    unfolding advance
    advance-Same worker = produce-Same s.producer
    advance-Same (caller j) = call_step-Same j (s.threads j).pc refl

  -- A call stays the call that it is.
  pub run-Same :
      (k : ℕ) (ts : List Turn) (s : System P T) → Same ((run r ts s).threads k) (s.threads k)
  unfolding run
  run-Same k [] s = (refl, refl)
  run-Same k (t ∷ ts) s =
      let (a, b) = run-Same k ts (advance r t s) in
      let (c, d) = advance-Same k s t in (a ∙ c, b ∙ d)
