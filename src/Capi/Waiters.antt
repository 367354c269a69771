-- ===== src/Capi/Waiters.antt =====
-- hypertile-capi/src/lib.rs: `hypertile_wait` returns, and with the task's outcome.
use hypertile.Base.{
  Parker, place, place_self, place_other, ℕ, ◌≡◌, ◌≢◌, ◌⊎◌, refl, inl, inr, Bool, true, false,
  Option, none, some, List, [], ◌∷◌, ◌++◌, if◌then◌else◌, some-inj, sym, ◌∙◌, ap, subst, eq_or_ne,
}
use hypertile.Registry.Defs.{contains}
use hypertile.Batch.Run.{pending, err_not_initialized}
use hypertile.Capi.Task.{
  TaskResult, address, panic_text, read_result, Producer, storing, finishing, draining, unparking,
  gone, Pc, polling, poll_reading, waiting, registering, checking, pushing, looping, parking,
  wait_reading, polled, waited, System, Thread, go_to, take_lock, park_thread, call_step,
}
use hypertile.Registry.Lookup.{contains-append, contains_last}
use hypertile.Capi.Parking.{
  is_finished, is_drained, unparks, stored_at, Woken, At, Keeps, Keeps-At, Invariant,
}

pub true-false : (p : true ≡ false) → ⊥
true-false p = cc

undrained : (p : Producer) → is_finished p ≡ false → is_drained p ≡ false
undrained storing h = refl
undrained finishing h = refl
undrained draining h = refl
undrained (unparking is) h = cc
undrained gone h = cc

status_of_some :
    {T : Type 0} (r : TaskResult T) (out : Bool)
    → read_result pending out (some r) ≡ read_result err_not_initialized out (some r)
unfolding read_result
status_of_some (address a) out = refl
status_of_some (panic_text t) out = refl

unparks_finished : (k : ℕ) (p : Producer) → unparks p k ≡ true → is_finished p ≡ true
unparks_finished k storing h = cc
unparks_finished k finishing h = cc
unparks_finished k draining h = refl
unparks_finished k (unparking is) h = refl
unparks_finished k gone h = refl

stored_finished :
    {T : Type 0} (r : TaskResult T) (p : Producer) → is_finished p ≡ true → stored_at r p ≡ some r
stored_finished r storing h = cc
stored_finished r finishing h = refl
stored_finished r draining h = refl
stored_finished r (unparking is) h = refl
stored_finished r gone h = refl

module _ {P : Parker} {T : Type 0} (r : TaskResult T) where
  -- Nothing that a thread needs has changed.
  same-Keeps :
      (j : ℕ) (t : P.Token) (s s' : System P T)
      → s'.lock ≡ s.lock
      → s'.producer ≡ s.producer
      → s'.done ≡ s.done
      → s'.unparkers ≡ s.unparkers
      → Keeps r j t s t s'
  same-Keeps j t s s' l p d u = record {
    lock = λ h. l ∙ h;
    undrained = λ h i. ap is_drained p ∙ i;
    done = λ h. d ∙ h;
    looping = λ h. inr (ap (λ x. contains x j) u ∙ h);
    woken = λ h. elim h [
      | inl a ↦ inl (ap (λ x. contains x j) u ∙ a)
      | inr (inl b) ↦ inr (inl (ap (λ x. unparks x j) p ∙ b))
      | inr (inr c) ↦ inr (inr (d ∙ c.0, c.1, c.2))
    ];
  }

  place-threads :
      (k : ℕ) (w : Thread P) (s s' : System P T)
      → At r k w.pc w.token w.out s'
      → ((j : ℕ) → j ≢ k → Keeps r j (s.threads j).token s (s.threads j).token s')
      → ((j : ℕ) → let v = s.threads j in At r j v.pc v.token v.out s)
      → (j : ℕ) → let v = place k w s.threads j in At r j v.pc v.token v.out s'
  place-threads k w s s' here there before j = elim (eq_or_ne j k) [
    | inl e ↦
        subst (λ i. let v = place k w s.threads i in At r i v.pc v.token v.out s') (sym e)
          (subst (λ v. At r k v.pc v.token v.out s') (sym (place_self k w s.threads)) here)
    | inr n ↦
        subst (λ v. At r j v.pc v.token v.out s') (sym (place_other k j w s.threads n))
          (Keeps-At r j (s.threads j).pc (s.threads j).token (s.threads j).token (s.threads j).out s
            s' (there j n) (before j))
  ]

  module _ (k : ℕ) (s : System P T) (v : Invariant r s) where
    -- Thread `k` goes on to `p`, where it may be.
    go_to-Invariant :
        (p : Pc)
        → At r k p (s.threads k).token (s.threads k).out (go_to k p s)
        → Invariant r (go_to k p s)
    unfolding go_to
    go_to-Invariant p a = record {
      done = v.done;
      stored = v.stored;
      drained = v.drained;
      threads =
          place-threads k (record (s.threads k) { pc = p }) s (go_to k p s) a
            (λ j n. same-Keeps j (s.threads j).token s (go_to k p s) refl refl refl refl) v.threads;
    }

    some-ne : {j : ℕ} (n : j ≢ k) (a : s.lock ≡ some k) (b : s.lock ≡ some j) → ⊥
    some-ne n a b = n (some-inj (sym b ∙ a))

    -- Thread `k` gives the lock back, and the list of unparkers may grow.
    unlock-Invariant :
        (us : List ℕ)
        → s.lock ≡ some k
        → (is_drained s.producer ≡ true → us ≡ [])
        → ((j : ℕ) → contains s.unparkers j ≡ true → contains us j ≡ true)
        → (s.done ≡ true) ⊎ (contains us k ≡ true)
        → Invariant r (go_to k looping (record s { unparkers = us; lock = none }))
    unfolding go_to
    unlock-Invariant us l d more a = record {
      done = v.done;
      stored = v.stored;
      drained = d;
      threads =
          place-threads k (record (s.threads k) { pc = looping }) s
            (go_to k looping (record s { unparkers = us; lock = none })) a
            (λ j n. record {
              lock = λ h. absurd (some-ne n l h);
              undrained = λ h i. i;
              done = λ h. h;
              looping = λ h. inr (more j h);
              woken = λ h. elim h [ inl b ↦ inl (more j b) | inr c ↦ inr c ];
            })
            v.threads;
    }

    lock-Invariant : s.lock ≡ none → Invariant r (go_to k checking (record s { lock = some k }))
    unfolding go_to
    lock-Invariant l = record {
      done = v.done;
      stored = v.stored;
      drained = v.drained;
      threads =
          place-threads k (record (s.threads k) { pc = checking }) s
            (go_to k checking (record s { lock = some k })) refl
            (λ j n. record {
              lock = λ h. cc;
              undrained = λ h i. i;
              done = λ h. h;
              looping = λ h. inr h;
              woken = λ h. h;
            })
            v.threads;
    }

    park-Invariant :
        (t : P.Token)
        → (s.done ≡ true) ⊎ (contains s.unparkers k ≡ true)
        → Invariant r (park_thread k (some t) s)
    unfolding park_thread
    park-Invariant t a = record {
      done = v.done;
      stored = v.stored;
      drained = v.drained;
      threads =
          place-threads k (record (s.threads k) { pc = looping; token = t }) s
            (park_thread k (some t) s) a
            (λ j n.
              same-Keeps j (s.threads j).token s (park_thread k (some t) s) refl refl refl refl)
            v.threads;
    }

    -- A thread that is parked is to be unparked only once the flag is stored.
    looping_of_Woken :
        (t : P.Token) → Woken r k t s → (s.done ≡ true) ⊎ (contains s.unparkers k ≡ true)
    looping_of_Woken t h = elim h [
      | inl a ↦ inr a
      | inr (inl b) ↦ inl (v.done ∙ unparks_finished k s.producer b)
      | inr (inr c) ↦ inl c.0
    ]

    -- The result that is read once the flag is stored.
    pub result_done : s.done ≡ true → s.result ≡ some r
    result_done d = v.stored ∙ stored_finished r s.producer (sym v.done ∙ d)

    not_done :
        s.done ≡ false
        → (s.done ≡ true) ⊎ (contains s.unparkers k ≡ true)
        → contains s.unparkers k ≡ true
    not_done d (inl h) = absurd (true-false (sym h ∙ d))
    not_done d (inr h) = h

    same_status :
        (out : Bool)
        → read_result pending out (some r) ≡ read_result err_not_initialized out (some r)
    same_status out = status_of_some r out

    branch-Invariant :
        (b : Bool) (p q : Pc)
        → (b ≡ true → Invariant r (go_to k p s))
        → (b ≡ false → Invariant r (go_to k q s))
        → Invariant r (go_to k (if b then p else q) s)
    branch-Invariant true p q f g = f refl
    branch-Invariant false p q f g = g refl

    register-Invariant : (l : Option ℕ) → s.lock ≡ l → Invariant r (take_lock k l s)
    unfolding take_lock
    register-Invariant (some holder) e = v
    register-Invariant none e = lock-Invariant e

    check-Invariant :
        (b : Bool)
        → s.done ≡ b
        → s.lock ≡ some k
        → Invariant r (if b then go_to k looping (record s { lock = none }) else go_to k pushing s)
    unfolding go_to
    check-Invariant true d l = unlock-Invariant s.unparkers l v.drained (λ j h. h) (inl d)
    check-Invariant false d l =
        go_to-Invariant pushing (l, undrained s.producer (sym (sym d ∙ v.done)))

    unpark-Invariant :
        (o : Option P.Token) → Woken r k (s.threads k).token s → Invariant r (park_thread k o s)
    unfolding park_thread
    unpark-Invariant none w = v
    unpark-Invariant (some t) w = park-Invariant t (looping_of_Woken (s.threads k).token w)

    pub call_step-Invariant :
        (p : Pc) → At r k p (s.threads k).token (s.threads k).out s → Invariant r (call_step k p s)
    unfolding call_step
    call_step-Invariant polling a =
        branch-Invariant s.done poll_reading (polled (pending, none))
          (λ d. go_to-Invariant poll_reading d)
          (λ d. go_to-Invariant (polled (pending, none)) (inr refl))
    call_step-Invariant poll_reading a =
        go_to-Invariant (polled (read_result pending (s.threads k).out s.result)) (
          inl (
            ap (read_result pending (s.threads k).out) (result_done a)
            ∙ same_status (s.threads k).out))
    call_step-Invariant waiting a =
        branch-Invariant s.done wait_reading registering (λ d. go_to-Invariant wait_reading d)
          (λ d. go_to-Invariant registering tt)
    call_step-Invariant registering a = register-Invariant s.lock refl
    call_step-Invariant checking a = check-Invariant s.done refl a
    call_step-Invariant pushing (a, b) =
        unlock-Invariant (s.unparkers ++ (k ∷ [])) a (λ h. absurd (true-false (sym h ∙ b)))
          (λ j h. contains-append s.unparkers (k ∷ []) j h) (inr (contains_last s.unparkers k))
    call_step-Invariant looping a =
        branch-Invariant s.done wait_reading parking (λ d. go_to-Invariant wait_reading d)
          (λ d. go_to-Invariant parking (inl (not_done d a)))
    call_step-Invariant parking a = unpark-Invariant (P.park (s.threads k).token) a
    call_step-Invariant wait_reading a =
        go_to-Invariant (waited (read_result err_not_initialized (s.threads k).out s.result))
          (ap (read_result err_not_initialized (s.threads k).out) (result_done a))
    call_step-Invariant (polled b) a = v
    call_step-Invariant (waited b) a = v
