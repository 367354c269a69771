-- ===== src/Capi/Return.antt =====
-- hypertile-capi/src/lib.rs: what `hypertile_poll` and `hypertile_wait` return, and that a wait returns.
use hypertile.Base.{
  Parker, place_self, ℕ, ◌≡◌, ◌⊎◌, refl, inl, inr, Bool, true, Option, none, some, List, [], ◌∷◌,
  if◌then◌else◌, sym, ◌∙◌, ap, subst,
}
use hypertile.Registry.Defs.{contains}
use hypertile.Batch.Run.{HypertileStatus, pending, err_not_initialized}
use hypertile.Capi.Task.{
  TaskResult, read_result, gone, Pc, polling, poll_reading, waiting, registering, checking, pushing,
  looping, parking, wait_reading, polled, waited, System, Thread, go_to, take_lock, park_thread,
  call_step, Turn, caller, advance, run, new_task,
}
use hypertile.Capi.Parking.{is_finished, is_drained, unparks, outcome, Woken, At, Invariant}
use hypertile.Capi.Waiters.{true-false, result_done}
use hypertile.Capi.Release.{run-Invariant}
use hypertile.Capi.Calls.{waits, run-Same}

-- A call of `hypertile_wait` of a task, and one of `hypertile_poll`, before its first access.
abbrev pub Begins : Pc → Type 0
Begins p = (p ≡ polling) ⊎ (p ≡ waiting)

-- What a call may have returned, if it has.
abbrev pub Answers : {T : Type 0} → TaskResult T → Pc → Bool → Type 0
Answers r (waited a) out = a ≡ outcome r out
Answers r (polled a) out = (a ≡ outcome r out) ⊎ (a ≡ (pending, none))
Answers r _ out = Unit

-- The next four accesses of a thread.
abbrev pub four : ℕ → List Turn
four k = caller k ∷ caller k ∷ caller k ∷ caller k ∷ []

none-lock : {A : Type 0} {k : ℕ} (p : ◌≡◌ {A = Option ℕ} none (some k)) → A
none-lock p = cc

module _ {P : Parker} {T : Type 0} (r : TaskResult T) where
  Begins-At :
      (k : ℕ) (p : Pc) (t : P.Token) (out : Bool) (s : System P T) → Begins p → At r k p t out s
  Begins-At k p t out s (inl e) = subst (λ q. At r k q t out s) (sym e) tt
  Begins-At k p t out s (inr e) = subst (λ q. At r k q t out s) (sym e) tt

  new_task-Invariant :
      (ts : ℕ → Thread P) → ((k : ℕ) → Begins (ts k).pc) → Invariant r (new_task ts)
  new_task-Invariant ts b = record {
    done = refl;
    stored = refl;
    drained = λ h. refl;
    threads = λ k. Begins-At k (ts k).pc (ts k).token (ts k).out (new_task ts) (b k);
  }

  -- A thread, while the flag and the result are stored.
  record Ready (k : ℕ) (p : Pc) (l : Option ℕ) (out : Bool) (s : System P T) : Type 0 where
    done : s.done ≡ true
    lock : s.lock ≡ l
    result : s.result ≡ some r
    pc : (s.threads k).pc ≡ p
    out_result : (s.threads k).out ≡ out

  module _ (k : ℕ) (out : Bool) where
    go_to-Ready :
        (p p' q : Pc) (l : Option ℕ) (s : System P T)
        → Ready k q l out s
        → p ≡ p'
        → Ready k p' l out (go_to k p s)
    unfolding go_to
    go_to-Ready p p' q l s h e =
        let here = place_self k (record (s.threads k) { pc = p }) s.threads in
        record {
          done = h.done;
          lock = h.lock;
          result = h.result;
          pc = ap (λ w. w.pc) here ∙ e;
          out_result = ap (λ w. w.out) here ∙ h.out_result;
        }

    relock-Ready :
        (q : Pc) (l m : Option ℕ) (s : System P T)
        → Ready k q l out s
        → Ready k q m out (record s { lock = m })
    relock-Ready q l m s h = record {
      done = h.done;
      lock = refl;
      result = h.result;
      pc = h.pc;
      out_result = h.out_result;
    }

    by_pc :
        (p q : Pc) (l m : Option ℕ) (s : System P T)
        → Ready k p l out s
        → Ready k q m out (call_step k p s)
        → Ready k q m out (advance r (caller k) s)
    unfolding advance
    by_pc p q l m s h g = subst (λ x. Ready k q m out (call_step k x s)) (sym h.pc) g

    read :
        (s : System P T)
        → Ready k wait_reading none out s
        → Ready k (waited (outcome r out)) none out (advance r (caller k) s)
    unfolding call_step
    read s h = by_pc wait_reading (waited (outcome r out)) none none s h (
        go_to-Ready (waited (read_result err_not_initialized (s.threads k).out s.result))
          (waited (outcome r out)) wait_reading none s h
          (ap (λ x. waited (read_result err_not_initialized x s.result)) h.out_result
            ∙ ap (λ x. waited (read_result err_not_initialized out x)) h.result))

    loop :
        (s : System P T)
        → Ready k looping none out s
        → Ready k wait_reading none out (advance r (caller k) s)
    unfolding call_step
    loop s h = by_pc looping wait_reading none none s h (
        go_to-Ready (if s.done then wait_reading else parking) wait_reading looping none s h
          (ap (λ b. if b then wait_reading else parking) h.done))

    begin :
        (s : System P T)
        → Ready k waiting none out s
        → Ready k wait_reading none out (advance r (caller k) s)
    unfolding call_step
    begin s h = by_pc waiting wait_reading none none s h (
        go_to-Ready (if s.done then wait_reading else registering) wait_reading waiting none s h
          (ap (λ b. if b then wait_reading else registering) h.done))

    register :
        (s : System P T)
        → Ready k registering none out s
        → Ready k checking (some k) out (advance r (caller k) s)
    unfolding call_step take_lock
    register s h = by_pc registering checking none (some k) s h (
        subst (λ l. Ready k checking (some k) out (take_lock k l s)) (sym h.lock)
          (go_to-Ready checking checking registering (some k) (record s { lock = some k })
            (relock-Ready registering none (some k) s h) refl))

    check :
        (s : System P T)
        → Ready k checking (some k) out s
        → Ready k looping none out (advance r (caller k) s)
    unfolding call_step
    check s h = by_pc checking looping (some k) none s h (
        subst
          (λ b.
            Ready k looping none out
              (if b then go_to k looping (record s { lock = none }) else go_to k pushing s))
          (sym h.done)
          (go_to-Ready looping looping checking none (record s { lock = none })
            (relock-Ready checking (some k) none s h) refl))

    unpark :
        (s : System P T) (u : P.Token)
        → (s.threads k).token ≡ P.unpark u
        → Ready k parking none out s
        → Ready k looping none out (advance r (caller k) s)
    unfolding call_step park_thread
    unpark s u a h =
        let (t, e) = P.park-unpark u in
        let here = place_self k (record (s.threads k) { pc = looping; token = t }) s.threads in
        by_pc parking looping none none s h (
          subst (λ o. Ready k looping none out (park_thread k o s)) (sym (ap P.park a ∙ e))
            (record {
              done = h.done;
              lock = h.lock;
              result = h.result;
              pc = ap (λ w. w.pc) here;
              out_result = ap (λ w. w.out) here ∙ h.out_result;
            }))

    stay :
        (a : HypertileStatus × Option ℕ) (s : System P T)
        → Ready k (waited a) none out s
        → Ready k (waited a) none out (advance r (caller k) s)
    unfolding call_step
    stay a s h = by_pc (waited a) (waited a) none none s h h

    from_parking :
        (s : System P T)
        → Invariant r s
        → s.producer ≡ gone
        → Woken r k (s.threads k).token s
        → (u : P.Token) × ((s.threads k).token ≡ P.unpark u)
    unfolding contains
    from_parking s v g (inl a) =
        absurd (true-false (sym a ∙ ap (λ x. contains x k) (v.drained (ap is_drained g))))
    from_parking s v g (inr (inl b)) = absurd (true-false (sym b ∙ ap (λ p. unparks p k) g))
    from_parking s v g (inr (inr c)) = (c.1, c.2)

    returns_from :
        (p : Pc) (s : System P T)
        → waits p ≡ true
        → Invariant r s
        → s.producer ≡ gone
        → At r k p (s.threads k).token (s.threads k).out s
        → Ready k p none out s
        → Ready k (waited (outcome r out)) none out (run r (four k) s)
    unfolding run
    returns_from polling s w v g a h = absurd (true-false (sym w))
    returns_from poll_reading s w v g a h = absurd (true-false (sym w))
    returns_from (polled b) s w v g a h = absurd (true-false (sym w))
    returns_from waiting s w v g a h = stay _ _ (stay _ _ (read _ (begin s h)))
    returns_from registering s w v g a h = read _ (loop _ (check _ (register s h)))
    returns_from checking s w v g a h = none-lock (sym h.lock ∙ a)
    returns_from pushing s w v g (a, b) h = none-lock (sym h.lock ∙ a)
    returns_from looping s w v g a h = stay _ _ (stay _ _ (read _ (loop s h)))
    returns_from parking s w v g a h =
        let (u, e) = from_parking s v g a in stay _ _ (read _ (loop _ (unpark s u e h)))
    returns_from wait_reading s w v g a h = stay _ _ (stay _ _ (stay _ _ (read s h)))
    returns_from (waited b) s w v g a h =
        let same : b ≡ outcome r out = a ∙ ap (outcome r) h.out_result in
        let h' = subst (λ c. Ready k (waited c) none out s) same h in
        stay _ _ (stay _ _ (stay _ _ (stay _ _ h')))

  At-Answers :
      (k : ℕ) (p : Pc) (t : P.Token) (out : Bool) (s : System P T)
      → At r k p t out s
      → Answers r p out
  At-Answers k (waited a) t out s h = h
  At-Answers k (polled a) t out s h = h
  At-Answers k polling t out s h = tt
  At-Answers k poll_reading t out s h = tt
  At-Answers k waiting t out s h = tt
  At-Answers k registering t out s h = tt
  At-Answers k checking t out s h = tt
  At-Answers k pushing t out s h = tt
  At-Answers k looping t out s h = tt
  At-Answers k parking t out s h = tt
  At-Answers k wait_reading t out s h = tt

  module _ (ts : ℕ → Thread P) (b : (k : ℕ) → Begins (ts k).pc) (us : List Turn) where
    -- Of any threads that each make one call of `hypertile_poll` or `hypertile_wait` of the task:
    -- whatever the schedule, a wait that has returned has returned the outcome of the work, and a
    -- poll that has returned has returned that outcome or `pending`.
    pub run-Answers : (k : ℕ) → let w = (run r us (new_task ts)).threads k in Answers r w.pc w.out
    run-Answers k =
        let s = run r us (new_task ts) in
        let v = run-Invariant r us (new_task ts) (new_task-Invariant ts b) in
        At-Answers k (s.threads k).pc (s.threads k).token (s.threads k).out s (v.threads k)

    -- Of any threads that each make one call of `hypertile_poll` or `hypertile_wait` of the task:
    -- after any schedule in which the task has ended and no thread holds the lock of the
    -- unparkers, every call of `hypertile_wait` returns the outcome of the work within four
    -- accesses of its own, wherever it is. So no wake is lost.
    pub wait_returns :
        (k : ℕ)
        → (ts k).pc ≡ waiting
        → (run r us (new_task ts)).producer ≡ gone
        → (run r us (new_task ts)).lock ≡ none
        → ((run r (four k) (run r us (new_task ts))).threads k).pc ≡ waited (outcome r (ts k).out)
    wait_returns k w g l =
        let s = run r us (new_task ts) in
        let v = run-Invariant r us (new_task ts) (new_task-Invariant ts b) in
        let (kind, out) = run-Same r k us (new_task ts) in
        let d : s.done ≡ true = v.done ∙ ap is_finished g in
        let h =
          returns_from k (ts k).out (s.threads k).pc s (kind ∙ ap waits w) v g (v.threads k)
            (record {
              done = d;
              lock = l;
              result = result_done r k s v d;
              pc = refl;
              out_result = out;
            }) in
        h.pc
