-- ===== src/Capi/Completion.antt =====
-- hypertile-capi/src/lib.rs: every call of `hypertile_wait` can be brought to its end.
use hypertile.Base.{
  Parker, place_self, ℕ, ◌≡◌, refl, inl, inr, true, Bool-cases, Option, none, some, List, [], ◌∷◌,
  ◌++◌, if◌then◌else◌, sym, ◌∙◌, ap, subst,
}
use hypertile.Capi.Task.{
  TaskResult, Producer, storing, finishing, draining, unparking, gone, Pc, polling, poll_reading,
  waiting, registering, checking, pushing, looping, parking, wait_reading, polled, waited, Thread,
  System, new_task, go_to, unpark_thread, drain, produce, call_step, Turn, worker, caller, advance,
  run,
}
use hypertile.Capi.Parking.{outcome}
use hypertile.Capi.Waiters.{true-false}
use hypertile.Capi.Holder.{holds, Held, run-Held}
use hypertile.Capi.Return.{Begins, four, wait_returns}

module _ {P : Parker} {T : Type 0} (r : TaskResult T) where
  run-append : (xs ys : List Turn) (s : System P T) → run r (xs ++ ys) s ≡ run r ys (run r xs s)
  unfolding run
  run-append [] ys s = refl
  run-append (x ∷ xs) ys s = run-append xs ys (advance r x s)

  -- Some turns free the lock.
  Frees : System P T → Type 0
  Frees s = (us : List Turn) × ((run r us s).lock ≡ none)

  pushing-Frees : (h : ℕ) (s : System P T) → (s.threads h).pc ≡ pushing → Frees s
  unfolding Frees run advance call_step go_to
  pushing-Frees h s e = (caller h ∷ [], subst (λ q. (call_step h q s).lock ≡ none) (sym e) refl)

  checking-Frees : (h : ℕ) (s : System P T) → (s.threads h).pc ≡ checking → Frees s
  unfolding Frees run advance call_step go_to
  checking-Frees h s e = elim (Bool-cases s.done) [
    | inl d ↦ (
      caller h ∷ [],
      subst (λ q. (call_step h q s).lock ≡ none) (sym e)
          (ap
            (λ b.
              (if b then go_to h looping (record s { lock = none }) else go_to h pushing s).lock)
            d),
    )
    | inr d ↦
        let s1 = go_to h pushing s in
        let (us, f) =
          pushing-Frees h s1
            (ap (λ w. w.pc) (place_self h (record (s.threads h) { pc = pushing }) s.threads)) in
        let step : advance r (caller h) s ≡ s1 =
          ap (λ q. call_step h q s) e
          ∙ ap (λ b. if b then go_to h looping (record s { lock = none }) else go_to h pushing s)
              d in
        (caller h ∷ us, subst (λ x. (run r us x).lock ≡ none) (sym step) f)
  ]

  holds-Frees : (h : ℕ) (p : Pc) (s : System P T) → (s.threads h).pc ≡ p → holds p ≡ true → Frees s
  holds-Frees h checking s e y = checking-Frees h s e
  holds-Frees h pushing s e y = pushing-Frees h s e
  holds-Frees h polling s e y = absurd (true-false (sym y))
  holds-Frees h poll_reading s e y = absurd (true-false (sym y))
  holds-Frees h waiting s e y = absurd (true-false (sym y))
  holds-Frees h registering s e y = absurd (true-false (sym y))
  holds-Frees h looping s e y = absurd (true-false (sym y))
  holds-Frees h parking s e y = absurd (true-false (sym y))
  holds-Frees h wait_reading s e y = absurd (true-false (sym y))
  holds-Frees h (polled a) s e y = absurd (true-false (sym y))
  holds-Frees h (waited a) s e y = absurd (true-false (sym y))

  lock-Frees : (l : Option ℕ) (s : System P T) → s.lock ≡ l → Held r s → Frees s
  unfolding Frees run
  lock-Frees none s e v = ([], e)
  lock-Frees (some h) s e v = holds-Frees h (s.threads h).pc s refl (v h e)

  -- Some turns end the task, and leave the lock free.
  Ends : System P T → Type 0
  Ends s = (us : List Turn) × ((run r us s).producer ≡ gone) × ((run r us s).lock ≡ none)

  work : (p : Producer) (s s1 : System P T) → s.producer ≡ p → produce r p s ≡ s1 → Ends s1 → Ends s
  unfolding Ends run advance
  work p s s1 e q (us, g, l) =
      let step = ap (λ x. produce r x s) e ∙ q in
      (
        worker ∷ us,
        subst (λ x. (run r us x).producer ≡ gone) (sym step) g,
        subst (λ x. (run r us x).lock ≡ none) (sym step) l,
      )

  gone-Ends : (s : System P T) → s.producer ≡ gone → s.lock ≡ none → Ends s
  unfolding Ends run
  gone-Ends s e l = ([], e, l)

  unparking-Ends :
      (is : List ℕ) (s : System P T) → s.producer ≡ unparking is → s.lock ≡ none → Ends s
  unfolding produce unpark_thread
  unparking-Ends [] s e l =
      work (unparking []) s (record s { producer = gone }) e refl (gone-Ends _ refl l)
  unparking-Ends (i ∷ is) s e l =
      let s1 = record (unpark_thread i s) { producer = unparking is } in
      work (unparking (i ∷ is)) s s1 e refl (unparking-Ends is s1 refl l)

  draining-Ends : (s : System P T) → s.producer ≡ draining → s.lock ≡ none → Ends s
  unfolding produce drain
  draining-Ends s e l =
      work draining s (drain none s) e (ap (λ x. drain x s) l)
        (unparking-Ends s.unparkers (drain none s) refl l)

  finishing-Ends : (s : System P T) → s.producer ≡ finishing → s.lock ≡ none → Ends s
  unfolding produce
  finishing-Ends s e l =
      let s1 = record s { done = true; producer = draining } in
      work finishing s s1 e refl (draining-Ends s1 refl l)

  producer-Ends : (p : Producer) (s : System P T) → s.producer ≡ p → s.lock ≡ none → Ends s
  unfolding produce
  producer-Ends storing s e l =
      let s1 = record s { result = some r; producer = finishing } in
      work storing s s1 e refl (finishing-Ends s1 refl l)
  producer-Ends finishing s e l = finishing-Ends s e l
  producer-Ends draining s e l = draining-Ends s e l
  producer-Ends (unparking is) s e l = unparking-Ends is s e l
  producer-Ends gone s e l = gone-Ends s e l

  module _ (ts : ℕ → Thread P) (b : (k : ℕ) → Begins (ts k).pc) (us : List Turn) where
    start-Held : Held r (new_task ts)
    start-Held h l = cc

    -- Of any threads that each make one call of `hypertile_poll` or `hypertile_wait` of the task:
    -- whatever happened so far, some turns of the threads and of the task, followed by four turns
    -- of a thread in `hypertile_wait`, bring its call to its end, where it returns the outcome of
    -- the work.
    pub wait_completes :
        (k : ℕ)
        → (ts k).pc ≡ waiting
        → (vs : List Turn) × (((run r (vs ++ four k) (run r us (new_task ts))).threads k).pc
            ≡ waited (outcome r (ts k).out))
    unfolding Frees Ends
    wait_completes k w =
        let s = run r us (new_task ts) in
        let (xs, f) = lock-Frees s.lock s refl (run-Held r us (new_task ts) start-Held) in
        let s1 = run r xs s in
        let (bs, g, l) = producer-Ends s1.producer s1 refl f in
        let all = us ++ (xs ++ bs) in
        let path : run r all (new_task ts) ≡ run r bs s1 =
          run-append us (xs ++ bs) (new_task ts) ∙ run-append xs bs s in
        let done =
          wait_returns r ts b all k w (ap (λ x. x.producer) path ∙ g) (ap (λ x. x.lock) path ∙ l) in
        (
          xs ++ bs,
          ap (λ x. (x.threads k).pc)
                (run-append (xs ++ bs) (four k) s
                  ∙ ap (run r (four k)) (sym (run-append us (xs ++ bs) (new_task ts))))
              ∙ done,
        )
