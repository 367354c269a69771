-- ===== src/Capi/Release.antt =====
-- hypertile-capi/src/lib.rs: the task that `hypertile_spawn` spawns releases the threads that wait.
use hypertile.Base.{
  Parker, place, place_self, place_other, ℕ, ◌≡◌, ◌≢◌, refl, inl, inr, true, Option, none, some,
  List, [], ◌∷◌, arith, sym, ◌∙◌, ap, subst, eq_or_ne,
}
use hypertile.Registry.Defs.{contains}
use hypertile.Capi.Task.{
  TaskResult, Producer, storing, finishing, draining, unparking, gone, System, Thread,
  unpark_thread, drain, produce, Turn, worker, caller, advance, run,
}
use hypertile.Capi.Parking.{
  is_finished, is_drained, unparks, stored_at, Woken, At, Keeps, Keeps-At, Invariant,
}
use hypertile.Capi.Waiters.{true-false, call_step-Invariant}

module _ {P : Parker} {T : Type 0} (r : TaskResult T) where
  same_threads :
      (s s' : System P T)
      → ((j : ℕ) → Keeps r j (s.threads j).token s (s.threads j).token s')
      → ((j : ℕ) → let w = s.threads j in At r j w.pc w.token w.out s)
      → (j : ℕ) → let w = s.threads j in At r j w.pc w.token w.out s'
  same_threads s s' keeps before j =
      Keeps-At r j (s.threads j).pc (s.threads j).token (s.threads j).token (s.threads j).out s s'
        (keeps j) (before j)

  module _ (s : System P T) (v : Invariant r s) where
    store-Invariant :
        s.producer ≡ storing → Invariant r (record s { result = some r; producer = finishing })
    store-Invariant e = record {
      done = v.done ∙ ap is_finished e;
      stored = refl;
      drained = λ h. absurd (true-false (sym h));
      threads =
          same_threads s (record s { result = some r; producer = finishing })
            (λ j. record {
              lock = λ h. h;
              undrained = λ h i. refl;
              done = λ h. h;
              looping = λ h. inr h;
              woken = λ h. elim h [
                | inl a ↦ inl a
                | inr (inl b) ↦ absurd (true-false (sym b ∙ ap (λ p. unparks p j) e))
                | inr (inr c) ↦ inr (inr c)
              ];
            })
            v.threads;
    }

    finish-Invariant :
        s.producer ≡ finishing → Invariant r (record s { done = true; producer = draining })
    finish-Invariant e = record {
      done = refl;
      stored = v.stored ∙ ap (stored_at r) e;
      drained = λ h. absurd (true-false (sym h));
      threads =
          same_threads s (record s { done = true; producer = draining })
            (λ j. record {
              lock = λ h. h;
              undrained = λ h i. refl;
              done = λ h. refl;
              looping = λ h. inr h;
              woken = λ h. elim h [
                | inl a ↦ inl a
                | inr (inl b) ↦ absurd (true-false (sym b ∙ ap (λ p. unparks p j) e))
                | inr (inr c) ↦ inr (inr (refl, c.1, c.2))
              ];
            })
            v.threads;
    }

    drain-Invariant : (l : Option ℕ) → s.lock ≡ l → s.producer ≡ draining → Invariant r (drain l s)
    unfolding drain
    drain-Invariant (some holder) l e = v
    drain-Invariant none l e = record {
      done = v.done ∙ ap is_finished e;
      stored = v.stored ∙ ap (stored_at r) e;
      drained = λ h. refl;
      threads =
          same_threads s (drain none s)
            (λ j. record {
              lock = λ h. h;
              undrained = λ h i. cc;
              done = λ h. h;
              looping = λ h. inl (v.done ∙ ap is_finished e);
              woken = λ h. elim h [
                | inl a ↦ inr (inl a)
                | inr (inl b) ↦ absurd (true-false (sym b ∙ ap (λ p. unparks p j) e))
                | inr (inr c) ↦ inr (inr c)
              ];
            })
            v.threads;
    }

    leave-Invariant : s.producer ≡ unparking [] → Invariant r (record s { producer = gone })
    unfolding contains
    leave-Invariant e = record {
      done = v.done ∙ ap is_finished e;
      stored = v.stored ∙ ap (stored_at r) e;
      drained = λ h. v.drained (ap is_drained e);
      threads =
          same_threads s (record s { producer = gone })
            (λ j. record {
              lock = λ h. h;
              undrained = λ h i. absurd (true-false (sym (ap is_drained e) ∙ i));
              done = λ h. h;
              looping = λ h. inr h;
              woken = λ h. elim h [
                | inl a ↦ inl a
                | inr (inl b) ↦ absurd (true-false (sym b ∙ ap (λ p. unparks p j) e))
                | inr (inr c) ↦ inr (inr c)
              ];
            })
            v.threads;
    }

    module _ (i : ℕ) (is : List ℕ) (e : s.producer ≡ unparking (i ∷ is)) where
      unparked : System P T
      unfolding unpark_thread
      unparked = record (unpark_thread i s) { producer = unparking is }

      awake : Thread P → Thread P
      awake w = record w { token = P.unpark w.token }

      later : (j : ℕ) → j ≢ i → contains (i ∷ is) j ≡ true → contains is j ≡ true
      unfolding contains
      later j n h = ground arith

      unparked-Keeps :
          (j : ℕ) (t : P.Token)
          → (Woken r j (s.threads j).token s → Woken r j t unparked)
          → Keeps r j (s.threads j).token s t unparked
      unfolding unparked
      unparked-Keeps j t w = record {
        lock = λ h. h;
        undrained = λ h q. absurd (true-false (sym (ap is_drained e) ∙ q));
        done = λ h. h;
        looping = λ h. inr h;
        woken = w;
      }

      unparked-Invariant : Invariant r unparked
      unfolding unparked awake
      unparked-Invariant = record {
        done = v.done ∙ ap is_finished e;
        stored = v.stored ∙ ap (stored_at r) e;
        drained = λ h. v.drained (ap is_drained e);
        threads = λ j. elim (eq_or_ne j i) [
          | inl q ↦
              subst
                (λ m.
                  let w = place i (awake (s.threads i)) s.threads m in
                  At r m w.pc w.token w.out unparked)
                (sym q)
                (subst (λ w. At r i w.pc w.token w.out unparked)
                  (sym (place_self i (awake (s.threads i)) s.threads))
                  (Keeps-At r i (s.threads i).pc (s.threads i).token (awake (s.threads i)).token
                    (s.threads i).out s unparked
                    (unparked-Keeps i (awake (s.threads i)).token
                      (λ w. inr (inr (v.done ∙ ap is_finished e, (s.threads i).token, refl))))
                    (v.threads i)))
          | inr n ↦
              subst (λ w. At r j w.pc w.token w.out unparked)
                (sym (place_other i j (awake (s.threads i)) s.threads n))
                (Keeps-At r j (s.threads j).pc (s.threads j).token (s.threads j).token
                  (s.threads j).out s unparked
                  (unparked-Keeps j (s.threads j).token (λ w. elim w [
                    | inl a ↦ inl a
                    | inr (inl b) ↦ inr (inl (later j n (sym (ap (λ p. unparks p j) e) ∙ b)))
                    | inr (inr c) ↦ inr (inr c)
                  ]))
                  (v.threads j))
        ];
      }

    produce-Invariant : (p : Producer) → s.producer ≡ p → Invariant r (produce r p s)
    unfolding produce unparked
    produce-Invariant storing e = store-Invariant e
    produce-Invariant finishing e = finish-Invariant e
    produce-Invariant draining e = drain-Invariant s.lock refl e
    produce-Invariant (unparking (i ∷ is)) e = unparked-Invariant i is e
    produce-Invariant (unparking []) e = leave-Invariant e
    produce-Invariant gone e = v

  advance-Invariant : (t : Turn) (s : System P T) → Invariant r s → Invariant r (advance r t s)
  unfolding advance
  advance-Invariant worker s v = produce-Invariant s v s.producer refl
  advance-Invariant (caller k) s v = call_step-Invariant r k s v (s.threads k).pc (v.threads k)

  pub run-Invariant : (ts : List Turn) (s : System P T) → Invariant r s → Invariant r (run r ts s)
  unfolding run
  run-Invariant [] s v = v
  run-Invariant (t ∷ ts) s v = run-Invariant ts (advance r t s) (advance-Invariant t s v)
