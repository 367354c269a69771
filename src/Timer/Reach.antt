-- ===== src/Timer/Reach.antt =====
-- hypertile-core/src/timer.rs: the driver under any sequence of calls.
use hypertile.Base.{
  set, Option, none, some, ℕ, ◌+◌, ◌-◌, ◌≡◌, refl, sym, ap, subst, Bool, true, false, List, [], ◌∷◌,
  Bool-cases, inl, inr, leb, ◌||◌, if◌then◌else◌, lt_or_ge, le→leb, lt→leb-false, arith,
}
use hypertile.Timer.Driver.{TimerEntry, TimerDriver, collect, tick, register, new_driver, shut_down}
use hypertile.Timer.Order.{IsOrdered, push-IsOrdered}
use hypertile.Timer.Sleep.{Sleep, poll, ensure_registered, new_sleep, drop_sleep, Polled}

-- What happens to the driver: a sleep is made, polled or dropped, a round of the loop runs, and it is
-- shut down.
pub data Op : Type 0 where
  make : ℕ → ℕ → Op
  polling : ℕ → ℕ → Sleep → Op
  dropping : Sleep → Op
  ticking : ℕ → Op
  stopping : Op

unfoldable pub apply : Op → TimerDriver → TimerDriver
apply (make now duration) d = (new_sleep now duration d).1
apply (polling now waker s) d = (poll now waker s d).driver
apply (dropping s) d = drop_sleep s d
apply (ticking now) d = (tick now d).0
apply stopping d = shut_down d

unfoldable pub run : List Op → TimerDriver → TimerDriver
run [] d = d
run (o ∷ os) d = run os (apply o d)

collect-IsOrdered :
    (now : ℕ) (es : List TimerEntry) (slots : List (Option ℕ))
    → IsOrdered es
    → IsOrdered (collect now es slots).heap
unfolding collect
collect-IsOrdered now [] slots o = tt
collect-IsOrdered now (e ∷ es) slots o = elim (lt_or_ge now e.deadline) [
  | inl l ↦ rw (lt→leb-false now e.deadline l) o
  | inr g ↦ rw (le→leb e.deadline now g) (collect-IsOrdered now es (set slots e.waker none) o.1)
]

register-IsOrdered :
    (s : Sleep) (d : TimerDriver) → IsOrdered d.heap → IsOrdered (ensure_registered s d).heap
unfolding ensure_registered register
register-IsOrdered s d o = elim (Bool-cases s.registered) [
  | inl e ↦ rw (e) o
  | inr e ↦ rw (e) (push-IsOrdered _ d.heap o)
]

register-slots : (s : Sleep) (d : TimerDriver) → (ensure_registered s d).slots ≡ d.slots
unfolding ensure_registered register
register-slots s d = elim (Bool-cases s.registered) [ inl e ↦ rw (e) refl | inr e ↦ rw (e) refl ]

within_threshold : (a t : ℕ) → leb a t || leb (a - t) 50000 ≡ leb a (t + 50000)
within_threshold a t = ground arith

-- The two outcomes of a poll.
abbrev is_ready : Sleep → TimerDriver → Polled
is_ready s d = record {
  ready = true;
  sleep = s;
  driver = record d { slots = set d.slots s.waker_slot none };
}

abbrev is_waiting : ℕ → Sleep → TimerDriver → Polled
is_waiting waker s d = record {
  ready = false;
  sleep = record s { registered = true };
  driver = ensure_registered s (record d { slots = set d.slots s.waker_slot (some waker) });
}

poll_test :
    (t waker : ℕ) (s : Sleep) (d : TimerDriver)
    → poll t waker s d ≡ (if leb s.deadline (t + 50000) then is_ready s d else is_waiting waker s d)
unfolding poll
poll_test t waker s d =
    ap (λ b. if b then is_ready s d else is_waiting waker s d) (within_threshold s.deadline t)

-- What holds of both outcomes holds of a poll.
pub poll_cases :
    (P : Bool → Polled → Type 0) (t waker : ℕ) (s : Sleep) (d : TimerDriver)
    → P true (is_ready s d)
    → P false (is_waiting waker s d)
    → P (leb s.deadline (t + 50000)) (poll t waker s d)
poll_cases P t waker s d now wait =
    subst (P (leb s.deadline (t + 50000))) (sym (poll_test t waker s d))
      (by_test (leb s.deadline (t + 50000)))
  where
    by_test : (b : Bool) → P b (if b then is_ready s d else is_waiting waker s d)
    by_test true = now
    by_test false = wait

tick-IsOrdered : (now : ℕ) (d : TimerDriver) → IsOrdered d.heap → IsOrdered (tick now d).0.heap
unfolding tick
tick-IsOrdered now d h = elim (Bool-cases d.shutdown) [
  | inl e ↦ subst (λ r. IsOrdered r.0.heap) (sym (ap (λ t. if t then (d, []) else next) e)) h
  | inr e ↦
      subst (λ r. IsOrdered r.0.heap) (sym (ap (λ t. if t then (d, []) else next) e))
        (collect-IsOrdered now d.heap d.slots h)
]
  where
    next : TimerDriver × List ℕ
    next =
        let r = collect now d.heap d.slots in
        (record d { heap = r.heap; slots = r.slots }, r.expired)

pub apply-IsOrdered : (o : Op) (d : TimerDriver) → IsOrdered d.heap → IsOrdered (apply o d).heap
unfolding apply new_sleep drop_sleep shut_down
apply-IsOrdered (make now duration) d h = h
apply-IsOrdered (polling now waker s) d h =
    poll_cases (λ b p. IsOrdered p.driver.heap) now waker s d h
      (register-IsOrdered s (record d { slots = set d.slots s.waker_slot (some waker) }) h)
apply-IsOrdered (dropping s) d h = h
apply-IsOrdered (ticking now) d h = tick-IsOrdered now d h
apply-IsOrdered stopping d h = h

run-IsOrdered : (os : List Op) (d : TimerDriver) → IsOrdered d.heap → IsOrdered (run os d).heap
unfolding run
run-IsOrdered [] d h = h
run-IsOrdered (o ∷ os) d h = run-IsOrdered os (apply o d) (apply-IsOrdered o d h)

-- After any sequence of calls on a new driver, its heap gives the entries in the order of their
-- deadlines and then their ids.
pub run-new_driver-IsOrdered : (os : List Op) → IsOrdered (run os new_driver).heap
unfolding new_driver
run-new_driver-IsOrdered os = run-IsOrdered os new_driver tt

-- A poll is ready exactly when at most 50 microseconds are left; it empties the slot of the sleep if
-- it is ready, and else leaves its waker there and the sleep registered.
poll_outcome :
    (t waker : ℕ) (s : Sleep) (d : TimerDriver)
    → let p = poll t waker s d in
      (p.ready ≡ leb s.deadline (t + 50000))
      × (p.driver.slots ≡ set d.slots s.waker_slot (if p.ready then none else some waker))
      × (p.sleep.registered ≡ (if p.ready then s.registered else true))
poll_outcome t waker s d =
    poll_cases
      (λ b p.
        (p.ready ≡ b)
        × (p.driver.slots ≡ set d.slots s.waker_slot (if p.ready then none else some waker))
        × (p.sleep.registered ≡ (if p.ready then s.registered else true)))
      t waker s d (refl, refl, refl)
      (refl, register-slots s (record d { slots = set d.slots s.waker_slot (some waker) }), refl)
