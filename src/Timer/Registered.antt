-- ===== src/Timer/Registered.antt =====
-- hypertile-core/src/timer.rs: a sleep that was polled and registered is woken in time.
use hypertile.Base.{
  ℕ, ◌<◌, ◌≡◌, sym, ap, ◌∙◌, true, false, Option, some, List, [], ◌∷◌, length, get_elem?-set_self,
  All, ◌⊎◌, inl, inr,
}
use hypertile.Registry.Defs.{contains}
use hypertile.Timer.Driver.{TimerEntry, register}
use hypertile.Timer.Firing.{Holds, push-Holds}
use hypertile.Timer.Loop.{
  waiting, Machine, new_machine, locked, is_over, Event, store, enter, act, run,
}
use hypertile.Timer.Sleeping.{
  EndsInTime, IsTimely, waiting_in_time, run-IsTimely, act-IsTimely, new_machine-IsTimely,
}
use hypertile.Timer.Waking.{in_hand, touches, push-mono, Holds-tail, no_member, At, run-At}

Holds-deadline :
    (deadline slot : ℕ) (until : Option ℕ) (es : List TimerEntry)
    → Holds deadline slot es
    → EndsInTime until es
    → is_over deadline until ≡ true
Holds-deadline deadline slot until [] h a = absurd h
Holds-deadline deadline slot until (e ∷ es) (inl (d, w)) (a, rest) =
    ap (λ t. is_over t until) (sym d) ∙ a
Holds-deadline deadline slot until (e ∷ es) (inr h) (a, rest) =
    Holds-deadline deadline slot until es h rest

-- The first poll of a sleep has stored its waker, and `between` has happened since.
abbrev pub stored : List Event → ℕ → ℕ → List Event → Machine
stored before slot waker between = run between (act (store slot waker) (run before new_machine))

abbrev pub registered : List Event → ℕ → ℕ → List Event → ℕ → List Event → Machine
registered before slot waker between deadline after =
    run after (act (enter deadline slot) (stored before slot waker between))

-- Nothing is asked of the heap before the sleep is registered.
abbrev Nothing : List TimerEntry → Type 0
Nothing es = Unit

store-At :
    (slot waker : ℕ) (m : Machine)
    → slot < length m.driver.slots
    → let n = act (store slot waker) m in At slot waker Nothing (λ e es q. q) (λ e es n q. q) n.pc n
unfolding act
store-At slot waker m l = inl (get_elem?-set_self m.driver.slots slot (some waker) l, tt)

enter-At :
    (slot waker deadline : ℕ) (m : Machine)
    → locked m.pc ≡ false
    → At slot waker Nothing (λ e es q. q) (λ e es n q. q) m.pc m
    → let n = act (enter deadline slot) m in
      At slot waker
        (Holds deadline slot)
        (push-mono deadline slot)
        (Holds-tail deadline slot)
        n.pc
        n
unfolding act register
enter-At slot waker deadline m u (inl (g, q)) = rw (u) (inl (g, push-Holds _ m.driver.heap))
enter-At slot waker deadline m u (inr h) = rw (u) (inr h)

registered-At :
    (before between after : List Event) (slot waker deadline : ℕ)
    → slot < length (run before new_machine).driver.slots
    → All (λ e. touches slot e ≡ false) between
    → locked (stored before slot waker between).pc ≡ false
    → All (λ e. touches slot e ≡ false) after
    → let m = registered before slot waker between deadline after in
      At slot waker
        (Holds deadline slot)
        (push-mono deadline slot)
        (Holds-tail deadline slot)
        m.pc
        m
registered-At before between after slot waker deadline l tb u ta =
    let m = run before new_machine in
    let in_slot =
      run-At slot waker Nothing (λ e es q. q) (λ e es n q. q) between (act (store slot waker) m) tb
        (store-At slot waker m l) in
    let m = stored before slot waker between in
    run-At slot waker (Holds deadline slot) (push-mono deadline slot) (Holds-tail deadline slot)
      after (act (enter deadline slot) m) ta (enter-At slot waker deadline m u in_slot)

registered-IsTimely :
    (before between after : List Event) (slot waker deadline : ℕ)
    → IsTimely (registered before slot waker between deadline after)
registered-IsTimely before between after slot waker deadline =
    let m = run before new_machine in
    run-IsTimely after _ (
      act-IsTimely (enter deadline slot) _ (
        run-IsTimely between _ (
          act-IsTimely (store slot waker) m
            (run-IsTimely before new_machine new_machine-IsTimely))))

-- If a waker is stored in the slot of a sleep, the sleep is then registered, and neither is polled
-- again nor dropped, then whenever the thread of the timer waits and has not been notified, it has
-- woken the waker, or its wait ends no later than the deadline of the sleep.
pub waiting-registered :
    (before between after : List Event) (slot waker deadline : ℕ) (until : Option ℕ)
    → slot < length (run before new_machine).driver.slots
    → All (λ e. touches slot e ≡ false) between
    → locked (stored before slot waker between).pc ≡ false
    → All (λ e. touches slot e ≡ false) after
    → (registered before slot waker between deadline after).pc ≡ waiting until
    → (registered before slot waker between deadline after).notified ≡ false
    → (contains (registered before slot waker between deadline after).woken waker ≡ true)
      ⊎ (is_over deadline until ≡ true)
waiting-registered before between after slot waker deadline until l tb u ta p n =
    let m = registered before slot waker between deadline after in
    let m_timely = registered-IsTimely before between after slot waker deadline in
    let in_time = (waiting_in_time m until m_timely p n).1 in
    elim (registered-At before between after slot waker deadline l tb u ta) [
      | inl (g, q) ↦ inr (Holds-deadline deadline slot until _ q in_time)
      | inr (inl h) ↦ absurd (no_member waker (ap (λ pc. contains (in_hand pc) waker) (sym p) ∙ h))
      | inr (inr h) ↦ inl h
    ]
