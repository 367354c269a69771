-- ===== src/Timer/Sleeping.antt =====
-- hypertile-core/src/timer.rs: how long the thread of the timer waits.
use hypertile.Base.{
  ℕ, ◌+◌, ◌-◌, ◌<◌, ◌≡◌, refl, sym, subst, Bool, true, false, ◌||◌, Option, none, some, List, [],
  ◌∷◌, All, All-mono, Bool-cases, inl, inr, ltb, leb, ltb→lt, le→leb, if◌then◌else◌, arith,
}
use hypertile.Timer.Driver.{TimerEntry, register, shut_down, new_driver}
use hypertile.Timer.Sleep.{new_sleep}
use hypertile.Timer.Order.{IsOrdered, push-IsOrdered}
use hypertile.Timer.Firing.{first_deadline}
use hypertile.Timer.Loop.{
  LoopPc, starting, scanning, collecting, waking, resuming, waiting, ended, Machine, new_machine,
  locked, after_collecting, collect_next, begin_wait, is_over, advance, Event, turn, make, store,
  enter, clear, stop, act, run,
}

-- The wait ends by the deadline of every entry.
abbrev pub EndsInTime : Option ℕ → List TimerEntry → Type 0
EndsInTime until es = All (λ e. is_over e.deadline until ≡ true) es

abbrev pub OnTime : LoopPc → Bool → Bool → List TimerEntry → Type 0
OnTime (waiting until) false shutdown es = (shutdown ≡ false) × EndsInTime until es
OnTime pc notified shutdown es = Unit

abbrev pub IsTimely : Machine → Type 0
IsTimely m = IsOrdered m.driver.heap × OnTime m.pc m.notified m.driver.shutdown m.driver.heap

OnTime-notified : (pc : LoopPc) (b : Bool) (es : List TimerEntry) → OnTime pc true b es
OnTime-notified starting b es = tt
OnTime-notified scanning b es = tt
OnTime-notified (collecting now ws) b es = tt
OnTime-notified (waking ws) b es = tt
OnTime-notified resuming b es = tt
OnTime-notified (waiting until) b es = tt
OnTime-notified ended b es = tt

after_collecting-OnTime :
    (ws : List ℕ) (n b : Bool) (es : List TimerEntry) → OnTime (after_collecting ws) n b es
after_collecting-OnTime [] n b es = tt
after_collecting-OnTime (w ∷ ws) n b es = tt

collect_next-IsTimely :
    (now : ℕ) (ws : List ℕ) (es : List TimerEntry) (m : Machine)
    → m.driver.heap ≡ es
    → IsOrdered es
    → IsTimely (collect_next now ws es m)
unfolding collect_next
collect_next-IsTimely now ws [] m h o = (
  subst IsOrdered (sym h) o,
  after_collecting-OnTime ws m.notified m.driver.shutdown m.driver.heap,
)
collect_next-IsTimely now ws (e ∷ es) m h o = elim (Bool-cases (leb e.deadline now)) [
  | inl d ↦ rw (d) (o.1, tt)
  | inr d ↦ rw (d) (
    subst IsOrdered (sym h) o,
    after_collecting-OnTime ws m.notified m.driver.shutdown m.driver.heap,
  )
]

ends_in_time :
    (now : ℕ) (e : TimerEntry) (es : List TimerEntry)
    → now < e.deadline
    → IsOrdered (e ∷ es)
    → EndsInTime (some (now + (e.deadline - now))) (e ∷ es)
ends_in_time now e es l (a, o) = (
  le→leb (now + (e.deadline - now)) e.deadline (omega arith),
  All-mono
      (λ f h. le→leb (now + (e.deadline - now)) f.deadline (omega (arith, first_deadline e f h))) es
      a,
)

begin_wait-IsTimely :
    (now : ℕ) (es : List TimerEntry) (m : Machine)
    → m.driver.heap ≡ es
    → m.driver.shutdown ≡ false
    → IsOrdered es
    → IsTimely (begin_wait now es m)
unfolding begin_wait
begin_wait-IsTimely now [] m h r o =
    (subst IsOrdered (sym h) o, (r, subst (EndsInTime none) (sym h) tt))
begin_wait-IsTimely now (e ∷ es) m h r o = elim (Bool-cases (ltb 0 (e.deadline - now))) [
  | inl l ↦
      let far = ends_in_time now e es (omega (arith, ltb→lt 0 (e.deadline - now) l)) o in
      rw (l) (
        subst IsOrdered (sym h) o,
        (r, subst (EndsInTime (some (now + (e.deadline - now)))) (sym h) far),
      )
  | inr l ↦ rw (l) (subst IsOrdered (sym h) o, tt)
]

advance-IsTimely : (now : ℕ) (pc : LoopPc) (m : Machine) → IsTimely m → IsTimely (advance now pc m)
unfolding advance
advance-IsTimely now starting m (o, t) = (o, tt)
advance-IsTimely now scanning m (o, t) = elim (Bool-cases m.driver.shutdown) [
  | inl b ↦ rw (b) (o, tt)
  | inr b ↦ rw (b) (o, tt)
]
advance-IsTimely now (collecting begun ws) m (o, t) =
    collect_next-IsTimely begun ws m.driver.heap m refl o
advance-IsTimely now (waking []) m (o, t) = (o, tt)
advance-IsTimely now (waking (w ∷ ws)) m (o, t) = (o, tt)
advance-IsTimely now resuming m (o, t) = elim (Bool-cases m.driver.shutdown) [
  | inl b ↦ rw (b) (o, tt)
  | inr b ↦
      subst (λ c. IsTimely (if c then record m { pc = ended } else begin_wait now m.driver.heap m))
        (sym b) (begin_wait-IsTimely now m.driver.heap m refl b o)
]
advance-IsTimely now (waiting until) m (o, t) =
    elim (Bool-cases (m.notified || is_over now until)) [
      | inl b ↦ rw (b) (o, tt)
      | inr b ↦ rw (b) (o, t)
    ]
advance-IsTimely now ended m h = h

pub act-IsTimely : (e : Event) (m : Machine) → IsTimely m → IsTimely (act e m)
unfolding act new_sleep register shut_down
act-IsTimely (turn now) m h = advance-IsTimely now m.pc m h
act-IsTimely (make now duration) m h = h
act-IsTimely (store slot waker) m h = h
act-IsTimely (enter deadline slot) m h = elim (Bool-cases (locked m.pc)) [
  | inl b ↦ rw (b) h
  | inr b ↦ rw (b) (push-IsOrdered _ m.driver.heap h.0, OnTime-notified m.pc m.driver.shutdown _)
]
act-IsTimely (clear slot) m h = h
act-IsTimely stop m h = elim (Bool-cases (locked m.pc)) [
  | inl b ↦ rw (b) h
  | inr b ↦ rw (b) (h.0, OnTime-notified m.pc true m.driver.heap)
]

pub run-IsTimely : (es : List Event) (m : Machine) → IsTimely m → IsTimely (run es m)
unfolding run
run-IsTimely [] m h = h
run-IsTimely (e ∷ es) m h = run-IsTimely es (act e m) (act-IsTimely e m h)

pub new_machine-IsTimely : IsTimely new_machine
unfolding new_machine new_driver
new_machine-IsTimely = (tt, tt)

pub waiting_in_time :
    (m : Machine) (until : Option ℕ)
    → IsTimely m
    → m.pc ≡ waiting until
    → m.notified ≡ false
    → (m.driver.shutdown ≡ false) × EndsInTime until m.driver.heap
waiting_in_time m until (o, t) p n =
    subst (λ b. OnTime (waiting until) b m.driver.shutdown m.driver.heap) n
      (subst (λ pc. OnTime pc m.notified m.driver.shutdown m.driver.heap) p t)

-- Whenever the thread of the timer waits and has not been notified, the driver is not shut down, and
-- the wait ends no later than the deadline of every entry of the heap; it has no end only if there is
-- no entry.
pub waiting-EndsInTime :
    (es : List Event) (until : Option ℕ)
    → (run es new_machine).pc ≡ waiting until
    → (run es new_machine).notified ≡ false
    → let d = (run es new_machine).driver in (d.shutdown ≡ false) × EndsInTime until d.heap
waiting-EndsInTime es until p n =
    waiting_in_time (run es new_machine) until (run-IsTimely es new_machine new_machine-IsTimely) p
      n
