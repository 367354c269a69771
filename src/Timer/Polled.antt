-- ===== src/Timer/Polled.antt =====
-- hypertile-core/src/timer.rs: a sleep that was polled is woken, whatever other sleeps do.
use hypertile.Base.{
  ℕ, ◌+◌, ◌-◌, ◌≤◌, ◌<◌, ◌≡◌, ◌≢◌, ◌==◌, get_elem?-append_some, refl, subst, ◌∙◌, true, false,
  Option, none, some, List, [], ◌∷◌, ◌++◌, length, get_elem?, set, get_elem?-set_self,
  get_elem?-set_ne, ◌⊎◌, All, Bool-cases, eq_or_ne, inl, inr, leb, le→leb, lt→leb-false, lt_or_ge,
  if◌then◌else◌, arith,
}
use hypertile.Registry.Defs.{contains}
use hypertile.Timer.Driver.{TimerEntry, TimerDriver, collect, tick, register}
use hypertile.Timer.Order.{IsOrdered, push-IsOrdered}
use hypertile.Timer.Sleep.{Sleep, poll, ensure_registered, new_sleep, drop_sleep}
use hypertile.Timer.Firing.{Holds, push-Holds, contains-head, contains-take_slot, collect-contains}
use hypertile.Timer.Waking.{push-mono}
use hypertile.Timer.Reach.{
  Op, make, polling, dropping, ticking, stopping, apply, poll_cases, apply-IsOrdered,
}

-- The wakers that a call wakes, and those of a sequence of calls, in order.
abbrev pub wakes : Op → TimerDriver → List ℕ
wakes (ticking now) d = (tick now d).1
wakes _ d = []

abbrev pub woken : List Op → TimerDriver → List ℕ
woken [] d = []
woken (o ∷ os) d = wakes o d ++ woken os (apply o d)

-- The call is not one of the sleep with this slot, and does not shut the driver down.
abbrev pub IsOther : ℕ → Op → Type 0
IsOther slot (make now duration) = Unit
IsOther slot (polling now waker s) = s.waker_slot ≢ slot
IsOther slot (dropping s) = s.waker_slot ≢ slot
IsOther slot (ticking now) = Unit
IsOther slot stopping = ⊥

contains-left : (w : ℕ) (xs ys : List ℕ) → contains xs w ≡ true → contains (xs ++ ys) w ≡ true
unfolding contains
contains-left w [] ys h = absurd (cc)
contains-left w (x ∷ xs) ys h = elim (Bool-cases (x == w)) [
  | inl e ↦ rw (e) refl
  | inr e ↦
      rw (e) (contains-left w xs ys (subst (λ b. (if b then true else contains xs w) ≡ true) e h))
]

contains-right : (w : ℕ) (xs ys : List ℕ) → contains ys w ≡ true → contains (xs ++ ys) w ≡ true
unfolding contains
contains-right w [] ys h = h
contains-right w (x ∷ xs) ys h = let rest = contains-right w xs ys h in ground arith

-- The entry of the sleep is in the heap, and its waker in its slot.
module _ (deadline slot w : ℕ) where
  abbrev IsKept : List TimerEntry → List (Option ℕ) → Type 0
  IsKept es slots = Holds deadline slot es × (get_elem? slots slot ≡ some (some w))

  abbrev IsWaiting : TimerDriver → Type 0
  IsWaiting d = IsOrdered d.heap × (d.shutdown ≡ false) × IsKept d.heap d.slots

  -- A round takes the waker, or leaves both where they are.
  collect-IsKept :
      (now : ℕ) (es : List TimerEntry) (slots : List (Option ℕ))
      → IsKept es slots
      → let r = collect now es slots in (contains r.expired w ≡ true) ⊎ IsKept r.heap r.slots
  unfolding collect
  collect-IsKept now [] slots (h, g) = absurd h
  collect-IsKept now (e ∷ es) slots (h, g) = elim (lt_or_ge now e.deadline) [
    | inl l ↦ rw (lt→leb-false now e.deadline l) (inr (h, g))
    | inr l ↦ rw (le→leb e.deadline now l) (elim (eq_or_ne e.waker slot) [
      | inl same ↦ inl (rw (same, g) (contains-head w _))
      | inr other ↦ elim h [
        | inl (ed, ew) ↦ absurd (other ew)
        | inr rest ↦
            elim (collect-IsKept now es (set slots e.waker none)
              (rest, get_elem?-set_ne slots none other ∙ g)) [
                | inl c ↦ inl (contains-take_slot (get_elem? slots e.waker) w _ c)
                | inr k ↦ inr k
              ]
      ]
    ])
  ]

  tick-IsWaiting :
      (now : ℕ) (d : TimerDriver)
      → IsWaiting d
      → let r = tick now d in
        (contains r.1 w ≡ true) ⊎ ((r.0.shutdown ≡ false) × IsKept r.0.heap r.0.slots)
  unfolding tick
  tick-IsWaiting now d (o, r, k) =
      rw (r)
        (elim (collect-IsKept now d.heap d.slots k) [ inl c ↦ inl c | inr k' ↦ inr (refl, k') ])

  register-IsKept :
      (s : Sleep) (d : TimerDriver)
      → IsKept d.heap d.slots
      → let d' = ensure_registered s d in (d'.shutdown ≡ d.shutdown) × IsKept d'.heap d'.slots
  unfolding ensure_registered register
  register-IsKept s d (h, g) = elim (Bool-cases s.registered) [
    | inl e ↦ rw (e) (refl, (h, g))
    | inr e ↦ rw (e) (refl, (push-mono deadline slot _ d.heap h, g))
  ]

  polling-IsWaiting :
      (now waker : ℕ) (s : Sleep) (d : TimerDriver)
      → s.waker_slot ≢ slot
      → IsWaiting d
      → let d' = (poll now waker s d).driver in (d'.shutdown ≡ false) × IsKept d'.heap d'.slots
  polling-IsWaiting now waker s d n (o, r, (h, g)) =
      let stored = record d { slots = set d.slots s.waker_slot (some waker) } in
      let (r', k) = register-IsKept s stored (h, get_elem?-set_ne d.slots (some waker) n ∙ g) in
      poll_cases (λ b p. (p.driver.shutdown ≡ false) × IsKept p.driver.heap p.driver.slots) now
        waker s d (r, (h, get_elem?-set_ne d.slots none n ∙ g)) (r' ∙ r, k)

  apply-IsWaiting :
      (o : Op) (d : TimerDriver)
      → IsOther slot o
      → IsWaiting d
      → (contains (wakes o d) w ≡ true) ⊎ IsWaiting (apply o d)
  unfolding apply new_sleep drop_sleep
  apply-IsWaiting (make now duration) d n (o, r, (h, g)) =
      inr (o, r, (h, get_elem?-append_some d.slots (none ∷ []) slot (some w) g))
  apply-IsWaiting (polling now waker s) d n k =
      let (r, kept) = polling-IsWaiting now waker s d n k in
      inr (apply-IsOrdered (polling now waker s) d k.0, r, kept)
  apply-IsWaiting (dropping s) d n (o, r, (h, g)) =
      inr (o, r, (h, get_elem?-set_ne d.slots none n ∙ g))
  apply-IsWaiting (ticking now) d n k = elim (tick-IsWaiting now d k) [
    | inl c ↦ inl c
    | inr (r, kept) ↦ inr (apply-IsOrdered (ticking now) d k.0, r, kept)
  ]
  apply-IsWaiting stopping d n k = absurd n

  tick-fires :
      (now : ℕ) (d : TimerDriver) → deadline ≤ now → IsWaiting d → contains (tick now d).1 w ≡ true
  unfolding tick
  tick-fires now d come (o, r, (h, g)) =
      rw (r) (collect-contains now deadline slot w d.heap d.slots o h come g)

  woken_by_then :
      (now : ℕ) (os : List Op) (d : TimerDriver)
      → All (IsOther slot) os
      → deadline ≤ now
      → IsWaiting d
      → contains (woken (os ++ (ticking now ∷ [])) d) w ≡ true
  woken_by_then now [] d a come k = contains-left w (tick now d).1 [] (tick-fires now d come k)
  woken_by_then now (p ∷ os) d (n, a) come k = elim (apply-IsWaiting p d n k) [
    | inl c ↦ contains-left w (wakes p d) _ c
    | inr k' ↦ contains-right w (wakes p d) _ (woken_by_then now os (apply p d) a come k')
  ]

-- The first poll of a sleep that has more than 50 microseconds left registers it. Whatever rounds of
-- the timer loop run after it, and whatever sleeps with other slots are made, polled and dropped in
-- between, the waker of that poll is woken by the end of the first round at the deadline or later.
pub poll-woken :
    (t now waker : ℕ) (s : Sleep) (d : TimerDriver) (os : List Op)
    → IsOrdered d.heap
    → d.shutdown ≡ false
    → s.waker_slot < length d.slots
    → s.registered ≡ false
    → t + 50000 < s.deadline
    → All (IsOther s.waker_slot) os
    → s.deadline ≤ now
    → let p = poll t waker s d in
      (p.ready ≡ false)
      × (p.sleep.registered ≡ true)
      × (contains (woken (os ++ (ticking now ∷ [])) p.driver) waker ≡ true)
unfolding poll ensure_registered register
poll-woken t now waker s d os o r l u far a come =
    let early : leb s.deadline t ≡ false = lt→leb-false t s.deadline (omega arith) in
    let more : leb (s.deadline - t) 50000 ≡ false =
      lt→leb-false 50000 (s.deadline - t) (omega arith) in
    rw (early, more, u)
      (
        refl,
        refl,
        woken_by_then s.deadline s.waker_slot waker now os _ a come (
          push-IsOrdered _ d.heap o,
          r,
          (push-Holds _ d.heap, get_elem?-set_self d.slots s.waker_slot (some waker) l),
        ),
      )
