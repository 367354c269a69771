-- ===== src/Timer/Waking.antt =====
-- hypertile-core/src/timer.rs: no waker is lost between the slot, the heap and the thread of the timer.
use hypertile.Base.{
  ℕ, ◌≡◌, ◌≢◌, refl, sym, ap, ◌∙◌, subst, Bool, true, false, ◌||◌, Option, none, some, List, [],
  ◌∷◌, ◌++◌, set, get_elem?, get_elem?-set_ne, get_elem?-append_some, All, Bool-cases, eq_or_ne,
  ◌⊎◌, inl, inr, ltb, leb, ◌-◌, ◌==◌, ==_iff, if◌then◌else◌, arith,
}
use hypertile.Registry.Defs.{contains}
use hypertile.Registry.Lookup.{contains-append, contains_last}
use hypertile.Timer.Driver.{TimerEntry, push, first, register, shut_down}
use hypertile.Timer.Sleep.{new_sleep}
use hypertile.Timer.Firing.{Holds}
use hypertile.Timer.Loop.{
  LoopPc, starting, scanning, collecting, waking, resuming, waiting, ended, Machine, locked,
  after_collecting, collect_next, begin_wait, is_over, advance, Event, turn, make, store, enter,
  clear, stop, act, run, add_taken,
}

-- The wakers that the thread has taken and not woken yet.
abbrev pub in_hand : LoopPc → List ℕ
in_hand (collecting now ws) = ws
in_hand (waking ws) = ws
in_hand pc = []

-- The event is another poll or a drop of the sleep with this slot.
abbrev pub touches : ℕ → Event → Bool
touches slot (store other waker) = other == slot
touches slot (clear other) = other == slot
touches slot e = false

pub push-mono :
    (deadline slot : ℕ) (e : TimerEntry) (es : List TimerEntry)
    → Holds deadline slot es
    → Holds deadline slot (push e es)
unfolding push
push-mono deadline slot e [] h = absurd h
push-mono deadline slot e (f ∷ fs) h =
    let deeper : Holds deadline slot fs → Holds deadline slot (push e fs) =
      λ g. push-mono deadline slot e fs g in
    elim (Bool-cases (first e f)) [
      | inl b ↦ rw (b) (inr h)
      | inr b ↦ rw (b) (elim h [ inl g ↦ inl g | inr g ↦ inr (deeper g) ])
    ]

pub Holds-tail :
    (deadline slot : ℕ) (e : TimerEntry) (es : List TimerEntry)
    → e.waker ≢ slot
    → Holds deadline slot (e ∷ es)
    → Holds deadline slot es
Holds-tail deadline slot e es n (inl (d, w)) = absurd (n w)
Holds-tail deadline slot e es n (inr h) = h

pub no_member : (w : ℕ) → contains [] w ≡ true → ⊥
unfolding contains
no_member w h = cc

contains_cases :
    (v w : ℕ) (ws : List ℕ) → contains (v ∷ ws) w ≡ true → (v ≡ w) ⊎ (contains ws w ≡ true)
unfolding contains
contains_cases v w ws h = elim (eq_or_ne v w) [ inl e ↦ inl e | inr n ↦ inr (ground arith) ]

in_hand-after_collecting : (ws : List ℕ) → in_hand (after_collecting ws) ≡ ws
in_hand-after_collecting [] = refl
in_hand-after_collecting (w ∷ ws) = refl

contains-add_taken :
    (ws : List ℕ) (o : Option (Option ℕ)) (w : ℕ)
    → contains ws w ≡ true
    → contains (add_taken ws o) w ≡ true
contains-add_taken ws none w h = h
contains-add_taken ws (some none) w h = h
contains-add_taken ws (some (some v)) w h = contains-append ws (v ∷ []) w h

-- A waker that was stored in a slot, where `Q` is what the heap keeps for the slot.
module _ (slot waker : ℕ) (Q : List TimerEntry → Type 0)
    (Q-push : (e : TimerEntry) (es : List TimerEntry) → Q es → Q (push e es))
    (Q-tail : (e : TimerEntry) (es : List TimerEntry) → e.waker ≢ slot → Q (e ∷ es) → Q es) where
  abbrev pub InSlot : List (Option ℕ) → List TimerEntry → Type 0
  InSlot slots es = (get_elem? slots slot ≡ some (some waker)) × Q es

  -- It is in its slot, in the hands of the thread, or woken.
  abbrev pub At : LoopPc → Machine → Type 0
  At pc m =
      InSlot m.driver.slots m.driver.heap
      ⊎ ((contains (in_hand pc) waker ≡ true) ⊎ (contains m.woken waker ≡ true))

  leave_collecting :
      (now : ℕ) (ws : List ℕ) (m : Machine) → At (collecting now ws) m → At (after_collecting ws) m
  leave_collecting now ws m (inl h) = inl h
  leave_collecting now ws m (inr (inl h)) =
      inr (inl (ap (λ vs. contains vs waker) (in_hand-after_collecting ws) ∙ h))
  leave_collecting now ws m (inr (inr h)) = inr (inr h)

  -- The thread takes the waker of the entry `e`.
  take_entry :
      (now : ℕ) (ws : List ℕ) (e : TimerEntry) (es : List TimerEntry) (m : Machine)
      → m.driver.heap ≡ e ∷ es
      → At (collecting now ws) m
      → let d = m.driver in
        At
          (collecting now (add_taken ws (get_elem? d.slots e.waker)))
          (record m { driver = record d { heap = es; slots = set d.slots e.waker none } })
  take_entry now ws e es m hs (inl (g, q)) = elim (eq_or_ne e.waker slot) [
    | inl w ↦ inr (
        inl (
          subst (λ o. contains (add_taken ws o) waker ≡ true)
            (sym (ap (get_elem? m.driver.slots) w ∙ g)) (contains_last ws waker)))
    | inr n ↦ inl (get_elem?-set_ne m.driver.slots none n ∙ g, Q-tail e es n (subst Q hs q))
  ]
  take_entry now ws e es m hs (inr (inl h)) = inr (inl (contains-add_taken ws _ waker h))
  take_entry now ws e es m hs (inr (inr h)) = inr (inr h)

  collect_next-At :
      (now : ℕ) (ws : List ℕ) (es : List TimerEntry) (m : Machine)
      → m.driver.heap ≡ es
      → At (collecting now ws) m
      → At (collect_next now ws es m).pc (collect_next now ws es m)
  unfolding collect_next
  collect_next-At now ws [] m hs h = leave_collecting now ws m h
  collect_next-At now ws (e ∷ es) m hs h = elim (Bool-cases (leb e.deadline now)) [
    | inl b ↦ rw (b) (take_entry now ws e es m hs h)
    | inr b ↦ rw (b) (leave_collecting now ws m h)
  ]

  begin_wait-At :
      (now : ℕ) (es : List TimerEntry) (m : Machine)
      → At starting m
      → At (begin_wait now es m).pc (begin_wait now es m)
  unfolding begin_wait
  begin_wait-At now [] m h = h
  begin_wait-At now (e ∷ es) m h = elim (Bool-cases (ltb 0 (e.deadline - now))) [
    | inl b ↦ rw (b) h
    | inr b ↦ rw (b) h
  ]

  wake_next :
      (v : ℕ) (ws : List ℕ) (m : Machine)
      → At (waking (v ∷ ws)) m
      → At (waking ws) (record m { woken = m.woken ++ (v ∷ []) })
  wake_next v ws m (inl h) = inl h
  wake_next v ws m (inr (inl h)) = elim (contains_cases v waker ws h) [
    | inl e ↦ inr (
        inr (
          subst (λ u. contains (m.woken ++ (u ∷ [])) waker ≡ true) (sym e)
            (contains_last m.woken waker)))
    | inr g ↦ inr (inl g)
  ]
  wake_next v ws m (inr (inr h)) = inr (inr (contains-append m.woken (v ∷ []) waker h))

  advance-At :
      (now : ℕ) (pc : LoopPc) (m : Machine)
      → m.pc ≡ pc
      → At pc m
      → At (advance now pc m).pc (advance now pc m)
  unfolding advance
  advance-At now starting m p h = h
  advance-At now scanning m p h = elim (Bool-cases m.driver.shutdown) [
    | inl b ↦ rw (b) h
    | inr b ↦ rw (b) h
  ]
  advance-At now (collecting begun ws) m p h = collect_next-At begun ws m.driver.heap m refl h
  advance-At now (waking []) m p h = h
  advance-At now (waking (v ∷ ws)) m p h = wake_next v ws m h
  advance-At now resuming m p h = elim (Bool-cases m.driver.shutdown) [
    | inl b ↦ rw (b) h
    | inr b ↦
        subst
          (λ c.
            let n = if c then record m { pc = ended } else begin_wait now m.driver.heap m in
            At n.pc n)
          (sym b) (begin_wait-At now m.driver.heap m h)
  ]
  advance-At now (waiting until) m p h = elim (Bool-cases (m.notified || is_over now until)) [
    | inl b ↦ rw (b) h
    | inr b ↦ rw (b) (subst (λ pc. At pc m) (sym p) h)
  ]
  advance-At now ended m p h = subst (λ pc. At pc m) (sym p) h

  -- What another thread changes: the slots and the heap, and the notification.
  outside :
      (m n : Machine)
      → n.pc ≡ m.pc
      → n.woken ≡ m.woken
      → (InSlot m.driver.slots m.driver.heap → InSlot n.driver.slots n.driver.heap)
      → At m.pc m
      → At n.pc n
  outside m n p w f (inl h) = inl (f h)
  outside m n p w f (inr (inl h)) = inr (inl (ap (λ pc. contains (in_hand pc) waker) p ∙ h))
  outside m n p w f (inr (inr h)) = inr (inr (ap (λ ws. contains ws waker) w ∙ h))

  other_slot :
      (other : ℕ) (v : Option ℕ) (slots : List (Option ℕ)) (es : List TimerEntry)
      → (other == slot) ≡ false
      → InSlot slots es
      → InSlot (set slots other v) es
  other_slot other v slots es n (g, q) =
      (get_elem?-set_ne slots v (λ e. cc ((==_iff other slot).1 e, n)) ∙ g, q)

  act-At :
      (e : Event) (m : Machine) → touches slot e ≡ false → At m.pc m → At (act e m).pc (act e m)
  unfolding act new_sleep register shut_down
  act-At (turn now) m t h = advance-At now m.pc m refl h
  act-At (make now duration) m t h =
      outside m (act (make now duration) m) refl refl
        (λ (g, q). (get_elem?-append_some m.driver.slots _ slot _ g, q)) h
  act-At (store other v) m t h =
      outside m (act (store other v) m) refl refl
        (other_slot other (some v) m.driver.slots m.driver.heap t) h
  act-At (clear other) m t h =
      outside m (act (clear other) m) refl refl
        (other_slot other none m.driver.slots m.driver.heap t) h
  act-At (enter deadline other) m t h = elim (Bool-cases (locked m.pc)) [
    | inl b ↦ rw (b) h
    | inr b ↦ rw (b) (
        outside m (record m { driver = (register deadline other m.driver).0; notified = true }) refl
          refl (λ (g, q). (g, Q-push _ m.driver.heap q)) h)
  ]
  act-At stop m t h = elim (Bool-cases (locked m.pc)) [
    | inl b ↦ rw (b) h
    | inr b ↦
        rw (b) (
          outside m (record m { driver = shut_down m.driver; notified = true }) refl refl (λ i. i)
            h)
  ]

  pub run-At :
      (es : List Event) (m : Machine)
      → All (λ e. touches slot e ≡ false) es
      → At m.pc m
      → At (run es m).pc (run es m)
  unfolding run
  run-At [] m t h = h
  run-At (e ∷ es) m (t, ts) h = run-At es (act e m) ts (act-At e m t h)
