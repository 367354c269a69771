-- ===== src/Timer/Firing.antt =====
-- hypertile-core/src/timer.rs: which timers fire.
use hypertile.Base.{
  ℕ, ◌≤◌, ◌<◌, ◌≡◌, refl, sym, ap, subst, ◌∙◌, true, false, Option, none, some, List, [], ◌∷◌,
  get_elem?, set, get_elem?-set_ne, ◌⊎◌, All, Bool-cases, eq_or_ne, inl, inr, leb, le→leb,
  lt→leb-false, lt_or_ge, if◌then◌else◌, arith,
}
use hypertile.Registry.Defs.{contains}
use hypertile.Timer.Driver.{TimerEntry, TimerDriver, take_slot, first, push, collect, tick}
use hypertile.Timer.Order.{IsOrdered}

-- The entries that are due, and those that are not, in the order of the heap.
abbrev pub due : ℕ → List TimerEntry → List TimerEntry
due now [] = []
due now (e ∷ es) = let rest = due now es in if leb e.deadline now then e ∷ rest else rest

abbrev pub later : ℕ → List TimerEntry → List TimerEntry
later now [] = []
later now (e ∷ es) = let rest = later now es in if leb e.deadline now then rest else e ∷ rest

-- The wakers in the slots of these entries; a slot gives its waker once.
abbrev pub taken : List TimerEntry → List (Option ℕ) → List ℕ
taken [] slots = []
taken (e ∷ es) slots = take_slot (get_elem? slots e.waker) (taken es (set slots e.waker none))

pub first_deadline : (e f : TimerEntry) → first e f ≡ true → e.deadline ≤ f.deadline
unfolding first
first_deadline e f h = ground arith

-- Behind an entry that is not due there is none.
none_due :
    (now : ℕ) (e : TimerEntry) (es : List TimerEntry)
    → now < e.deadline
    → All (λ f. first e f ≡ true) es
    → (due now es ≡ []) × (later now es ≡ es)
none_due now e [] l a = (refl, refl)
none_due now e (f ∷ fs) l (h, a) =
    let late = lt→leb-false now f.deadline (omega (arith, first_deadline e f h)) in
    let (d, k) = none_due now e fs l a in
    (
      ap (λ t. if t then f ∷ due now fs else due now fs) late ∙ d,
      ap (λ t. if t then later now fs else f ∷ later now fs) late ∙ ap (λ xs. f ∷ xs) k,
    )

collect-due :
    (now : ℕ) (es : List TimerEntry) (slots : List (Option ℕ))
    → IsOrdered es
    → let r = collect now es slots in
      (r.heap ≡ later now es) × (r.expired ≡ taken (due now es) slots)
unfolding collect
collect-due now [] slots o = (refl, refl)
collect-due now (e ∷ es) slots o = elim (lt_or_ge now e.deadline) [
  | inl l ↦
      let late = lt→leb-false now e.deadline l in
      let (d, k) = none_due now e es l o.0 in
      rw (late) (ap (λ xs. e ∷ xs) (sym k), ap (λ xs. taken xs slots) (sym d))
  | inr g ↦
      let now_due = le→leb e.deadline now g in
      let (h, x) = collect-due now es (set slots e.waker none) o.1 in
      rw (now_due) (h, ap (take_slot (get_elem? slots e.waker)) x)
]

-- A round of the timer loop takes from the heap exactly the entries whose deadline has come, in the
-- order of their deadlines and then their ids, and wakes the wakers in their slots, in that order.
tick-due :
    (now : ℕ) (d : TimerDriver)
    → IsOrdered d.heap
    → d.shutdown ≡ false
    → let (d', ws) = tick now d in
      (d'.heap ≡ later now d.heap) × (ws ≡ taken (due now d.heap) d.slots)
unfolding tick
tick-due now d o r = rw (r) (collect-due now d.heap d.slots o)

-- An entry is in the heap.
abbrev pub Holds : ℕ → ℕ → List TimerEntry → Type 0
Holds deadline slot [] = ⊥
Holds deadline slot (e ∷ es) = ((e.deadline ≡ deadline) × (e.waker ≡ slot)) ⊎ Holds deadline slot es

pub push-Holds : (e : TimerEntry) (es : List TimerEntry) → Holds e.deadline e.waker (push e es)
unfolding push
push-Holds e [] = inl (refl, refl)
push-Holds e (f ∷ fs) = elim (Bool-cases (first e f)) [
  | inl h ↦
      subst (λ t. Holds e.deadline e.waker (if t then e ∷ f ∷ fs else f ∷ push e fs)) (sym h)
        (inl (refl, refl))
  | inr h ↦
      subst (λ t. Holds e.deadline e.waker (if t then e ∷ f ∷ fs else f ∷ push e fs)) (sym h)
        (inr (push-Holds e fs))
]

-- The head of an ordered heap is due when some entry is.
head_due :
    (deadline slot : ℕ) (e : TimerEntry) (es : List TimerEntry)
    → All (λ f. first e f ≡ true) es
    → Holds deadline slot es
    → e.deadline ≤ deadline
head_due deadline slot e [] a h = absurd h
head_due deadline slot e (f ∷ fs) (b, a) (inl (ed, ew)) = omega (arith, first_deadline e f b)
head_due deadline slot e (f ∷ fs) (b, a) (inr h) = head_due deadline slot e fs a h

pub contains-head : (w : ℕ) (ws : List ℕ) → contains (w ∷ ws) w ≡ true
unfolding contains
contains-head w ws = ground arith

pub contains-take_slot :
    (o : Option (Option ℕ)) (w : ℕ) (ws : List ℕ)
    → contains ws w ≡ true
    → contains (take_slot o ws) w ≡ true
unfolding contains
contains-take_slot none w ws h = h
contains-take_slot (some none) w ws h = h
contains-take_slot (some (some v)) w ws h = ground arith

-- The waker in the slot of an entry that is due is among those taken.
pub collect-contains :
    (now deadline slot w : ℕ) (es : List TimerEntry) (slots : List (Option ℕ))
    → IsOrdered es
    → Holds deadline slot es
    → deadline ≤ now
    → get_elem? slots slot ≡ some (some w)
    → contains (collect now es slots).expired w ≡ true
unfolding collect
collect-contains now deadline slot w [] slots o h l g = absurd h
collect-contains now deadline slot w (e ∷ es) slots o (inl (ed, ew)) l g =
    rw (le→leb e.deadline now (omega arith), ew, g) (contains-head w _)
collect-contains now deadline slot w (e ∷ es) slots o (inr h) l g =
    let now_due = le→leb e.deadline now (omega (arith, head_due deadline slot e es o.0 h)) in
    elim (eq_or_ne e.waker slot) [
      | inl same ↦ rw (now_due, same, g) (contains-head w _)
      | inr other ↦ rw (now_due) (
          contains-take_slot (get_elem? slots e.waker) w _ (
            collect-contains now deadline slot w es (set slots e.waker none) o.1 h l
              (get_elem?-set_ne slots none other ∙ g)))
    ]
