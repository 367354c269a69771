-- ===== src/Timer/Order.antt =====
-- hypertile-core/src/timer.rs: the order of the heap.
use hypertile.Base.{
  ◌≡◌, true, false, List, [], ◌∷◌, All, All-mono, Bool-cases, inl, inr, if◌then◌else◌, subst, sym,
  arith,
}
use hypertile.Timer.Driver.{TimerEntry, first, push}

abbrev pub IsOrdered : List TimerEntry → Type 0
IsOrdered [] = Unit
IsOrdered (e ∷ es) = All (λ f. first e f ≡ true) es × IsOrdered es

first_trans : (e f g : TimerEntry) → first e f ≡ true → first f g ≡ true → first e g ≡ true
unfolding first
first_trans e f g h k = ground arith

first_total : (e f : TimerEntry) → first e f ≡ false → first f e ≡ true
unfolding first
first_total e f h = ground arith

push-All :
    (P : TimerEntry → Type 0) (e : TimerEntry) (es : List TimerEntry)
    → P e
    → All P es
    → All P (push e es)
unfolding push
push-All P e [] p a = (p, tt)
push-All P e (f ∷ fs) p a = elim (Bool-cases (first e f)) [
  | inl h ↦ subst (λ t. All P (if t then e ∷ f ∷ fs else f ∷ push e fs)) (sym h) (p, a)
  | inr h ↦
      subst (λ t. All P (if t then e ∷ f ∷ fs else f ∷ push e fs)) (sym h)
        (a.0, push-All P e fs p a.1)
]

pub push-IsOrdered : (e : TimerEntry) (es : List TimerEntry) → IsOrdered es → IsOrdered (push e es)
unfolding push
push-IsOrdered e [] o = (tt, tt)
push-IsOrdered e (f ∷ fs) o = elim (Bool-cases (first e f)) [
  | inl h ↦
      subst (λ t. IsOrdered (if t then e ∷ f ∷ fs else f ∷ push e fs)) (sym h)
        ((h, All-mono (λ g k. first_trans e f g h k) fs o.0), o)
  | inr h ↦
      subst (λ t. IsOrdered (if t then e ∷ f ∷ fs else f ∷ push e fs)) (sym h)
        (push-All (λ g. first f g ≡ true) e fs (first_total e f h) o.0, push-IsOrdered e fs o.1)
]
