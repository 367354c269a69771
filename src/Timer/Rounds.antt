-- ===== src/Timer/Rounds.antt =====
-- hypertile-core/src/timer.rs: a round of the loop, step by step and at once.
use mathlib.Core.List.{append-nil, append_assoc}
use hypertile.Base.{
  ℕ, zero, suc, ◌+◌, ◌*◌, ◌≤◌, ◌≡◌, refl, sym, ap, ◌∙◌, subst, false, Option, none, some, List, [],
  ◌∷◌, ◌++◌, length, set, get_elem?, lt_or_ge, inl, inr, le→leb, lt→leb-false, if◌then◌else◌, arith,
}
use hypertile.Timer.Driver.{TimerEntry, TimerDriver, take_slot, collect, tick}
use hypertile.Timer.Loop.{
  LoopPc, scanning, collecting, waking, resuming, ended, Machine, after_collecting, collect_next,
  advance, turn, act, add_taken,
}

-- Steps of the thread with nothing in between.
unfoldable pub turns : ℕ → ℕ → Machine → Machine
turns zero now m = m
turns (suc n) now m = turns n now (act (turn now) m)

turns-+ : (a b now : ℕ) (m : Machine) → turns (a + b) now m ≡ turns b now (turns a now m)
unfolding turns
turns-+ zero b now m = let e : 0 + b ≡ b = omega arith in ap (λ n. turns n now m) e
turns-+ (suc a) b now m =
    let e : suc a + b ≡ suc (a + b) = omega arith in
    ap (λ n. turns n now m) e ∙ turns-+ a b now (act (turn now) m)

append-add_taken :
    (ws xs : List ℕ) (o : Option (Option ℕ)) → add_taken ws o ++ xs ≡ ws ++ take_slot o xs
append-add_taken ws xs none = refl
append-add_taken ws xs (some none) = refl
append-add_taken ws xs (some (some w)) = append_assoc ws (w ∷ []) xs

module _ (m : Machine) where
  -- The machine at some place of the round.
  abbrev within : List TimerEntry → List (Option ℕ) → LoopPc → List ℕ → Machine
  within es slots pc woken = record m {
    driver = record m.driver { heap = es; slots = slots };
    pc = pc;
    woken = woken;
  }

  turns-collecting :
      (now : ℕ) (es : List TimerEntry) (slots : List (Option ℕ)) (ws : List ℕ)
      → let r = collect now es slots in
        (n : ℕ) × (n ≤ length es + 1)
        × (turns n now (within es slots (collecting now ws) m.woken)
            ≡ within r.heap r.slots (after_collecting (ws ++ r.expired)) m.woken)
  unfolding turns act advance collect_next collect
  turns-collecting now [] slots ws = (
    1,
    omega arith,
    ap (λ vs. within [] slots (after_collecting vs) m.woken) (sym (append-nil ws)),
  )
  turns-collecting now (e ∷ es) slots ws = elim (lt_or_ge now e.deadline) [
    | inl l ↦ (
      1,
      omega arith,
      rw (lt→leb-false now e.deadline l)
          (ap (λ vs. within (e ∷ es) slots (after_collecting vs) m.woken) (sym (append-nil ws))),
    )
    | inr g ↦
        let o = get_elem? slots e.waker in
        let (n, k, h) = turns-collecting now es (set slots e.waker none) (add_taken ws o) in
        let r = collect now es (set slots e.waker none) in
        (
          suc n,
          omega (arith, k),
          rw (le→leb e.deadline now g) (
              h
              ∙ ap (λ vs. within r.heap r.slots (after_collecting vs) m.woken)
                  (append-add_taken ws r.expired o)),
        )
  ]

  turns-waking :
      (now : ℕ) (es : List TimerEntry) (slots : List (Option ℕ)) (ws woken : List ℕ)
      → turns (length ws + 1) now (within es slots (waking ws) woken)
        ≡ within es slots resuming (woken ++ ws)
  unfolding turns act advance
  turns-waking now es slots [] woken =
      ap (λ vs. within es slots resuming vs) (sym (append-nil woken))
  turns-waking now es slots (w ∷ ws) woken =
      let here = within es slots (waking (w ∷ ws)) woken in
      let e : length (w ∷ ws) + 1 ≡ suc (length ws + 1) = omega arith in
      ap (λ n. turns n now here) e
      ∙ (turns-waking now es slots ws (woken ++ (w ∷ []))
          ∙ ap (λ vs. within es slots resuming vs) (append_assoc woken (w ∷ []) ws))

  turns-after_collecting :
      (now : ℕ) (es : List TimerEntry) (slots : List (Option ℕ)) (ws : List ℕ)
      → (n : ℕ) × (n ≤ length ws + 1)
        × (turns n now (within es slots (after_collecting ws) m.woken)
            ≡ within es slots resuming (m.woken ++ ws))
  unfolding turns
  turns-after_collecting now es slots [] =
      (0, omega arith, ap (λ vs. within es slots resuming vs) (sym (append-nil m.woken)))
  turns-after_collecting now es slots (w ∷ ws) =
      (length (w ∷ ws) + 1, omega arith, turns-waking now es slots (w ∷ ws) m.woken)

length-take_slot : (o : Option (Option ℕ)) (ws : List ℕ) → length (take_slot o ws) ≤ length ws + 1
length-take_slot none ws = omega arith
length-take_slot (some none) ws = omega arith
length-take_slot (some (some w)) ws = omega arith

length-expired :
    (now : ℕ) (es : List TimerEntry) (slots : List (Option ℕ))
    → length (collect now es slots).expired ≤ length es
unfolding collect
length-expired now [] slots = omega arith
length-expired now (e ∷ es) slots = elim (lt_or_ge now e.deadline) [
  | inl l ↦ rw (lt→leb-false now e.deadline l) (omega arith)
  | inr g ↦
      let o = get_elem? slots e.waker in
      let rest = collect now es (set slots e.waker none) in
      rw (le→leb e.deadline now g) (
        omega
          (arith, length-take_slot o rest.expired, length-expired now es (set slots e.waker none)))
]

tick_running :
    (now : ℕ) (d : TimerDriver)
    → d.shutdown ≡ false
    → let r = collect now d.heap d.slots in
      tick now d ≡ (record d { heap = r.heap; slots = r.slots }, r.expired)
unfolding tick
tick_running now d u =
    let r = collect now d.heap d.slots in
    let after : TimerDriver × List ℕ = (record d { heap = r.heap; slots = r.slots }, r.expired) in
    ap (λ b. if b then (d, []) else after) u

scan :
    (now : ℕ) (m : Machine)
    → m.pc ≡ scanning
    → m.driver.shutdown ≡ false
    → act (turn now) m ≡ record m { pc = collecting now [] }
unfolding act advance
scan now m p u =
    ap (λ pc. advance now pc m) p
    ∙ ap (λ b. record m { pc = if b then ended else collecting now [] }) u

-- With no call in between, the thread goes from the head of its loop to where it decides to wait in at
-- most 2 n + 3 steps, where n is the number of entries; it has then done what `tick` does:
-- the same driver, and the same wakers woken in the same order.
pub turns-tick :
    (now : ℕ) (m : Machine)
    → m.pc ≡ scanning
    → m.driver.shutdown ≡ false
    → let (d, ws) = tick now m.driver in
      (n : ℕ) × (n ≤ 2 * length m.driver.heap + 3)
      × (turns n now m ≡ record m { driver = d; pc = resuming; woken = m.woken ++ ws })
unfolding turns
turns-tick now m p u =
    let es = m.driver.heap in
    let r = collect now es m.driver.slots in
    let (a, ka, ha) = turns-collecting m now es m.driver.slots [] in
    let (b, kb, hb) = turns-after_collecting m now r.heap r.slots r.expired in
    subst
      (λ t.
        (n : ℕ) × (n ≤ 2 * length es + 3)
        × (turns n now m ≡ record m { driver = t.0; pc = resuming; woken = m.woken ++ t.1 }))
      (sym (tick_running now m.driver u))
      (
        suc (a + b),
        omega (arith, ka, kb, length-expired now es m.driver.slots),
        ap (turns (a + b) now) (scan now m p u)
            ∙ (turns-+ a b now (record m { pc = collecting now [] }) ∙ (ap (turns b now) ha ∙ hb)),
      )
