-- ===== src/Batch/Finish.antt =====
-- hypertile-capi/src/lib.rs: what a batch has done when the caller is woken.
use hypertile.Base.{
  ℕ, suc, ◌+◌, ◌≤◌, ◌<◌, ◌^◌, ◌≡◌, ◌⊎◌, inl, inr, refl, sym, ap, subst, ◌∙◌, true, false, Option,
  some, List, [], ◌∷◌, length, get_elem?, set, total, total-set, le-total, get_elem?-set_ne,
  get_elem?-set_cases, get_elem?-lt, get_elem?-some, some-inj, eq_or_ne, lt_or_ge, lt→ltb,
  le→ltb-false, Option-cases, Bool-cases, ◌==◌, if◌then◌else◌, arith,
}
use hypertile.Registry.Defs.{fetch_sub}
use hypertile.Batch.Run.{Chunk, Batch, write, run_item, finish_chunk, step_chunk, run_chunks}
use hypertile.Batch.Invariant.{
  unfinished, Done, Queued, Invariant, write_done, write_keeps, advance, advance-Queued, write-rest,
  write-Panicked,
}

last_wake :
    (n u : ℕ)
    → 1 ≤ n
    → n < 2 ^ 64
    → u ≡ (if n == 0 then 1 else 0)
    → (if n == 1 then suc u else u) ≡ (if fetch_sub n 1 == 0 then 1 else 0)
last_wake n u l h e = ground arith

module _ (work : ℕ → Option ℕ) (args : List ℕ) where
  item-items :
      (k arg i : ℕ) (c : Chunk) (b : Batch)
      → Invariant work args b
      → get_elem? b.chunks k ≡ some c
      → get_elem? args c.next ≡ some arg
      → i < length args
      → let w = write work args c.next (work arg) (advance work args k c b) in
        Done work args i w ⊎ Queued work args i w
  item-items k arg i c b v e ea l = elim (eq_or_ne c.next i) [
    | inl same ↦ inl (
        subst (λ j. Done work args j (write work args c.next (work arg) (advance work args k c b)))
          same
          (write_done work args c.next arg (work arg) (advance work args k c b) refl ea
            (subst (λ n. c.next < n) (sym v.size) (get_elem?-lt args c.next arg ea))))
    | inr other ↦ elim (v.items i l) [
      | inl d ↦ inl (write_keeps work args c.next i (work arg) (advance work args k c b) other d)
      | inr q ↦
          let (rc, rr, ru, rl) = write-rest work args c.next (work arg) (advance work args k c b) in
          let (j, d, ej, ge, lt) = advance-Queued work args k i c b e other q in
          inr (j, d, ap (λ cs. get_elem? cs j) rc ∙ ej, ge, lt)
    ]
  ]

  -- The chunks after one of them moved: what held for each of the old ones, and holds for the new one.
  moved :
      (P : Chunk → Type 0) (k : ℕ) (c : Chunk) (cs : List Chunk)
      → P c
      → ((j : ℕ) (d : Chunk) → get_elem? cs j ≡ some d → P d)
      → (j : ℕ) (d : Chunk) → get_elem? (set cs k c) j ≡ some d
      → P d
  moved P k c cs pc old j d e = elim (get_elem?-set_cases cs k j c d e) [
    | inl (same, cd) ↦ subst P cd pc
    | inr e' ↦ old j d e'
  ]

  item-Invariant :
      (k arg : ℕ) (c : Chunk) (b : Batch)
      → Invariant work args b
      → get_elem? b.chunks k ≡ some c
      → c.next < c.stop
      → get_elem? args c.next ≡ some arg
      → Invariant work args (write work args c.next (work arg) (advance work args k c b))
  item-Invariant k arg c b v e l ea =
      let (rc, rr, ru, rl) = write-rest work args c.next (work arg) (advance work args k c b) in
      let c' : Chunk = record c { next = c.next + 1 } in
      record {
        size = rl ∙ v.size;
        items = λ i h. item-items k arg i c b v e ea h;
        counted = rr ∙ (counted' ∙ ap (total unfinished) (sym rc));
        bounded = subst (λ n. n < 2 ^ 64) (sym rr) v.bounded;
        busy = λ j d ej.
            moved (λ d. d.active ≡ false → d.stop ≤ d.next) k c' b.chunks
              (λ closed. omega (arith, v.busy k c e closed)) v.busy j d
              (ap (λ cs. get_elem? cs j) (sym rc) ∙ ej);
        inside = λ j d ej.
            moved (λ d. d.stop ≤ length args) k c' b.chunks (v.inside k c e) v.inside j d
              (ap (λ cs. get_elem? cs j) (sym rc) ∙ ej);
        panics =
            write-Panicked work args c.next arg (work arg) (advance work args k c b) refl ea
              v.panics;
        woken = ru ∙ (v.woken ∙ ap (λ n. if n == 0 then 1 else 0) (sym rr));
      }
    where
      counted' : b.remaining ≡ total unfinished (set b.chunks k (record c { next = c.next + 1 }))
      counted' =
          omega
            (arith, v.counted, total-set unfinished b.chunks k c (record c { next = c.next + 1 }) e)

  finish-Invariant :
      (k : ℕ) (c : Chunk) (b : Batch)
      → Invariant work args b
      → get_elem? b.chunks k ≡ some c
      → c.stop ≤ c.next
      → c.active ≡ true
      → Invariant work args (finish_chunk work args k c b)
  unfolding finish_chunk
  finish-Invariant k c b v e l on = record {
    size = v.size;
    items = λ i h. elim (v.items i h) [
      | inl d ↦ inl d
      | inr (j, d, ej, ge, lt) ↦ inr (
        j,
        d,
        get_elem?-set_ne b.chunks _ (λ same.
              let d-c : d ≡ c = some-inj (sym ej ∙ (ap (get_elem? b.chunks) (sym same) ∙ e)) in
              omega (arith, ap (λ (x : Chunk). x.next) d-c, ap (λ (x : Chunk). x.stop) d-c))
            ∙ ej,
        ge,
        lt,
      )
    ];
    counted = omega (arith, v.counted, fewer, weighs, v.bounded);
    bounded = omega arith;
    busy = moved (λ d. d.active ≡ false → d.stop ≤ d.next) k _ b.chunks (λ closed. l) v.busy;
    inside = moved (λ d. d.stop ≤ length args) k _ b.chunks (v.inside k c e) v.inside;
    panics = v.panics;
    woken = wake;
  }
    where
      weighs : unfinished c ≡ 1
      weighs = rw (on) refl

      fewer :
          total unfinished (set b.chunks k (record c { active = false })) + unfinished c
          ≡ total unfinished b.chunks + 0
      fewer = total-set unfinished b.chunks k c (record c { active = false }) e

      left : 1 ≤ b.remaining
      left = omega (arith, v.counted, le-total unfinished b.chunks k c e, weighs)

      wake :
          (if b.remaining == 1 then suc b.unparks else b.unparks)
          ≡ (if fetch_sub b.remaining 1 == 0 then 1 else 0)
      wake = last_wake b.remaining b.unparks left v.bounded v.woken

  -- The step of a chunk that has items left, and of one that has not.
  step_item :
      (k arg : ℕ) (c : Chunk) (b : Batch)
      → c.next < c.stop
      → get_elem? args c.next ≡ some arg
      → step_chunk work args k (some c) b
        ≡ write work args c.next (work arg) (advance work args k c b)
  unfolding step_chunk run_item
  step_item k arg c b l ea =
      ap
        (λ t.
          if t
          then run_item work args c.next (get_elem? args c.next) (advance work args k c b)
          else (if c.active then finish_chunk work args k c b else b))
        (lt→ltb c.next c.stop l)
      ∙ ap (λ o. run_item work args c.next o (advance work args k c b)) ea

  step_end :
      (k : ℕ) (c : Chunk) (b : Batch)
      → c.stop ≤ c.next
      → step_chunk work args k (some c) b ≡ (if c.active then finish_chunk work args k c b else b)
  unfolding step_chunk run_item
  step_end k c b g =
      ap
        (λ t.
          if t
          then run_item work args c.next (get_elem? args c.next) (advance work args k c b)
          else (if c.active then finish_chunk work args k c b else b))
        (le→ltb-false c.next c.stop g)

  end-Invariant :
      (k : ℕ) (c : Chunk) (b : Batch)
      → Invariant work args b
      → get_elem? b.chunks k ≡ some c
      → c.stop ≤ c.next
      → Invariant work args (if c.active then finish_chunk work args k c b else b)
  end-Invariant k c b v e g = elim (Bool-cases c.active) [
    | inl on ↦
        subst (λ t. Invariant work args (if t then finish_chunk work args k c b else b)) (sym on)
          (finish-Invariant k c b v e g on)
    | inr off ↦
        subst (λ t. Invariant work args (if t then finish_chunk work args k c b else b)) (sym off) v
  ]

  chunk-Invariant :
      (k : ℕ) (c : Chunk) (b : Batch)
      → Invariant work args b
      → get_elem? b.chunks k ≡ some c
      → Invariant work args (step_chunk work args k (some c) b)
  chunk-Invariant k c b v e = elim (lt_or_ge c.next c.stop) [
    | inl l ↦
        let (arg, ea) = get_elem?-some args c.next (omega (arith, v.inside k c e)) in
        subst (Invariant work args) (sym (step_item k arg c b l ea))
          (item-Invariant k arg c b v e l ea)
    | inr g ↦ subst (Invariant work args) (sym (step_end k c b g)) (end-Invariant k c b v e g)
  ]

  step-Invariant :
      (k : ℕ) (b : Batch)
      → Invariant work args b
      → Invariant work args (step_chunk work args k (get_elem? b.chunks k) b)
  unfolding step_chunk
  step-Invariant k b v = elim (Option-cases (get_elem? b.chunks k)) [
    | inl e ↦ subst (λ o. Invariant work args (step_chunk work args k o b)) (sym e) v
    | inr (c, e) ↦
        subst (λ o. Invariant work args (step_chunk work args k o b)) (sym e)
          (chunk-Invariant k c b v e)
  ]

  pub run-Invariant :
      (ks : List ℕ) (b : Batch)
      → Invariant work args b
      → Invariant work args (run_chunks work args ks b)
  unfolding run_chunks
  run-Invariant [] b v = v
  run-Invariant (k ∷ ks) b v =
      run-Invariant ks (step_chunk work args k (get_elem? b.chunks k) b) (step-Invariant k b v)
