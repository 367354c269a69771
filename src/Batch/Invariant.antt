-- ===== src/Batch/Invariant.antt =====
-- hypertile-capi/src/lib.rs: what holds while the chunks of a batch run.
use hypertile.Base.{
  ℕ, ◌+◌, ◌≤◌, ◌<◌, ◌^◌, ◌≡◌, ◌≢◌, ◌⊎◌, inl, inr, refl, sym, ap, subst, ◌∙◌, Bool, true, false,
  Option, none, some, List, length, get_elem?, set, total, get_elem?-set_self, get_elem?-set_ne,
  length-set, some-inj, get_elem?-lt, eq_or_ne, ◌==◌, if◌then◌else◌, arith,
}
use hypertile.Batch.Run.{Chunk, Batch, write}

abbrev pub unfinished : Chunk → ℕ
unfinished c = if c.active then 1 else 0

module _ (work : ℕ → Option ℕ) (args : List ℕ) where
  -- The item is done: its result is written, and a panic noted.
  abbrev pub Result : Option ℕ → Option ℕ → Bool → Type 0
  Result (some r) o panic = o ≡ some r
  Result none o panic = (o ≡ some 0) × (panic ≡ true)

  abbrev pub Done : ℕ → Batch → Type 0
  Done i b =
      (arg : ℕ)
      → get_elem? args i ≡ some arg
      → Result (work arg) (get_elem? b.out_results i) b.had_panic

  abbrev pub Queued : ℕ → Batch → Type 0
  Queued i b = (k : ℕ) × (c : Chunk) × (get_elem? b.chunks k ≡ some c) × (c.next ≤ i) × (i < c.stop)

  abbrev pub Panicked : Type 0
  Panicked = (i : ℕ) × (arg : ℕ) × (get_elem? args i ≡ some arg) × (work arg ≡ none)

  pub record Invariant (b : Batch) : Type 0 where
    pub size : length b.out_results ≡ length args
    pub items : (i : ℕ) → i < length args → Done i b ⊎ Queued i b
    pub counted : b.remaining ≡ total unfinished b.chunks
    pub bounded : b.remaining < 2 ^ 64
    pub busy :
        (k : ℕ) (c : Chunk) → get_elem? b.chunks k ≡ some c → c.active ≡ false → c.stop ≤ c.next
    pub inside : (k : ℕ) (c : Chunk) → get_elem? b.chunks k ≡ some c → c.stop ≤ length args
    pub panics : b.had_panic ≡ true → Panicked
    pub woken : b.unparks ≡ (if b.remaining == 0 then 1 else 0)

  -- Writing the outcome of item `i` makes it done, and keeps the other items.
  pub write_done :
      (i arg : ℕ) (o : Option ℕ) (b : Batch)
      → work arg ≡ o
      → get_elem? args i ≡ some arg
      → i < length b.out_results
      → Done i (write work args i o b)
  unfolding write
  write_done i arg (some r) b eo ea l arg' ea' =
      subst (λ x. Result x (get_elem? (set b.out_results i r) i) b.had_panic)
        (sym (ap work (some-inj (sym ea' ∙ ea)) ∙ eo)) (get_elem?-set_self b.out_results i r l)
  write_done i arg none b eo ea l arg' ea' =
      subst (λ x. Result x (get_elem? (set b.out_results i 0) i) true)
        (sym (ap work (some-inj (sym ea' ∙ ea)) ∙ eo))
        (get_elem?-set_self b.out_results i 0 l, refl)

  Result-panic : (r o : Option ℕ) (p : Bool) → Result r o p → Result r o true
  Result-panic (some r) o p h = h
  Result-panic none o p h = (h.0, refl)

  pub write_keeps :
      (i j : ℕ) (o : Option ℕ) (b : Batch) → i ≢ j → Done j b → Done j (write work args i o b)
  unfolding write
  write_keeps i j (some r) b n d arg ea =
      subst (λ x. Result (work arg) x b.had_panic) (sym (get_elem?-set_ne b.out_results r n))
        (d arg ea)
  write_keeps i j none b n d arg ea =
      Result-panic (work arg) (get_elem? (set b.out_results i 0) j) b.had_panic (
        subst (λ x. Result (work arg) x b.had_panic) (sym (get_elem?-set_ne b.out_results 0 n))
          (d arg ea))

  -- The chunk `k` goes one item on.
  abbrev pub advance : ℕ → Chunk → Batch → Batch
  advance k c b = record b { chunks = set b.chunks k (record c { next = c.next + 1 }) }

  pub advance-Queued :
      (k i : ℕ) (c : Chunk) (b : Batch)
      → get_elem? b.chunks k ≡ some c
      → c.next ≢ i
      → Queued i b
      → Queued i (advance k c b)
  advance-Queued k i c b e n (j, d, ej, ge, lt) = elim (eq_or_ne k j) [
    | inl same ↦
        let d-c : d ≡ c = some-inj (sym ej ∙ (ap (get_elem? b.chunks) (sym same) ∙ e)) in
        (
          k,
          record c { next = c.next + 1 },
          get_elem?-set_self b.chunks k _ (get_elem?-lt b.chunks k c e),
          omega (arith, ap (λ (x : Chunk). x.next) d-c),
          omega (arith, ap (λ (x : Chunk). x.stop) d-c),
        )
    | inr other ↦ (j, d, get_elem?-set_ne b.chunks _ other ∙ ej, ge, lt)
  ]

  -- What a write leaves alone.
  pub write-rest :
      (i : ℕ) (o : Option ℕ) (b : Batch)
      → let w = write work args i o b in
        (w.chunks ≡ b.chunks)
        × (w.remaining ≡ b.remaining)
        × (w.unparks ≡ b.unparks)
        × (length w.out_results ≡ length b.out_results)
  unfolding write
  write-rest i (some r) b = (refl, refl, refl, length-set b.out_results i r)
  write-rest i none b = (refl, refl, refl, length-set b.out_results i 0)

  pub write-Panicked :
      (i arg : ℕ) (o : Option ℕ) (b : Batch)
      → work arg ≡ o
      → get_elem? args i ≡ some arg
      → (b.had_panic ≡ true → Panicked)
      → (write work args i o b).had_panic ≡ true
      → Panicked
  unfolding write
  write-Panicked i arg (some r) b eo ea old h = old h
  write-Panicked i arg none b eo ea old h = (i, arg, ea, eo)
