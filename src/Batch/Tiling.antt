-- ===== src/Batch/Tiling.antt =====
-- hypertile-capi/src/lib.rs and hypertile-sys/src/lib.rs: the chunks of a batch tile its items.
use native.Mathlib.Nat.{
  div-add-mod', mod-lt, mul-le-mul_right, mul-le-mul_left, mul_comm, mul-one, add-mul, suc-mul,
}
use hypertile.Base.{
  ℕ, zero, suc, ◌+◌, ◌*◌, ◌/◌, ◌%◌, ◌≤◌, ◌<◌, ◌^◌, ◌≡◌, ◌≢◌, refl, min, List, [], ◌∷◌, false, ◌==◌,
  inl, inr, Bool-cases, arith, ap, subst, if◌then◌else◌, Nat-cases, lt_or_ge, lt→leb-false, le→leb,
  sym, ◌∙◌,
}
use hypertile.Batch.Chunks.{
  div_ceil, num_chunks, chunk_size, chunk_start, chunk_end, chunks_from, batch_chunks,
  chunks_until_empty, python_chunks,
}

-- The chunks are not empty, each starts where the one before ends, and together they go from `a` to
-- `b`.
abbrev pub Tiles : ℕ → ℕ → List (ℕ × ℕ) → Type 0
Tiles a b [] = a ≡ b
Tiles a b ((start, stop) ∷ cs) = (start ≡ a) × (start < stop) × Tiles stop b cs

-- What rounding up gives.
div_ceil_ge : (a b : ℕ) → 0 < b → a ≤ div_ceil a b * b
unfolding div_ceil
div_ceil_ge a b h = elim (Bool-cases (a % b == 0)) [
  | inl e ↦ let z : a % b ≡ 0 = ground arith in rw (e) (omega (arith, div-add-mod' a b, z))
  | inr e ↦ rw (e) (omega (arith, div-add-mod' a b, mod-lt a {m = b} h, add-mul (a / b) 1 b))
]

div_ceil_lt : (a b k : ℕ) → 0 < b → k < div_ceil a b → k * b < a
unfolding div_ceil
div_ceil_lt a b k h l = elim (Bool-cases (a % b == 0)) [
  | inl e ↦
      let z : a % b ≡ 0 = ground arith in
      let l' : suc k ≤ a / b = subst (λ t. suc k ≤ (if t then a / b else a / b + 1)) e l in
      omega (arith, div-add-mod' a b, z, mul-le-mul_right b l', suc-mul k b)
  | inr e ↦
      let z : a % b ≢ 0 = ground arith in
      let l' : suc k ≤ a / b + 1 = subst (λ t. suc k ≤ (if t then a / b else a / b + 1)) e l in
      let l2 : k ≤ a / b = omega arith in omega (arith, div-add-mod' a b, z, mul-le-mul_right b l2)
]

div_ceil_pos : (a b : ℕ) → 0 < b → 0 < a → 0 < div_ceil a b
div_ceil_pos a b h p = elim (Nat-cases (div_ceil a b)) [
  | inl e ↦ absurd (omega (arith, div_ceil_ge a b h, ap (λ x. x * b) e))
  | inr (n, e) ↦ omega (arith, e)
]

module _ (size count : ℕ) (pos : 0 < size) (small : size ≤ count) (bound : count < 2 ^ 63) where
  start_k : (k : ℕ) → k * size < count + size → chunk_start size k ≡ k * size
  start_k k h = omega arith

  end_k :
      (k : ℕ)
      → k * size < count + size
      → k * size < count
      → chunk_end size count k ≡ min (k * size + size) count
  end_k k h l = omega arith

  chunk_k :
      (k : ℕ)
      → k * size < count
      → ◌≡◌ {A = ℕ × ℕ}
          (chunk_start size k, chunk_end size count k)
          (k * size, min (k * size + size) count)
  chunk_k k l =
      ap (λ x. (x, chunk_end size count k)) (start_k k (omega arith))
      ∙ ap (λ x. (k * size, x)) (end_k k (omega arith) l)

  until_stop :
      (n k : ℕ)
      → k * size < count + size
      → count ≤ k * size
      → chunks_until_empty size count (suc n) k ≡ []
  unfolding chunks_until_empty
  until_stop n k h c =
      ap
        (λ t.
          if t
          then []
          else (chunk_start size k, chunk_end size count k)
            ∷ chunks_until_empty size count n (k + 1))
        (le→leb (chunk_end size count k) (chunk_start size k) (omega arith))

  until_more :
      (n k : ℕ)
      → k * size < count
      → chunks_until_empty size count (suc n) k
        ≡ (k * size, min (k * size + size) count) ∷ chunks_until_empty size count n (k + 1)
  unfolding chunks_until_empty
  until_more n k l =
      ap
        (λ t.
          if t
          then []
          else (chunk_start size k, chunk_end size count k)
            ∷ chunks_until_empty size count n (k + 1))
        (lt→leb-false (chunk_start size k) (chunk_end size count k) (omega arith))
      ∙ ap (λ c. c ∷ chunks_until_empty size count n (k + 1)) (chunk_k k l)

  until-Tiles :
      (n k : ℕ)
      → k * size < count + size
      → count ≤ (k + n) * size
      → Tiles (min (k * size) count) count (chunks_until_empty size count n k)
  unfolding chunks_until_empty
  until-Tiles zero k h c = omega (arith, add-mul k 0 size)
  until-Tiles (suc n) k h c = elim (lt_or_ge (k * size) count) [
    | inr g ↦ subst (Tiles (min (k * size) count) count) (sym (until_stop n k h g)) (omega arith)
    | inl l ↦ subst (Tiles (min (k * size) count) count) (sym (until_more n k l)) (
      omega arith,
      omega arith,
      subst (λ a. Tiles a count (chunks_until_empty size count n (k + 1)))
          (ap (λ x. min x count) (next_k k))
          (until-Tiles n (k + 1) (omega (arith, next_k k))
            (omega (arith, ap (λ x. x * size) (shift n k)))),
    )
  ]
    where
      next_k : (k : ℕ) → (k + 1) * size ≡ k * size + size
      next_k k = omega (arith, add-mul k 1 size)

      shift : (n k : ℕ) → k + 1 + n ≡ k + suc n
      shift n k = omega arith

  -- The two loops agree as long as the one without the test is given the right number of rounds.
  from-until :
      (n m k : ℕ)
      → n ≤ m
      → ((j : ℕ) → j < k + n → j * size < count)
      → count ≤ (k + n) * size
      → (k + n) * size < count + size
      → chunks_from size count n k ≡ chunks_until_empty size count m k
  unfolding chunks_from chunks_until_empty
  from-until zero zero k le below c h = refl
  from-until zero (suc m) k le below c h =
      sym (until_stop m k (omega (arith, add-mul k 0 size)) (omega (arith, add-mul k 0 size)))
  from-until (suc n) zero k le below c h = absurd (omega arith)
  from-until (suc n) (suc m) k le below c h =
      ap (λ c. c ∷ chunks_from size count n (k + 1)) (chunk_k k (below k (omega arith)))
      ∙ (ap (λ cs. (k * size, min (k * size + size) count) ∷ cs)
            (from-until n m (k + 1) (omega arith) (λ j l. below j (omega arith))
              (subst (λ x. count ≤ x * size) (shift n k) c)
              (subst (λ x. x * size < count + size) (shift n k) h))
          ∙ sym (until_more m k (below k (omega arith))))
    where
      shift : (n k : ℕ) → k + suc n ≡ k + 1 + n
      shift n k = omega arith

num_chunks_bounds :
    (active count : ℕ)
    → 0 < count
    → (0 < num_chunks active count) × (num_chunks active count ≤ count)
unfolding num_chunks
num_chunks_bounds active count h = (omega arith, omega arith)

module _ (active count : ℕ) (some_items : 0 < count) (bound : count < 2 ^ 63) where
  size_pos : 0 < chunk_size active count
  unfolding chunk_size
  size_pos =
      div_ceil_pos count (num_chunks active count) (num_chunks_bounds active count some_items).0
        some_items

  size_small : chunk_size active count ≤ count
  unfolding chunk_size
  size_small =
      let n = num_chunks active count in
      let b = num_chunks_bounds active count some_items in
      elim (Nat-cases (div_ceil count n)) [
        | inl e ↦ omega (arith, e)
        | inr (m, e) ↦
            let l = div_ceil_lt count n m b.0 (omega (arith, e)) in
            omega (arith, e, l, mul-le-mul_left m b.0, mul-one m)
      ]

  rounds_enough : count ≤ (0 + num_chunks active count) * chunk_size active count
  unfolding chunk_size
  rounds_enough =
      let n = num_chunks active count in
      omega (
        arith,
        div_ceil_ge count n (num_chunks_bounds active count some_items).0,
        mul_comm n (div_ceil count n),
        add-mul 0 n (div_ceil count n),
      )

  not_empty :
      python_chunks active count
      ≡ chunks_until_empty (chunk_size active count) count (num_chunks active count) 0
  unfolding python_chunks
  not_empty =
      let e : (count == 0) ≡ false = ground arith in
      ap
        (λ t.
          if t
          then []
          else chunks_until_empty (chunk_size active count) count (num_chunks active count) 0)
        e

  until_all-Tiles :
      Tiles 0 count (chunks_until_empty (chunk_size active count) count (num_chunks active count) 0)
  until_all-Tiles =
      subst
        (λ a.
          Tiles a count
            (chunks_until_empty (chunk_size active count) count (num_chunks active count) 0))
        (omega arith)
        (until-Tiles (chunk_size active count) count size_pos size_small bound
          (num_chunks active count) 0 (omega (arith, some_items)) rounds_enough)

  -- The loop that stops at the first empty chunk makes the chunks of the loop that computed their
  -- number, for the same batch and number of workers.
  pub batch_chunks-python_chunks : batch_chunks active count ≡ python_chunks active count
  unfolding batch_chunks
  batch_chunks-python_chunks =
      from-until (chunk_size active count) count size_pos size_small bound rounds
        (num_chunks active count) 0 fewer
        (λ j l. div_ceil_lt count (chunk_size active count) j size_pos (omega arith))
        (omega (
          arith,
          div_ceil_ge count (chunk_size active count) size_pos,
          add-mul 0 rounds (chunk_size active count),
        ))
        last
      ∙ sym not_empty
    where
      rounds : ℕ
      rounds = div_ceil count (chunk_size active count)

      fewer : rounds ≤ num_chunks active count
      fewer = elim (lt_or_ge (num_chunks active count) rounds) [
        | inr g ↦ g
        | inl l ↦ absurd (
            omega (
              arith,
              rounds_enough,
              div_ceil_lt count (chunk_size active count) (num_chunks active count) size_pos l,
              add-mul 0 (num_chunks active count) (chunk_size active count),
            ))
      ]

      last : (0 + rounds) * chunk_size active count < count + chunk_size active count
      last = elim (Nat-cases rounds) [
        | inl e ↦ omega (arith, some_items, ap (λ x. (0 + x) * chunk_size active count) e)
        | inr (m, e) ↦ omega (
          arith,
          ap (λ x. (0 + x) * chunk_size active count) e,
          div_ceil_lt count (chunk_size active count) m size_pos (omega (arith, e)),
          suc-mul m (chunk_size active count),
        )
      ]

  -- The chunks of a batch are not empty, follow each other without gap or overlap, and together make
  -- up the items of the batch, whatever the number of workers.
  pub batch_chunks-Tiles : Tiles 0 count (batch_chunks active count)
  batch_chunks-Tiles =
      subst (Tiles 0 count) (sym (batch_chunks-python_chunks ∙ not_empty)) until_all-Tiles
