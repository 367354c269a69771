-- ===== src/Python/BatchMemory.antt =====
-- hypertile-sys/src/lib.rs: what the chunks of a batch leave in its memory, in any order.
use hypertile.Base.{
  ℕ, ◌+◌, ◌-◌, ◌≤◌, ◌<◌, ◌≡◌, ◌≢◌, inl, inr, refl, sym, ap, subst, ◌∙◌, true, Option, none, some,
  List, [], ◌∷◌, length, length-replicate, get_elem?, some-inj, lt_or_ge, eq_or_ne, Option-cases,
  arith,
}
use hypertile.Registry.Defs.{lookup, contains}
use hypertile.Batch.Tiling.{Tiles}
use hypertile.Python.Flag.{counter}
use hypertile.Python.Outcome.{Payload, Caught, returned, unwound, BatchMemory, panic_message}
use hypertile.Python.Chunk.{
  returned-inj, compute, compute_at, compute_returned, length-compute, Caught-cases, write_from,
  write_from_at, write_from_below, write_from_above, length-write_from,
}
use hypertile.Python.Step.{replay}
use hypertile.Python.Batches.{share, store_chunk, store_outcome, new_memory, tile_valid}

none-some : {A : Type 0} {a : A} → none ≡ some a → ⊥
none-some h = cc

returned-ne :
    {V T : Type 0} {v : V} {p : Payload T} (h : ◌≡◌ {A = Caught V T} (returned v) (unwound p)) → ⊥
returned-ne h = cc

module _ {V T : Type 0} (work : ℕ → Caught V T) (fallback : T) (cs : List (ℕ × ℕ)) (n : ℕ)
    (tiles : Tiles 0 n cs) where
  by_lookup :
      (s : ℕ) {o : Option ℕ} (m : BatchMemory V T)
      → lookup s cs ≡ o
      → store_chunk work fallback cs s m ≡ (elim o as (λ x. BatchMemory V T) [
        | none ↦ m
        | some e ↦ store_outcome work fallback s (compute work (e - s) s) m
      ])
  unfolding store_chunk
  by_lookup s m l =
      ap
        (λ o. elim o as (λ x. BatchMemory V T) [
          | none ↦ m
          | some e ↦ store_outcome work fallback s (compute work (e - s) s) m
        ])
        l

  -- What a chunk's store does, by its lookup and its outcome.
  store-returned :
      (s e : ℕ) (vs : List V) (m : BatchMemory V T)
      → lookup s cs ≡ some e
      → compute work (e - s) s ≡ returned vs
      → store_chunk work fallback cs s m ≡ record m { results = write_from s vs m.results }
  unfolding store_chunk
  store-returned s e vs m l c = by_lookup s m l ∙ ap (λ r. store_outcome work fallback s r m) c

  store-unwound :
      (s e : ℕ) (p : Payload T) (m : BatchMemory V T)
      → lookup s cs ≡ some e
      → compute work (e - s) s ≡ unwound p
      → store_chunk work fallback cs s m
        ≡ record m { panic_error = some (panic_message p fallback) }
  unfolding store_chunk
  store-unwound s e p m l c = by_lookup s m l ∙ ap (λ r. store_outcome work fallback s r m) c

  store-missing :
      (s : ℕ) (m : BatchMemory V T) → lookup s cs ≡ none → store_chunk work fallback cs s m ≡ m
  unfolding store_chunk
  store-missing s m l = by_lookup s m l

  -- All items return.
  module _ (values : (i : ℕ) → i < n → (v : V) × (work i ≡ returned v)) where
    pub record Filled (xs : List ℕ) (m : BatchMemory V T) : Type 0 where
      pub size : length m.results ≡ n
      pub clean : m.panic_error ≡ none
      pub written :
          (i s e : ℕ) (v : V)
          → lookup s cs ≡ some e
          → s ≤ i
          → i < e
          → contains xs s ≡ true
          → work i ≡ returned v
          → get_elem? m.results i ≡ some (some v)

    -- What was known of the places that were written is kept by a store that leaves the place alone.
    still :
        (xs : List ℕ) (m : BatchMemory V T) (s i s' e' : ℕ) (v : V)
        → Filled xs m
        → s ≢ s'
        → lookup s' cs ≡ some e'
        → s' ≤ i
        → i < e'
        → contains (s ∷ xs) s' ≡ true
        → work i ≡ returned v
        → get_elem? m.results i ≡ some (some v)
    unfolding contains
    still xs m s i s' e' v f ne look ge lt known w = f.written i s' e' v look ge lt (ground arith) w

    -- The place of an item in a chunk that is written.
    write_from_value :
        (s e i : ℕ) (v : V) (vs : List V) (rs : List (Option V))
        → compute work (e - s) s ≡ returned vs
        → s ≤ i
        → i < e
        → e ≤ length rs
        → work i ≡ returned v
        → get_elem? (write_from s vs rs) i ≡ some (some v)
    write_from_value s e i v vs rs c ge lt size w =
        let (u, wu, gu) = compute_at work (e - s) s (i - s) vs c (omega arith) in
        let here : s + (i - s) ≡ i = omega arith in
        let same : u ≡ v = returned-inj (sym wu ∙ (ap work here ∙ w)) in
        sym (ap (get_elem? (write_from s vs rs)) here)
        ∙ (write_from_at s (i - s) u vs rs gu (omega (arith, length-compute work (e - s) s vs c))
            ∙ ap (λ x. some (some x)) same)

    chunk_returned :
        (s e : ℕ) → lookup s cs ≡ some e → (vs : List V) × (compute work (e - s) s ≡ returned vs)
    chunk_returned s e l =
        let (lt, le) = tile_valid 0 n cs s e tiles l in
        compute_returned work (e - s) s (λ k h. values (s + k) (omega arith))

    Filled-store :
        (s e : ℕ) (vs : List V) (xs : List ℕ) (m : BatchMemory V T)
        → Filled xs m
        → lookup s cs ≡ some e
        → compute work (e - s) s ≡ returned vs
        → Filled (s ∷ xs) (record m { results = write_from s vs m.results })
    Filled-store s e vs xs m f l c = record {
      size = length-write_from s vs m.results ∙ f.size;
      clean = f.clean;
      written = λ i s' e' v look ge lt known w.
          let (below, end) = tile_valid 0 n cs s e tiles l in
          let len = length-compute work (e - s) s vs c in
          elim (lt_or_ge i s) [
            | inl before ↦
                write_from_below s i vs m.results before
                ∙ still xs m s i s' e' v f (λ q. omega arith) look ge lt known w
            | inr from ↦ elim (lt_or_ge i e) [
              | inl inside ↦
                  write_from_value s e i v vs m.results c from inside (omega (arith, f.size)) w
              | inr past ↦
                  write_from_above s i vs m.results (omega (arith, len))
                  ∙ still xs m s i s' e' v f
                      (λ q. omega (arith, some-inj (sym l ∙ (ap (λ x. lookup x cs) q ∙ look)))) look
                      ge lt known w
            ]
          ];
    }

    Filled-step :
        (s : ℕ) (xs : List ℕ) (m : BatchMemory V T)
        → Filled xs m
        → Filled (s ∷ xs) (store_chunk work fallback cs s m)
    Filled-step s xs m f = elim (Option-cases (lookup s cs)) [
      | inl l ↦ subst (Filled (s ∷ xs)) (sym (store-missing s m l)) (record {
        size = f.size;
        clean = f.clean;
        written = λ i s' e' v look ge lt known w.
            still xs m s i s' e' v f (λ q. none-some (sym l ∙ (ap (λ x. lookup x cs) q ∙ look)))
              look ge lt known w;
      })
      | inr (e, l) ↦
          let (vs, c) = chunk_returned s e l in
          subst (Filled (s ∷ xs)) (sym (store-returned s e vs m l c))
            (Filled-store s e vs xs m f l c)
    ]

    pub replay-Filled :
        (xs : List ℕ)
        → Filled xs (replay counter (store_chunk work fallback cs) (share cs) (new_memory n) xs)
    unfolding contains
    replay-Filled [] = record {
      size = length-replicate n none;
      clean = refl;
      written = λ i s e v look ge lt known w. cc;
    }
    replay-Filled (s ∷ xs) =
        Filled-step s xs
          (replay counter (store_chunk work fallback cs) (share cs) (new_memory n) xs)
          (replay-Filled xs)

  -- An item that unwinds leaves its chunk's panic, and no store takes a panic back.
  module _ (i : ℕ) (p : Payload T) (bad : work i ≡ unwound p) where
    chunk_unwound :
        (s e : ℕ) → s ≤ i → i < e → (q : Payload T) × (compute work (e - s) s ≡ unwound q)
    chunk_unwound s e ge lt = elim (Caught-cases work (compute work (e - s) s)) [
      | inr u ↦ u
      | inl (vs, c) ↦
          let (v, w, g) = compute_at work (e - s) s (i - s) vs c (omega arith) in
          let here : s + (i - s) ≡ i = omega arith in
          absurd (returned-ne (sym w ∙ (ap work here ∙ bad)))
    ]

    keeps_panic :
        (s : ℕ) (t : T) (m : BatchMemory V T)
        → m.panic_error ≡ some t
        → (u : T) × ((store_chunk work fallback cs s m).panic_error ≡ some u)
    keeps_panic s t m h = elim (Option-cases (lookup s cs)) [
      | inl l ↦ (t, ap (λ x. x.panic_error) (store-missing s m l) ∙ h)
      | inr (e, l) ↦ elim (Caught-cases work (compute work (e - s) s)) [
        | inl (vs, c) ↦ (t, ap (λ x. x.panic_error) (store-returned s e vs m l c) ∙ h)
        | inr (q, c) ↦
            (panic_message q fallback, ap (λ x. x.panic_error) (store-unwound s e q m l c))
      ]
    ]

    pub replay_panic :
        (xs : List ℕ) (s e : ℕ)
        → lookup s cs ≡ some e
        → s ≤ i
        → i < e
        → contains xs s ≡ true
        → (t : T) × ((replay counter
              (store_chunk work fallback cs)
              (share cs)
              (new_memory n)
              xs).panic_error
            ≡ some t)
    unfolding contains
    replay_panic [] s e l ge lt known = cc
    replay_panic (x ∷ xs) s e l ge lt known =
        let m = replay counter (store_chunk work fallback cs) (share cs) (new_memory n) xs in
        elim (eq_or_ne x s) [
          | inl same ↦
              let (q, c) = chunk_unwound s e ge lt in
              (
                panic_message q fallback,
                ap (λ y. (store_chunk work fallback cs y m).panic_error) same
                    ∙ ap (λ y. y.panic_error) (store-unwound s e q m l c),
              )
          | inr other ↦
              let (t, h) = replay_panic xs s e l ge lt (ground arith) in keeps_panic x t m h
        ]
