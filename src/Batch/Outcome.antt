-- ===== src/Batch/Outcome.antt =====
-- hypertile-capi/src/lib.rs: what `hypertile_batch_spawn` returns and leaves in `out_results`.
use hypertile.Base.{
  map_at, ℕ, zero, suc, ◌+◌, ◌≤◌, ◌<◌, ◌^◌, ◌≡◌, inl, inr, refl, sym, ap, subst, ◌∙◌, Bool, true,
  false, Option, none, some, List, [], ◌∷◌, map, length, get_elem?, get_elem?-lt, some-inj, total,
  le-total, Option-cases, Bool-cases, lt_or_ge, ◌==◌, ◌||◌, if◌then◌else◌, arith,
}
use hypertile.Batch.Chunks.{batch_chunks}
use hypertile.Batch.Run.{Chunk, Batch, spawned, run_chunks, start_batch, status, ok, err_panic}
use hypertile.Batch.Invariant.{unfinished, Result, Panicked, Invariant}
use hypertile.Batch.Finish.{run-Invariant}
use hypertile.Batch.Tiling.{Tiles, batch_chunks-Tiles}

-- Some chunk has each item that the chunks tile.
tile_of :
    (a b : ℕ) (cs : List (ℕ × ℕ)) (i : ℕ)
    → Tiles a b cs
    → a ≤ i
    → i < b
    → (k : ℕ) × (c : Chunk) × (get_elem? (map spawned cs) k ≡ some c) × (c.next ≤ i) × (i < c.stop)
tile_of a b [] i t l h = absurd (omega arith)
tile_of a b ((start, stop) ∷ cs) i (es, lt, t) l h = elim (lt_or_ge i stop) [
  | inl inside ↦ (0, spawned (start, stop), refl, omega arith, inside)
  | inr past ↦ let (k, c, e, ge, lt') = tile_of stop b cs i t past h in (suc k, c, e, ge, lt')
]

-- The chunks that were just spawned are all active and end within the batch.
tile_within : (a b : ℕ) (cs : List (ℕ × ℕ)) → Tiles a b cs → (a ≤ b) × (length cs + a ≤ b)
tile_within a b [] t = (omega arith, omega arith)
tile_within a b ((start, stop) ∷ cs) (es, lt, t) =
    let (l, m) = tile_within stop b cs t in (omega arith, omega arith)

tile_fresh :
    (a b : ℕ) (cs : List (ℕ × ℕ)) (k : ℕ) (c : Chunk)
    → Tiles a b cs
    → get_elem? (map spawned cs) k ≡ some c
    → (c.active ≡ true) × (c.stop ≤ b)
tile_fresh a b [] k c t e = cc
tile_fresh a b ((start, stop) ∷ cs) zero c (es, lt, t) e = (
  ap (λ (x : Chunk). x.active) (sym (some-inj e)),
  omega (arith, ap (λ (x : Chunk). x.stop) (some-inj e), (tile_within stop b cs t).0),
)
tile_fresh a b ((start, stop) ∷ cs) (suc k) c (es, lt, t) e = tile_fresh stop b cs k c t e

tile_some : (a b : ℕ) (cs : List (ℕ × ℕ)) → Tiles a b cs → a < b → 0 < length cs
tile_some a b [] t l = absurd (omega arith)
tile_some a b ((start, stop) ∷ cs) t l = omega arith

total-spawned : (cs : List (ℕ × ℕ)) → total unfinished (map spawned cs) ≡ length cs
unfolding total
total-spawned [] = refl
total-spawned (c ∷ cs) = omega (arith, total-spawned cs)

abbrev pub or_null : Option ℕ → ℕ
or_null (some r) = r
or_null none = 0

abbrev pub is_none : Option ℕ → Bool
is_none (some r) = false
is_none none = true

or_true : (a b : Bool) → b ≡ true → a || b ≡ true
or_true true b h = refl
or_true false b h = h

module _ (work : ℕ → Option ℕ) where
  -- What a call leaves as its result.
  abbrev pub outcome : ℕ → ℕ
  outcome arg = or_null (work arg)

  -- Whether some call panics.
  abbrev pub panics : List ℕ → Bool
  panics [] = false
  panics (arg ∷ args) = is_none (work arg) || panics args

  start-Invariant :
      (active : ℕ) (out args : List ℕ)
      → 0 < length args
      → length args < 2 ^ 63
      → length out ≡ length args
      → Invariant work args (start_batch active out (length args))
  unfolding start_batch
  start-Invariant active out args pos bound size =
      let t = batch_chunks-Tiles active (length args) pos bound in
      let cs = batch_chunks active (length args) in
      record {
        size = size;
        items = λ i l. inr (tile_of 0 (length args) cs i t (omega arith) l);
        counted = sym (total-spawned cs);
        bounded = omega (arith, tile_within 0 (length args) cs t);
        busy = λ k c e off. let on = (tile_fresh 0 (length args) cs k c t e).0 in cc;
        inside = λ k c e. (tile_fresh 0 (length args) cs k c t e).1;
        panics = λ h. cc;
        woken =
            let some_chunk : (length cs == 0) ≡ false =
              ground (arith, tile_some 0 (length args) cs t pos) in
            sym (ap (λ t. if t then 1 else 0) some_chunk);
      }

  -- Without a chunk that is left to count itself, no item is queued.
  all_done :
      (args : List ℕ) (b : Batch)
      → Invariant work args b
      → b.remaining ≡ 0
      → (i arg : ℕ) → get_elem? args i ≡ some arg
      → Result work args (work arg) (get_elem? b.out_results i) b.had_panic
  all_done args b v z i arg ea = elim (v.items i (get_elem?-lt args i arg ea)) [
    | inl d ↦ d arg ea
    | inr (k, c, e, ge, lt) ↦ elim (Bool-cases c.active) [
      | inl on ↦
          let w : unfinished c ≡ 1 = rw (on) refl in
          absurd (omega (arith, v.counted, le-total unfinished b.chunks k c e, w))
      | inr off ↦ absurd (omega (arith, v.busy k c e off))
    ]
  ]

  Result-outcome :
      (args : List ℕ) (r o : Option ℕ) (p : Bool) → Result work args r o p → o ≡ some (or_null r)
  Result-outcome args (some r) o p h = h
  Result-outcome args none o p h = h.0

  Result-panics :
      (args : List ℕ) (r o : Option ℕ) (p : Bool) → Result work args r o p → r ≡ none → p ≡ true
  Result-panics args (some r) o p h e = cc
  Result-panics args none o p h e = h.1

  Panicked-panics : (args : List ℕ) → Panicked work args → panics args ≡ true
  Panicked-panics [] (i, arg, ea, eo) = cc
  Panicked-panics (x ∷ args) (zero, arg, ea, eo) =
      subst (λ o. is_none o || panics args ≡ true) (sym (ap work (some-inj ea) ∙ eo)) refl
  Panicked-panics (x ∷ args) (suc i, arg, ea, eo) =
      or_true (is_none (work x)) (panics args) (Panicked-panics args (i, arg, ea, eo))

  panics-Panicked : (args : List ℕ) → panics args ≡ true → Panicked work args
  panics-Panicked [] h = cc
  panics-Panicked (x ∷ args) h = elim (Option-cases (work x)) [
    | inl e ↦ (0, x, refl, e)
    | inr (r, e) ↦
        let rest = subst (λ o. is_none o || panics args ≡ true) e h in
        let (i, arg, ea, eo) = panics-Panicked args rest in (suc i, arg, ea, eo)
  ]

  panic_flag :
      (args : List ℕ) (b : Batch)
      → Invariant work args b
      → b.remaining ≡ 0
      → b.had_panic ≡ panics args
  panic_flag args b v z = elim (Bool-cases b.had_panic) [
    | inl e ↦ e ∙ sym (Panicked-panics args (v.panics e))
    | inr e ↦ elim (Bool-cases (panics args)) [
      | inl f ↦
          let (i, arg, ea, eo) = panics-Panicked args f in
          let g = Result-panics args (work arg) _ b.had_panic (all_done args b v z i arg ea) eo in
          cc
      | inr f ↦ e ∙ sym f
    ]
  ]

  -- However the chunks of a batch interleave, once `remaining` is 0 each place of `out_results` holds
  -- what `work` gave for the argument there, or null where it panicked, the status is that of a panic
  -- just if some call panicked, and the caller was unparked once.
  pub run_chunks-status :
      (active : ℕ) (out args ks : List ℕ)
      → 0 < length args
      → length args < 2 ^ 63
      → length out ≡ length args
      → (run_chunks work args ks (start_batch active out (length args))).remaining ≡ 0
      → let b = run_chunks work args ks (start_batch active out (length args)) in
        (b.out_results ≡ map outcome args)
        × (status b ≡ (if panics args then err_panic else ok))
        × (b.unparks ≡ 1)
  unfolding status
  run_chunks-status active out args ks pos bound size z =
      let b = run_chunks work args ks (start_batch active out (length args)) in
      (
        map_at outcome args b.out_results v.size (λ i arg ea.
            Result-outcome args (work arg) _ b.had_panic (all_done args b v z i arg ea)),
        ap (λ t. if t then err_panic else ok) (panic_flag args b v z),
        v.woken ∙ ap (λ n. if n == 0 then 1 else 0) z,
      )
    where
      v : Invariant work args (run_chunks work args ks (start_batch active out (length args)))
      v =
          run-Invariant work args ks (start_batch active out (length args))
            (start-Invariant active out args pos bound size)
