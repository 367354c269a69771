-- ===== src/Python/BatchResult.antt =====
-- hypertile-sys/src/lib.rs: the result of a batch is that of running its items one after the other.
use hypertile.Base.{
  map_at, ℕ, ◌+◌, ◌≤◌, ◌<◌, ◌^◌, ◌≡◌, inl, inr, sym, ap, subst, ◌∙◌, true, Option, none, some, List,
  map, get_elem?-lt, total, All-mono, some-inj, ◌==◌, arith,
}
use hypertile.Registry.Defs.{lookup, contains}
use hypertile.Batch.Chunks.{python_chunks}
use hypertile.Batch.Tiling.{Tiles, batch_chunks-Tiles, batch_chunks-python_chunks}
use hypertile.Python.Flag.{counter}
use hypertile.Python.Outcome.{
  PyResult, ok, err, PyError, panic_in_task, Payload, Caught, returned, unwound, BatchMemory,
  batch_result,
}
use hypertile.Python.Chunk.{compute, compute_at, compute_unwound, length-compute, Caught-cases}
use hypertile.Python.Completion.{System, run}
use hypertile.Python.Step.{replay}
use hypertile.Python.Callbacks.{reached, all_stored}
use hypertile.Python.Batches.{
  share, store_chunk, new_memory, spawn_batch, tile_lookup, tile_found, share_pos, total-share,
}
use hypertile.Python.BatchMemory.{replay-Filled, replay_panic}

module _ {V X T : Type 0} (m : BatchMemory V T) where
  of_clean : m.panic_error ≡ none → batch_result {X = X} true m ≡ ok m.results
  unfolding batch_result
  of_clean h =
      ap
        (λ o. elim o as (λ x. PyResult (List (Option V)) (PyError V X T)) [
          | some t ↦ err (panic_in_task t)
          | none ↦ ok m.results
        ])
        h

  of_panic : (t : T) → m.panic_error ≡ some t → batch_result {X = X} true m ≡ err (panic_in_task t)
  unfolding batch_result
  of_panic t h =
      ap
        (λ o. elim o as (λ x. PyResult (List (Option V)) (PyError V X T)) [
          | some t ↦ err (panic_in_task t)
          | none ↦ ok m.results
        ])
        h

-- The result of a batch beside what its items give one after the other: the values in their order, or
-- a panic where some item panicked.
abbrev pub Sequential :
    {V X T : Type 0} → Caught (List V) T → PyResult (List (Option V)) (PyError V X T) → Type 0
Sequential {T} (returned vs) r = r ≡ ok (map some vs)
Sequential {T} (unwound p) r = (t : T) × (r ≡ err (panic_in_task t))

module _ {V T : Type 0} (work : ℕ → Caught V T) (fallback : T) (active n : ℕ)
    (cbs ks : List ℕ) where
  abbrev pub reach : System counter (BatchMemory V T)
  reach =
      run counter (store_chunk work fallback (python_chunks active n))
        (share (python_chunks active n)) ks (spawn_batch active n cbs)

  module _ (some_items : 0 < n) (bound : n < 2 ^ 63) where
    python-Tiles : Tiles 0 n (python_chunks active n)
    python-Tiles =
        subst (Tiles 0 n) (batch_chunks-python_chunks active n some_items bound)
          (batch_chunks-Tiles active n some_items bound)

    counts :
        counter.Counts n
          (total (share (python_chunks active n)) (map (λ c. c.0) (python_chunks active n)))
    counts = (
      omega (
        arith,
        total-share 0 n (python_chunks active n) (python_chunks active n) python-Tiles (
            All-mono (λ c h. (h.1, h.2)) (python_chunks active n)
              (tile_found 0 n (python_chunks active n) python-Tiles)),
      ),
      omega (
        arith,
        total-share 0 n (python_chunks active n) (python_chunks active n) python-Tiles (
            All-mono (λ c h. (h.1, h.2)) (python_chunks active n)
              (tile_found 0 n (python_chunks active n) python-Tiles)),
      ),
    )

    known :
        (i : ℕ)
        → reach.shared.flag ≡ 0
        → i < n
        → (s : ℕ) × (e : ℕ) × (lookup s (python_chunks active n) ≡ some e)
          × (s ≤ i)
          × (i < e)
          × (contains reach.shared.stored s ≡ true)
    unfolding spawn_batch
    known i z l =
        let cs = python_chunks active n in
        let (s, e, look, ge, lt, after, there) =
          tile_lookup 0 n cs i python-Tiles (omega arith) l in
        (
          s,
          e,
          look,
          ge,
          lt,
          all_stored counter (store_chunk work fallback cs) (share cs) (share_pos cs) n
              (new_memory n) (map (λ c. c.0) cs) cbs counts reach
              (reached counter (store_chunk work fallback cs) (share cs) (share_pos cs) n
                (new_memory n) (map (λ c. c.0) cs) cbs counts ks)
              (ground arith) s there,
        )

    memory_replayed :
        reach.shared.memory
        ≡ replay counter
            (store_chunk work fallback (python_chunks active n))
            (share (python_chunks active n))
            (new_memory n)
            reach.shared.stored
    unfolding spawn_batch
    memory_replayed =
        let cs = python_chunks active n in
        (reached counter (store_chunk work fallback cs) (share cs) (share_pos cs) n (new_memory n)
          (map (λ c. c.0) cs) cbs counts ks).replayed

    values_of :
        (vs : List V)
        → compute work n 0 ≡ returned vs
        → (i : ℕ) → i < n
        → (v : V) × (work i ≡ returned v)
    values_of vs e i l =
        let (v, w, g) = compute_at work n 0 i vs e l in (v, ap work (omega arith) ∙ w)

    result_returned :
        {X : Type 0} (vs : List V)
        → reach.shared.flag ≡ 0
        → compute work n 0 ≡ returned vs
        → batch_result {X = X} true reach.shared.memory ≡ ok (map some vs)
    result_returned vs z e =
        let cs = python_chunks active n in
        let f =
          replay-Filled work fallback cs n python-Tiles (values_of vs e) reach.shared.stored in
        ap (batch_result true) memory_replayed
        ∙ (of_clean _ f.clean
            ∙ ap ok (
                map_at some vs _ (f.size ∙ sym (length-compute work n 0 vs e)) λ i v g.
                  let (u, w, gu) =
                    compute_at work n 0 i vs e
                      (omega (arith, get_elem?-lt vs i v g, length-compute work n 0 vs e)) in
                  let (s, end, look, ge, lt, there) =
                    known i z
                      (omega (arith, get_elem?-lt vs i v g, length-compute work n 0 vs e)) in
                  f.written i s end v look ge lt there
                    (ap work (omega arith) ∙ (w ∙ ap returned (some-inj (sym gu ∙ g))))))

    result_unwound :
        {X : Type 0} (p : Payload T)
        → reach.shared.flag ≡ 0
        → compute work n 0 ≡ unwound p
        → (t : T) × (batch_result {X = X} true reach.shared.memory ≡ err (panic_in_task t))
    result_unwound p z e =
        let cs = python_chunks active n in
        let (i, l, bad) = compute_unwound work n 0 p e in
        let (s, end, look, ge, lt, there) = known (0 + i) z (omega arith) in
        let (t, h) =
          replay_panic work fallback cs n python-Tiles (0 + i) p bad reach.shared.stored s end look
            ge lt there in
        (t, ap (batch_result true) memory_replayed ∙ of_panic _ t h)

    -- However the tasks of the chunks of a batch of at least one and fewer than 2^63 items and the
    -- threads that add callbacks interleave, once `remaining` is 0 the batch's `result` is what
    -- its items give when they are run one after the other: all values in their order, or a panic
    -- if an item panicked.
    pub batch-Sequential :
        (X : Type 0)
        → reach.shared.flag ≡ 0
        → Sequential {X = X}
            (compute work n 0)
            (batch_result (reach.shared.flag == 0) reach.shared.memory)
    batch-Sequential X z =
        subst (λ b. Sequential {X = X} (compute work n 0) (batch_result b reach.shared.memory))
          (sym (ap (λ f. f == 0) z))
          (elim (Caught-cases work (compute work n 0)) [
            | inl (vs, e) ↦
                subst (λ c. Sequential {X = X} c (batch_result true reach.shared.memory)) (sym e)
                  (result_returned vs z e)
            | inr (p, e) ↦
                subst (λ c. Sequential {X = X} c (batch_result true reach.shared.memory)) (sym e)
                  (result_unwound p z e)
          ])
