-- ===== src/Python/Batches.antt =====
-- hypertile-sys/src/lib.rs: `batch_spawn_native_pipeline` and `batch_spawn_callable`.
use hypertile.Base.{
  ℕ, ◌+◌, ◌-◌, ◌≤◌, ◌<◌, ◌≡◌, inl, inr, true, none, some, List, [], ◌∷◌, map, replicate, total, All,
  All-mono, lt_or_ge, ltb, if◌then◌else◌, arith,
}
use hypertile.Registry.Defs.{lookup, contains}
use hypertile.Batch.Chunks.{python_chunks}
use hypertile.Batch.Tiling.{Tiles}
use hypertile.Python.Flag.{counter}
use hypertile.Python.Outcome.{Caught, returned, unwound, BatchMemory, panic_message}
use hypertile.Python.Chunk.{compute, write_from}
use hypertile.Python.Completion.{System, start}
use hypertile.Python.Callbacks.{threads_of}

-- A chunk is known by its first item.
unfoldable pub share : List (ℕ × ℕ) → ℕ → ℕ
share cs s = elim (lookup s cs) [ none ↦ 1 | some e ↦ if ltb s e then e - s else 1 ]

module _ {V T : Type 0} (work : ℕ → Caught V T) (fallback : T) where
  unfoldable pub store_outcome : ℕ → Caught (List V) T → BatchMemory V T → BatchMemory V T
  store_outcome s (returned vs) m = record m { results = write_from s vs m.results }
  store_outcome s (unwound p) m = record m { panic_error = some (panic_message p fallback) }

  -- What the task of a chunk stores.
  unfoldable pub store_chunk : List (ℕ × ℕ) → ℕ → BatchMemory V T → BatchMemory V T
  unfolding store_outcome
  store_chunk cs s m = elim (lookup s cs) [
    | none ↦ m
    | some e ↦ store_outcome s (compute work (e - s) s) m
  ]

abbrev pub new_memory : {V T : Type 0} → ℕ → BatchMemory V T
new_memory total = record { results = replicate total none; panic_error = none }

-- A new batch of `n` items, with its chunks spawned, and threads that add the callbacks `cbs`.
unfoldable pub spawn_batch : {V T : Type 0} → ℕ → ℕ → List ℕ → System counter (BatchMemory V T)
unfolding start
spawn_batch active n cbs =
    start counter n (new_memory n) (threads_of (map (λ c. c.0) (python_chunks active n)) cbs)

-- Each item is in a chunk, which is found by its first item.
pub tile_lookup :
    (a b : ℕ) (cs : List (ℕ × ℕ)) (i : ℕ)
    → Tiles a b cs
    → a ≤ i
    → i < b
    → (s : ℕ) × (e : ℕ) × (lookup s cs ≡ some e)
      × (s ≤ i)
      × (i < e)
      × (a ≤ s)
      × (contains (map (λ c. c.0) cs) s ≡ true)
unfolding lookup contains
tile_lookup a b [] i t l h = absurd (omega arith)
tile_lookup a b ((start, stop) ∷ cs) i (es, lt, t) l h = elim (lt_or_ge i stop) [
  | inl inside ↦ (start, stop, ground arith, omega arith, inside, omega arith, ground arith)
  | inr past ↦
      let (s, e, look, ls, le, after, known) = tile_lookup stop b cs i t past h in
      (s, e, ground arith, ls, le, omega arith, ground arith)
]

tile_le : (a b : ℕ) (cs : List (ℕ × ℕ)) → Tiles a b cs → a ≤ b
tile_le a b [] t = omega arith
tile_le a b ((start, stop) ∷ cs) (es, lt, t) = omega (arith, tile_le stop b cs t)

pub tile_valid :
    (a b : ℕ) (cs : List (ℕ × ℕ)) (s e : ℕ)
    → Tiles a b cs
    → lookup s cs ≡ some e
    → (s < e) × (e ≤ b)
unfolding lookup
tile_valid a b [] s e t h = cc
tile_valid a b ((start, stop) ∷ cs) s e (es, lt, t) h =
    ground (arith, tile_valid stop b cs s e, tile_le stop b cs t)

pub tile_found :
    (a b : ℕ) (cs : List (ℕ × ℕ))
    → Tiles a b cs
    → All (λ c. (a ≤ c.0) × (c.0 < c.1) × (lookup c.0 cs ≡ some c.1)) cs
unfolding lookup
tile_found a b [] t = tt
tile_found a b ((start, stop) ∷ cs) (es, lt, t) = (
  (omega arith, lt, ground arith),
  All-mono (λ c h. (omega arith, h.1, ground arith)) cs (tile_found stop b cs t),
)

pub share_pos : (cs : List (ℕ × ℕ)) (s : ℕ) → 0 < share cs s
unfolding share
share_pos cs s = ground arith

pub total-share :
    (a b : ℕ) (cs all : List (ℕ × ℕ))
    → Tiles a b cs
    → All (λ c. (c.0 < c.1) × (lookup c.0 all ≡ some c.1)) cs
    → total (share all) (map (λ c. c.0) cs) + a ≡ b
unfolding total share
total-share a b [] all t h = omega arith
total-share a b ((start, stop) ∷ cs) all (es, lt, t) ((l, look), h) =
    ground (arith, total-share stop b cs all t h)
