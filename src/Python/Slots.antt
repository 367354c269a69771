-- ===== src/Python/Slots.antt =====
-- hypertile-sys/src/lib.rs: what `run_crypto_pipeline` leaves in its four slots.
use hypertile.Base.{
  ℕ, zero, suc, ◌+◌, ◌*◌, ◌/◌, ◌%◌, ◌≤◌, ◌<◌, ◌≡◌, ◌≢◌, ◌⊎◌, refl, ap, ◌∙◌, inl, inr, true, some,
  Option, none, leb, le→leb, if◌then◌else◌, List, [], ◌∷◌, replicate, length, length-set, set,
  get_elem?, get_elem?-set_self, get_elem?-set_ne, All, Bool-cases, ◌==◌, ==_iff, arith,
}
use hypertile.Python.Pipeline.{
  absorb, mix_round, le_bytes, copy_at, store_state, mix_rounds, run_crypto_pipeline, overwrite,
}

-- The output is 32 bytes.
abbrev pub IsDigest : List ℕ → Type 0
IsDigest out = (length out ≡ 32) × All (λ b. b < 256) out

set-All : (P : ℕ → Type 0) (xs : List ℕ) (i v : ℕ) → P v → All P xs → All P (set xs i v)
set-All P [] i v p a = tt
set-All P (x ∷ xs) zero v p (h, a) = (p, a)
set-All P (x ∷ xs) (suc i) v p (h, a) = (h, set-All P xs i v p a)

set-IsDigest : (out : List ℕ) (i b : ℕ) → b < 256 → IsDigest out → IsDigest (set out i b)
set-IsDigest out i b l (n, a) = (length-set out i b ∙ n, set-All (λ c. c < 256) out i b l a)

overwrite-IsDigest :
    (n i x : ℕ) (out : List ℕ) → IsDigest out → IsDigest (overwrite i (le_bytes n x) out)
unfolding overwrite le_bytes
overwrite-IsDigest zero i x out d = d
overwrite-IsDigest (suc n) i x out d =
    overwrite-IsDigest n (suc i) (x / 256) (set out i (x % 256))
      (set-IsDigest out i (x % 256) (omega arith) d)

-- The output after a round, which no slice of the round leaves.
abbrev stored : ℕ → ℕ → List ℕ → List ℕ
stored r state out = if r % 4 == 0 then overwrite (r / 4 % 4 * 8) (le_bytes 8 state) out else out

store_state-stored :
    (r state : ℕ) (out : List ℕ)
    → length out ≡ 32
    → store_state r state out ≡ some (stored r state out)
unfolding store_state copy_at le_bytes
store_state-stored r state out n = elim (Bool-cases (r % 4 == 0)) [
  | inl e ↦
      let fits : leb (r / 4 % 4 * 8 + 8) (length out) ≡ true =
        le→leb (r / 4 % 4 * 8 + 8) (length out) (omega arith) in
      rw (e, fits) refl
  | inr e ↦ rw (e) refl
]

stored-IsDigest : (r state : ℕ) (out : List ℕ) → IsDigest out → IsDigest (stored r state out)
stored-IsDigest r state out d = elim (Bool-cases (r % 4 == 0)) [
  | inl e ↦ rw (e) (overwrite-IsDigest 8 (r / 4 % 4 * 8) state out d)
  | inr e ↦ rw (e) d
]

-- What `n` rounds write, where no slice leaves the output.
abbrev mixed : ℕ → ℕ → ℕ → List ℕ → List ℕ
mixed zero r state out = out
mixed (suc n) r state out = let next = mix_round r state in mixed n (suc r) next (stored r next out)

mix_rounds-mixed :
    (n r state : ℕ) (out : List ℕ)
    → IsDigest out
    → mix_rounds n r state out ≡ some (mixed n r state out)
unfolding mix_rounds
mix_rounds-mixed zero r state out d = refl
mix_rounds-mixed (suc n) r state out d =
    let next = mix_round r state in
    ap
      (λ o. elim o as (λ x. Option (List ℕ)) [
        | none ↦ none
        | some out' ↦ mix_rounds n (suc r) next out'
      ])
      (store_state-stored r next out d.0)
    ∙ mix_rounds-mixed n (suc r) next (stored r next out) (stored-IsDigest r next out d)

mixed-IsDigest : (n r state : ℕ) (out : List ℕ) → IsDigest out → IsDigest (mixed n r state out)
mixed-IsDigest zero r state out d = d
mixed-IsDigest (suc n) r state out d =
    mixed-IsDigest n (suc r) (mix_round r state) (stored r (mix_round r state) out)
      (stored-IsDigest r (mix_round r state) out d)

replicate-All : (n a : ℕ) (P : ℕ → Type 0) → P a → All P (replicate n a)
replicate-All zero a P p = tt
replicate-All (suc n) a P p = (p, replicate-All n a P p)

zeros-IsDigest : IsDigest (replicate 32 0)
zeros-IsDigest = (refl, replicate-All 32 0 (λ b. b < 256) (omega arith))

-- For any payload and any number of rounds, no slice that is written leaves the output: the pipeline
-- returns, and it returns 32 bytes.
pub run_crypto_pipeline-IsDigest :
    (payload : List ℕ) (rounds : ℕ)
    → (out : List ℕ) × (run_crypto_pipeline payload rounds ≡ some out) × IsDigest out
unfolding run_crypto_pipeline
run_crypto_pipeline-IsDigest payload rounds =
    let state = absorb 0xcbf2_9ce4_8422_2325 payload in
    (
      mixed rounds 0 state (replicate 32 0),
      mix_rounds-mixed rounds 0 state (replicate 32 0) zeros-IsDigest,
      mixed-IsDigest rounds 0 state (replicate 32 0) zeros-IsDigest,
    )

-- The byte `i` of a number.
abbrev pub byte_at : ℕ → ℕ → ℕ
byte_at zero x = x % 256
byte_at (suc i) x = byte_at i (x / 256)

overwrite-outside :
    (n k j x : ℕ) (out : List ℕ)
    → (j < k) ⊎ (k + n ≤ j)
    → get_elem? (overwrite k (le_bytes n x) out) j ≡ get_elem? out j
unfolding overwrite le_bytes
overwrite-outside zero k j x out o = refl
overwrite-outside (suc n) k j x out o =
    overwrite-outside n (suc k) j (x / 256) (set out k (x % 256)) (ground arith)
    ∙ get_elem?-set_ne out (x % 256) (λ e. ground arith)

overwrite-inside :
    (n k i x : ℕ) (out : List ℕ)
    → i < n
    → k + n ≤ length out
    → get_elem? (overwrite k (le_bytes n x) out) (k + i) ≡ some (byte_at i x)
unfolding overwrite le_bytes
overwrite-inside zero k i x out l h = absurd (omega arith)
overwrite-inside (suc n) k zero x out l h =
    let here : k + 0 ≡ k = omega arith in
    ap (get_elem? (overwrite (suc k) (le_bytes n (x / 256)) (set out k (x % 256)))) here
    ∙ (overwrite-outside n (suc k) k (x / 256) (set out k (x % 256)) (inl (omega arith))
        ∙ get_elem?-set_self out k (x % 256) (omega arith))
overwrite-inside (suc n) k (suc i) x out l h =
    let next : k + suc i ≡ suc k + i = omega arith in
    ap (get_elem? (overwrite (suc k) (le_bytes n (x / 256)) (set out k (x % 256)))) next
    ∙ overwrite-inside n (suc k) i (x / 256) (set out k (x % 256)) (omega arith)
        (omega (arith, length-set out k (x % 256)))

-- The state after `n` rounds, from the round `r` on.
abbrev pub state_after : ℕ → ℕ → ℕ → ℕ
state_after zero r state = state
state_after (suc n) r state = state_after n (suc r) (mix_round r state)

-- The slot `s`, byte by byte.
module _ (s i : ℕ) (slot : s < 4) (byte : i < 8) where
  stored-slot :
      (r state : ℕ) (out : List ℕ)
      → length out ≡ 32
      → r % 16 ≡ 4 * s
      → get_elem? (stored r state out) (s * 8 + i) ≡ some (byte_at i state)
  stored-slot r state out n e =
      let stored : (r % 4 == 0) ≡ true = (==_iff (r % 4) 0).1 (omega arith) in
      let here : r / 4 % 4 * 8 ≡ s * 8 = omega arith in
      rw (stored, here) (overwrite-inside 8 (s * 8) i state out byte (omega arith))

  stored-other :
      (r state : ℕ) (out : List ℕ)
      → r % 16 ≢ 4 * s
      → get_elem? (stored r state out) (s * 8 + i) ≡ get_elem? out (s * 8 + i)
  stored-other r state out e = elim (Bool-cases (r % 4 == 0)) [
    | inl b ↦
        let m = (==_iff (r % 4) 0).0 b in
        rw (b) (overwrite-outside 8 (r / 4 % 4 * 8) (s * 8 + i) state out (ground arith))
    | inr b ↦ rw (b) refl
  ]

  mixed-other :
      (n r state : ℕ) (out : List ℕ)
      → ((d : ℕ) → d < n → (r + d) % 16 ≢ 4 * s)
      → get_elem? (mixed n r state out) (s * 8 + i) ≡ get_elem? out (s * 8 + i)
  mixed-other zero r state out o = refl
  mixed-other (suc n) r state out o =
      let next = mix_round r state in
      mixed-other n (suc r) next (stored r next out)
        (λ d l e. o (suc d) (omega arith) (omega arith))
      ∙ stored-other r next out (λ e. o 0 (omega arith) (omega arith))

  mixed-slot :
      (n r d state : ℕ) (out : List ℕ)
      → IsDigest out
      → d < n
      → n ≤ d + 16
      → (r + d) % 16 ≡ 4 * s
      → get_elem? (mixed n r state out) (s * 8 + i) ≡ some (byte_at i (state_after (suc d) r state))
  mixed-slot zero r d state out o l u e = absurd (omega arith)
  mixed-slot (suc n) r zero state out o l u e =
      let next = mix_round r state in
      mixed-other n (suc r) next (stored r next out) (λ d k f. omega arith)
      ∙ stored-slot r next out o.0 (omega arith)
  mixed-slot (suc n) r (suc d) state out o l u e =
      let next = mix_round r state in
      mixed-slot n (suc r) d next (stored r next out) (stored-IsDigest r next out o) (omega arith)
        (omega arith) (omega arith)

-- For any payload the pipeline returns an output, and the slot `s` of the output holds the state after
-- the last round whose number is 4 s modulo 16, the lowest byte first.
pub run_crypto_pipeline-slot :
    (payload : List ℕ) (rounds r s i : ℕ)
    → s < 4
    → i < 8
    → r < rounds
    → rounds ≤ r + 16
    → r % 16 ≡ 4 * s
    → (out : List ℕ) × (run_crypto_pipeline payload rounds ≡ some out)
      × (get_elem? out (s * 8 + i)
          ≡ some (byte_at i (state_after (suc r) 0 (absorb 0xcbf2_9ce4_8422_2325 payload))))
unfolding run_crypto_pipeline
run_crypto_pipeline-slot payload rounds r s i slot byte l u e =
    let state = absorb 0xcbf2_9ce4_8422_2325 payload in
    (
      mixed rounds 0 state (replicate 32 0),
      mix_rounds-mixed rounds 0 state (replicate 32 0) zeros-IsDigest,
      mixed-slot s i slot byte rounds 0 r state (replicate 32 0) zeros-IsDigest l u (omega arith),
    )
