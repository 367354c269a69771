-- ===== src/Python/Pipeline.antt =====
-- hypertile-sys/src/lib.rs: `run_crypto_pipeline`. A byte is a number below 256, a `u64` one below
-- 2^64.
use Prim.Native.Nat.{bit_xor}
use hypertile.Base.{
  ℕ, zero, suc, ◌+◌, ◌*◌, ◌/◌, ◌%◌, ◌-◌, ◌^◌, Option, none, some, List, [], ◌∷◌, length, replicate,
  set, leb, ◌==◌, if◌then◌else◌,
}
use hypertile.Registry.Defs.{word}

unfoldable pub absorb : ℕ → List ℕ → ℕ
absorb state [] = state
absorb state (b ∷ payload) = absorb (word (bit_xor state b * 0x100_0000_01b3)) payload

unfoldable pub rotate_left : ℕ → ℕ → ℕ
rotate_left k x = word (x * 2 ^ k) + x / 2 ^ (64 - k)

-- The state after the round `r`.
unfoldable pub mix_round : ℕ → ℕ → ℕ
unfolding rotate_left
mix_round r state =
    word (bit_xor (rotate_left 13 state) (word (r * 0x517c_c1b7_2722_0a95)) + 0x9e37_79b9_7f4a_7c15)

-- `to_le_bytes`
unfoldable pub le_bytes : ℕ → ℕ → List ℕ
le_bytes zero x = []
le_bytes (suc n) x = x % 256 ∷ le_bytes n (x / 256)

unfoldable pub overwrite : ℕ → List ℕ → List ℕ → List ℕ
overwrite i [] out = out
overwrite i (b ∷ bs) out = overwrite (suc i) bs (set out i b)

-- `out[i..i + length bs].copy_from_slice(bs)`, and `none` for the panic of a range that ends beyond
-- the output.
unfoldable pub copy_at : ℕ → List ℕ → List ℕ → Option (List ℕ)
unfolding overwrite
copy_at i bs out = if leb (i + length bs) (length out) then some (overwrite i bs out) else none

unfoldable pub store_state : ℕ → ℕ → List ℕ → Option (List ℕ)
unfolding copy_at le_bytes
store_state r state out =
    if r % 4 == 0 then copy_at (r / 4 % 4 * 8) (le_bytes 8 state) out else some out

-- `n` rounds, from the round `r` on.
unfoldable pub mix_rounds : ℕ → ℕ → ℕ → List ℕ → Option (List ℕ)
unfolding mix_round store_state
mix_rounds zero r state out = some out
mix_rounds (suc n) r state out =
    let next = mix_round r state in
    elim (store_state r next out) [ none ↦ none | some out' ↦ mix_rounds n (suc r) next out' ]

unfoldable pub run_crypto_pipeline : List ℕ → ℕ → Option (List ℕ)
unfolding absorb mix_rounds
run_crypto_pipeline payload rounds =
    mix_rounds rounds 0 (absorb 0xcbf2_9ce4_8422_2325 payload) (replicate 32 0)
