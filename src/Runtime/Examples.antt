-- ===== src/Runtime/Examples.antt =====
-- The pool's size and the global runtime at concrete values.
use hypertile.Base.{ℕ, ◌≤◌, ◌≡◌, refl, none, some, List, [], ◌∷◌, length, All, arith, ◌++◌}
use hypertile.Runtime.Decimal.{decimal, parse_worker_count-decimal}
use hypertile.Runtime.Sizing.{is_whitespace, parse_worker_count}
use hypertile.Runtime.Global.{Event, get_or_init, publish, configure, unstarted, run}
use hypertile.Runtime.Once.{run-unstarted}

-- " 8  ", "0" and "4.0"
parse_padded : parse_worker_count (32 ∷ 56 ∷ 32 ∷ 32 ∷ []) ≡ some (some 8)
unfolding parse_worker_count
parse_padded = refl

parse_automatic : parse_worker_count (48 ∷ []) ≡ some none
unfolding parse_worker_count
parse_automatic = refl

parse_fraction : parse_worker_count (52 ∷ 46 ∷ 48 ∷ []) ≡ none
unfolding parse_worker_count
parse_fraction = refl

-- Two threads race to configure the pool, and the second one wins.
abbrev race : List (ℕ × Event)
race = (0, configure 4) ∷ (1, configure 8) ∷ (1, publish) ∷ (0, publish) ∷ (0, get_or_init) ∷ []

run-unstarted_example :
    let g = run none (some 2) race (unstarted 2) in
    All (λ n. g.runtime ≡ some n) g.used
    × All (λ n. g.runtime ≡ some n) g.granted
    × All (λ n. g.runtime ≡ some n) g.refused
    × (length g.granted ≤ 1)
run-unstarted_example = run-unstarted none (some 2) 2 race

-- A space, 16, and a line feed.
parse_worker_count-decimal_example :
    parse_worker_count ((32 ∷ []) ++ (decimal 16 ++ (10 ∷ []))) ≡ some (some 16)
unfolding is_whitespace
parse_worker_count-decimal_example =
    parse_worker_count-decimal 16 (32 ∷ []) (10 ∷ []) (omega arith) (refl, tt) (refl, tt)
