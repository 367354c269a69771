-- ===== src/Runtime/Sizing.antt =====
-- hypertile-core/src/runtime.rs: how many workers a fresh pool gets. A string is the list of the
-- numbers of its characters.
use hypertile.Base.{
  ℕ, ◌+◌, ◌-◌, ◌*◌, ◌^◌, min, max, Bool, ◌&&◌, ◌||◌, Option, none, some, List, [], ◌∷◌, ◌++◌, leb,
  ◌==◌, if◌then◌else◌,
}

abbrev pub blocking_headroom : ℕ
blocking_headroom = 4

abbrev pub default_workers_cap : ℕ
default_workers_cap = 32

abbrev pub saturating_add : ℕ → ℕ → ℕ
saturating_add a b = min (a + b) (2 ^ 64 - 1)

unfoldable pub worker_count_for_cores : ℕ → ℕ
worker_count_for_cores cores =
    max cores (min (saturating_add cores blocking_headroom) default_workers_cap)

-- `available_parallelism` is what the system answers, or none if it fails.
unfoldable pub default_worker_count : Option ℕ → ℕ
default_worker_count (some p) = worker_count_for_cores (max p 1)
default_worker_count none = worker_count_for_cores (max 4 1)

-- `char::is_whitespace`
abbrev within : ℕ → ℕ → ℕ → Bool
within a b c = leb a c && leb c b

unfoldable pub is_whitespace : ℕ → Bool
is_whitespace c =
    within 9 13 c
    || ((c == 32)
        || ((c == 133)
            || ((c == 160)
                || ((c == 5760)
                    || (within 8192 8202 c
                        || ((c == 8232)
                            || ((c == 8233) || ((c == 8239) || ((c == 8287) || (c == 12288))))))))))

-- `str::trim`
unfoldable pub trim_start : List ℕ → List ℕ
unfolding is_whitespace
trim_start [] = []
trim_start (c ∷ cs) = if is_whitespace c then trim_start cs else c ∷ cs

unfoldable pub rev : List ℕ → List ℕ
rev [] = []
rev (c ∷ cs) = rev cs ++ (c ∷ [])

unfoldable pub trim : List ℕ → List ℕ
unfolding trim_start rev
trim cs = rev (trim_start (rev (trim_start cs)))

-- `str::parse::<usize>`: an optional plus sign and at least one digit, below 2^64.
unfoldable pub parse_digits : ℕ → List ℕ → Option ℕ
parse_digits n [] = some n
parse_digits n (c ∷ cs) =
    let m = n * 10 + (c - 48) in
    let rest = parse_digits m cs in if within 48 57 c && leb m (2 ^ 64 - 1) then rest else none

unfoldable pub parse_unsigned : List ℕ → Option ℕ
unfolding parse_digits
parse_unsigned [] = none
parse_unsigned (c ∷ cs) = parse_digits 0 (c ∷ cs)

unfoldable pub parse_usize : List ℕ → Option ℕ
unfolding parse_unsigned
parse_usize [] = none
parse_usize (c ∷ cs) = if c == 43 then parse_unsigned cs else parse_unsigned (c ∷ cs)

-- `Ok` is some, `Err(())` none.
unfoldable pub explicit : Option ℕ → Option (Option ℕ)
explicit (some n) = if n == 0 then some none else some (some n)
explicit none = none

unfoldable pub parse_worker_count : List ℕ → Option (Option ℕ)
unfolding explicit trim parse_usize
parse_worker_count raw = explicit (parse_usize (trim raw))

-- The variable of the environment is none if it is not set.
unfoldable pub workers_from_env : Option (List ℕ) → Option ℕ
workers_from_env none = none
workers_from_env (some raw) = elim (parse_worker_count raw) [ some e ↦ e | none ↦ none ]

unfoldable pub resolve_worker_count : Option (List ℕ) → Option ℕ → ℕ → ℕ
resolve_worker_count env parallelism requested =
    if requested == 0
    then elim (workers_from_env env) [ some n ↦ n | none ↦ default_worker_count parallelism ]
    else requested
