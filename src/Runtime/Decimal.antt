-- ===== src/Runtime/Decimal.antt =====
-- hypertile-core/src/runtime.rs: a number of workers that is written in the environment is read back.
use hypertile.Base.{
  ℕ, zero, suc, ◌+◌, ◌-◌, ◌*◌, ◌/◌, ◌%◌, ◌^◌, ◌<◌, ◌≤◌, ◌≡◌, refl, sym, ap, ◌∙◌, Bool, true, false,
  none, some, List, [], ◌∷◌, ◌++◌, ltb, ◌==◌, if◌then◌else◌, All, All-mono, arith,
}
use hypertile.Runtime.Sizing.{
  is_whitespace, trim_start, rev, trim, parse_digits, parse_unsigned, parse_usize, explicit,
  parse_worker_count,
}

abbrev pub IsBlank : List ℕ → Type 0
IsBlank cs = All (λ c. is_whitespace c ≡ true) cs

abbrev IsSolid : List ℕ → Type 0
IsSolid cs = All (λ c. is_whitespace c ≡ false) cs

-- The decimal digits of `n`, in `f` steps.
unfoldable pub digits : ℕ → ℕ → List ℕ
digits zero n = []
digits (suc f) n = elim (ltb n 10) [
  | true ↦ (48 + n) ∷ []
  | false ↦ digits f (n / 10) ++ ((48 + n % 10) ∷ [])
]

-- There are at most as many digits as the number says, and one more.
abbrev pub decimal : ℕ → List ℕ
decimal n = digits (suc n) n

append_nil : (xs : List ℕ) → xs ++ [] ≡ xs
append_nil [] = refl
append_nil (x ∷ xs) = ap (λ ys. x ∷ ys) (append_nil xs)

append_assoc : (xs ys zs : List ℕ) → (xs ++ ys) ++ zs ≡ xs ++ (ys ++ zs)
append_assoc [] ys zs = refl
append_assoc (x ∷ xs) ys zs = ap (λ l. x ∷ l) (append_assoc xs ys zs)

rev_append : (xs ys : List ℕ) → rev (xs ++ ys) ≡ rev ys ++ rev xs
unfolding rev
rev_append [] ys = sym (append_nil (rev ys))
rev_append (x ∷ xs) ys =
    ap (λ l. l ++ (x ∷ [])) (rev_append xs ys) ∙ append_assoc (rev ys) (rev xs) (x ∷ [])

rev-rev : (xs : List ℕ) → rev (rev xs) ≡ xs
unfolding rev
rev-rev [] = refl
rev-rev (x ∷ xs) = rev_append (rev xs) (x ∷ []) ∙ ap (λ l. x ∷ l) (rev-rev xs)

All-append : (Q : ℕ → Type 0) (xs ys : List ℕ) → All Q xs → All Q ys → All Q (xs ++ ys)
All-append Q [] ys a b = b
All-append Q (x ∷ xs) ys (h, a) b = (h, All-append Q xs ys a b)

All-rev : (Q : ℕ → Type 0) (xs : List ℕ) → All Q xs → All Q (rev xs)
unfolding rev
All-rev Q [] a = tt
All-rev Q (x ∷ xs) (h, a) = All-append Q (rev xs) (x ∷ []) (All-rev Q xs a) (h, tt)

trim_start_blank : (us xs : List ℕ) → IsBlank us → trim_start (us ++ xs) ≡ trim_start xs
unfolding trim_start
trim_start_blank [] xs b = refl
trim_start_blank (u ∷ us) xs (h, b) = rw (h) (trim_start_blank us xs b)

-- A list that begins with what is no white space, or is blank.
trim_start_solid : (x : ℕ) (xs : List ℕ) → is_whitespace x ≡ false → trim_start (x ∷ xs) ≡ x ∷ xs
unfolding trim_start
trim_start_solid x xs h = rw (h) refl

trim_start-IsSolid :
    (xs vs : List ℕ) → IsSolid xs → (xs ≡ [] → ⊥) → trim_start (xs ++ vs) ≡ xs ++ vs
trim_start-IsSolid [] vs s n = absurd (n refl)
trim_start-IsSolid (x ∷ xs) vs (h, s) n = trim_start_solid x (xs ++ vs) h

trim_blanks :
    (us xs vs : List ℕ)
    → IsBlank us
    → IsSolid xs
    → (xs ≡ [] → ⊥)
    → IsBlank vs
    → trim (us ++ (xs ++ vs)) ≡ xs
unfolding trim
trim_blanks us xs vs bu s n bv =
    ap (λ l. rev (trim_start (rev l)))
      (trim_start_blank us (xs ++ vs) bu ∙ trim_start-IsSolid xs vs s n)
    ∙ (ap (λ l. rev (trim_start l)) (rev_append xs vs)
        ∙ (ap rev (
              trim_start_blank (rev vs) (rev xs) (All-rev (λ c. is_whitespace c ≡ true) vs bv)
              ∙ (ap trim_start (sym (append_nil (rev xs)))
                  ∙ (trim_start-IsSolid (rev xs) [] (All-rev (λ c. is_whitespace c ≡ false) xs s)
                        none_left
                      ∙ append_nil (rev xs))))
            ∙ rev-rev xs))
  where
    none_left : rev xs ≡ [] → ⊥
    none_left h = n (sym (rev-rev xs) ∙ (ap rev h ∙ nil))
      where
        nil : rev [] ≡ []
        nil = refl

abbrev IsDigits : List ℕ → Type 0
IsDigits cs = All (λ c. (48 ≤ c) × (c ≤ 57)) cs

digit_solid : (c : ℕ) → (48 ≤ c) × (c ≤ 57) → is_whitespace c ≡ false
unfolding is_whitespace
digit_solid c (a, b) = ground arith

when :
    (Q : List ℕ → Type 0) (b : Bool) (xs ys : List ℕ)
    → (b ≡ true → Q xs)
    → (b ≡ false → Q ys)
    → Q (elim b [ true ↦ xs | false ↦ ys ])
when Q true xs ys f g = f refl
when Q false xs ys f g = g refl

digits-IsDigits : (f n : ℕ) → IsDigits (digits f n)
unfolding digits
digits-IsDigits zero n = tt
digits-IsDigits (suc f) n =
    when IsDigits (ltb n 10) _ _ (λ e. ((omega arith, ground arith), tt))
      λ e.
        All-append (λ c. (48 ≤ c) × (c ≤ 57)) (digits f (n / 10)) ((48 + n % 10) ∷ [])
          (digits-IsDigits f (n / 10)) ((omega arith, omega arith), tt)

snoc_nonempty : (xs : List ℕ) (x : ℕ) → xs ++ (x ∷ []) ≡ [] → ⊥
snoc_nonempty [] x h = cc
snoc_nonempty (y ∷ xs) x h = cc

digits_nonempty : (f n : ℕ) → digits (suc f) n ≡ [] → ⊥
unfolding digits
digits_nonempty f n =
    when (λ l. l ≡ [] → ⊥) (ltb n 10) ((48 + n) ∷ []) _ (λ e h. cc)
      (λ e. snoc_nonempty (digits f (n / 10)) (48 + n % 10))

parse_digits_last :
    (m k d : ℕ) (xs : List ℕ)
    → parse_digits m xs ≡ some k
    → d < 10
    → k * 10 + d < 2 ^ 64
    → parse_digits m (xs ++ ((48 + d) ∷ [])) ≡ some (k * 10 + d)
unfolding parse_digits
parse_digits_last m k d [] e l b = ground arith
parse_digits_last m k d (x ∷ xs) e l b =
    ground (arith, parse_digits_last (m * 10 + (x - 48)) k d xs)

parse_digits_single : (n : ℕ) → n < 10 → parse_digits 0 ((48 + n) ∷ []) ≡ some n
unfolding parse_digits
parse_digits_single n l = ground arith

parse_digits-digits : (f n : ℕ) → n < f → n < 2 ^ 64 → parse_digits 0 (digits f n) ≡ some n
unfolding digits
parse_digits-digits zero n l b = absurd (omega arith)
parse_digits-digits (suc f) n l b =
    when (λ xs. parse_digits 0 xs ≡ some n) (ltb n 10) _ _
      (λ e. parse_digits_single n (ground arith))
      λ e.
        let ten : 10 ≤ n = ground arith in
        let again : n / 10 * 10 + n % 10 ≡ n = omega arith in
        parse_digits_last 0 (n / 10) (n % 10) (digits f (n / 10))
          (parse_digits-digits f (n / 10) (omega arith) (omega arith)) (omega arith) (omega arith)
        ∙ ap some again

parse_usize_digits :
    (xs : List ℕ) → IsDigits xs → (xs ≡ [] → ⊥) → parse_usize xs ≡ parse_digits 0 xs
unfolding parse_usize parse_unsigned
parse_usize_digits [] d n = absurd (n refl)
parse_usize_digits (x ∷ xs) ((a, b), d) n =
    let plus : (x == 43) ≡ false = ground arith in rw (plus) refl

-- A number below 2^64 that is written in decimal, with white space before and after it, is parsed as
-- that number of workers, or as the request for the default count if it is 0.
pub parse_worker_count-decimal :
    (n : ℕ) (us vs : List ℕ)
    → n < 2 ^ 64
    → IsBlank us
    → IsBlank vs
    → parse_worker_count (us ++ (decimal n ++ vs)) ≡ some (if n == 0 then none else some n)
unfolding parse_worker_count explicit
parse_worker_count-decimal n us vs l bu bv =
    let d = digits-IsDigits (suc n) n in
    ap (λ x. explicit (parse_usize x))
      (trim_blanks us (decimal n) vs bu (All-mono (λ c h. digit_solid c h) (decimal n) d)
        (digits_nonempty n n) bv)
    ∙ (ap explicit (
          parse_usize_digits (decimal n) d (digits_nonempty n n)
          ∙ parse_digits-digits (suc n) n (omega arith) l)
        ∙ read n)
  where
    read : (k : ℕ) → explicit (some k) ≡ some (if k == 0 then none else some k)
    read k = ground arith
