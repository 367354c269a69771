-- ===== src/Base/Count.antt =====
-- Weighted sums over a list, with one entry changed or added.
use Prim.Native.Nat.{ℕ, zero, suc, ◌+◌, ◌≤◌, ◌<◌}
use mathlib.Core.Logic.{◌⊎◌, inl, inr}
use mathlib.Core.Path.{◌≡◌, refl, ap}
use mathlib.Core.List.{List, [], ◌∷◌, ◌++◌}
use mathlib.Core.Option.{some}
use native.Mathlib.Omega.{arith}
use hypertile.Base.Lists.{get_elem?, set, replicate, All}

module _ {ℓ} {A : Type ℓ} (w : A → ℕ) where
  unfoldable pub total : List A → ℕ
  total [] = 0
  total (x ∷ xs) = w x + total xs

  pub total-set :
      (xs : List A) (i : ℕ) (a b : A)
      → get_elem? xs i ≡ some a
      → total (set xs i b) + w a ≡ total xs + w b
  unfolding total
  total-set [] i a b e = cc
  total-set (x ∷ xs) zero a b e = ground arith
  total-set (x ∷ xs) (suc i) a b e = omega (arith, total-set xs i a b e)

  pub total-append : (xs ys : List A) → total (xs ++ ys) ≡ total xs + total ys
  unfolding total
  total-append [] ys = omega arith
  total-append (x ∷ xs) ys = omega (arith, total-append xs ys)

  pub le-total : (xs : List A) (i : ℕ) (a : A) → get_elem? xs i ≡ some a → w a ≤ total xs
  unfolding total
  le-total [] i a e = cc
  le-total (x ∷ xs) zero a e = ground arith
  le-total (x ∷ xs) (suc i) a e = omega (arith, le-total xs i a e)

  -- With a total of one at most, one place alone has weight.
  pub total_unique :
      (xs : List A) (i j : ℕ) (a b : A)
      → total xs ≤ 1
      → get_elem? xs i ≡ some a
      → get_elem? xs j ≡ some b
      → 1 ≤ w a
      → 1 ≤ w b
      → i ≡ j
  unfolding total
  total_unique [] i j a b h p q u v = cc
  total_unique (x ∷ xs) zero zero a b h p q u v = refl
  total_unique (x ∷ xs) zero (suc j) a b h p q u v = ground (arith, le-total xs j b)
  total_unique (x ∷ xs) (suc i) zero a b h p q u v = ground (arith, le-total xs i a)
  total_unique (x ∷ xs) (suc i) (suc j) a b h p q u v =
      ap suc (total_unique xs i j a b (omega arith) p q u v)

  pub total-replicate : (n : ℕ) (a : A) → w a ≡ 0 → total (replicate n a) ≡ 0
  unfolding total
  total-replicate zero a h = refl
  total-replicate (suc n) a h = omega (arith, total-replicate n a h)

  pub total-All : (a : A) → w a ≡ 0 → (xs : List A) → All (λ x. x ≡ a) xs → total xs ≡ 0
  unfolding total
  total-All a z [] h = refl
  total-All a z (x ∷ xs) h = omega (arith, ap w h.0, total-All a z xs h.1)

  -- A positive total has a place that is positive.
  pub total_find :
      (xs : List A) → 0 < total xs → (i : ℕ) × (a : A) × (get_elem? xs i ≡ some a) × (0 < w a)
  unfolding total
  total_find [] h = absurd (omega arith)
  total_find (x ∷ xs) h = elim (positive (w x)) [
    | inl here ↦ (0, x, refl, here)
    | inr none_here ↦ let (i, a, e, there) = total_find xs (omega arith) in (suc i, a, e, there)
  ]
    where
      positive : (n : ℕ) → (0 < n) ⊎ (n ≡ 0)
      positive zero = inr refl
      positive (suc n) = inl (omega arith)

pub total_mono {ℓ} :
    {A : Type ℓ} (f g : A → ℕ) (xs : List A) → ((a : A) → f a ≤ g a) → total f xs ≤ total g xs
unfolding total
total_mono f g [] h = omega arith
total_mono f g (x ∷ xs) h = omega (arith, h x, total_mono f g xs h)
