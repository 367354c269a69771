-- ===== src/Registry/Lookup.antt =====
-- hypertile-core/src/executor.rs: laws of the worker map, the idle stack and the stealers cache.
use mathlib.Core.Option
use hypertile.Base.{
  ℕ, ◌≤◌, ◌≡◌, refl, true, false, none, some, List, [], ◌∷◌, ◌++◌, map, length, ◌==◌, if◌then◌else◌,
  arith,
}
use hypertile.Registry.Defs.{
  WorkerEntry, lookup, insert, remove, contains, retain_other, stealer_of,
}

module _ {ℓ} {V : Type ℓ} where
  pub lookup-insert :
      (id other : ℕ) (entry : V) (workers : List (ℕ × V))
      → lookup other (insert id entry workers)
        ≡ (if id == other then some entry else lookup other workers)
  unfolding lookup insert
  lookup-insert id other entry [] = refl
  lookup-insert id other entry (w ∷ rest) = ground (arith, lookup-insert id other entry rest)

  pub lookup-remove :
      (k j : ℕ) (m : List (ℕ × V)) → lookup j (remove k m) ≡ (if k == j then none else lookup j m)
  unfolding lookup remove
  lookup-remove k j [] = ground arith
  lookup-remove k j ((i, w) ∷ m) = ground (arith, lookup-remove k j m)

-- No worker stands twice in a list.
abbrev pub Distinct : List ℕ → Type 0
Distinct [] = Unit
Distinct (x ∷ xs) = (contains xs x ≡ false) × Distinct xs

pub contains-append : (xs ys : List ℕ) (a : ℕ) → contains xs a ≡ true → contains (xs ++ ys) a ≡ true
unfolding contains
contains-append [] ys a h = cc
contains-append (x ∷ xs) ys a h = ground (arith, contains-append xs ys a)

pub contains_last : (xs : List ℕ) (a : ℕ) → contains (xs ++ (a ∷ [])) a ≡ true
unfolding contains
contains_last [] a = ground arith
contains_last (x ∷ xs) a = ground (arith, contains_last xs a)

pub contains-retain_other :
    (a b : ℕ) (xs : List ℕ)
    → contains (retain_other a xs) b ≡ (if a == b then false else contains xs b)
unfolding contains retain_other
contains-retain_other a b [] = ground arith
contains-retain_other a b (x ∷ xs) = ground (arith, contains-retain_other a b xs)

pub retain_other-Distinct : (a : ℕ) (xs : List ℕ) → Distinct xs → Distinct (retain_other a xs)
unfolding retain_other
retain_other-Distinct a [] d = tt
retain_other-Distinct a (x ∷ xs) d =
    ground (arith, contains-retain_other a x xs, retain_other-Distinct a xs d.1)

pub length-retain_other-le : (a : ℕ) (xs : List ℕ) → length (retain_other a xs) ≤ length xs
unfolding retain_other
length-retain_other-le a [] = omega arith
length-retain_other-le a (x ∷ xs) = ground (arith, length-retain_other-le a xs)

module _ {S U : Type 0} where
  -- Every entry stands under its own id, and no key stands twice.
  abbrev pub IsKeyed : List (ℕ × WorkerEntry S U) → Type 0
  IsKeyed [] = Unit
  IsKeyed ((k, e) ∷ ws) = (e.id ≡ k) × (lookup k ws ≡ none) × IsKeyed ws

  pub insert-IsKeyed :
      (e : WorkerEntry S U) (ws : List (ℕ × WorkerEntry S U))
      → IsKeyed ws
      → IsKeyed (insert e.id e ws)
  unfolding insert lookup
  insert-IsKeyed e [] h = (refl, refl, tt)
  insert-IsKeyed e ((k, d) ∷ ws) h =
      ground (arith, lookup-insert e.id k e ws, insert-IsKeyed e ws h.2)

  pub remove-IsKeyed :
      (id : ℕ) (ws : List (ℕ × WorkerEntry S U)) → IsKeyed ws → IsKeyed (remove id ws)
  unfolding remove
  remove-IsKeyed id [] h = tt
  remove-IsKeyed id ((k, d) ∷ ws) h =
      ground (arith, lookup-remove id k ws, remove-IsKeyed id ws h.2)

  -- The stealers list finds exactly the registered workers, each with its own stealer.
  pub lookup-stealers :
      (id : ℕ) (ws : List (ℕ × WorkerEntry S U))
      → IsKeyed ws
      → lookup id (map stealer_of ws) ≡ Option.map (λ e. e.stealer) (lookup id ws)
  unfolding lookup
  lookup-stealers id [] h = refl
  lookup-stealers id ((k, e) ∷ ws) h = ground (arith, lookup-stealers id ws h.2)
