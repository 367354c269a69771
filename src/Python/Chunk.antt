-- ===== src/Python/Chunk.antt =====
-- hypertile-sys/src/lib.rs: one chunk of a batch.
use hypertile.Base.{
  ℕ, zero, suc, ◌+◌, ◌≤◌, ◌<◌, ◌≡◌, refl, sym, ap, ◌∙◌, Option, some, List, [], ◌∷◌, length,
  get_elem?, set, length-set, get_elem?-set_self, get_elem?-set_ne, inl, inr, ◌⊎◌, arith,
}
use hypertile.Python.Outcome.{Payload, Caught, returned, unwound}

pub returned-inj {ℓ} :
    {V T : Type ℓ} {a b : V} (p : ◌≡◌ {A = Caught V T} (returned a) (returned b)) → a ≡ b
returned-inj p = cc

abbrev pub add_value {ℓ} : {V T : Type ℓ} → V → Caught (List V) T → Caught (List V) T
add_value v (returned vs) = returned (v ∷ vs)
add_value v (unwound p) = unwound p

module _ {ℓ} {V T : Type ℓ} (work : ℕ → Caught V T) where
  go_on : Caught V T → Caught (List V) T → Caught (List V) T
  go_on (returned v) rest = add_value v rest
  go_on (unwound p) rest = unwound p

  -- The loop over the items of a chunk, under one `catch_unwind`: `n` of them, from item `i` on.
  unfoldable pub compute : ℕ → ℕ → Caught (List V) T
  unfolding go_on
  compute zero i = returned []
  compute (suc n) i = go_on (work i) (compute n (i + 1))

  go_on_returned :
      (c : Caught V T) (rest : Caught (List V) T) (vs : List V)
      → go_on c rest ≡ returned vs
      → (v : V) × (ws : List V) × (c ≡ returned v) × (rest ≡ returned ws) × (vs ≡ v ∷ ws)
  unfolding go_on
  go_on_returned (returned v) (returned ws) vs e = (v, ws, refl, refl, cc)
  go_on_returned (returned v) (unwound p) vs e = cc
  go_on_returned (unwound p) rest vs e = cc

  go_on_unwound :
      (c : Caught V T) (rest : Caught (List V) T) (p : Payload T)
      → go_on c rest ≡ unwound p
      → (c ≡ unwound p) ⊎ (rest ≡ unwound p)
  unfolding go_on
  go_on_unwound (returned v) (returned ws) p e = cc
  go_on_unwound (returned v) (unwound q) p e = inr (cc)
  go_on_unwound (unwound q) rest p e = inl (cc)

  -- Each item of a chunk that returned has returned, and is in its place.
  pub compute_at :
      (n i k : ℕ) (vs : List V)
      → compute n i ≡ returned vs
      → k < n
      → (v : V) × (work (i + k) ≡ returned v) × (get_elem? vs k ≡ some v)
  unfolding compute
  compute_at zero i k vs e l = absurd (omega arith)
  compute_at (suc n) i zero vs e l =
      let (v, ws, ev, ew, es) = go_on_returned (work i) (compute n (i + 1)) vs e in
      (v, ap work (omega arith) ∙ ev, ap (λ xs. get_elem? xs 0) es)
  compute_at (suc n) i (suc k) vs e l =
      let (v, ws, ev, ew, es) = go_on_returned (work i) (compute n (i + 1)) vs e in
      let (u, eu, gu) = compute_at n (i + 1) k ws ew (omega arith) in
      (u, ap work (omega arith) ∙ eu, ap (λ xs. get_elem? xs (suc k)) es ∙ gu)

  pub length-compute : (n i : ℕ) (vs : List V) → compute n i ≡ returned vs → length vs ≡ n
  unfolding compute
  length-compute zero i vs e = ap length (sym (returned-inj e))
  length-compute (suc n) i vs e =
      let (v, ws, ev, ew, es) = go_on_returned (work i) (compute n (i + 1)) vs e in
      omega (arith, ap length es, length-compute n (i + 1) ws ew)

  pub Caught-cases :
      {U : Type ℓ} (c : Caught U T)
      → ((u : U) × (c ≡ returned u)) ⊎ ((p : Payload T) × (c ≡ unwound p))
  Caught-cases (returned u) = inl (u, refl)
  Caught-cases (unwound p) = inr (p, refl)

  -- A chunk within a batch that returned returns; one that unwound has an item that did.
  pub compute_returned :
      (n i : ℕ)
      → ((k : ℕ) → k < n → (v : V) × (work (i + k) ≡ returned v))
      → (vs : List V) × (compute n i ≡ returned vs)
  unfolding compute
  compute_returned zero i h = ([], refl)
  compute_returned (suc n) i h =
      let (v, ev) = h 0 (omega arith) in
      let (vs, es) =
        compute_returned n (i + 1)
          (λ k l. let (u, eu) = h (suc k) (omega arith) in (u, ap work (omega arith) ∙ eu)) in
      (
        v ∷ vs,
        ap (λ c. go_on c (compute n (i + 1))) (ap work (omega arith) ∙ ev)
            ∙ ap (go_on (returned v)) es,
      )

  pub compute_unwound :
      (n i : ℕ) (p : Payload T)
      → compute n i ≡ unwound p
      → (k : ℕ) × (k < n) × (work (i + k) ≡ unwound p)
  unfolding compute
  compute_unwound zero i p e = cc
  compute_unwound (suc n) i p e = elim (go_on_unwound (work i) (compute n (i + 1)) p e) [
    | inl h ↦ (0, omega arith, ap work (omega arith) ∙ h)
    | inr h ↦
        let (k, l, w) = compute_unwound n (i + 1) p h in
        (suc k, omega arith, ap work (omega arith) ∙ w)
  ]

-- The loop that writes the results of a chunk, from item `i` on.
unfoldable pub write_from {ℓ} : {V : Type ℓ} → ℕ → List V → List (Option V) → List (Option V)
write_from i [] rs = rs
write_from i (v ∷ vs) rs = write_from (i + 1) vs (set rs i (some v))

module _ {ℓ} {V : Type ℓ} where
  pub length-write_from :
      (i : ℕ) (vs : List V) (rs : List (Option V)) → length (write_from i vs rs) ≡ length rs
  unfolding write_from
  length-write_from i [] rs = refl
  length-write_from i (v ∷ vs) rs =
      length-write_from (i + 1) vs (set rs i (some v)) ∙ length-set rs i (some v)

  -- The places beside the chunk are left alone.
  pub write_from_below :
      (i j : ℕ) (vs : List V) (rs : List (Option V))
      → j < i
      → get_elem? (write_from i vs rs) j ≡ get_elem? rs j
  unfolding write_from
  write_from_below i j [] rs l = refl
  write_from_below i j (v ∷ vs) rs l =
      write_from_below (i + 1) j vs (set rs i (some v)) (omega arith)
      ∙ get_elem?-set_ne rs (some v) (λ e. omega arith)

  pub write_from_above :
      (i j : ℕ) (vs : List V) (rs : List (Option V))
      → i + length vs ≤ j
      → get_elem? (write_from i vs rs) j ≡ get_elem? rs j
  unfolding write_from
  write_from_above i j [] rs l = refl
  write_from_above i j (v ∷ vs) rs l =
      write_from_above (i + 1) j vs (set rs i (some v)) (omega arith)
      ∙ get_elem?-set_ne rs (some v) (λ e. omega arith)

  pub write_from_at :
      (i k : ℕ) (v : V) (vs : List V) (rs : List (Option V))
      → get_elem? vs k ≡ some v
      → i + length vs ≤ length rs
      → get_elem? (write_from i vs rs) (i + k) ≡ some (some v)
  unfolding write_from
  write_from_at i k v [] rs e l = cc
  write_from_at i zero v (u ∷ vs) rs e l =
      ap (get_elem? (write_from (i + 1) vs (set rs i (some u)))) (omega arith)
      ∙ (write_from_below (i + 1) i vs (set rs i (some u)) (omega arith)
          ∙ (get_elem?-set_self rs i (some u) (omega arith) ∙ ap some e))
  write_from_at i (suc k) v (u ∷ vs) rs e l =
      ap (get_elem? (write_from (i + 1) vs (set rs i (some u)))) (omega arith)
      ∙ write_from_at (i + 1) k v vs (set rs i (some u)) e (omega (arith, length-set rs i (some u)))
