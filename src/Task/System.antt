-- ===== src/Task/System.antt =====
-- hypertile-core/src/task.rs: any number of threads on one cell, interleaved by a schedule.
use hypertile.Base.{
  ℕ, List, [], ◌∷◌, Option, none, some, ◌≡◌, refl, get_elem?, set, replicate, arith,
}
use hypertile.Task.Cell.{Shared, Pc, resting, Event}
use hypertile.Task.Methods.{new, step}

pub record System {ℓ} (F T P W : Type ℓ) : Type ℓ where
  pub shared : Shared F T P W
  pub threads : List (Pc F T P W)

module _ {ℓ} {F T P W : Type ℓ} where
  -- A new cell, and `n` threads in none of its methods.
  unfoldable pub start : F → ℕ → System F T P W
  unfolding new
  start f n = record { shared = new f; threads = replicate n resting }

  land : ℕ → System F T P W → Option (Shared F T P W × Pc F T P W) → Option (System F T P W)
  land i sys none = none
  land i sys (some (s, p)) = some (record { shared = s; threads = set sys.threads i p })

  move : ℕ → Event F T P W → System F T P W → Option (Pc F T P W) → Option (System F T P W)
  unfolding land
  move i e sys none = none
  move i e sys (some p) = land i sys (step e p sys.shared)

  -- Thread `i` makes its next atomic access, if it can.
  unfoldable pub advance : ℕ → Event F T P W → System F T P W → Option (System F T P W)
  unfolding move step
  advance i e sys = move i e sys (get_elem? sys.threads i)

  -- What a step of the system is: a step of the thread that moves.
  pub record Advanced (i : ℕ) (e : Event F T P W) (sys sys' : System F T P W) : Type ℓ where
    pub from : Pc F T P W
    pub to : Pc F T P W
    pub here : get_elem? sys.threads i ≡ some from
    pub moved : step e from sys.shared ≡ some (sys'.shared, to)
    pub there : sys'.threads ≡ set sys.threads i to

  land-Advanced :
      (i : ℕ) (e : Event F T P W) (sys sys' : System F T P W) (p : Pc F T P W)
      (r : Option (Shared F T P W × Pc F T P W))
      → get_elem? sys.threads i ≡ some p
      → step e p sys.shared ≡ r
      → land i sys r ≡ some sys'
      → Advanced i e sys sys'
  unfolding land
  land-Advanced i e sys sys' p none here moved h = cc
  land-Advanced i e sys sys' p (some (s, q)) here moved h = record {
    from = p;
    to = q;
    here = here;
    moved = ground arith;
    there = ground arith;
  }

  move-Advanced :
      (i : ℕ) (e : Event F T P W) (sys sys' : System F T P W) (o : Option (Pc F T P W))
      → get_elem? sys.threads i ≡ o
      → move i e sys o ≡ some sys'
      → Advanced i e sys sys'
  unfolding move
  move-Advanced i e sys sys' none here h = cc
  move-Advanced i e sys sys' (some p) here h =
      land-Advanced i e sys sys' p (step e p sys.shared) here refl h

  pub advance-Advanced :
      (i : ℕ) (e : Event F T P W) (sys sys' : System F T P W)
      → advance i e sys ≡ some sys'
      → Advanced i e sys sys'
  unfolding advance
  advance-Advanced i e sys sys' h = move-Advanced i e sys sys' (get_elem? sys.threads i) refl h

  -- A schedule: which thread moves, and what the environment decides. A step that cannot be made
  -- is passed over.
  attempt : System F T P W → Option (System F T P W) → System F T P W
  attempt sys none = sys
  attempt sys (some sys') = sys'

  unfoldable pub run : System F T P W → List (ℕ × Event F T P W) → System F T P W
  unfolding advance attempt
  run sys [] = sys
  run sys ((i, e) ∷ es) = run (attempt sys (advance i e sys)) es

  -- A property that every step keeps holds after every schedule.
  pub run_inv {κ} :
      (K : System F T P W → Type κ)
      → ((i : ℕ) (e : Event F T P W) (sys sys' : System F T P W)
          → Advanced i e sys sys'
          → K sys
          → K sys')
      → (sys : System F T P W) (es : List (ℕ × Event F T P W)) → K sys
      → K (run sys es)
  unfolding run
  run_inv K keep sys [] h = h
  run_inv K keep sys ((i, e) ∷ es) h =
      run_inv K keep (attempt sys (advance i e sys)) es (kept (advance i e sys) refl)
    where
      kept : (o : Option (System F T P W)) → advance i e sys ≡ o → K (attempt sys o)
      kept none q = h
      kept (some sys') q = keep i e sys sys' (advance-Advanced i e sys sys' q) h
