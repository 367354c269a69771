-- ===== src/Task/Invariant.antt =====
-- hypertile-core/src/task.rs: the invariant of a cell under any threads, and that steps keep it.
use hypertile.Base.{ℕ, refl, sym, subst, List, set, total-replicate, arith}
use hypertile.Task.Cell.{Shared, resting, Event}
use hypertile.Task.Methods.{new}
use hypertile.Task.System.{System, start, run, run_inv, Advanced}
use hypertile.Task.Tally.{Tally, tally, cancels, tally-Shift}
use hypertile.Task.Ownership.{Ownership, step-Ownership}
use hypertile.Task.Publication.{Publication, step-Publication}
use hypertile.Task.Agreement.{Agrees, start-Agrees, step-Agrees}

pub record Inv {F T P W : Type 0} (s : Shared F T P W) (t : Tally) : Type 0 where
  pub ownership : Ownership s t
  pub publication : Publication s t
  pub agreement : Agrees s.published s.result s.joined t.cancel

module _ {F T P W : Type 0} where
  abbrev pub IsSafe : System F T P W → Type 0
  IsSafe sys = Inv sys.shared (tally sys.threads)

  pub start-IsSafe : (f : F) (n : ℕ) → IsSafe (start f n)
  unfolding start new
  start-IsSafe f n = record {
    ownership = grind (arith, total-replicate);
    publication = grind (arith, total-replicate);
    agreement = rw (total-replicate cancels n resting refl) (start-Agrees T P);
  }

  pub advance-IsSafe :
      (i : ℕ) (e : Event F T P W) (sys sys' : System F T P W)
      → Advanced i e sys sys'
      → IsSafe sys
      → IsSafe sys'
  advance-IsSafe i e sys sys' a v = subst (λ ts. Inv sys'.shared (tally ts)) (sym a.there) kept
    where
      open a use {from, to, here, moved}
      open v.ownership use {regular}

      kept : Inv sys'.shared (tally (set sys.threads i to))
      kept = record {
        ownership =
            step-Ownership e from to moved (tally-Shift sys.threads i from to here) v.ownership;
        publication =
            step-Publication e from to moved (tally-Shift sys.threads i from to here) regular
              v.publication;
        agreement =
            step-Agrees e from to moved (tally-Shift sys.threads i from to here) regular
              v.publication v.agreement;
      }

  -- Every schedule of every number of threads keeps it.
  pub run-IsSafe : (f : F) (n : ℕ) (es : List (ℕ × Event F T P W)) → IsSafe (run (start f n) es)
  run-IsSafe f n es = run_inv IsSafe advance-IsSafe (start f n) es (start-IsSafe f n)
