-- ===== src/Timer/Examples.antt =====
-- A driver with three sleeps, and the theorems at it.
use hypertile.Base.{ℕ, ◌≡◌, refl, true, false, List, [], ◌∷◌, ◌++◌, All, arith}
use hypertile.Registry.Defs.{contains}
use hypertile.Timer.Driver.{TimerDriver, register, new_driver, push, first}
use hypertile.Timer.Sleep.{Sleep, poll, new_sleep, ensure_registered}
use hypertile.Timer.Polled.{IsOther, woken, poll-woken}
use hypertile.Timer.Reach.{
  Op, make, polling, dropping, ticking, run, apply, run-new_driver-IsOrdered,
}

abbrev sleeper : ℕ → ℕ → Sleep
sleeper deadline slot = record { deadline = deadline; waker_slot = slot; registered = false }

-- The sleeps 0, 1 and 2 end at 900000, 300000 and 600000.
abbrev calls : List Op
calls =
    make 0 900000
    ∷ make 0 300000
    ∷ make 0 600000
    ∷ polling 0 70 (sleeper 900000 0)
    ∷ polling 0 71 (sleeper 300000 1)
    ∷ []

abbrev waiting : TimerDriver
waiting = run calls new_driver

-- A round before the deadline, and other sleeps that are made, polled and dropped.
abbrev meanwhile : List Op
meanwhile =
    ticking 200
    ∷ make 300 400000
    ∷ polling 400 73 (sleeper 400300 3)
    ∷ ticking 350000
    ∷ dropping (sleeper 900000 0)
    ∷ []

meanwhile_others : All (IsOther 2) meanwhile
meanwhile_others = (tt, (tt, ((λ e. omega arith), (tt, ((λ e. omega arith), tt)))))

poll-woken_example :
    let p = poll 100 72 (sleeper 600000 2) waiting in
    (p.ready ≡ false)
    × (p.sleep.registered ≡ true)
    × (contains (woken (meanwhile ++ (ticking 700000 ∷ [])) p.driver) 72 ≡ true)
unfolding run apply new_sleep poll ensure_registered register new_driver push first
poll-woken_example =
    poll-woken 100 700000 72 (sleeper 600000 2) waiting meanwhile (run-new_driver-IsOrdered calls)
      refl (omega arith) refl (omega arith) meanwhile_others (omega arith)
