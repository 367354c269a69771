-- ===== src/Coroutine/Examples.antt =====
-- A coroutine that awaits one future and returns its result, and the theorems at it.
use hypertile.Base.{ℕ, suc, ◌≡◌, refl, true, false, none, some, List, [], ◌∷◌, if◌then◌else◌, ◌==◌}
use hypertile.Coroutine.Cell.{Yielded, yielded, stopped, raised, Interpreter, future}
use hypertile.Coroutine.Run.{
  spawn_coroutine, wake_value, Event, run_handle, call_hook, cancel, step, run,
}
use hypertile.Coroutine.Drive.{Follows, spawn_coroutine-Follows}

abbrev a_future : Yielded ℕ
a_future = record {
  has_add_done_callback = some true;
  closure_made = true;
  callback_added = true;
  is_none = false;
  type_name = some 1;
}

-- At its start the coroutine yields a future, and then it returns what it is sent.
abbrev python : Interpreter ℕ ℕ ℕ ℕ
python = record {
  send = λ v c. if c == 0 then (yielded a_future, 1) else (stopped (some v), 2);
  throw = λ x c. (raised x, 2);
  cancelled = 103;
  py_none = 100;
  unknown = 101;
  cannot_drive = suc;
  panic_text = 102;
}

abbrev callback : ℕ
callback = 7

abbrev the_end : List (Event ℕ ℕ)
the_end = run_handle ∷ call_hook (future (some none) (some 5)) ∷ run_handle ∷ []

the_end_called :
    (run python the_end (spawn_coroutine {K = ℕ} 0 (some callback) none)).called ≡ (7, 5, none) ∷ []
unfolding run step spawn_coroutine wake_value
the_end_called = refl

spawn_coroutine-Follows_example :
    Follows python
      (some callback)
      0
      (run python (run_handle ∷ cancel ∷ the_end) (spawn_coroutine 0 (some callback) none))
spawn_coroutine-Follows_example =
    spawn_coroutine-Follows python (some callback) 0 none (run_handle ∷ cancel ∷ the_end)
