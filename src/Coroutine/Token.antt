-- ===== src/Coroutine/Token.antt =====
-- hypertile-sys/src/cancel.rs: the cancellation token, one flag.
use hypertile.Base.{Bool, true, false, if◌then◌else◌}
use hypertile.Python.Outcome.{PyResult, ok, err}
use hypertile.Coroutine.Cell.{Failure, task_cancelled}

-- `CancellationToken`: `new`, `cancel`, `is_cancelled`, `throw_if_cancelled`.
abbrev pub new_token : Bool
new_token = false

unfoldable pub cancel_token : Bool → Bool
cancel_token t = true

abbrev pub is_cancelled : Bool → Bool
is_cancelled t = t

unfoldable pub throw_if_cancelled : {X T : Type 0} → Bool → PyResult Unit (Failure X T)
throw_if_cancelled t = if is_cancelled t then err task_cancelled else ok tt
