-- ===== src/Timer/Sleep.antt =====
-- hypertile-core/src/timer.rs: the future `Sleep`.
use hypertile.Base.{
  ℕ, ◌+◌, ◌-◌, Bool, true, false, ◌||◌, none, some, [], ◌∷◌, ◌++◌, length, set, leb, if◌then◌else◌,
}
use hypertile.Timer.Driver.{TimerDriver, register}

pub record Sleep : Type 0 where
  pub deadline : ℕ
  pub waker_slot : ℕ
  pub registered : Bool

-- `Sleep::new` at the time `now`, with a slot of its own.
unfoldable pub new_sleep : ℕ → ℕ → TimerDriver → Sleep × TimerDriver
new_sleep now duration d = (
  record { deadline = now + duration; waker_slot = length d.slots; registered = false },
  record d { slots = d.slots ++ (none ∷ []) },
)

pub record Polled : Type 0 where
  pub ready : Bool
  pub sleep : Sleep
  pub driver : TimerDriver

-- Registers the sleep unless it is.
unfoldable pub ensure_registered : Sleep → TimerDriver → TimerDriver
ensure_registered s d = if s.registered then d else (register s.deadline s.waker_slot d).0

-- `Sleep::poll` at the time `now`; 50 microseconds are let through.
unfoldable pub poll : ℕ → ℕ → Sleep → TimerDriver → Polled
unfolding ensure_registered
poll now waker s d =
    if leb s.deadline now || leb (s.deadline - now) 50000
    then record {
      ready = true;
      sleep = s;
      driver = record d { slots = set d.slots s.waker_slot none };
    }
    else record {
      ready = false;
      sleep = record s { registered = true };
      driver = ensure_registered s (record d { slots = set d.slots s.waker_slot (some waker) });
    }

unfoldable pub drop_sleep : Sleep → TimerDriver → TimerDriver
drop_sleep s d = record d { slots = set d.slots s.waker_slot none }
