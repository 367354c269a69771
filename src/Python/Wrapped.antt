-- ===== src/Python/Wrapped.antt =====
-- hypertile-sys/src/lib.rs: `wrap_done_callback`. A character is its code.
use hypertile.Base.{ℕ, Bool, true, false, ◌&&◌, ◌||◌, List, [], ◌∷◌, ◌==◌, if◌then◌else◌}
use hypertile.Python.Outcome.{PyResult, ok, err}

abbrev pub starts_with : List ℕ → List ℕ → Bool
starts_with [] text = true
starts_with (c ∷ cs) [] = false
starts_with (c ∷ cs) (d ∷ text) = (c == d) && starts_with cs text

-- `str::contains`
abbrev pub contains_text : List ℕ → List ℕ → Bool
contains_text part [] = starts_with part []
contains_text part (c ∷ text) = starts_with part (c ∷ text) || contains_text part text

-- "missing" and "required positional argument"
abbrev pub missing : List ℕ
missing = 109 ∷ 105 ∷ 115 ∷ 115 ∷ 105 ∷ 110 ∷ 103 ∷ []

abbrev pub required : List ℕ
required =
    114 ∷ 101 ∷ 113 ∷ 117 ∷ 105 ∷ 114 ∷ 101 ∷ 100 ∷ 32 ∷ 112 ∷ 111 ∷ 115 ∷ 105 ∷ 116 ∷ 105 ∷ 111
    ∷ 110 ∷ 97 ∷ 108 ∷ 32 ∷ 97 ∷ 114 ∷ 103 ∷ 117 ∷ 109 ∷ 101 ∷ 110 ∷ 116 ∷ []

-- The user's callback: what a call without arguments and one with the task do to the state `S` of the
-- program, and what an exception is.
pub record Callback (S X : Type 0) : Type 0 where
  pub call0 : S → S × PyResult Unit X
  pub call1 : S → S × PyResult Unit X
  pub is_type_error : X → Bool
  pub message : X → List ℕ

module _ {S X : Type 0} where
  unfoldable pub asks_argument : Callback S X → X → Bool
  asks_argument cb e =
      cb.is_type_error e
      && (contains_text missing (cb.message e) && contains_text required (cb.message e))

  -- What follows the call without arguments, which left the state `s`.
  unfoldable pub fall_back : Callback S X → PyResult Unit X → S → S × PyResult Unit X
  unfolding asks_argument
  fall_back cb (ok u) s = (s, ok tt)
  fall_back cb (err e) s = if asks_argument cb e then cb.call1 s else (s, err e)

  -- A call of the closure that `wrap_done_callback` makes.
  unfoldable pub call_wrapped : Callback S X → S → S × PyResult Unit X
  unfolding fall_back
  call_wrapped cb s = let (s', r) = cb.call0 s in fall_back cb r s'
