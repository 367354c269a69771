-- ===== src/Base/Threads.antt =====
-- The parkers of the crate crossbeam-utils, which blocking calls use.
use mathlib.Core.Path.{◌≡◌, refl}
use mathlib.Core.Bool.{Bool, true, false}
use mathlib.Core.Option.{Option, none, some}

-- What is used of the parkers of crossbeam-utils: after an `unpark` the next `park` goes on. A `park`
-- is none while it blocks.
pub record Parker : Type 1 where
  pub Token : Type 0
  pub new : Token
  pub unpark : Token → Token
  pub park : Token → Option Token
  pub park-unpark : (t : Token) → (u : Token) × (park (unpark t) ≡ some u)

-- A parker with a token that is there or not.
abbrev pub park_flag : Bool → Option Bool
park_flag true = some false
park_flag false = none

abbrev pub parker : Parker
parker = record {
  Token = Bool;
  new = false;
  unpark = λ t. true;
  park = park_flag;
  park-unpark = λ t. (false, refl);
}
