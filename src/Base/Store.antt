-- ===== src/Base/Store.antt =====
-- A family of things by number, with one of them replaced.
use Prim.Native.Nat.{ℕ}
use mathlib.Core.Path.{◌≡◌}
use mathlib.Core.Logic.{◌≢◌}
use native.Mathlib.Omega.{arith}
use hypertile.Base.Tests.{◌==◌, if◌then◌else◌}

-- Number `k` becomes `w`.
unfoldable pub place : {A : Type 0} → ℕ → A → (ℕ → A) → ℕ → A
place k w ts j = if j == k then w else ts j

pub place_self : {A : Type 0} (k : ℕ) (w : A) (ts : ℕ → A) → place k w ts k ≡ w
unfolding place
place_self k w ts = ground arith

pub place_other : {A : Type 0} (k j : ℕ) (w : A) (ts : ℕ → A) → j ≢ k → place k w ts j ≡ ts j
unfolding place
place_other k j w ts n = ground arith
