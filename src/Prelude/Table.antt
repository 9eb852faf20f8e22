-- ===== src/Prelude/Table.antt =====
-- Facts about bytes that are checked by evaluating every case.
use Prim.Native.Nat.{ℕ, zero, suc, ◌<◌}
use mathlib.Core.Path.{◌≡◌}
use mathlib.Core.Bool.{Bool, true, ◌&&◌}
use native.Mathlib.Omega.{arith}

-- The test holds of every number under the bound.
unfoldable pub every : (ℕ → Bool) → ℕ → Bool
every test zero = true
every test (suc bound) = every test bound && test bound

module _ (test : ℕ → Bool) where
  pub every_lem : (bound : ℕ) → every test bound ≡ true → (i : ℕ) → i < bound → test i ≡ true
  unfolding every
  every_lem zero passed i lt = elim lt [ ]
  every_lem (suc bound) passed i lt =
      ground (arith, λ (p : every test bound ≡ true) (q : i < bound). every_lem bound p i q)
