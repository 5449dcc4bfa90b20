-- ===== src/Prelude/Arith.antt =====
-- Facts on division and powers that the components share.
use Prim.Native.Nat.{ℕ, zero, suc, ◌+◌, ◌*◌, ◌/◌, ◌^◌, ◌≤◌, ◌<◌}
use mathlib.Core.Path.{◌≡◌, ap}
use native.Mathlib.Nat.{pow-suc}
use native.Mathlib.Omega.{arith}

pub div_floor : (n d : ℕ) → 0 < d → ((n / d) * d ≤ n) × (n < (n / d + 1) * d)
div_floor n d h = grind arith

pub le-div : (q n d : ℕ) → 0 < d → q * d ≤ n → q ≤ n / d
le-div q n d h k = grind arith

pub two_pow_add : (i k n : ℕ) → i + k ≡ n → 2 ^ n ≡ 2 ^ i * 2 ^ k
two_pow_add zero k n e = let same : n ≡ k = omega arith in rw same (omega arith)
two_pow_add (suc i) k zero e = absurd (omega arith)
two_pow_add (suc i) k (suc n) e =
    omega
      (arith, pow-suc 2 n, ap (λ (t : ℕ). t * 2 ^ k) (pow-suc 2 i), two_pow_add i k n (omega arith))
