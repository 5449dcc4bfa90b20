-- ===== src/Tests/Pricing.antt =====
-- The arithmetic on concrete numbers.
use percolator_stake.Prelude.{◌+◌, ◌*◌, ◌/◌, ◌^◌, ◌≡◌, refl, arith}
use percolator_stake.Bytes.{to_le_bytes, from_le_bytes, from_le_bytes-to_le_bytes}
use percolator_stake.Math.MulDiv.{mul_div_floor, full_product, divide}
use percolator_stake.Math.MulDiv.Limbs.{mul_div_floor-exact}

big_run :
    mul_div_floor (2 ^ 100 + 12345) (2 ^ 80 + 7) (2 ^ 81 + 9)
    ≡ (2 ^ 100 + 12345) * (2 ^ 80 + 7) / (2 ^ 81 + 9)
unfolding mul_div_floor full_product divide
big_run = refl

mul_div_floor-exact_example :
    mul_div_floor (2 ^ 100) (2 ^ 80 + 7) (2 ^ 81 + 9) ≡ 2 ^ 100 * (2 ^ 80 + 7) / (2 ^ 81 + 9)
mul_div_floor-exact_example =
    mul_div_floor-exact (2 ^ 100) (2 ^ 80 + 7) (2 ^ 81 + 9) (omega arith) (omega arith)
      (omega arith) (omega arith)

from_le_bytes-to_le_bytes_example : from_le_bytes (to_le_bytes 8 1_000_000) ≡ 1_000_000
from_le_bytes-to_le_bytes_example = from_le_bytes-to_le_bytes 8 1_000_000 (omega arith)
