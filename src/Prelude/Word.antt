-- ===== src/Prelude/Word.antt =====
-- Rust's unsigned machine integers as native numbers. An operation takes the largest value of its
-- type first: `u16_max`, `u64_max` or `u128_max`.
use Prim.Native.Nat.{ℕ, ◌+◌, ◌-◌, ◌*◌, ◌/◌, min}
use mathlib.Core.Option.{Option, none, some}
use percolator_stake.Prelude.Tests.{ltb, leb, ◌==◌, if◌then◌else◌}

abbrev pub u16_max : ℕ
u16_max = 0xffff

abbrev pub u64_max : ℕ
u64_max = 0xffff_ffff_ffff_ffff

abbrev pub u128_max : ℕ
u128_max = 0xffff_ffff_ffff_ffff_ffff_ffff_ffff_ffff

-- `a.checked_add(b)`
abbrev pub checked_add : ℕ → ℕ → ℕ → Option ℕ
checked_add top a b = if leb (a + b) top then some (a + b) else none

-- `a.checked_sub(b)`: an unsigned difference does not depend on the width.
abbrev pub checked_sub : ℕ → ℕ → Option ℕ
checked_sub a b = if leb b a then some (a - b) else none

-- `a.checked_mul(b)`
abbrev pub checked_mul : ℕ → ℕ → ℕ → Option ℕ
checked_mul top a b = if leb (a * b) top then some (a * b) else none

-- `a.checked_div(b)`
abbrev pub checked_div : ℕ → ℕ → Option ℕ
checked_div a b = if b == 0 then none else some (a / b)

-- `a.saturating_add(b)`; `a.saturating_sub(b)` is the truncated `a - b`.
abbrev pub saturating_add : ℕ → ℕ → ℕ → ℕ
saturating_add top a b = min (a + b) top

-- `if x > top { None } else { Some(x as uN) }`
abbrev pub narrow : ℕ → ℕ → Option ℕ
narrow top x = if ltb top x then none else some x
