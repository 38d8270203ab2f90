-- ===== src/Base/Word.antt =====
-- Machine integers as native numbers. A `u16` sum or difference wraps, as it does in a release
-- build; an `i32` is an integer, and its sum goes through the 32-bit pattern.
use Prim.Native.Nat.{ℕ, ◌+◌, ◌-◌, ◌%◌, ◌^◌, ◌≤◌, ◌<◌}
use mathlib.Core.Path.{◌≡◌}
use native.Mathlib.Omega.{arith}
use rustmux.Base.Tests.{ltb, if◌then◌else◌}

abbrev pub u16_mod : ℕ
u16_mod = 65536

unfoldable pub add16 : ℕ → ℕ → ℕ
add16 a b = (a + b) % u16_mod

unfoldable pub sub16 : ℕ → ℕ → ℕ
sub16 a b = (a + u16_mod - b) % u16_mod

-- `x as u16`
unfoldable pub to_u16 : ℕ → ℕ
to_u16 a = a % u16_mod

pub add16-eq : (a b : ℕ) → a + b < u16_mod → add16 a b ≡ a + b
unfolding add16
add16-eq a b h = omega arith

pub sub16-eq : (a b : ℕ) → b ≤ a → a < u16_mod → sub16 a b ≡ a - b
unfolding sub16
sub16-eq a b h k = omega arith

pub to_u16-eq : (a : ℕ) → a < u16_mod → to_u16 a ≡ a
unfolding to_u16
to_u16-eq a h = omega arith

-- `negsuc n` is -(n + 1).
pub data ℤ : Type 0 where
  pos : ℕ → ℤ
  negsuc : ℕ → ℤ

abbrev u32_mod : ℕ
u32_mod = 2 ^ 32

-- The two's complement pattern of an `i32`, and the integer of a pattern.
abbrev pub to_u32 : ℤ → ℕ
to_u32 (pos n) = n % u32_mod
to_u32 (negsuc n) = u32_mod - 1 - n % u32_mod

abbrev pub from_u32 : ℕ → ℤ
from_u32 w = if ltb w (2 ^ 31) then pos w else negsuc (u32_mod - 1 - w)

unfoldable pub add_i32 : ℤ → ℤ → ℤ
add_i32 a b = from_u32 ((to_u32 a + to_u32 b) % u32_mod)

-- `Ord::clamp` where `lo ≤ hi`. Rust panics otherwise: see `clamp_checked` of `Layout/Checked`.
abbrev pub clamp : ℕ → ℕ → ℕ → ℕ
clamp x lo hi = if ltb x lo then lo else if ltb hi x then hi else x

-- `clamp` of an `i32` between two bounds that come from `u16` values.
abbrev pub clamp_i32 : ℤ → ℕ → ℕ → ℕ
clamp_i32 (pos n) lo hi = clamp n lo hi
clamp_i32 (negsuc n) lo hi = lo
