-- ===== src/Base/Words.antt =====
-- `u64` and `usize` arithmetic of a release build, where `+` and `-` wrap at 2 ^ 64.
use Prim.Native.Nat.{ℕ, ◌+◌, ◌-◌, ◌%◌, ◌^◌, ◌<◌, ◌≤◌}
use mathlib.Core.Path.{◌≡◌}
use native.Mathlib.Omega.{arith}

abbrev pub IsU32 : ℕ → Type 0
IsU32 v = v < 2 ^ 32

abbrev pub IsU64 : ℕ → Type 0
IsU64 v = v < 2 ^ 64

unfoldable pub add_u64 : ℕ → ℕ → ℕ
add_u64 a b = (a + b) % 2 ^ 64

unfoldable pub sub_u64 : ℕ → ℕ → ℕ
sub_u64 a b = (a + 2 ^ 64 - b) % 2 ^ 64

-- `as u32`
unfoldable pub as_u32 : ℕ → ℕ
as_u32 a = a % 2 ^ 32

pub add_u64-fits : (a b : ℕ) → a + b < 2 ^ 64 → add_u64 a b ≡ a + b
unfolding add_u64
add_u64-fits a b h = omega arith

pub sub_u64-fits : (a b : ℕ) → b ≤ a → a < 2 ^ 64 → sub_u64 a b ≡ a - b
unfolding sub_u64
sub_u64-fits a b h k = omega arith

pub as_u32-fits : (a : ℕ) → IsU32 a → as_u32 a ≡ a
unfolding as_u32
as_u32-fits a h = omega arith
