-- ===== src/Common/Words.antt =====
-- Checked arithmetic on `u64`. A value is a number below 2 ^ 64, and `usize` is `u64`, as on the
-- 64-bit targets of the program.
use Prim.Native.Nat.{ℕ, ◌+◌, ◌-◌, ◌*◌, ◌≤◌, ◌<◌}
use mathlib.Core.Path.{◌≡◌}
use mathlib.Core.Option.{Option, none, some}
use native.Mathlib.Omega.{arith}
use life_sub.Common.Tests.{ltb, leb, if◌then◌else◌}

abbrev pub u64_mod : ℕ
u64_mod = 18446744073709551616

-- `checked_add`, `checked_mul` and `checked_sub`.
unfoldable pub checked_add : ℕ → ℕ → Option ℕ
checked_add a b = if ltb (a + b) u64_mod then some (a + b) else none

unfoldable pub checked_mul : ℕ → ℕ → Option ℕ
checked_mul a b = if ltb (a * b) u64_mod then some (a * b) else none

unfoldable pub checked_sub : ℕ → ℕ → Option ℕ
checked_sub a b = if leb b a then some (a - b) else none

-- `u64::try_from` and `usize::try_from`.
unfoldable pub try_from : ℕ → Option ℕ
try_from a = if ltb a u64_mod then some a else none

pub checked_add-eq-some : (a b c : ℕ) → checked_add a b ≡ some c → c ≡ a + b
unfolding checked_add
checked_add-eq-some a b c h = ground arith

pub checked_mul-eq-some : (a b c : ℕ) → checked_mul a b ≡ some c → c ≡ a * b
unfolding checked_mul
checked_mul-eq-some a b c h = ground arith

pub checked_add_ok : (a b : ℕ) → a + b < u64_mod → checked_add a b ≡ some (a + b)
unfolding checked_add
checked_add_ok a b h = ground arith

pub checked_mul_ok : (a b : ℕ) → a * b < u64_mod → checked_mul a b ≡ some (a * b)
unfolding checked_mul
checked_mul_ok a b h = ground arith

pub checked_sub_ok : (a b : ℕ) → b ≤ a → checked_sub a b ≡ some (a - b)
unfolding checked_sub
checked_sub_ok a b h = ground arith

pub try_from_ok : (a : ℕ) → a < u64_mod → try_from a ≡ some a
unfolding try_from
try_from_ok a h = ground arith

pub try_from-eq-some : (a b : ℕ) → try_from a ≡ some b → b ≡ a
unfolding try_from
try_from-eq-some a b h = ground arith
