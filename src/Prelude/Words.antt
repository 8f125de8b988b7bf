-- ===== src/Prelude/Words.antt =====
-- Machine words: the bounds of the integer types, and their checked operations.
use Prim.Native.Nat.{ℕ, ◌+◌, ◌-◌, ◌*◌, ◌^◌, min}
use mathlib.Core.Option.{Option, none, some}
use nova_enclave_capsule.Prelude.Tests.{ltb, if◌then◌else◌}

-- A signed number: `negsuc n` is -(n + 1).
pub data ℤ : Type 0 where
  pos negsuc : ℕ → ℤ

abbrev pub u16_mod : ℕ
u16_mod = 2 ^ 16

abbrev pub u32_mod : ℕ
u32_mod = 2 ^ 32

abbrev pub u64_mod : ℕ
u64_mod = 2 ^ 64

-- The value, if a type with `modulus` many values holds it (`try_from`).
abbrev pub checked : ℕ → ℕ → Option ℕ
checked modulus n = if ltb n modulus then some n else none

abbrev pub checked_add : ℕ → ℕ → ℕ → Option ℕ
checked_add modulus a b = checked modulus (a + b)

abbrev pub checked_mul : ℕ → ℕ → ℕ → Option ℕ
checked_mul modulus a b = checked modulus (a * b)

-- `saturating_add` and `saturating_mul`
abbrev pub saturating_add : ℕ → ℕ → ℕ → ℕ
saturating_add modulus a b = min (a + b) (modulus - 1)

abbrev pub saturating_mul : ℕ → ℕ → ℕ → ℕ
saturating_mul modulus a b = min (a * b) (modulus - 1)
