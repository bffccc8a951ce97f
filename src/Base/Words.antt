-- ===== src/Base/Words.antt =====
-- Machine words as native numbers: what the operators of Rust do at 64 bits.
use Prim.Native.Nat.{ℕ, ◌+◌, ◌-◌, ◌*◌, ◌/◌, ◌%◌, ◌^◌}
use detllm.Base.Outcomes.{Outcome, ok, panic}
use detllm.Base.Tests.{ltb, if◌then◌else◌}
use mathlib.Core.Option.{Option, none, some}

abbrev pub u64_mod : ℕ
u64_mod = 2 ^ 64

-- `a.wrapping_add(b)`, `a.wrapping_sub(b)`, `a.wrapping_mul(b)`, `a.wrapping_neg()`.
abbrev pub wrapping_add : ℕ → ℕ → ℕ
wrapping_add a b = (a + b) % 2 ^ 64

abbrev pub wrapping_sub : ℕ → ℕ → ℕ
wrapping_sub a b = (a + 2 ^ 64 - b) % 2 ^ 64

abbrev pub wrapping_mul : ℕ → ℕ → ℕ
wrapping_mul a b = a * b % 2 ^ 64

abbrev pub wrapping_neg : ℕ → ℕ
wrapping_neg a = (2 ^ 64 - a) % 2 ^ 64

-- `a << k` loses the bits that leave the word.
abbrev pub shl64 : ℕ → ℕ → ℕ
shl64 a k = a * 2 ^ k % 2 ^ 64

abbrev pub shr64 : ℕ → ℕ → ℕ
shr64 a k = a / 2 ^ k

-- `a.checked_add(b)` and `a.checked_mul(b)`.
abbrev pub checked_add : ℕ → ℕ → Option ℕ
checked_add a b = if ltb (a + b) (2 ^ 64) then some (a + b) else none

abbrev pub checked_mul : ℕ → ℕ → Option ℕ
checked_mul a b = if ltb (a * b) (2 ^ 64) then some (a * b) else none

-- `a.saturating_add(b)`.
abbrev pub saturating_add : ℕ → ℕ → ℕ
saturating_add a b = if ltb (a + b) (2 ^ 64) then a + b else 2 ^ 64 - 1

-- `a + b` and `a * b`, which panic where the result does not fit (overflow checks on).
abbrev pub add64 {ℓ} : {E : Type ℓ} → ℕ → ℕ → Outcome E ℕ
add64 a b = if ltb (a + b) (2 ^ 64) then ok (a + b) else panic

abbrev pub mul64 {ℓ} : {E : Type ℓ} → ℕ → ℕ → Outcome E ℕ
mul64 a b = if ltb (a * b) (2 ^ 64) then ok (a * b) else panic
