-- ===== src/Coder/Range.antt =====
-- crates/det-coder/src/range.rs: the carry-free range coder on 64-bit words.
-- An operation takes the encoder or decoder and returns the next one. A Rust method that fails
-- before it writes to `self` leaves the caller with the state that it had; where `advance` meets
-- the end of its input, the half-moved decoder is given up, as all callers do.
pub mod Encoder
pub mod Decoder
pub mod Interval
pub mod Renorm
pub mod Window
pub mod Follow
pub mod Narrow
pub mod Symbol
pub mod Ends
pub mod Decode
pub mod Snapshot
use detllm.Base.{
  ℕ, ◌+◌, ◌-◌, ◌^◌, bit_and, bit_xor, Bool, true, false, not, ◌||◌, ltb, leb, ◌==◌, if◌then◌else◌,
  Outcome, ◌>>=◌, guard, ok_or, wrapping_add, wrapping_neg, checked_add,
}

abbrev pub top : ℕ
top = 2 ^ 56

abbrev pub bottom : ℕ
bottom = 2 ^ 48

pub data RangeError : Type 0 where
  invalid_frequency unexpected_eof : RangeError

unfoldable pub validate : ℕ → ℕ → ℕ → Outcome RangeError (Unit {0})
validate cum freq total = do
  end ← ok_or (checked_add cum freq) invalid_frequency
  guard (not (freq == 0 || total == 0 || leb (2 ^ 31) total || ltb total end)) invalid_frequency

-- The answer, and the range that the Rust function writes through its reference.
unfoldable pub normalize_step : ℕ → ℕ → Bool × ℕ
normalize_step low range =
    if ltb (bit_xor low (wrapping_add low range)) top
    then (true, range)
    else if ltb range bottom
    then (true, bit_and (wrapping_neg low) (bottom - 1))
    else (false, range)

-- The rounds of fuel for the loop of both `renorm` methods.
abbrev pub renorm_fuel : ℕ
renorm_fuel = 16
