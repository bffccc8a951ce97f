-- ===== src/Coder/Range/Encoder.antt =====
-- `RangeEncoder` of crates/det-coder/src/range.rs.
use detllm.Base.{
  ℕ, zero, suc, ◌-◌, ◌/◌, ◌^◌, List, [], ◌∷◌, ◌++◌, ◌==◌, if◌then◌else◌, Outcome, ok, err, stuck,
  ◌>>=◌, ◌>>◌, wrapping_add, wrapping_mul, shl64, shr64, mul64,
}
use detllm.Coder.Range.{RangeError, invalid_frequency, validate, normalize_step, renorm_fuel}

pub record RangeEncoder : Type 0 where
  pub low : ℕ
  pub range : ℕ
  pub out : List ℕ

pub record RangeEncoderSnapshot : Type 0 where
  pub low : ℕ
  pub range : ℕ
  pub out : List ℕ

unfoldable pub new : RangeEncoder
new = record { low = 0; range = 2 ^ 64 - 1; out = [] }

unfoldable pub from_snapshot : RangeEncoderSnapshot → Outcome RangeError RangeEncoder
from_snapshot s =
    if s.range == 0
    then err invalid_frequency
    else ok (record { low = s.low; range = s.range; out = s.out })

unfoldable pub snapshot : RangeEncoder → RangeEncoderSnapshot
snapshot e = record { low = e.low; range = e.range; out = e.out }

-- The body of the loop in `renorm`, with the range that `normalize_step` left.
unfoldable pub shift_out : RangeEncoder → ℕ → RangeEncoder
shift_out e range = record {
  low = shl64 e.low 8;
  range = shl64 range 8;
  out = e.out ++ (shr64 e.low 56 ∷ []);
}

unfoldable pub renorm : ℕ → RangeEncoder → Outcome RangeError RangeEncoder
unfolding shift_out
renorm zero e = stuck
renorm (suc fuel) e =
    let (again, range) = normalize_step e.low e.range in
    let rest = renorm fuel (shift_out e range) in
    if again then rest else ok (record e { range = range })

unfoldable pub encode : RangeEncoder → ℕ → ℕ → ℕ → Outcome RangeError RangeEncoder
encode e cum freq total = do
  validate cum freq total
  let range = e.range / total
  let low = wrapping_add e.low (wrapping_mul range cum)
  range ← mul64 range freq
  renorm renorm_fuel (record e { low = low; range = range })

-- The `for` loop of `finish`, on the rounds left.
unfoldable pub flush : ℕ → ℕ → List ℕ → List ℕ
flush zero low out = out
flush (suc n) low out = flush n (shl64 low 8) (out ++ (shr64 low 56 ∷ []))

unfoldable pub finish : RangeEncoder → List ℕ
unfolding flush
finish e = flush 8 e.low e.out
