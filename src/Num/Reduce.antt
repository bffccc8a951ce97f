-- ===== src/Num/Reduce.antt =====
-- crates/det-num/src/reduce.rs: sums of floats in eight lanes. The floats are any type with a zero,
-- an addition and a multiplication; no law is asked of them.
pub mod Lanes
use detllm.Base.{
  ℕ, zero, suc, ◌+◌, bit_and, List, [], ◌∷◌, ◌==◌, if◌then◌else◌, length, Outcome, ok, panic,
}

pub record Float (F : Type 0) : Type 0 where
  pub nought : F
  pub add : F → F → F
  pub mul : F → F → F

module _ {F : Type 0} (float : Float F) where
  -- `[f32; 8]`, by its indices.
  abbrev pub Acc : Type 0
  Acc = ℕ → F

  -- `acc[i & 7] += x`.
  unfoldable pub add_to_lane : ℕ → F → Acc → Acc
  add_to_lane i x acc j = if j == bit_and i 7 then float.add (acc j) x else acc j

  unfoldable pub finish_8lane : Acc → F
  finish_8lane acc =
      float.add (float.add (float.add (acc 0) (acc 1)) (float.add (acc 2) (acc 3)))
        (float.add (float.add (acc 4) (acc 5)) (float.add (acc 6) (acc 7)))

  -- The loops from the index `i` on, over the rest of the slices.
  unfoldable pub dot_from : ℕ → List F → List F → Acc → Acc
  dot_from i (x ∷ xs) (y ∷ ys) acc = dot_from (suc i) xs ys (add_to_lane i (float.mul x y) acc)
  dot_from i _ _ acc = acc

  unfoldable pub sum_from : ℕ → List F → Acc → Acc
  sum_from i [] acc = acc
  sum_from i (x ∷ xs) acc = sum_from (suc i) xs (add_to_lane i x acc)

  unfoldable pub sum_squares_from : ℕ → List F → Acc → Acc
  sum_squares_from i [] acc = acc
  sum_squares_from i (x ∷ xs) acc = sum_squares_from (suc i) xs (add_to_lane i (float.mul x x) acc)

  -- `assert_eq!` panics on slices of different lengths.
  unfoldable pub dot_f32_ref : List F → List F → Outcome ⊥ F
  dot_f32_ref x y =
      if length x == length y then ok (finish_8lane (dot_from 0 x y (λ j. float.nought))) else panic

  unfoldable pub sum_f32_ref : List F → F
  sum_f32_ref x = finish_8lane (sum_from 0 x (λ j. float.nought))

  unfoldable pub sum_squares_f32_ref : List F → F
  sum_squares_f32_ref x = finish_8lane (sum_squares_from 0 x (λ j. float.nought))
