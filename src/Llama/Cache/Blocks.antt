-- ===== src/Llama/Cache/Blocks.antt =====
-- A slice of a vector after a part of it has been written.
use detllm.Base.{
  ℕ, ◌+◌, ◌-◌, ◌≤◌, ◌≡◌, ◌∙◌, sym, ap, arith, List, ◌++◌, append_assoc, length, length-append, take,
  drop, drop-append_of_le, take-append_of_le, take-append-drop, length-drop, length-take_of_le,
  drop-drop, drop-length-append, slice, slice-append, copy_at,
}

-- The part in front of a written one, and the part behind it.
copy_at_split :
    (at : ℕ) (ys xs : List ℕ) → copy_at at ys xs ≡ (take at xs ++ ys) ++ drop (at + length ys) xs
unfolding copy_at
copy_at_split at ys xs = sym (append_assoc (take at xs) ys (drop (at + length ys) xs))

pub length-copy_at :
    (at : ℕ) (ys xs : List ℕ) → at + length ys ≤ length xs → length (copy_at at ys xs) ≡ length xs
length-copy_at at ys xs h =
    ap length (copy_at_split at ys xs)
    ∙ omega (
      arith,
      length-append (take at xs ++ ys) (drop (at + length ys) xs),
      length-append (take at xs) ys,
      length-take_of_le at xs (omega arith),
      length-drop (at + length ys) xs,
    )

pub slice-copy_at :
    (at to : ℕ) (ys xs : List ℕ)
    → at + length ys ≡ to
    → to ≤ length xs
    → slice at to (copy_at at ys xs) ≡ ys
slice-copy_at at to ys xs e h =
    ap (slice at to) (copy_at_split at ys xs)
    ∙ slice-append at to (take at xs) ys _ (length-take_of_le at xs (omega arith)) e

pub slice_front :
    (from to : ℕ) (xs ys : List ℕ)
    → from ≤ to
    → to ≤ length xs
    → slice from to (xs ++ ys) ≡ slice from to xs
slice_front from to xs ys le h =
    ap (take (to - from)) (drop-append_of_le from xs ys (omega arith))
    ∙ take-append_of_le (to - from) (drop from xs) ys (omega (arith, length-drop from xs))

pub slice-copy_at_before :
    (from to at : ℕ) (ys xs : List ℕ)
    → from ≤ to
    → to ≤ at
    → at + length ys ≤ length xs
    → slice from to (copy_at at ys xs) ≡ slice from to xs
slice-copy_at_before from to at ys xs le before h =
    let inside : to ≤ length (take at xs) = omega (arith, length-take_of_le at xs (omega arith)) in
    ap (slice from to) (copy_at_split at ys xs ∙ append_assoc (take at xs) ys _)
    ∙ slice_front from to (take at xs) _ le inside
    ∙ sym (slice_front from to (take at xs) (drop at xs) le inside)
    ∙ ap (slice from to) (take-append-drop at xs)

pub slice-copy_at_behind :
    (from to at : ℕ) (ys xs : List ℕ)
    → at + length ys ≤ from
    → at + length ys ≤ length xs
    → slice from to (copy_at at ys xs) ≡ slice from to xs
slice-copy_at_behind from to at ys xs behind h =
    let end = at + length ys in
    let split : from ≡ end + (from - end) = omega arith in
    let front : length (take at xs ++ ys) ≡ end =
      omega (arith, length-append (take at xs) ys, length-take_of_le at xs (omega arith)) in
    let rest : drop end (copy_at at ys xs) ≡ drop end xs =
      ap (drop end) (copy_at_split at ys xs)
      ∙ drop-length-append end (take at xs ++ ys) (drop end xs) front in
    ap (take (to - from)) (
      ap (λ n. drop n (copy_at at ys xs)) split
      ∙ drop-drop end (from - end) (copy_at at ys xs)
      ∙ ap (drop (from - end)) rest
      ∙ sym (drop-drop end (from - end) xs)
      ∙ ap (λ n. drop n xs) (sym split))

slice_front_take :
    (a b n : ℕ) (ys : List ℕ) → a ≤ b → b ≤ n → n ≤ length ys → slice a b (take n ys) ≡ slice a b ys
slice_front_take a b n ys le inside h =
    sym (slice_front a b (take n ys) (drop n ys) le (omega (arith, length-take_of_le n ys h)))
    ∙ ap (slice a b) (take-append-drop n ys)

-- A slice of a slice.
pub slice-slice :
    (a b from to : ℕ) (xs : List ℕ)
    → a ≤ b
    → b ≤ to - from
    → to ≤ length xs
    → slice a b (slice from to xs) ≡ slice (from + a) (from + b) xs
slice-slice a b from to xs le inside h =
    let ys = drop from xs in
    let width : from + b - (from + a) ≡ b - a = omega arith in
    slice_front_take a b (to - from) ys le inside (omega (arith, length-drop from xs))
    ∙ ap (take (b - a)) (sym (drop-drop from a xs))
    ∙ ap (λ n. take n (drop (from + a) xs)) (sym width)
