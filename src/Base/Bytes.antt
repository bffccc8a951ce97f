-- ===== src/Base/Bytes.antt =====
-- Bytes and slices: `to_le_bytes`, `from_le_bytes`, a range of a slice, `copy_from_slice`.
use Prim.Native.Nat.{ℕ, zero, suc, ◌+◌, ◌-◌, ◌*◌, ◌/◌, ◌%◌, ◌^◌, ◌≤◌, ◌<◌}
use mathlib.Core.Path.{◌≡◌, refl, sym, ap}
use mathlib.Core.List.{List, [], ◌∷◌, ◌++◌, append_assoc}
use native.Mathlib.Nat.{pow-suc, zero-add}
use Prim.Native.Nat.add
use native.Mathlib.Omega.{arith}
use mathlib.Core.Bool.{Bool, true, false, ◌&&◌}
use mathlib.Core.Logic.{◌↔◌}
use detllm.Base.Tests.{◌==◌}
use detllm.Base.Lists.{
  length, take, drop, All, take-append, drop-append, length-take_of_le, length-drop, All-take,
  All-drop,
}

abbrev pub IsByte : ℕ → Type 0
IsByte b = b < 256

unfoldable pub to_le_bytes : ℕ → ℕ → List ℕ
to_le_bytes zero v = []
to_le_bytes (suc n) v = v % 256 ∷ to_le_bytes n (v / 256)

unfoldable pub from_le_bytes : List ℕ → ℕ
from_le_bytes [] = 0
from_le_bytes (b ∷ bytes) = b + from_le_bytes bytes * 256

pub from-to_le_bytes : (n v : ℕ) → v < 256 ^ n → from_le_bytes (to_le_bytes n v) ≡ v
unfolding to_le_bytes from_le_bytes
from-to_le_bytes zero v h = omega arith
from-to_le_bytes (suc n) v h =
    omega (arith, pow-suc 256 n, from-to_le_bytes n (v / 256) (omega (arith, pow-suc 256 n)))

pub to-from_le_bytes :
    (bytes : List ℕ) → All IsByte bytes → to_le_bytes (length bytes) (from_le_bytes bytes) ≡ bytes
unfolding to_le_bytes from_le_bytes
to-from_le_bytes [] h = refl
to-from_le_bytes (b ∷ bytes) h =
    let low : (b + from_le_bytes bytes * 256) % 256 ≡ b = omega (arith, h.0) in
    let high : (b + from_le_bytes bytes * 256) / 256 ≡ from_le_bytes bytes = omega (arith, h.0) in
    rw (low, high) (ap (◌∷◌ b) (to-from_le_bytes bytes h.1))

pub from_le_bytes-lt :
    (bytes : List ℕ) → All IsByte bytes → from_le_bytes bytes < 256 ^ length bytes
unfolding from_le_bytes
from_le_bytes-lt [] h = omega arith
from_le_bytes-lt (b ∷ bytes) h =
    omega (arith, h.0, pow-suc 256 (length bytes), from_le_bytes-lt bytes h.1)

pub length-to_le_bytes : (n v : ℕ) → length (to_le_bytes n v) ≡ n
unfolding to_le_bytes
length-to_le_bytes zero v = refl
length-to_le_bytes (suc n) v = ap suc (length-to_le_bytes n (v / 256))

-- `bytes[from..to]`, within the bounds.
abbrev pub slice : ℕ → ℕ → List ℕ → List ℕ
slice from to bytes = take (to - from) (drop from bytes)

-- `out[at..at + bytes.len()].copy_from_slice(bytes)`, within the bounds.
unfoldable pub copy_at : ℕ → List ℕ → List ℕ → List ℕ
copy_at at bytes out = take at out ++ (bytes ++ drop (at + length bytes) out)

pub take-length-append : (n : ℕ) (xs ys : List ℕ) → length xs ≡ n → take n (xs ++ ys) ≡ xs
take-length-append n xs ys e = rw (← e) (take-append xs ys)

pub drop-length-append : (n : ℕ) (xs ys : List ℕ) → length xs ≡ n → drop n (xs ++ ys) ≡ ys
drop-length-append n xs ys e = rw (← e) (drop-append xs ys)

pub drop-nil : (n : ℕ) → drop {A = ℕ} n [] ≡ []
drop-nil zero = refl
drop-nil (suc n) = refl

pub drop-drop : (n m : ℕ) (xs : List ℕ) → drop (n + m) xs ≡ drop m (drop n xs)
drop-drop zero m xs = rw zero-add
drop-drop (suc n) m [] = rw (drop-nil (suc n + m), drop-nil m)
drop-drop (suc n) m (x ∷ xs) = rw add.suc (drop-drop n m xs)

-- A copy behind what is already written.
pub copy_at-append :
    (at : ℕ) (bytes done blank : List ℕ)
    → length done ≡ at
    → copy_at at bytes (done ++ blank) ≡ (done ++ bytes) ++ drop (length bytes) blank
unfolding copy_at
copy_at-append at bytes done blank e =
    rw (drop-drop, take-length-append at done blank e, drop-length-append at done blank e)
      (sym (append_assoc done bytes _))

-- `==` on slices of bytes.
unfoldable pub same_bytes : List ℕ → List ℕ → Bool
same_bytes [] [] = true
same_bytes (a ∷ xs) (b ∷ ys) = a == b && same_bytes xs ys
same_bytes _ _ = false

pub same_bytes_iff : (xs ys : List ℕ) → (same_bytes xs ys ≡ true) ↔ (xs ≡ ys)
unfolding same_bytes
same_bytes_iff [] [] = ground arith
same_bytes_iff [] (y ∷ ys) = ground arith
same_bytes_iff (x ∷ xs) [] = ground arith
same_bytes_iff (x ∷ xs) (y ∷ ys) = ground (arith, same_bytes_iff xs ys)

pub copy_next :
    (at n : ℕ) (bytes done blank : List ℕ)
    → length done ≡ at
    → length bytes ≡ n
    → copy_at at bytes (done ++ blank) ≡ (done ++ bytes) ++ drop n blank
copy_next at n bytes done blank e k = rw (← k) (copy_at-append at bytes done blank e)

pub slice-append :
    (from to : ℕ) (before bytes rest : List ℕ)
    → length before ≡ from
    → from + length bytes ≡ to
    → slice from to ((before ++ bytes) ++ rest) ≡ bytes
slice-append from to before bytes rest e k =
    let width : length bytes ≡ to - from = omega arith in
    rw (append_assoc, drop-length-append from before (bytes ++ rest) e)
      (take-length-append (to - from) bytes rest width)

pub take-nil : (n : ℕ) → take {A = ℕ} n [] ≡ []
take-nil zero = refl
take-nil (suc n) = refl

pub take-append-slice :
    (from to : ℕ) (xs : List ℕ) → from ≤ to → take from xs ++ slice from to xs ≡ take to xs
take-append-slice zero to xs h = ap (λ k. take k xs) (omega arith)
take-append-slice (suc from) zero xs h = absurd (omega arith)
take-append-slice (suc from) (suc to) [] h = take-nil (suc to - suc from)
take-append-slice (suc from) (suc to) (x ∷ xs) h =
    let width : suc to - suc from ≡ to - from = omega arith in
    rw width (ap (◌∷◌ x) (take-append-slice from to xs (omega arith)))

-- The bytes of a slice are those of the number that it reads as.
pub to-from_le_bytes-slice :
    (from to : ℕ) (bytes : List ℕ)
    → All IsByte bytes
    → from ≤ to
    → to ≤ length bytes
    → to_le_bytes (to - from) (from_le_bytes (slice from to bytes)) ≡ slice from to bytes
to-from_le_bytes-slice from to bytes h le inside =
    let width : length (slice from to bytes) ≡ to - from =
      length-take_of_le (to - from) (drop from bytes) (omega (arith, length-drop from bytes)) in
    rw width at
      (to-from_le_bytes (slice from to bytes) (All-take IsByte _ _ (All-drop IsByte from bytes h)))

pub from_le_bytes-slice-lt :
    (from to : ℕ) (bytes : List ℕ)
    → All IsByte bytes
    → from ≤ to
    → to ≤ length bytes
    → from_le_bytes (slice from to bytes) < 256 ^ (to - from)
from_le_bytes-slice-lt from to bytes h le inside =
    let width : length (slice from to bytes) ≡ to - from =
      length-take_of_le (to - from) (drop from bytes) (omega (arith, length-drop from bytes)) in
    rw width at
      (from_le_bytes-lt (slice from to bytes) (All-take IsByte _ _ (All-drop IsByte from bytes h)))
