-- ===== src/Token/Bpe/Chain.antt =====
-- The links of the merge loop: the tokens that are alive stand for parts of the input, each of which
-- ends where the next one begins.
use detllm.Base.{
  ℕ, zero, suc, ◌+◌, ◌-◌, ◌*◌, ◌≤◌, ◌<◌, ◌≡◌, ◌≢◌, ◌⊎◌, ◌∙◌, inl, inr, refl, sym, ap, arith, Bool,
  true, false, Option, none, some, some-injective, List, [], ◌∷◌, ◌++◌, All, length, get_elem?,
  drop, slice, drop-drop, take-append-slice,
}
use detllm.Token.Spelling.{piece_at}
use detllm.Token.Bpe.Merge.{Entry, Merging, set_at}

module _ {A : Type 0} where
  pub length-set_at : (i : ℕ) (a : A) (xs : List A) → length (set_at i a xs) ≡ length xs
  unfolding set_at
  length-set_at zero a [] = refl
  length-set_at (suc i) a [] = refl
  length-set_at zero a (x ∷ xs) = refl
  length-set_at (suc i) a (x ∷ xs) = ap suc (length-set_at i a xs)

  -- What is found after a write is what was written, or was there at another index.
  pub set_at-cases :
      (i : ℕ) (a : A) (xs : List A) (j : ℕ) {b : A}
      → get_elem? (set_at i a xs) j ≡ some b
      → ((i ≡ j) × (a ≡ b)) ⊎ ((i ≢ j) × (get_elem? xs j ≡ some b))
  unfolding set_at
  set_at-cases zero a [] j h = cc h
  set_at-cases (suc i) a [] j h = cc h
  set_at-cases zero a (x ∷ xs) zero h = inl (refl, some-injective h)
  set_at-cases zero a (x ∷ xs) (suc j) h = inr ((λ e. absurd (omega arith)), h)
  set_at-cases (suc i) a (x ∷ xs) zero h = inr ((λ e. absurd (omega arith)), h)
  set_at-cases (suc i) a (x ∷ xs) (suc j) h = elim (set_at-cases i a xs j h) [
    | inl (same, same') ↦ inl (ap suc same, same')
    | inr (other, old) ↦ inr ((λ e. other (omega arith)), old)
  ]

  pub set_at-other :
      (i : ℕ) (a : A) (xs : List A) (j : ℕ) → i ≢ j → get_elem? (set_at i a xs) j ≡ get_elem? xs j
  unfolding set_at
  set_at-other zero a [] j h = refl
  set_at-other (suc i) a [] j h = refl
  set_at-other zero a (x ∷ xs) zero h = absurd (h refl)
  set_at-other zero a (x ∷ xs) (suc j) h = refl
  set_at-other (suc i) a (x ∷ xs) zero h = refl
  set_at-other (suc i) a (x ∷ xs) (suc j) h = set_at-other i a xs j λ e. h (ap suc e)

-- How many tokens are alive.
unfoldable pub count : List Bool → ℕ
count [] = 0
count (true ∷ alive) = suc (count alive)
count (false ∷ alive) = count alive

pub count-set_at :
    (i : ℕ) (alive : List Bool)
    → get_elem? alive i ≡ some true
    → suc (count (set_at i false alive)) ≡ count alive
unfolding set_at count
count-set_at i [] h = cc h
count-set_at zero (true ∷ alive) h = refl
count-set_at zero (false ∷ alive) h = absurd (cc (some-injective h))
count-set_at (suc i) (true ∷ alive) h = ap suc (count-set_at i alive h)
count-set_at (suc i) (false ∷ alive) h = count-set_at i alive h

-- Where the part of a token ends that has this link.
unfoldable pub end : ℕ → Option ℕ → ℕ
end len none = len
end len (some j) = j

pub slice-slice :
    (i j k : ℕ) (xs : List ℕ) → i ≤ j → j ≤ k → slice i j xs ++ slice j k xs ≡ slice i k xs
slice-slice i j k xs h h' =
    let step : i + (j - i) ≡ j = omega arith in
    let behind : drop j xs ≡ drop (j - i) (drop i xs) =
      ap (λ m. drop m xs) (sym step) ∙ drop-drop i (j - i) xs in
    let width : k - j ≡ (k - i) - (j - i) = omega arith in
    rw (behind, width) (take-append-slice (j - i) (k - i) (drop i xs) (omega arith))

-- The token stands for the part of the input from its index to the end that its link gives.
unfoldable pub Part : List (List ℕ) → List ℕ → ℕ → ℕ → Option ℕ → Type 0
Part tokens input i id link =
    (i < end (length input) link)
    × (end (length input) link ≤ length input)
    × (piece_at tokens id ≡ some (slice i (end (length input) link) input))

abbrev pub Below : ℕ → Entry → Type 0
Below len e = e.index < len

pub record Chained (tokens : List (List ℕ)) (input : List ℕ) (s : Merging) : Type 0 where
  pub ids_len : length s.ids ≡ length input
  pub prev_len : length s.prev ≡ length input
  pub next_len : length s.next ≡ length input
  pub alive_len : length s.alive ≡ length input
  pub start : get_elem? s.alive 0 ≡ some true
  pub part :
      (i id : ℕ) (link : Option ℕ)
      → get_elem? s.alive i ≡ some true
      → get_elem? s.ids i ≡ some id
      → get_elem? s.next i ≡ some link
      → Part tokens input i id link
  pub linked :
      (i j : ℕ)
      → get_elem? s.alive i ≡ some true
      → get_elem? s.next i ≡ some (some j)
      → get_elem? s.alive j ≡ some true
  pub alone :
      (i k j : ℕ)
      → get_elem? s.alive i ≡ some true
      → get_elem? s.alive k ≡ some true
      → get_elem? s.next i ≡ some (some j)
      → get_elem? s.next k ≡ some (some j)
      → i ≡ k
  pub prev_in : (i j : ℕ) → get_elem? s.prev i ≡ some (some j) → j < length input
  pub heap_in : All (Below (length input)) s.heap

-- What each round of the loop lowers.
unfoldable pub size : Merging → ℕ
unfolding count
size s = length s.heap + 2 * count s.alive
