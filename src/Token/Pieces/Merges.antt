-- ===== src/Token/Pieces/Merges.antt =====
-- A merge rule is two pieces with one space between them.
use detllm.Base.{
  ℕ, ◌≡◌, ◌≢◌, ◌↔◌, refl, arith, List, [], ◌∷◌, ◌++◌, ◌==◌, All, ok, is_empty, ap, ok-injective,
  false, inl, inr, Bool-cases, ==_iff, ap₂, sym, ◌∙◌,
}
use detllm.Token.Pieces.{split, read_parts, parse_merge}

abbrev pub NotSpace : ℕ → Type 0
NotSpace c = c ≢ b' '

-- `split` at the first space, and what it says of a part without one.
split-none : (s : List ℕ) → All NotSpace s → split s ≡ (s, [])
unfolding split
split-none [] h = refl
split-none (c ∷ s) h = rw (split-none s h.1) (ground (arith, h.0))

split-part :
    (s t : List ℕ) → All NotSpace s → split (s ++ b' ' ∷ t) ≡ (s, (split t).0 ∷ (split t).1)
unfolding split
split-part [] t h = refl
split-part (c ∷ s) t h = rw (split-part s t h.1) (ground (arith, h.0))

-- The parts put together again.
unfoldable joined : List ℕ → List (List ℕ) → List ℕ
joined part [] = part
joined part (next ∷ parts) = part ++ b' ' ∷ joined next parts

joined-cons :
    (c : ℕ) (part : List ℕ) (parts : List (List ℕ))
    → joined (c ∷ part) parts ≡ c ∷ joined part parts
unfolding joined
joined-cons c part [] = refl
joined-cons c part (next ∷ parts) = refl

-- `split` gives parts without spaces that make up the text.
split_lem :
    (s : List ℕ)
    → (joined (split s).0 (split s).1 ≡ s)
      × All NotSpace (split s).0
      × All (All NotSpace) (split s).1
unfolding split joined
split_lem [] = (refl, tt, tt)
split_lem (c ∷ s) =
    let (same, part, parts) = split_lem s in
    elim (Bool-cases (c == b' ')) [
      | inl space ↦ rw space (ap₂ ◌∷◌ (sym ((==_iff c b' ').0 space)) same, tt, (part, parts))
      | inr other ↦
          rw other
            (joined-cons c (split s).0 (split s).1 ∙ ap (◌∷◌ c) same, (ground arith, part), parts)
    ]

joined-two : (left right : List ℕ) → joined left (right ∷ []) ≡ left ++ b' ' ∷ right
unfolding joined
joined-two left right = refl

read_parts-ok :
    (merge part : List ℕ) (parts : List (List ℕ)) {left right : List ℕ}
    → read_parts merge part parts ≡ ok (left, right)
    → (part ≡ left) × (parts ≡ right ∷ []) × (is_empty left ≡ false) × (is_empty right ≡ false)
unfolding read_parts
read_parts-ok merge part [] h = cc
read_parts-ok merge [] (next ∷ []) h = cc
read_parts-ok merge (a ∷ part) ([] ∷ []) h = cc
read_parts-ok merge (a ∷ part) ((b ∷ next) ∷ []) {left} {right} h =
    let same : ◌≡◌ {A = List ℕ × List ℕ} (a ∷ part, b ∷ next) (left, right) = ok-injective h in
    let first : a ∷ part ≡ left = ap (λ (p : List ℕ × List ℕ). p.0) same in
    let second : b ∷ next ≡ right = ap (λ (p : List ℕ × List ℕ). p.1) same in
    (first, ap (λ r. r ∷ []) second, rw (← first) refl, rw (← second) refl)
read_parts-ok merge part (next ∷ other ∷ parts) h = cc

read_two :
    (merge left right : List ℕ)
    → is_empty left ≡ false
    → is_empty right ≡ false
    → read_parts merge left (right ∷ []) ≡ ok (left, right)
unfolding read_parts
read_two merge left right h k = rw (h, k) refl

-- A merge rule is read as `left` and `right` exactly if it is these two, neither empty and neither
-- with a space, with one space between them.
pub parse_merge_iff :
    (merge left right : List ℕ)
    → (parse_merge merge ≡ ok (left, right)) ↔ (
        (merge ≡ left ++ b' ' ∷ right)
        × (is_empty left ≡ false)
        × (is_empty right ≡ false)
        × All NotSpace left
        × All NotSpace right)
unfolding parse_merge
parse_merge_iff merge left right = (
  (λ h.
      let (same, part, parts) = split_lem merge in
      let (is_left, is_right, full, full') =
        read_parts-ok merge (split merge).0 (split merge).1 h in
      (
        sym same ∙ rw (is_left, is_right) (joined-two left right),
        full,
        full',
        rw is_left at part,
        (rw is_right at parts).0,
      )),
  λ (same, full, full', part, part').
      rw (same, split-part left right part, split-none right part')
        (read_two _ left right full full'),
)
