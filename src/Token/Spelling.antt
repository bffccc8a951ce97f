-- ===== src/Token/Spelling.antt =====
-- crates/det-token/src/lib.rs: `detokenize_bytes` of the tokenizers that keep a map from the tokens
-- to their bytes, and what it is that a list of tokens spells.
use detllm.Base.{
  ℕ, suc, ◌+◌, ◌≤◌, ◌<◌, ◌≡◌, refl, sym, ap, ◌∙◌, arith, false, is_empty, Bool-cases, le_or_lt,
  ==_iff, Option, none, some, List, [], ◌∷◌, ◌++◌, append_assoc, get_elem?, get_elem?-lt,
  get_elem?-ge, no_keys, Option-cases, length, Outcome, ok, ◌>>=◌, ok_or, Map, insert,
  insert-eq-some, insert_self, insert_other, num_eq, inl, inr, ◌==◌,
}
use detllm.Token.{TokenError, invalid_token}
use detllm.Token.Pieces.{token_piece_bytes}

unfoldable pub detokenize_with : Map ℕ (List ℕ) → List ℕ → Outcome TokenError (List ℕ)
detokenize_with token_to_bytes [] = ok []
detokenize_with token_to_bytes (token ∷ tokens) = do
  bytes ← ok_or (token_to_bytes token) (invalid_token token)
  rest ← detokenize_with token_to_bytes tokens
  ok (bytes ++ rest)

-- The tokens spell the input: it is their bytes, one after the other, and each has one at least.
unfoldable pub Spells : Map ℕ (List ℕ) → List ℕ → List ℕ → Type 0
Spells bytes_of [] input = input ≡ []
Spells bytes_of (id ∷ ids) input =
    (piece : List ℕ) × (rest : List ℕ) × (bytes_of id ≡ some piece)
    × (is_empty piece ≡ false)
    × Spells bytes_of ids rest
    × (input ≡ piece ++ rest)

pub detokenize_with-Spells :
    (m : Map ℕ (List ℕ)) (ids input : List ℕ)
    → Spells m ids input
    → detokenize_with m ids ≡ ok input
unfolding detokenize_with Spells
detokenize_with-Spells m [] input h = rw h refl
detokenize_with-Spells m (id ∷ ids) input (piece, rest, found, full, spelled, same) =
    rw (found, detokenize_with-Spells m ids rest spelled, same) refl

-- The bytes of a token of the vocabulary.
unfoldable pub piece_of : Option (List ℕ) → Option (List ℕ)
unfolding token_piece_bytes
piece_of none = none
piece_of (some token) = some (token_piece_bytes token)

unfoldable pub piece_at : List (List ℕ) → ℕ → Option (List ℕ)
unfolding piece_of
piece_at tokens id = piece_of (get_elem? tokens id)

-- The map has the bytes of the tokens below `idx`, and no others.
pub record Knows (tokens : List (List ℕ)) (m : Map ℕ (List ℕ)) (idx : ℕ) : Type 0 where
  pub sound :
      (id : ℕ) (bytes : List ℕ) → m id ≡ some bytes → (piece_at tokens id ≡ some bytes) × (id < idx)
  pub full : (id : ℕ) → id < idx → m id ≡ piece_at tokens id

-- One round of a loop that enters the tokens in their order.
pub Knows-insert :
    (tokens : List (List ℕ)) (m : Map ℕ (List ℕ)) (idx : ℕ) (bytes : List ℕ)
    → piece_at tokens idx ≡ some bytes
    → Knows tokens m idx
    → Knows tokens (insert idx bytes m) (suc idx)
Knows-insert tokens m idx bytes here h = record {
  sound = λ id found e. elim (insert-eq-some idx bytes m e) [
    | inl (same, same') ↦ rw (← same, ← same') (here, omega arith)
    | inr (other, old) ↦ ((h.sound id found old).0, omega (arith, (h.sound id found old).1))
  ];
  full = λ id lt. elim (Bool-cases (idx == id)) [
    | inl same ↦ rw (← (==_iff idx id).0 same) (insert_self idx bytes m ∙ sym here)
    | inr other ↦ insert_other idx bytes m other ∙ h.full id (ground arith)
  ];
}

-- A loop over the tokens has come to `idx`, and `rest` is what is left.
pub record Left (tokens : List (List ℕ)) (idx : ℕ) (rest : List (List ℕ)) : Type 0 where
  pub at : (k : ℕ) → get_elem? tokens (idx + k) ≡ get_elem? rest k

pub Left-all : (tokens : List (List ℕ)) → Left tokens 0 tokens
Left-all tokens = record { at = λ k. ap (get_elem? tokens) (omega arith) }

pub Left-next :
    {tokens : List (List ℕ)} (idx : ℕ) {token : List ℕ} {rest : List (List ℕ)}
    → Left tokens idx (token ∷ rest)
    → Left tokens (suc idx) rest
Left-next {tokens} idx left = record {
  at = λ k. ap (get_elem? tokens) (omega arith) ∙ left.at (suc k);
}

pub Left-here :
    {tokens : List (List ℕ)} (idx : ℕ) {token : List ℕ} {rest : List (List ℕ)}
    → Left tokens idx (token ∷ rest)
    → piece_at tokens idx ≡ some (token_piece_bytes token)
unfolding piece_at piece_of
Left-here {tokens} idx {token} left =
    let here : get_elem? tokens idx ≡ some token =
      ap (get_elem? tokens) (omega arith) ∙ left.at 0 in
    rw here refl

-- At the end every token has been entered.
pub Left-none : {tokens : List (List ℕ)} (idx : ℕ) → Left tokens idx [] → length tokens ≤ idx
Left-none {tokens} idx left = elim (le_or_lt (length tokens) idx) [
  | inl le ↦ le
  | inr lt ↦ absurd (
      let (token, found) = get_elem?-lt tokens idx lt in
      let same : idx + 0 ≡ idx = omega arith in cc (found, ap (get_elem? tokens) same, left.at 0))
]

pub piece_at-lt :
    (tokens : List (List ℕ)) (id : ℕ) {bytes : List ℕ}
    → piece_at tokens id ≡ some bytes
    → id < length tokens
unfolding piece_at piece_of
piece_at-lt tokens id h = elim (le_or_lt (length tokens) id) [
  | inl le ↦ absurd (cc (h, ap piece_of (get_elem?-ge tokens id le)))
  | inr lt ↦ lt
]

-- A map that knows all tokens is the vocabulary.
pub Knows-all :
    (tokens : List (List ℕ)) (m : Map ℕ (List ℕ)) (idx : ℕ)
    → Knows tokens m idx
    → length tokens ≤ idx
    → (id : ℕ) → m id ≡ piece_at tokens id
Knows-all tokens m idx h le id = elim (le_or_lt idx id) [
  | inr lt ↦ h.full id lt
  | inl past ↦ elim (Option-cases (m id)) [
    | inl missing ↦ elim (Option-cases (piece_at tokens id)) [
      | inl out ↦ missing ∙ sym out
      | inr (bytes, found) ↦ absurd (omega (arith, piece_at-lt tokens id found))
    ]
    | inr (bytes, found) ↦ absurd (omega (arith, (h.sound id bytes found).1))
  ]
]

pub Knows-nothing : (tokens : List (List ℕ)) → Knows tokens no_keys 0
Knows-nothing tokens = record {
  sound = λ id bytes found. cc found;
  full = λ id lt. absurd (omega arith);
}

pub Spells-same :
    (m m' : Map ℕ (List ℕ)) (ids input : List ℕ)
    → ((id : ℕ) → m' id ≡ m id)
    → Spells m ids input
    → Spells m' ids input
unfolding Spells
Spells-same m m' [] input same h = h
Spells-same m m' (id ∷ ids) input same (piece, rest, found, full, spelled, e) =
    (piece, rest, same id ∙ found, full, Spells-same m m' ids rest same spelled, e)

pub Spells-append :
    (m : Map ℕ (List ℕ)) (ids ids' input input' : List ℕ)
    → Spells m ids input
    → Spells m ids' input'
    → Spells m (ids ++ ids') (input ++ input')
unfolding Spells
Spells-append m [] ids' input input' h h' = rw h h'
Spells-append m (id ∷ ids) ids' input input' (piece, rest, found, full, spelled, e) h' = (
  piece,
  rest ++ input',
  found,
  full,
  Spells-append m ids ids' rest input' spelled h',
  rw e (append_assoc piece rest input'),
)

-- The byte has a token, which is its own in the vocabulary.
unfoldable pub Covers : List (List ℕ) → Map ℕ ℕ → ℕ → Type 0
Covers tokens byte_to_token b =
    (id : ℕ) × (byte_to_token b ≡ some id) × (piece_at tokens id ≡ some (b ∷ []))
