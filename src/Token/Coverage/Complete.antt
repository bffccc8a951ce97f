-- ===== src/Token/Coverage/Complete.antt =====
-- The coverage is complete exactly if every byte has a token.
use detllm.Base.{
  ℕ, zero, suc, ◌+◌, ◌≤◌, ◌<◌, ◌≡◌, ◌↔◌, inl, inr, refl, arith, Bool, true, Bool-cases, ==_iff,
  List, [], ◌∷◌, ◌==◌, Option, some, get_elem?, is_empty,
}
use detllm.Token.Pieces.{token_piece_bytes}
use detllm.Token.Metadata.{token_is_emittable}
use detllm.Token.Coverage.{missing_from, missing_byte_values}

missing_from_iff :
    (rounds byte : ℕ) (present : ℕ → Bool)
    → (is_empty (missing_from rounds byte present) ≡ true)
      ↔ ((b : ℕ) → byte ≤ b → b < byte + rounds → present b ≡ true)
unfolding missing_from
missing_from_iff zero byte present = ((λ h b le lt. absurd (omega arith)), λ h. refl)
missing_from_iff (suc rounds) byte present =
    let (there, back) = missing_from_iff rounds (suc byte) present in
    elim (Bool-cases (present byte)) [
      | inl set ↦ rw set (
        (λ h b le lt. elim (Bool-cases (byte == b)) [
          | inl same ↦ cc (set, (==_iff byte b).0 same)
          | inr other ↦ there h b (ground arith) (omega arith)
        ]),
        λ h. back λ b le lt. h b (omega arith) (omega arith),
      )
      | inr unset ↦ rw unset ((λ h. cc h), λ h. cc (unset, h byte (omega arith) (omega arith)))
    ]

pub missing_byte_values_iff :
    (present : ℕ → Bool)
    → (is_empty (missing_byte_values present) ≡ true) ↔ ((b : ℕ) → b < 256 → present b ≡ true)
unfolding missing_byte_values
missing_byte_values_iff present =
    let (there, back) = missing_from_iff 256 0 present in
    ((λ h b lt. there h b (omega arith) (omega arith)), λ h. back λ b le lt. h b (omega arith))

-- From the index `idx` on, some token that the mask lets out stands for the byte `b` alone.
pub HasToken : List (List ℕ) → Option (List Bool) → ℕ → ℕ → Type 0
HasToken tokens emit_mask idx b =
    (k : ℕ) × (token : List ℕ) × (get_elem? tokens k ≡ some token)
    × (token_piece_bytes token ≡ b ∷ [])
    × (token_is_emittable emit_mask (idx + k) ≡ true)
