-- ===== src/Token/Coverage.antt =====
-- crates/det-token/src/lib.rs: which bytes the vocabulary can give.
-- An array of 256 flags is a function from the bytes.
pub mod Complete
use detllm.Base.{
  ℕ, zero, suc, ◌+◌, Bool, true, false, List, [], ◌∷◌, ◌==◌, if◌then◌else◌, Option, length,
  is_empty, Outcome, ok, err, ◌>>=◌,
}
use detllm.Gguf.Parse.{Gguf}
use detllm.Token.{TokenError, incomplete_byte_fallback}
use detllm.Token.Pieces.{token_piece_bytes}
use detllm.Token.Metadata.{gguf_tokens, optional_gguf_emit_mask, token_is_emittable}

pub record ByteCoverage : Type 0 where
  pub token_count : ℕ
  pub single_byte_tokens : ℕ
  pub emittable_single_byte_tokens : ℕ
  pub missing_bytes : List ℕ
  pub missing_emittable_bytes : List ℕ

unfoldable pub missing_from : ℕ → ℕ → (ℕ → Bool) → List ℕ
missing_from zero byte present = []
missing_from (suc rounds) byte present =
    let rest = missing_from rounds (suc byte) present in if present byte then rest else byte ∷ rest

unfoldable pub missing_byte_values : (ℕ → Bool) → List ℕ
unfolding missing_from
missing_byte_values present = missing_from 256 0 present

abbrev pub no_flags : ℕ → Bool
no_flags b = false

-- `present[byte as usize] = true`.
unfoldable pub set_flag : ℕ → (ℕ → Bool) → ℕ → Bool
set_flag byte present b = if byte == b then true else present b

unfoldable pub pair_flags : List (ℕ × ℕ) → (ℕ → Bool) → ℕ → Bool
unfolding set_flag
pair_flags [] present = present
pair_flags ((byte, token) ∷ pairs) present = pair_flags pairs (set_flag byte present)

unfoldable pub missing_byte_pairs : List (ℕ × ℕ) → List ℕ
unfolding missing_byte_values pair_flags
missing_byte_pairs pairs = missing_byte_values (pair_flags pairs no_flags)

-- The variables of the loop of `byte_coverage_from_tokens`.
pub record Seen : Type 0 where
  pub present : ℕ → Bool
  pub emittable : ℕ → Bool
  pub singles : ℕ
  pub emittable_singles : ℕ

unfoldable pub see_byte : Bool → List ℕ → Seen → Seen
unfolding set_flag
see_byte emits (byte ∷ []) s = record {
  present = set_flag byte s.present;
  emittable = if emits then set_flag byte s.emittable else s.emittable;
  singles = s.singles + 1;
  emittable_singles = if emits then s.emittable_singles + 1 else s.emittable_singles;
}
see_byte emits _ s = s

unfoldable pub see_tokens : Option (List Bool) → ℕ → List (List ℕ) → Seen → Seen
unfolding see_byte token_is_emittable token_piece_bytes
see_tokens emit_mask idx [] s = s
see_tokens emit_mask idx (token ∷ tokens) s =
    see_tokens emit_mask (suc idx) tokens
      (see_byte (token_is_emittable emit_mask idx) (token_piece_bytes token) s)

abbrev pub nothing_seen : Seen
nothing_seen = record {
  present = no_flags;
  emittable = no_flags;
  singles = 0;
  emittable_singles = 0;
}

unfoldable pub byte_coverage_from_tokens : List (List ℕ) → Option (List Bool) → ByteCoverage
unfolding see_tokens missing_byte_values
byte_coverage_from_tokens tokens emit_mask =
    let s = see_tokens emit_mask 0 tokens nothing_seen in
    record {
      token_count = length tokens;
      single_byte_tokens = s.singles;
      emittable_single_byte_tokens = s.emittable_singles;
      missing_bytes = missing_byte_values s.present;
      missing_emittable_bytes = missing_byte_values s.emittable;
    }

unfoldable pub byte_coverage_from_gguf : Gguf → Outcome TokenError ByteCoverage
unfolding gguf_tokens optional_gguf_emit_mask byte_coverage_from_tokens
byte_coverage_from_gguf gguf = do
  tokens ← gguf_tokens gguf
  emit_mask ← optional_gguf_emit_mask gguf (length tokens)
  ok (byte_coverage_from_tokens tokens emit_mask)

unfoldable pub require_complete_byte_coverage_from_gguf : Gguf → Outcome TokenError (Unit {0})
unfolding byte_coverage_from_gguf
require_complete_byte_coverage_from_gguf gguf = do
  coverage ← byte_coverage_from_gguf gguf
  if is_empty coverage.missing_emittable_bytes
      then ok tt
      else err (incomplete_byte_fallback coverage.missing_emittable_bytes)
