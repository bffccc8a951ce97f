-- ===== src/Token/Metadata.antt =====
-- crates/det-token/src/lib.rs: what the tokenizers read from a model file, and the emit mask with
-- the types of the tokens.
-- A score is the bits of an `f32`.
use detllm.Base.{
  ℕ, ◌/◌, ◌%◌, ◌^◌, Bool, true, false, not, ◌&&◌, ◌||◌, Option, none, some, List, [], ◌∷◌, ◌==◌,
  if◌then◌else◌, length, get_elem?, Outcome, ok, err, panic, stuck, ◌>>=◌, ◌>>◌, guard, map,
}
use detllm.Gguf.Reader.{GgufError, metadata_not_found}
use detllm.Gguf.Value.{
  ℤ, pos, negsuc, MetadataValue, string_value, array_string, array_i32, array_u32, array_f32,
}
use detllm.Gguf.Parse.{Gguf, metadata_value}
use detllm.Token.{
  TokenError, missing_vocabulary, metadata_type, token_type_length, scores_length, non_finite_score,
  invalid_token_type,
}
use detllm.Token.Pieces.{codes}

-- The first match of the readers: what a missing key and any other error come to.
unfoldable pub read_key {ℓ} :
    {A : Type ℓ}
    → Outcome GgufError MetadataValue
    → Outcome TokenError A
    → (MetadataValue → Outcome TokenError A)
    → Outcome TokenError A
read_key (ok value) missing read = read value
read_key (err e) missing read = elim e [ metadata_not_found ↦ missing | _ ↦ err metadata_type ]
read_key panic missing read = panic
read_key stuck missing read = stuck

unfoldable pub gguf_tokens : Gguf → Outcome TokenError (List (List ℕ))
unfolding read_key
gguf_tokens gguf =
    read_key (metadata_value gguf (codes "tokenizer.ggml.tokens")) (err missing_vocabulary)
      λ value. elim value [ array_string tokens ↦ ok tokens | _ ↦ err metadata_type ]

unfoldable pub optional_gguf_merges : Gguf → Outcome TokenError (Option (List (List ℕ)))
unfolding read_key
optional_gguf_merges gguf =
    read_key (metadata_value gguf (codes "tokenizer.ggml.merges")) (ok none)
      λ value. elim value [ array_string merges ↦ ok (some merges) | _ ↦ err metadata_type ]

unfoldable pub optional_gguf_model : Gguf → Outcome TokenError (Option (List ℕ))
unfolding read_key
optional_gguf_model gguf =
    read_key (metadata_value gguf (codes "tokenizer.ggml.model")) (ok none)
      λ value. elim value [ string_value model ↦ ok (some model) | _ ↦ err metadata_type ]

-- `f32::is_finite`: the exponent is not all ones.
unfoldable pub is_finite : ℕ → Bool
is_finite bits = not (bits / 2 ^ 23 % 2 ^ 8 == 255)

unfoldable pub all_finite : List ℕ → Bool
unfolding is_finite
all_finite [] = true
all_finite (score ∷ scores) = is_finite score && all_finite scores

unfoldable pub optional_gguf_scores : Gguf → ℕ → Outcome TokenError (Option (List ℕ))
unfolding read_key all_finite
optional_gguf_scores gguf vocab_len =
    read_key (metadata_value gguf (codes "tokenizer.ggml.scores")) (ok none) λ value. elim value [
      | array_f32 scores ↦ do
        guard (length scores == vocab_len) scores_length
        guard (all_finite scores) non_finite_score
        ok (some scores)
      | _ ↦ err metadata_type
    ]

unfoldable pub has_gguf_scores : Gguf → Outcome TokenError Bool
unfolding read_key
has_gguf_scores gguf =
    read_key (metadata_value gguf (codes "tokenizer.ggml.scores")) (ok false)
      λ value. elim value [ array_f32 scores ↦ ok true | _ ↦ err metadata_type ]

unfoldable pub token_type_is_emittable : ℤ → Outcome TokenError Bool
token_type_is_emittable (pos n) =
    if n == 1 || n == 4 || n == 6
    then ok true
    else if n == 2 || n == 3 || n == 5
    then ok false
    else err (invalid_token_type (pos n))
token_type_is_emittable (negsuc n) = err (invalid_token_type (negsuc n))

-- `map(token_type_is_emittable).collect()`: the first error ends it.
unfoldable pub emittable_types : List ℤ → Outcome TokenError (List Bool)
unfolding token_type_is_emittable
emittable_types [] = ok []
emittable_types (ty ∷ types) = do
  b ← token_type_is_emittable ty
  mask ← emittable_types types
  ok (b ∷ mask)

unfoldable pub mask_of_types : ℕ → List ℤ → Outcome TokenError (Option (List Bool))
unfolding emittable_types
mask_of_types vocab_len types = do
  guard (length types == vocab_len) token_type_length
  mask ← emittable_types types
  ok (some mask)

unfoldable pub optional_gguf_emit_mask : Gguf → ℕ → Outcome TokenError (Option (List Bool))
unfolding read_key mask_of_types
optional_gguf_emit_mask gguf vocab_len =
    read_key (metadata_value gguf (codes "tokenizer.ggml.token_type")) (ok none) λ value.
      elim value [
        | array_i32 types ↦ mask_of_types vocab_len types
        | array_u32 types ↦ mask_of_types vocab_len (map pos types)
        | _ ↦ err metadata_type
      ]

unfoldable pub token_is_emittable : Option (List Bool) → ℕ → Bool
token_is_emittable none idx = true
token_is_emittable (some mask) idx = elim (get_elem? mask idx) [ some b ↦ b | none ↦ true ]
