-- ===== src/Codec/Tests.antt =====
-- The window and the codec at concrete inputs.
use detllm.Base.{
  ℕ, ◌+◌, ◌≤◌, ◌<◌, ◌≡◌, refl, arith, true, some, List, [], ◌∷◌, ltb, if◌then◌else◌, ok, no_keys,
  insert, num_eq,
}
use detllm.Coder.Cdf.Table.{sum}
use detllm.Coder.Cdf.Logits.{Floats}
use detllm.Token.Pieces.{codes}
use detllm.Token.Codec.{Tokenizer, byte_bpe}
use detllm.Codec.{validate_window, next_window_start, next_window_start-room}
use detllm.Codec.Model.{Model}
use detllm.Codec.Symbols.{encode_symbols_with_model, decode_bytes_with_model}
use detllm.Codec.Symbols.Read.{StandFor}
use detllm.Codec.Symbols.RoundTrip.{decode-encode_symbols_with_model}

window_is_accepted : validate_window 8 2 2048 ≡ ok tt
unfolding validate_window
window_is_accepted = refl

next_window_start-room_example :
    (6 ≤ next_window_start 14 6 8 2)
    × (next_window_start 14 6 8 2 ≤ 14)
    × (14 < next_window_start 14 6 8 2 + 8)
    × (6 < next_window_start 14 6 8 2 → next_window_start 14 6 8 2 + 2 ≡ 14)
next_window_start-room_example =
    next_window_start-room 14 6 8 2 2048 window_is_accepted (omega arith) (omega arith)

-- Whole numbers in place of floating-point numbers.
abbrev pub numbers : Floats
numbers = record {
  F32 = ℕ;
  neg_infinity = 0;
  clamp = 0;
  is_finite = λ x. true;
  greater = λ x y. ltb y x;
  sub = λ x y. x;
  max = λ x y. if ltb x y then y else x;
  exp_f32 = λ x. x;
  sum_f32_ref = sum;
  div = λ x y. x;
  scale = λ x. x;
  to_u32 = λ x. x;
}

-- A model with three tokens, whose logits depend on the last token, its place and how many tokens
-- the cache has seen.
abbrev pub three_tokens : Model ℕ
three_tokens = record {
  Rope = Unit {0};
  Cache = ℕ;
  Workspace = Unit {0};
  rows = 3;
  context_length = 2;
  rope_tables = λ n. some tt;
  new_cache = some 0;
  forward_workspace = λ n. some tt;
  forward_one = λ token pos rope seen logits workspace.
      some (seen + 1, token ∷ (pos + 3) ∷ seen ∷ [], workspace);
  zero_f32 = 0;
}

abbrev ab : Tokenizer
ab = byte_bpe (record {
  byte_to_token = insert 98 1 (insert 97 0 no_keys);
  token_to_bytes = insert 2 (codes "ab") (insert 1 (codes "b") (insert 0 (codes "a") no_keys));
  merge_ranks = no_keys;
})

-- `ab`, an escaped `c`, `a`, `b`, `ab`: the window is full before the last token.
abbrev symbols : List ℕ
symbols = 2 ∷ 102 ∷ 0 ∷ 1 ∷ 2 ∷ []

abbrev payload : List ℕ
payload = 2 ∷ 96 ∷ 160 ∷ 19 ∷ 68 ∷ 85 ∷ 98 ∷ 185 ∷ 65 ∷ 190 ∷ 64 ∷ 0 ∷ []

symbols_of_text : StandFor ab 3 true symbols (codes "abcabab")
unfolding StandFor detllm.Codec.Symbols.symbol_bytes detllm.Token.Codec.decode_codec_symbol insert
symbols_of_text = (
  codes "ab",
  codes "cabab",
  refl,
  refl,
  (
    codes "c",
    codes "abab",
    refl,
    refl,
    (
      codes "a",
      codes "bab",
      refl,
      refl,
      (codes "b", codes "ab", refl, refl, (codes "ab", [], refl, refl, refl, refl), refl),
      refl,
    ),
    refl,
  ),
  refl,
)

payload_is_written : encode_symbols_with_model numbers three_tokens symbols 2 1 true ≡ ok payload
unfolding encode_symbols_with_model detllm.Coder.Cdf.uniform_cdf_with_byte_escapes
    detllm.Coder.Cdf.uniform_cdf detllm.Codec.State.sync detllm.Codec.State.symbol_range
    detllm.Coder.Cdf.uniform_symbol_range detllm.Coder.Cdf.count_up
    detllm.Coder.Range.Encoder.encode detllm.Coder.Range.validate detllm.Coder.Range.Encoder.new
    detllm.Coder.Range.Encoder.renorm detllm.Coder.Range.normalize_step
    detllm.Codec.Symbols.push_encoded detllm.Token.Codec.codec_symbol_is_token
    detllm.Codec.Symbols.push_token detllm.Coder.Cdf.Logits.logits_to_symbol_range_with_byte_escapes
    detllm.Coder.Cdf.Logits.logits_to_symbol_range_impl detllm.Coder.Cdf.Logits.greatest
    detllm.Codec.State.advance detllm.Codec.State.advance_all detllm.Codec.State.new
    detllm.Codec.State.replay detllm.Codec.State.uniform_table detllm.Codec.Symbols.encode_symbols
    next_window_start validate_window detllm.Coder.Cdf.Logits.count
    detllm.Coder.Cdf.Logits.fill_exp_scratch detllm.Coder.Cdf.Logits.find_range
    detllm.Coder.Cdf.Logits.tail_range detllm.Coder.Range.Encoder.finish
    detllm.Coder.Range.Encoder.flush detllm.Coder.Range.Encoder.shift_out
payload_is_written = refl

decode-encode_symbols_with_model_example :
    decode_bytes_with_model numbers three_tokens ab payload 7 2 1 true
    ≡ ok (record { bytes = codes "abcabab"; symbols = symbols })
decode-encode_symbols_with_model_example =
    decode-encode_symbols_with_model numbers three_tokens ab symbols (codes "abcabab") payload 2 1
      true symbols_of_text payload_is_written
