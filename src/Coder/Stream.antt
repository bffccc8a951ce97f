-- ===== src/Coder/Stream.antt =====
-- crates/det-coder/src/stream.rs: token streams, with one frequency table for each position.
pub mod RoundTrip
pub mod Total
use detllm.Base.{
  ℕ, zero, suc, Bool, true, false, not, ◌&&◌, Option, none, some, List, [], ◌∷◌, ◌++◌, ◌==◌,
  if◌then◌else◌, length, get_elem?, Outcome, ok, err, panic, stuck, ◌>>=◌, ◌>>◌, guard, ok_or,
  at_index, map_err, same_bytes,
}
use detllm.Coder.Range.{RangeError}
use detllm.Coder.Range.Encoder
use detllm.Coder.Range.Encoder.{RangeEncoder}
use detllm.Coder.Range.Decoder
use detllm.Coder.Range.Decoder.{RangeDecoder}
use detllm.Coder.Cdf.{Cdf, validate, symbol_for_validated}

pub data StreamError : Type 0 where
  length_mismatch symbol_out_of_range cdf non_canonical_payload : StreamError
  range : RangeError → StreamError

-- `Option::zip`.
abbrev pub zip : Option ℕ → Option ℕ → Option (ℕ × ℕ)
zip (some a) (some b) = some (a, b)
zip _ _ = none

-- The loop of `encode_token_stream` over both slices.
unfoldable pub encode_loop : List Cdf → List ℕ → RangeEncoder → Outcome StreamError RangeEncoder
encode_loop (c ∷ cdfs) (token ∷ tokens) enc = do
  map_err (λ _. cdf) (validate c)
  (cum, freq) ← ok_or (zip (get_elem? c.cum token) (get_elem? c.freq token)) symbol_out_of_range
  enc' ← map_err range (Encoder.encode enc cum freq c.total)
  encode_loop cdfs tokens enc'
encode_loop _ _ enc = ok enc

unfoldable pub encode_token_stream : List Cdf → List ℕ → Outcome StreamError (List ℕ)
unfolding encode_loop
encode_token_stream cdfs tokens =
    if length cdfs == length tokens
    then (do enc ← encode_loop cdfs tokens Encoder.new; ok (Encoder.finish enc))
    else err length_mismatch

-- The loop of `decode_token_stream`; `out` holds the tokens so far.
unfoldable pub decode_loop : List Cdf → RangeDecoder → List ℕ → Outcome StreamError (List ℕ)
decode_loop [] dec out = ok out
decode_loop (c ∷ cdfs) dec out = do
  map_err (λ _. cdf) (validate c)
  (value, dec') ← map_err range (Decoder.decode_freq dec c.total)
  token ← ok_or (symbol_for_validated c value) cdf
  cum ← at_index (get_elem? c.cum token)
  freq ← at_index (get_elem? c.freq token)
  dec'' ← map_err range (Decoder.advance dec' cum freq c.total)
  decode_loop cdfs dec'' (out ++ (token ∷ []))

unfoldable pub decode_token_stream : List Cdf → List ℕ → Outcome StreamError (List ℕ)
unfolding decode_loop same_bytes
decode_token_stream cdfs bytes = do
  dec ← map_err range (Decoder.new bytes)
  out ← decode_loop cdfs dec []
  canonical ← encode_token_stream cdfs out
  if same_bytes canonical bytes then ok out else err non_canonical_payload
