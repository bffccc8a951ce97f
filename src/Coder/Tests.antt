-- ===== src/Coder/Tests.antt =====
-- The coder at concrete inputs.
use detllm.Base.{
  ℕ, ◌+◌, ◌-◌, ◌*◌, ◌/◌, ◌^◌, ◌≤◌, ◌<◌, ◌≡◌, ◌%◌, ◌↔◌, ◌⊎◌, refl, arith, Option, none, some, List,
  [], ◌∷◌, ◌++◌, length, get_elem?, drop, All, IsByte, Outcome, ok, err, ◌>>◌, Returns, replicate,
  stuck, to_le_bytes,
}
use detllm.Coder.Range.{unexpected_eof, invalid_frequency, renorm_fuel}
use detllm.Coder.Range.Encoder.{RangeEncoder, RangeEncoderSnapshot, from_snapshot, snapshot}
use detllm.Coder.Range.Encoder
use detllm.Coder.Range.Decoder.{RangeDecoder, decode_freq, advance}
use detllm.Coder.Range.Interval.{IsInterval}
use detllm.Coder.Range.Renorm.{IsReady, renorm-IsReady}
use detllm.Coder.Range.Narrow.{IsSymbol, awaiting}
use detllm.Coder.Range.Window.{Covers, big_endian}
use detllm.Coder.Range.Follow.{follow}
use detllm.Coder.Range.Symbol.{encode-IsReady, symbol_follows, asked}
use detllm.Coder.Range.Decode.{IsWaiting, decode_freq_place, advance-cases}
use detllm.Coder.Range.Snapshot.{from_snapshot-snapshot, encode-from_snapshot_diverges, entered}
use detllm.Coder.Cdf.{Cdf, symbol_for}
use detllm.Coder.Cdf
use detllm.Coder.Cdf.Table.{cumulate}
use detllm.Coder.Cdf.Valid.{IsValid, validate-IsValid_iff}
use detllm.Coder.Cdf.Lookup.{symbol_for-total}
use detllm.Coder.Stream.{encode_token_stream, decode_token_stream}
use detllm.Coder.Stream.RoundTrip.{decode-encode_token_stream}
use detllm.Coder.Stream.Total.{
  Fits, encode_token_stream-ok_iff, encode_token_stream-Returns, decode_token_stream-Returns,
}
use detllm.Coder.Header.{DtlzHeader}
use detllm.Coder.Header
use detllm.Coder.Header.RoundTrip.{IsTyped, decode-encode}
use detllm.Coder.Header.Canonical.{encode-decode}

-- Four symbols, with the counts of the test in range.rs.
abbrev table : Cdf
table = record { freq = 3 ∷ 2 ∷ 7 ∷ 1 ∷ []; cum = 0 ∷ 3 ∷ 5 ∷ 12 ∷ []; total = 13 }

abbrev tables : List Cdf
tables = table ∷ table ∷ table ∷ []

abbrev tokens : List ℕ
tokens = 2 ∷ 0 ∷ 3 ∷ []

abbrev payload : List ℕ
payload = 127 ∷ 211 ∷ 65 ∷ 94 ∷ 127 ∷ 241 ∷ 21 ∷ 193 ∷ []

payload_is_encoded : encode_token_stream tables tokens ≡ ok payload
unfolding encode_token_stream Cdf.validate Encoder.encode detllm.Coder.Range.validate Encoder.new
    Encoder.renorm detllm.Coder.Range.normalize_step Encoder.finish
payload_is_encoded = refl

decode-encode_token_stream_example : decode_token_stream tables payload ≡ ok tokens
decode-encode_token_stream_example =
    decode-encode_token_stream tables tokens payload payload_is_encoded

encode_token_stream-ok_iff_example :
    ((bytes : List ℕ) × (encode_token_stream tables tokens ≡ ok bytes)) ↔ Fits tables tokens
encode_token_stream-ok_iff_example = encode_token_stream-ok_iff tables tokens

encode_token_stream-Returns_example : Returns (encode_token_stream tables (4 ∷ 0 ∷ 3 ∷ []))
encode_token_stream-Returns_example = encode_token_stream-Returns tables (4 ∷ 0 ∷ 3 ∷ [])

decode_token_stream-Returns_example : Returns (decode_token_stream tables (255 ∷ 1 ∷ payload))
decode_token_stream-Returns_example =
    decode_token_stream-Returns tables (255 ∷ 1 ∷ payload) (omega arith)

-- The symbol 2 of the table.
abbrev symbol_2 : IsSymbol 5 7 13
symbol_2 = record { occurs = omega arith; within = omega arith; bounded = omega arith }

abbrev start : RangeEncoder
start = record { low = 0; range = 2 ^ 64 - 1; out = [] }

start-IsReady : IsReady start
start-IsReady = record { interval = omega arith; enough = omega arith }

abbrev after_2 : RangeEncoder
after_2 = record { low = (2 ^ 64 - 1) / 13 * 5; range = (2 ^ 64 - 1) / 13 * 7; out = [] }

after_2-IsReady : IsReady after_2
after_2-IsReady = record { interval = omega arith; enough = omega arith }

after_2_is_encoded : Encoder.encode start 5 7 13 ≡ ok after_2
unfolding Encoder.encode Encoder.renorm detllm.Coder.Range.validate
    detllm.Coder.Range.normalize_step
after_2_is_encoded = refl

encode-IsReady_example : (e' : RangeEncoder) × (Encoder.encode start 5 7 13 ≡ ok e') × IsReady e'
encode-IsReady_example =
    encode-IsReady {e = start} {cum = 5} {freq = 7} {total = 13} start-IsReady symbol_2

after_2-Covers : Covers after_2.low after_2.range payload
unfolding big_endian
after_2-Covers = record {
  bytes_only = omega arith;
  long = omega arith;
  above = omega arith;
  below = omega arith;
}

symbol_follows_example :
    (rest : List ℕ) × ([] ++ rest ≡ [] ++ payload)
    × Covers 0 (2 ^ 64 - 1) rest
    × (value : ℕ) × (5 ≤ value)
    × (value < 12)
    × (decode_freq (follow start rest) 13 ≡ ok (value, asked start rest 13))
    × (advance (asked start rest 13) 5 7 13 ≡ ok (follow after_2 payload))
symbol_follows_example =
    symbol_follows {e = start} {e' = after_2} {cum = 5} {freq = 7} {total = 13} payload
      start-IsReady symbol_2 after_2_is_encoded after_2-Covers

-- An encoder before its loop, whose interval is one byte wide.
abbrev narrow : RangeEncoder
narrow = record { low = 2 ^ 56 - 1; range = 256; out = [] }

narrow-IsInterval : IsInterval narrow.low narrow.range
narrow-IsInterval = omega arith

renorm-IsReady_example :
    (e' : RangeEncoder) × (Encoder.renorm renorm_fuel narrow ≡ ok e') × IsReady e'
renorm-IsReady_example = renorm-IsReady narrow narrow-IsInterval

-- The decoder at the first symbol of the payload, and one that holds a code out of its interval.
abbrev waiting : RangeDecoder
waiting = follow start payload

waiting-IsWaiting : IsWaiting waiting
waiting-IsWaiting = record { interval = omega arith; enough = omega arith; idle = refl }

waiting_code_word : waiting.code < 2 ^ 64
unfolding detllm.Coder.Range.Window.big_endian
waiting_code_word = omega arith

decode_freq_place_example :
    let width = waiting.range / 13 in
    (distance : ℕ) × (distance < 2 ^ 64)
    × ((waiting.low + distance) % 2 ^ 64 ≡ waiting.code)
    × (((13 * width ≤ distance) × (decode_freq waiting 13 ≡ err invalid_frequency))
        ⊎ ((value : ℕ) × (value < 13)
            × (value * width ≤ distance)
            × (distance < value * width + width)
            × (decode_freq waiting 13 ≡ ok (value, awaiting waiting 13))))
decode_freq_place_example =
    decode_freq_place waiting 13 waiting-IsWaiting (omega arith) (omega arith) waiting_code_word

advance-cases_example :
    (advance (awaiting waiting 13) 5 7 13 ≡ err unexpected_eof)
    ⊎ ((d' : RangeDecoder) × (advance (awaiting waiting 13) 5 7 13 ≡ ok d') × IsWaiting d')
advance-cases_example = advance-cases waiting 5 7 13 waiting-IsWaiting symbol_2

from_snapshot-snapshot_example : from_snapshot (snapshot after_2) ≡ ok after_2
from_snapshot-snapshot_example = from_snapshot-snapshot after_2 after_2-IsReady

-- A snapshot whose range is smaller than the total of the table.
abbrev damaged : RangeEncoderSnapshot
damaged = record { low = 7; range = 1; out = [] }

encode-from_snapshot_diverges_example :
    (e : RangeEncoder) × (from_snapshot damaged ≡ ok e)
    × (Encoder.encode e 5 7 13 ≡ Encoder.renorm renorm_fuel (entered e 5 7 13))
    × ((fuel : ℕ) → Encoder.renorm fuel (entered e 5 7 13) ≡ stuck)
encode-from_snapshot_diverges_example =
    encode-from_snapshot_diverges damaged 5 7 13 (omega arith) (omega arith) symbol_2

table-IsValid : IsValid table
unfolding cumulate
table-IsValid = record {
  sums = refl;
  whole = refl;
  positive = omega arith;
  some_symbol = omega arith;
  few = omega arith;
  bounded = omega arith;
}

validate-IsValid_iff_example : (Cdf.validate table ≡ ok tt) ↔ IsValid table
validate-IsValid_iff_example = validate-IsValid_iff table

symbol_for-total_example :
    (symbol : ℕ) × (cum : ℕ) × (f : ℕ) × (symbol_for table 11 ≡ some symbol)
    × (get_elem? table.cum symbol ≡ some cum)
    × (get_elem? table.freq symbol ≡ some f)
    × (cum ≤ 11)
    × (11 < cum + f)
symbol_for-total_example = symbol_for-total {c = table} {value = 11} table-IsValid (omega arith)

abbrev header : DtlzHeader
header = record {
  flags = 1;
  model_sha256 = replicate 32 171;
  n_ctx = 2048;
  overlap = 64;
  orig_len = 12345678901;
}

header-IsTyped : IsTyped header
header-IsTyped = record {
  flags_word = omega arith;
  hash_length = refl;
  n_ctx_word = omega arith;
  overlap_word = omega arith;
  orig_len_word = omega arith;
}

decode-encode_example :
    Header.decode (Header.encode header ++ payload) ≡ (Header.validate header >> ok header)
decode-encode_example = decode-encode header header-IsTyped payload

header_is_valid : Header.validate header ≡ ok tt
unfolding Header.validate
header_is_valid = refl

header_is_decoded : Header.decode (Header.encode header ++ payload) ≡ ok header
header_is_decoded = rw (decode-encode_example, header_is_valid)

header_bytes : All IsByte (Header.encode header ++ payload)
unfolding Header.encode to_le_bytes detllm.Base.copy_at
header_bytes = omega arith

encode-decode_example :
    IsTyped header
    × (Header.validate header ≡ ok tt)
    × (Header.encode header ++ payload
        ≡ Header.encode header ++ drop 56 (Header.encode header ++ payload))
encode-decode_example =
    encode-decode (Header.encode header ++ payload) {h = header} header_bytes header_is_decoded
