-- ===== src/Token/Pieces.antt =====
-- crates/det-token/src/lib.rs: the texts of the vocabulary and the bytes that they stand for.
pub mod Unicode
pub mod Merges
use Prim.Native.Char.{code}
use Prim.Native.String.{String}
use detllm.Base.{
  ℕ, zero, suc, ◌+◌, ◌-◌, ◌*◌, ◌/◌, ◌%◌, Bool, ◌&&◌, ◌||◌, Option, none, some, List, [], ◌∷◌, ◌++◌,
  ltb, leb, ◌==◌, if◌then◌else◌, Outcome, ok, err, is_empty,
}
use detllm.Token.{TokenError, invalid_merge}

-- The bytes of an ASCII literal.
abbrev pub codes : String → List ℕ
codes String.[] = []
codes (String.◌∷◌ c s) = code c ∷ codes s

-- `str::strip_prefix`.
unfoldable pub strip_prefix : List ℕ → List ℕ → Option (List ℕ)
strip_prefix [] s = some s
strip_prefix (p ∷ ps) [] = none
strip_prefix (p ∷ ps) (c ∷ s) = let rest = strip_prefix ps s in if p == c then rest else none

unfoldable pub in_front : ℕ → Option (List ℕ) → Option (List ℕ)
in_front c none = none
in_front c (some s) = some (c ∷ s)

-- `str::strip_suffix`, of one ASCII character.
unfoldable pub strip_last : ℕ → List ℕ → Option (List ℕ)
unfolding in_front
strip_last c [] = none
strip_last c (b ∷ []) = if b == c then some [] else none
strip_last c (b ∷ d ∷ s) = in_front b (strip_last c (d ∷ s))

-- The value of a digit to base 16, of either case.
unfoldable pub hex_digit : ℕ → Option ℕ
hex_digit c =
    if leb b'0' c && leb c b'9'
    then some (c - b'0')
    else if leb b'a' c && leb c b'f'
    then some (c - b'a' + 10)
    else if leb b'A' c && leb c b'F'
    then some (c - b'A' + 10)
    else none

unfoldable pub two_digits : Option ℕ → Option ℕ → Option ℕ
two_digits none low = none
two_digits (some h) none = none
two_digits (some h) (some l) = some (h * 16 + l)

-- `u8::from_str_radix(hex, 16).ok()`, of a text of two bytes: a sign `+` in front is accepted.
unfoldable pub hex_byte : List ℕ → Option ℕ
unfolding hex_digit two_digits
hex_byte (a ∷ b ∷ []) = if a == b'+' then hex_digit b else two_digits (hex_digit a) (hex_digit b)
hex_byte _ = none

unfoldable pub hex_inside : Option (List ℕ) → Option ℕ
unfolding hex_byte strip_last
hex_inside none = none
hex_inside (some s) = elim (strip_last b'>' s) [ none ↦ none | some hex ↦ hex_byte hex ]

unfoldable pub canonical_byte_fallback_token : List ℕ → Option ℕ
unfolding hex_inside strip_prefix
canonical_byte_fallback_token token = hex_inside (strip_prefix (codes "<0x") token)

-- `(33..=126).contains(&code) || (161..=172).contains(&code) || (174..=255).contains(&code)`.
unfoldable pub is_printable : ℕ → Bool
is_printable code =
    (leb 33 code && leb code 126)
    || (leb 161 code && leb code 172)
    || (leb 174 code && leb code 255)

-- The loop of `gpt2_char_to_byte`, with the number of rounds that are left.
unfoldable pub search_byte : ℕ → ℕ → ℕ → ℕ → Option ℕ
unfolding is_printable
search_byte zero byte n code = none
search_byte (suc rounds) byte n code =
    let rest = search_byte rounds (suc byte) (if is_printable byte then n else suc n) code in
    if is_printable byte then rest else if code == 256 + n then some byte else rest

unfoldable pub gpt2_char_to_byte : ℕ → Option ℕ
unfolding is_printable search_byte
gpt2_char_to_byte code = if is_printable code then some code else search_byte 256 0 0 code

-- How many bytes of a character follow its first byte, and the bits that this one gives.
unfoldable pub first_byte : ℕ → ℕ × ℕ
first_byte b =
    if ltb b 128
    then (0, b)
    else if ltb b 224
    then (1, b - 192)
    else if ltb b 240
    then (2, b - 224)
    else (3, b - 240)

-- `token.chars()`, the characters of valid UTF-8: `need` bytes of the current one are missing.
unfoldable pub chars_from : ℕ → ℕ → List ℕ → List ℕ
unfolding first_byte
chars_from need acc [] = []
chars_from need acc (b ∷ s) =
    let (left, bits) = if need == 0 then first_byte b else (need - 1, acc * 64 + (b - 128)) in
    let rest = chars_from left bits s in if left == 0 then bits ∷ rest else rest

unfoldable pub decode_chars : List ℕ → Option (List ℕ)
unfolding gpt2_char_to_byte in_front
decode_chars [] = some []
decode_chars (ch ∷ chars) =
    let rest = decode_chars chars in
    elim (gpt2_char_to_byte ch) [ none ↦ none | some b ↦ in_front b rest ]

unfoldable pub gpt2_byte_unicode_decode : List ℕ → Option (List ℕ)
unfolding chars_from decode_chars
gpt2_byte_unicode_decode token = decode_chars (chars_from 0 0 token)

-- The last cases of `token_piece_bytes`: the prefix is the character U+2581.
unfoldable pub plain_piece_bytes : List ℕ → List ℕ
unfolding strip_prefix
plain_piece_bytes token = elim (strip_prefix (226 ∷ 150 ∷ 129 ∷ []) token) [
  | some rest ↦ b' ' ∷ rest
  | none ↦ token
]

unfoldable pub token_piece_bytes : List ℕ → List ℕ
unfolding canonical_byte_fallback_token gpt2_byte_unicode_decode plain_piece_bytes
token_piece_bytes token = elim (canonical_byte_fallback_token token) [
  | some byte ↦ byte ∷ []
  | none ↦ elim (gpt2_byte_unicode_decode token) [
    | some bytes ↦ bytes
    | none ↦ plain_piece_bytes token
  ]
]

-- `merge.split(' ')`: the first part, and the parts behind it.
unfoldable pub split : List ℕ → List ℕ × List (List ℕ)
split [] = ([], [])
split (c ∷ s) =
    let (part, parts) = split s in if c == b' ' then ([], part ∷ parts) else (c ∷ part, parts)

-- Exactly two parts, neither of them empty.
unfoldable pub read_parts : List ℕ → List ℕ → List (List ℕ) → Outcome TokenError (List ℕ × List ℕ)
read_parts merge left (right ∷ []) =
    if is_empty left || is_empty right then err (invalid_merge merge) else ok (left, right)
read_parts merge left _ = err (invalid_merge merge)

unfoldable pub parse_merge : List ℕ → Outcome TokenError (List ℕ × List ℕ)
unfolding split read_parts
parse_merge merge = read_parts merge (split merge).0 (split merge).1

-- `{byte:02x}`.
unfoldable pub hex_char : ℕ → ℕ
hex_char d = if ltb d 10 then b'0' + d else b'a' + (d - 10)

unfoldable pub format_rest : List ℕ → List ℕ
unfolding hex_char
format_rest [] = []
format_rest (byte ∷ bytes) = b',' ∷ hex_char (byte / 16) ∷ hex_char (byte % 16) ∷ format_rest bytes

unfoldable pub format_bytes : List ℕ → List ℕ
unfolding hex_char format_rest
format_bytes [] = codes "none"
format_bytes (byte ∷ bytes) = hex_char (byte / 16) ∷ hex_char (byte % 16) ∷ format_rest bytes
