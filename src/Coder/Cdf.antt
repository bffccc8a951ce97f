-- ===== src/Coder/Cdf.antt =====
-- crates/det-coder/src/cdf.rs: frequency tables. `Logits` is the part on floating-point numbers.
-- A `usize` is a 64-bit word, as on the targets of the program.
pub mod Table
pub mod Valid
pub mod Lookup
pub mod Uniform
pub mod Distribution
mod Tests
pub mod Logits
use detllm.Base.{
  ℕ, zero, suc, ◌+◌, ◌-◌, ◌*◌, ◌^◌, Bool, true, false, not, ◌||◌, Option, none, some, List, [], ◌∷◌,
  ◌++◌, ltb, leb, ◌==◌, if◌then◌else◌, length, Outcome, ok, err, ◌>>=◌, ◌>>◌, guard, ok_or,
  checked_add, checked_mul, saturating_add, add64, is_empty,
}

abbrev pub max_symbols : ℕ
max_symbols = 2 ^ 18

abbrev pub byte_escape_symbols : ℕ
byte_escape_symbols = 256

pub data CdfError : Type 0 where
  empty malformed non_finite_logit symbol_out_of_range too_many_symbols total_too_large : CdfError

pub record Cdf : Type 0 where
  pub freq : List ℕ
  pub cum : List ℕ
  pub total : ℕ

pub record SymbolRange : Type 0 where
  pub cum : ℕ
  pub freq : ℕ
  pub total : ℕ

pub record DecoderDistribution : Type 0 where
  pub freq : List ℕ
  pub tail_symbols : ℕ
  pub total : ℕ

-- The loop of `validate` over both lists.
unfoldable pub validate_entries : List ℕ → List ℕ → ℕ → Outcome CdfError ℕ
validate_entries (c ∷ cum) (f ∷ freq) total = do
  guard (not (f == 0 || not (c == total))) malformed
  total' ← ok_or (checked_add total f) total_too_large
  validate_entries cum freq total'
validate_entries _ _ total = ok total

unfoldable pub validate : Cdf → Outcome CdfError (Unit {0})
unfolding validate_entries
validate c = do
  guard (not (is_empty c.freq || is_empty c.cum || not (length c.freq == length c.cum))) malformed
  guard (not (ltb max_symbols (length c.freq))) too_many_symbols
  guard (not (c.total == 0 || leb (2 ^ 31) c.total)) total_too_large
  total ← validate_entries c.cum c.freq 0
  guard (total == c.total) malformed

-- `slice::partition_point`: where the first part, of which the test holds, ends.
unfoldable pub partition_point : (ℕ → Bool) → List ℕ → ℕ
partition_point test [] = 0
partition_point test (x ∷ xs) = if test x then suc (partition_point test xs) else 0

unfoldable pub symbol_for_validated : Cdf → ℕ → Option ℕ
symbol_for_validated c value =
    if is_empty c.cum || not (length c.cum == length c.freq) || leb c.total value
    then none
    else some (partition_point (λ x. leb x value) c.cum - 1)

unfoldable pub symbol_for : Cdf → ℕ → Option ℕ
symbol_for c value = elim (validate c) [ ok _ ↦ symbol_for_validated c value | _ ↦ none ]

-- The loop of `append_uniform_tail`, on the rounds left.
unfoldable pub push_uniform : ℕ → ℕ → Cdf → Outcome CdfError Cdf
push_uniform zero freq c = ok c
push_uniform (suc n) freq c = do
  total ← add64 c.total freq
  push_uniform n freq
      (record { freq = c.freq ++ (freq ∷ []); cum = c.cum ++ (c.total ∷ []); total = total })

unfoldable pub append_uniform_tail : Cdf → ℕ → ℕ → Outcome CdfError Cdf
append_uniform_tail c symbols freq = do
  guard (not (ltb max_symbols (saturating_add (length c.freq) symbols))) too_many_symbols
  guard (not (freq == 0)) malformed
  add_total ← ok_or (checked_mul symbols freq) total_too_large
  end ← ok_or (checked_add c.total add_total) total_too_large
  guard (not (leb (2 ^ 31) end)) total_too_large
  push_uniform symbols freq c

-- The loop of `uniform_cdf`: the rounds left, and the lists so far.
unfoldable pub count_up : ℕ → ℕ → List ℕ → List ℕ → List ℕ × List ℕ
count_up zero i freq cum = (freq, cum)
count_up (suc n) i freq cum = count_up n (i + 1) (freq ++ (1 ∷ [])) (cum ++ (i ∷ []))

unfoldable pub uniform_cdf : ℕ → Outcome CdfError Cdf
uniform_cdf symbols = do
  guard (not (symbols == 0)) empty
  guard (not (ltb max_symbols symbols)) too_many_symbols
  guard (not (leb (2 ^ 31) symbols)) total_too_large
  let (freq, cum) = count_up symbols 0 [] []
  ok (record { freq = freq; cum = cum; total = symbols })

unfoldable pub uniform_cdf_with_byte_escapes : ℕ → Outcome CdfError Cdf
uniform_cdf_with_byte_escapes vocab_len = do
  symbols ← ok_or (checked_add vocab_len byte_escape_symbols) too_many_symbols
  uniform_cdf symbols

unfoldable pub uniform_symbol_range : ℕ → ℕ → Outcome CdfError SymbolRange
uniform_symbol_range symbol symbols = do
  guard (not (symbols == 0)) empty
  guard (not (ltb max_symbols symbols)) too_many_symbols
  guard (not (leb symbols symbol)) symbol_out_of_range
  guard (not (leb (2 ^ 31) symbols)) total_too_large
  ok (record { cum = symbol; freq = 1; total = symbols })

-- What the loop of `DecoderDistribution::symbol_range` comes to: a symbol, the end of the table
-- with the sum that it reached, or a sum that does not fit.
pub data Search : Type 0 where
  hit : ℕ → SymbolRange → Search
  past : ℕ → Search
  overflow : Search

unfoldable pub search_symbol : List ℕ → ℕ → ℕ → ℕ → ℕ → Search
search_symbol [] idx cum value total = past cum
search_symbol (f ∷ freq) idx cum value total =
    let rest = search_symbol freq (idx + 1) (cum + f) value total in
    if ltb (cum + f) (2 ^ 64)
    then (if ltb value (cum + f)
        then hit idx (record { cum = cum; freq = f; total = total })
        else rest)
    else overflow

unfoldable pub symbol_range : DecoderDistribution → ℕ → Option (ℕ × SymbolRange)
symbol_range d value =
    if leb d.total value then none else elim (search_symbol d.freq 0 0 value d.total) [
      | hit symbol range ↦ some (symbol, range)
      | overflow ↦ none
      | past cum ↦
          if ltb value cum
          then none
          else if ltb (value - cum) d.tail_symbols
          then some
              (length d.freq + (value - cum), record { cum = value; freq = 1; total = d.total })
          else none
    ]
