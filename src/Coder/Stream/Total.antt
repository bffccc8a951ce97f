-- ===== src/Coder/Stream/Total.antt =====
-- When the two stream functions succeed, and that they always come back.
use detllm.Base.{
  same_bytes, IsByte, ℕ, suc, ◌+◌, ◌<◌, ◌≡◌, ◌↔◌, refl, ap, arith, true, Option, none, some, List,
  [], ◌∷◌, ◌++◌, ◌==◌, ==_iff, length, get_elem?, get_elem?-lt, get_elem?-ge, Returns-cases,
  lt_of_get_elem?, All-get_elem?, All, take, ok, inl, inr, Returns, Returns->>=, Returns-if,
}
use native.Mathlib.Decide.{dec_lt}
use detllm.Coder.Range.Encoder.{RangeEncoder}
use detllm.Coder.Range.Encoder
use detllm.Coder.Range.Decoder.{RangeDecoder}
use detllm.Coder.Range.Renorm.{IsReady}
use detllm.Coder.Range.Narrow.{IsSymbol}
use detllm.Coder.Range.Symbol.{encode-IsReady}
use detllm.Coder.Range.Ends.{new-IsReady, new_lem, new_short}
use detllm.Coder.Range.Follow.{follow}
use detllm.Coder.Range.Decode.{IsWaiting, decode_freq-cases, advance-cases}
use detllm.Coder.Cdf.{Cdf, validate}
use detllm.Coder.Cdf.Table.{sum, get_elem?-cumulate, Positive, Falls-total}
use detllm.Coder.Cdf.Valid.{
  IsValid, validate-IsValid, IsValid-validate, validate-Returns, IsValid-pos,
}
use detllm.Coder.Cdf.Lookup.{symbol_for_validated-Falls, cum-Falls, entry-Falls, Falls-IsSymbol}
use detllm.Coder.Stream.{zip, encode_loop, encode_token_stream, decode_loop, decode_token_stream}
use detllm.Coder.Stream.RoundTrip.{encode_loop-Round, encode_token_stream-ok}

-- One well-formed table for each token, and each token in its table.
abbrev pub Fits : List Cdf → List ℕ → Type 0
Fits [] [] = Unit
Fits [] (token ∷ tokens) = ⊥
Fits (c ∷ cdfs) [] = ⊥
Fits (c ∷ cdfs) (token ∷ tokens) = IsValid c × (token < length c.freq) × Fits cdfs tokens

Fits-length : (cdfs : List Cdf) (tokens : List ℕ) → Fits cdfs tokens → length cdfs ≡ length tokens
Fits-length [] [] h = refl
Fits-length [] (token ∷ tokens) h = absurd h
Fits-length (c ∷ cdfs) [] h = absurd h
Fits-length (c ∷ cdfs) (token ∷ tokens) h = ap suc (Fits-length cdfs tokens h.2)

-- The entries of a token that a well-formed table has.
pub record Entry (c : Cdf) (token : ℕ) : Type 0 where
  pub cum : ℕ
  pub freq : ℕ
  pub at_cum : get_elem? c.cum token ≡ some cum
  pub at_freq : get_elem? c.freq token ≡ some freq
  pub symbol : IsSymbol cum freq c.total

pub Entry-lt : {c : Cdf} {token : ℕ} → IsValid c → token < length c.freq → Entry c token
Entry-lt {c} {token} v lt =
    let (f, found) = get_elem?-lt c.freq token lt in
    let cum = 0 + sum (take token c.freq) in
    let at_cum : get_elem? c.cum token ≡ some cum =
      rw v.sums (get_elem?-cumulate 0 c.freq token found) in
    let occurs : 0 < f = All-get_elem? Positive c.freq token v.positive found in
    record {
      cum = cum;
      freq = f;
      at_cum = at_cum;
      at_freq = found;
      symbol =
          Falls-IsSymbol v (entry-Falls {value = cum} v at_cum found (omega arith) (omega arith));
    }

encode_loop-Fits :
    (cdfs : List Cdf) (tokens : List ℕ) {e : RangeEncoder}
    → IsReady e
    → Fits cdfs tokens
    → (last : RangeEncoder) × (encode_loop cdfs tokens e ≡ ok last)
unfolding encode_loop
encode_loop-Fits [] [] {e} ready h = (e, refl)
encode_loop-Fits [] (token ∷ tokens) ready h = absurd h
encode_loop-Fits (c ∷ cdfs) [] ready h = absurd h
encode_loop-Fits (c ∷ cdfs) (token ∷ tokens) {e} ready (v, lt, more) =
    let x = Entry-lt v lt in
    let (next, run, ready') = encode-IsReady ready x.symbol in
    let (last, rest) = encode_loop-Fits cdfs tokens ready' more in
    (last, rw (IsValid-validate c v, x.at_cum, x.at_freq, run) rest)

Fits-encode_loop :
    (cdfs : List Cdf) (tokens : List ℕ) (e last : RangeEncoder)
    → length cdfs ≡ length tokens
    → encode_loop cdfs tokens e ≡ ok last
    → Fits cdfs tokens
Fits-encode_loop [] [] e last same h = tt
Fits-encode_loop [] (token ∷ tokens) e last same h = absurd (omega arith)
Fits-encode_loop (c ∷ cdfs) [] e last same h = absurd (omega arith)
Fits-encode_loop (c ∷ cdfs) (token ∷ tokens) e last same h =
    let (r, more) = encode_loop-Round c cdfs token tokens e h in
    (
      r.valid,
      lt_of_get_elem? c.freq token r.at_freq,
      Fits-encode_loop cdfs tokens r.next last (omega arith) more,
    )

-- `encode_token_stream` succeeds exactly if there are as many tables as tokens, each table is
-- well-formed, and each token is a symbol of its table.
pub encode_token_stream-ok_iff :
    (cdfs : List Cdf) (tokens : List ℕ)
    → ((bytes : List ℕ) × (encode_token_stream cdfs tokens ≡ ok bytes)) ↔ Fits cdfs tokens
unfolding encode_token_stream
encode_token_stream-ok_iff cdfs tokens = (
  λ (bytes, h).
      let (same, last, run, done) = encode_token_stream-ok cdfs tokens bytes h in
      Fits-encode_loop cdfs tokens Encoder.new last same run,
  λ fits.
      let (last, run) = encode_loop-Fits cdfs tokens new-IsReady fits in
      let same : (length cdfs == length tokens) ≡ true =
        (==_iff _ _).1 (Fits-length cdfs tokens fits) in
      (Encoder.finish last, rw (same, run)),
)

zip-none : (o : Option ℕ) → zip o none ≡ none
zip-none none = refl
zip-none (some a) = refl

encode_loop-Returns :
    (cdfs : List Cdf) (tokens : List ℕ) (e : RangeEncoder)
    → IsReady e
    → Returns (encode_loop cdfs tokens e)
unfolding encode_loop
encode_loop-Returns [] [] e ready = tt
encode_loop-Returns [] (token ∷ tokens) e ready = tt
encode_loop-Returns (c ∷ cdfs) [] e ready = tt
encode_loop-Returns (c ∷ cdfs) (token ∷ tokens) e ready =
    elim (Returns-cases (validate c) (validate-Returns c)) [
      | inr (x, bad) ↦ rw bad tt
      | inl (u, checked) ↦ elim (dec_lt token (length c.freq)) [
        | no over ↦
            rw (checked, get_elem?-ge c.freq token (omega arith), zip-none (get_elem? c.cum token))
              tt
        | yes lt ↦
            let x = Entry-lt (validate-IsValid c checked) lt in
            let (next, run, ready') = encode-IsReady ready x.symbol in
            rw (checked, x.at_cum, x.at_freq, run) (encode_loop-Returns cdfs tokens next ready')
      ]
    ]

-- `encode_token_stream` gives bytes or an error on all tables and tokens: it never panics, and its
-- loops end within their fuel.
pub encode_token_stream-Returns :
    (cdfs : List Cdf) (tokens : List ℕ) → Returns (encode_token_stream cdfs tokens)
unfolding encode_token_stream
encode_token_stream-Returns cdfs tokens =
    ground (arith, encode_loop-Returns cdfs tokens Encoder.new new-IsReady)

decode_loop-Returns :
    (cdfs : List Cdf) (d : RangeDecoder) (out : List ℕ)
    → IsWaiting d
    → Returns (decode_loop cdfs d out)
unfolding decode_loop
decode_loop-Returns [] d out w = tt
decode_loop-Returns (c ∷ cdfs) d out w = elim (Returns-cases (validate c) (validate-Returns c)) [
  | inr (x, bad) ↦ rw bad tt
  | inl (u, checked) ↦
      let v = validate-IsValid c checked in
      elim (decode_freq-cases d c.total w (IsValid-pos v) v.bounded) [
        | inl bad ↦ rw (checked, bad) tt
        | inr (value, inside, asked) ↦
            let (token, cum, f, falls) =
              Falls-total 0 c.freq value (omega arith) (omega (arith, v.whole)) in
            elim (advance-cases d cum f c.total w (Falls-IsSymbol v falls)) [
              | inl eof ↦
                  rw
                    (
                      checked,
                      asked,
                      symbol_for_validated-Falls v falls,
                      cum-Falls v falls,
                      falls.entry,
                      eof,
                    )
                    tt
              | inr (d', told, w') ↦
                  rw
                    (
                      checked,
                      asked,
                      symbol_for_validated-Falls v falls,
                      cum-Falls v falls,
                      falls.entry,
                      told,
                    )
                    (decode_loop-Returns cdfs d' (out ++ (token ∷ [])) w')
            ]
      ]
]

-- `decode_token_stream` gives tokens or an error on all tables and on all bytes: it never panics,
-- and its loops end within their fuel.
pub decode_token_stream-Returns :
    (cdfs : List Cdf) (bytes : List ℕ) → All IsByte bytes → Returns (decode_token_stream cdfs bytes)
unfolding decode_token_stream Encoder.new
decode_token_stream-Returns cdfs bytes h = elim (dec_lt (length bytes) 8) [
  | yes short ↦ rw (new_short bytes h short) tt
  | no long ↦
      let start = new_lem bytes h (omega arith) in
      let waiting : IsWaiting (follow Encoder.new bytes) = record {
        interval = new-IsReady.interval;
        enough = new-IsReady.enough;
        idle = refl;
      } in
      rw start (
        Returns->>= (decode_loop cdfs (follow Encoder.new bytes) []) _
          (decode_loop-Returns cdfs (follow Encoder.new bytes) [] waiting)
          λ out read.
            Returns->>= (encode_token_stream cdfs out) _ (encode_token_stream-Returns cdfs out)
              λ canonical again. Returns-if (same_bytes canonical bytes) out _)
]
