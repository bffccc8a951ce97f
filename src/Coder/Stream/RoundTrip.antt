-- ===== src/Coder/Stream/RoundTrip.antt =====
-- `decode_token_stream` gives back the tokens that `encode_token_stream` was given.
use detllm.Base.{
  ℕ, ◌+◌, ◌≤◌, ◌<◌, ◌≡◌, refl, sym, ◌∙◌, arith, Option, none, some, List, [], ◌∷◌, ◌++◌, append-nil,
  append_assoc, ◌==◌, ==_iff, length, get_elem?, All-get_elem?, ok, >>=-eq-ok, map_err-eq-ok,
  ok_or-eq-ok, ok-injective, same_bytes_iff, Bool-cases, inl, inr,
}
use detllm.Coder.Range.Encoder.{RangeEncoder}
use detllm.Coder.Range.Encoder
use detllm.Coder.Range.Decoder
use detllm.Coder.Range.Renorm.{IsReady}
use detllm.Coder.Range.Window.{Covers}
use detllm.Coder.Range.Narrow.{IsSymbol}
use detllm.Coder.Range.Follow.{follow}
use detllm.Coder.Range.Symbol.{encode-IsReady, symbol_follows}
use detllm.Coder.Range.Ends.{finish-Covers, new-IsReady, new_lem}
use detllm.Coder.Cdf.{Cdf}
use detllm.Coder.Cdf.Table.{Positive, Falls}
use detllm.Coder.Cdf.Valid.{IsValid, validate-IsValid, IsValid-validate}
use detllm.Coder.Cdf.Lookup.{symbol_for_validated-Falls, Falls-IsSymbol, entry-Falls}
use detllm.Coder.Stream.{
  StreamError, zip, encode_loop, encode_token_stream, decode_loop, decode_token_stream,
}

zip-eq-some : (o p : Option ℕ) {a b : ℕ} → zip o p ≡ some (a, b) → (o ≡ some a) × (p ≡ some b)
zip-eq-some none p h = cc
zip-eq-some (some x) none h = cc
zip-eq-some (some x) (some y) h = ground arith

-- What a successful round of `encode_loop` shows.
pub record Round (c : Cdf) (token : ℕ) (e : RangeEncoder) : Type 0 where
  pub valid : IsValid c
  pub cum : ℕ
  pub freq : ℕ
  pub at_cum : get_elem? c.cum token ≡ some cum
  pub at_freq : get_elem? c.freq token ≡ some freq
  pub next : RangeEncoder
  pub run : Encoder.encode e cum freq c.total ≡ ok next

pub encode_loop-Round :
    (c : Cdf) (cdfs : List Cdf) (token : ℕ) (tokens : List ℕ) (e : RangeEncoder)
    {last : RangeEncoder}
    → encode_loop (c ∷ cdfs) (token ∷ tokens) e ≡ ok last
    → (r : Round c token e) × (encode_loop cdfs tokens r.next ≡ ok last)
unfolding encode_loop
encode_loop-Round c cdfs token tokens e h =
    let (u, checked, h₁) = >>=-eq-ok _ _ h in
    let ((cum, freq), found, h₂) = >>=-eq-ok _ _ h₁ in
    let (next, run, h₃) = >>=-eq-ok _ _ h₂ in
    let (at_cum, at_freq) = zip-eq-some _ _ (ok_or-eq-ok _ _ found) in
    (
      record {
        valid = validate-IsValid c (map_err-eq-ok _ _ checked);
        cum = cum;
        freq = freq;
        at_cum = at_cum;
        at_freq = at_freq;
        next = next;
        run = map_err-eq-ok _ _ run;
      },
      h₃,
    )

module _ {c : Cdf} {token : ℕ} {e : RangeEncoder} (r : Round c token e) where
  open r use {cum, freq}

  Round-Falls : (value : ℕ) → cum ≤ value → value < cum + freq → Falls 0 c.freq token cum freq value
  Round-Falls value above below = entry-Falls r.valid r.at_cum r.at_freq above below

  Round-IsSymbol : IsSymbol cum freq c.total
  Round-IsSymbol =
      let occurs : 0 < freq = All-get_elem? Positive c.freq token r.valid.positive r.at_freq in
      Falls-IsSymbol r.valid (Round-Falls cum (omega arith) (omega arith))

  Round-IsReady : IsReady e → IsReady r.next
  Round-IsReady ready =
      let (next, run, ready') = encode-IsReady ready Round-IsSymbol in
      rw (ok-injective (sym r.run ∙ run)) ready'

-- What the encoder's loop from `e` on puts behind the bytes of `e`, the decoder's loop reads.
abbrev Read : List Cdf → List ℕ → RangeEncoder → RangeEncoder → Type 0
Read cdfs tokens e last =
    (rest : List ℕ) × (Encoder.finish last ≡ e.out ++ rest)
    × Covers e.low e.range rest
    × ((out : List ℕ) → decode_loop cdfs (follow e rest) out ≡ ok (out ++ tokens))

decode-Round :
    {c : Cdf} (cdfs : List Cdf) {token : ℕ} (tokens : List ℕ) {e : RangeEncoder}
    (last : RangeEncoder)
    → IsReady e
    → (r : Round c token e) → Read cdfs tokens r.next last
    → Read (c ∷ cdfs) (token ∷ tokens) e last
unfolding decode_loop
decode-Round {c} cdfs {token} tokens {e} last ready r (rest', written, covers', more) =
    let (rest, same, covers, value, above, below, asked, told) =
      symbol_follows rest' ready (Round-IsSymbol r) r.run covers' in
    let falls = Round-Falls r value above below in
    (
      rest,
      written ∙ sym same,
      covers,
      λ out. rw (
        IsValid-validate c r.valid,
        asked,
        symbol_for_validated-Falls r.valid falls,
        r.at_cum,
        r.at_freq,
        told,
        more (out ++ (token ∷ [])),
        append_assoc,
      ),
    )

encode_loop-Read :
    (cdfs : List Cdf) (tokens : List ℕ) {e last : RangeEncoder}
    → length cdfs ≡ length tokens
    → IsReady e
    → encode_loop cdfs tokens e ≡ ok last
    → Read cdfs tokens e last
encode_loop-Read [] [] {e} {last} same ready h =
    let here : e ≡ last = ok-injective {E = StreamError} (unfold encode_loop in h) in
    let (rest, written, covers) = finish-Covers ready in
    (rest, rw (← here) written, covers, λ out. unfold decode_loop in rw append-nil)
encode_loop-Read [] (token ∷ tokens) same ready h = absurd (omega arith)
encode_loop-Read (c ∷ cdfs) [] same ready h = absurd (omega arith)
encode_loop-Read (c ∷ cdfs) (token ∷ tokens) {e} {last} same ready h =
    let (r, more) = encode_loop-Round c cdfs token tokens e h in
    decode-Round cdfs tokens last ready r (
      encode_loop-Read cdfs tokens {e = r.next} {last = last} (omega arith) (Round-IsReady r ready)
        more)

pub encode_token_stream-ok :
    (cdfs : List Cdf) (tokens bytes : List ℕ)
    → encode_token_stream cdfs tokens ≡ ok bytes
    → (length cdfs ≡ length tokens)
      × (last : RangeEncoder) × (encode_loop cdfs tokens Encoder.new ≡ ok last)
      × (Encoder.finish last ≡ bytes)
unfolding encode_token_stream
encode_token_stream-ok cdfs tokens bytes h = elim (Bool-cases (length cdfs == length tokens)) [
  | inl same ↦
      let (last, run, done) = >>=-eq-ok _ _ (rw (same, encode_token_stream) at h) in
      ((==_iff _ _).0 same, last, run, ok-injective done)
  | inr other ↦ cc (rw (other, encode_token_stream) at h)
]

-- If `encode_token_stream` writes bytes for some tokens, then `decode_token_stream` reads those
-- bytes back to the tokens with the same tables.
pub decode-encode_token_stream :
    (cdfs : List Cdf) (tokens bytes : List ℕ)
    → encode_token_stream cdfs tokens ≡ ok bytes
    → decode_token_stream cdfs bytes ≡ ok tokens
unfolding decode_token_stream
decode-encode_token_stream cdfs tokens bytes h =
    let (same, last, run, done) = encode_token_stream-ok cdfs tokens bytes h in
    let (rest, written, covers, read) = encode_loop-Read cdfs tokens same new-IsReady run in
    let bytes-eq : bytes ≡ rest = sym done ∙ (unfold Encoder.new in written) in
    let start : Decoder.new bytes ≡ ok (follow Encoder.new rest) =
      rw bytes-eq (new_lem rest covers.bytes_only covers.long) in
    rw (start, read [], h, (same_bytes_iff bytes bytes).1 refl)
