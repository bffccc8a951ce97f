-- ===== src/Num/Sha256/Buffer.antt =====
-- What a hash holds, and the two parts of `update`.
use Prim.Native.Nat.{min}
use detllm.Base.{
  ℕ, ◌+◌, ◌-◌, ◌/◌, ◌%◌, ◌^◌, ◌≤◌, ◌<◌, ◌≡◌, ◌∙◌, refl, sym, ap, arith, true, false, List, [], ◌∷◌,
  ◌++◌, append_assoc, length, length-append, ◌==◌, take, drop, length-drop, replicate, copy_at,
  copy_at-append,
}
use detllm.Num.Sha256.{Words, Sha256, new, compress, whole_blocks, fill, absorb}
use detllm.Num.Sha256.Blocks.{Ran, Ran-nil, whole_blocks-Ran}

-- The hash has taken the message `m`: its whole blocks are compressed, and the rest is in front in
-- the buffer.
pub record Holds (m : List ℕ) (s : Sha256) : Type 0 where
  pub done : List ℕ
  pub tail : List ℕ
  pub blank : List ℕ
  pub message : m ≡ done ++ tail
  pub ran : Ran done s.state
  pub buffer : s.buf ≡ tail ++ blank
  pub width : length s.buf ≡ 64
  pub tail_len : length tail ≡ s.buf_len
  pub short : s.buf_len < 64
  pub count : s.len ≡ length m % 2 ^ 64

pub new-Holds : Holds [] new
new-Holds = record {
  done = [];
  tail = [];
  blank = replicate 64 0;
  message = refl;
  ran = Ran-nil;
  buffer = refl;
  width = refl;
  tail_len = refl;
  short = omega arith;
  count = refl;
}

absorb_end :
    (s : Sha256) (input : List ℕ) (w : Words)
    → whole_blocks (length input / 64) s.state input ≡ (w, [])
    → absorb s input ≡ record s { state = w }
unfolding absorb
absorb_end s input w h = rw h refl

pub absorb_nothing : (s : Sha256) → absorb s [] ≡ s
unfolding whole_blocks
absorb_nothing s = absorb_end s [] s.state refl

absorb_rest :
    (s : Sha256) (input : List ℕ) (w : Words) (b : ℕ) (rest : List ℕ)
    → whole_blocks (length input / 64) s.state input ≡ (w, b ∷ rest)
    → absorb s input
      ≡ record s { state = w; buf = copy_at 0 (b ∷ rest) s.buf; buf_len = length (b ∷ rest) }
unfolding absorb
absorb_rest s input w b rest h = rw h refl

copy_first : (bytes out : List ℕ) → copy_at 0 bytes out ≡ bytes ++ drop (length bytes) out
copy_first bytes out = copy_at-append 0 bytes [] out refl

length-copy_first :
    (bytes out : List ℕ) → length bytes ≤ length out → length (copy_at 0 bytes out) ≡ length out
length-copy_first bytes out h =
    rw copy_first
      (omega (arith, length-append bytes (drop (length bytes) out), length-drop (length bytes) out))

-- What the loop leaves of the input goes to the front of the buffer.
absorbed :
    (s : Sha256) (done input taken : List ℕ) (w : Words) (rest : List ℕ)
    → length s.buf ≡ 64
    → s.buf_len ≡ 0
    → s.len ≡ length (done ++ input) % 2 ^ 64
    → whole_blocks (length input / 64) s.state input ≡ (w, rest)
    → input ≡ taken ++ rest
    → Ran (done ++ taken) w
    → length rest < 64
    → Holds (done ++ input) (absorb s input)
absorbed s done input taken w [] width empty count e same ran short =
    rw (absorb_end s input w e) (record {
      done = done ++ taken;
      tail = [];
      blank = s.buf;
      message = ap (◌++◌ done) same ∙ sym (append_assoc done taken []);
      ran = ran;
      buffer = refl;
      width = width;
      tail_len = sym empty;
      short = omega arith;
      count = count;
    })
absorbed s done input taken w (b ∷ rest) width empty count e same ran short =
    rw (absorb_rest s input w b rest e) (record {
      done = done ++ taken;
      tail = b ∷ rest;
      blank = drop (length (b ∷ rest)) s.buf;
      message = ap (◌++◌ done) same ∙ sym (append_assoc done taken (b ∷ rest));
      ran = ran;
      buffer = copy_first (b ∷ rest) s.buf;
      width = length-copy_first (b ∷ rest) s.buf (omega arith) ∙ width;
      tail_len = refl;
      short = short;
      count = count;
    })

-- The rest of `update`, with an empty buffer.
pub absorb-Holds :
    (s : Sha256) (done input : List ℕ)
    → Ran done s.state
    → length s.buf ≡ 64
    → s.buf_len ≡ 0
    → s.len ≡ length (done ++ input) % 2 ^ 64
    → Holds (done ++ input) (absorb s input)
absorb-Holds s done input ran width empty count =
    let (taken, same, ran', short) =
      whole_blocks-Ran (length input / 64) s.state input done ran (omega arith) in
    absorbed s done input taken _ _ width empty count refl same ran' short

pub fill_whole :
    (s : Sha256) (input : List ℕ) (n : ℕ)
    → min (64 - s.buf_len) (length input) ≡ n
    → s.buf_len + n ≡ 64
    → fill s input ≡ (
      record s {
        state = compress s.state (copy_at s.buf_len (take n input) s.buf);
        buf = copy_at s.buf_len (take n input) s.buf;
        buf_len = 0;
      },
      drop n input,
    )
unfolding fill
fill_whole s input n h full =
    let test : (s.buf_len + n == 64) ≡ true = ground arith in rw (h, test) refl

pub fill_part :
    (s : Sha256) (input : List ℕ) (n : ℕ)
    → min (64 - s.buf_len) (length input) ≡ n
    → s.buf_len + n < 64
    → fill s input ≡ (
      record s { buf = copy_at s.buf_len (take n input) s.buf; buf_len = s.buf_len + n },
      drop n input,
    )
unfolding fill
fill_part s input n h less =
    let test : (s.buf_len + n == 64) ≡ false = ground arith in rw (h, test) refl
