-- ===== src/Token/Pieces/Unicode.antt =====
-- The byte of a character of GPT-2's alphabet, and the text of a byte.
use detllm.Base.{
  ℕ, zero, suc, ◌+◌, ◌-◌, ◌≤◌, ◌<◌, ◌≡◌, ◌↔◌, ◌∙◌, ==_iff, inl, inr, refl, arith, true, false, none,
  some, ltb, ◌==◌, if◌then◌else◌, some-injective, Bool-cases, sym, ap,
}
use detllm.Token.Pieces.{is_printable, search_byte, gpt2_char_to_byte}

-- How many of the bytes below `b` are not printable.
unfoldable gaps : ℕ → ℕ
gaps b =
    if ltb b 33
    then b
    else if ltb b 127
    then 33
    else if ltb b 161
    then b - 94
    else if ltb b 174
    then 67
    else 68

-- The table `bytes_to_unicode` of GPT-2: a printable byte is its own character, the others are
-- numbered from 256.
unfoldable pub byte_to_unicode : ℕ → ℕ
byte_to_unicode b =
    if ltb b 33
    then 256 + b
    else if ltb b 127
    then b
    else if ltb b 161
    then b + 162
    else if b == 173
    then 323
    else b

gaps_zero : gaps 0 ≡ 0
unfolding gaps
gaps_zero = refl

gaps-suc : (b : ℕ) → b < 256 → (if is_printable b then gaps b else suc (gaps b)) ≡ gaps (suc b)
unfolding gaps is_printable
gaps-suc b h = ground arith

-- One round, whose count of unprintable bytes is the right one.
search_byte-suc :
    (rounds byte code : ℕ)
    → byte < 256
    → search_byte (suc rounds) byte (gaps byte) code ≡ (
        if is_printable byte
        then search_byte rounds (suc byte) (gaps (suc byte)) code
        else if code == 256 + gaps byte
        then some byte
        else search_byte rounds (suc byte) (gaps (suc byte)) code)
unfolding search_byte
search_byte-suc rounds byte code h = rw (← gaps-suc byte h) refl

byte_to_unicode-gap : (b : ℕ) → b < 256 → is_printable b ≡ false → byte_to_unicode b ≡ 256 + gaps b
unfolding byte_to_unicode gaps is_printable
byte_to_unicode-gap b h q = ground arith

byte_to_unicode-printable : (b : ℕ) → is_printable b ≡ true → byte_to_unicode b ≡ b
unfolding byte_to_unicode is_printable
byte_to_unicode-printable b h = ground arith

gaps-lt : (a b : ℕ) → a < b → b < 256 → is_printable a ≡ false → gaps a < gaps b
unfolding gaps is_printable
gaps-lt a b lt h q = ground arith

search_byte-zero : (byte n code : ℕ) → search_byte 0 byte n code ≡ none
unfolding search_byte
search_byte-zero byte n code = refl

unicode_printable :
    (b : ℕ) → b < 256 → is_printable (byte_to_unicode b) ≡ true → byte_to_unicode b ≡ b
unfolding byte_to_unicode is_printable
unicode_printable b h p = ground arith

unicode_unprintable :
    (b : ℕ) → b < 256 → is_printable (byte_to_unicode b) ≡ false → is_printable b ≡ false
unfolding byte_to_unicode is_printable
unicode_unprintable b h p = ground arith

printable-lt : (b : ℕ) → is_printable b ≡ true → b < 256
unfolding is_printable
printable-lt b p = ground arith

search_byte_sound :
    (rounds byte code : ℕ) {b : ℕ}
    → byte + rounds ≡ 256
    → search_byte rounds byte (gaps byte) code ≡ some b
    → (byte_to_unicode b ≡ code) × (b < 256) × (is_printable b ≡ false)
search_byte_sound zero byte code e h = cc (search_byte-zero byte (gaps byte) code)
search_byte_sound (suc rounds) byte code {b} e h =
    let step = search_byte-suc rounds byte code (omega arith) in
    let rest = search_byte_sound rounds (suc byte) code {b = b} (omega arith) in
    elim (Bool-cases (is_printable byte)) [
      | inl p ↦ rest (sym (rw p at step) ∙ h)
      | inr q ↦ elim (Bool-cases (code == 256 + gaps byte)) [
        | inl same ↦
            let found : byte ≡ b = some-injective (sym (rw (q, same) at step) ∙ h) in
            rw (← found) (
              byte_to_unicode-gap byte (omega arith) q
                  ∙ sym ((==_iff code (256 + gaps byte)).0 same),
              omega arith,
              q,
            )
        | inr other ↦ rest (sym (rw (q, other) at step) ∙ h)
      ]
    ]

search_byte_complete :
    (rounds byte b : ℕ)
    → byte + rounds ≡ 256
    → byte ≤ b
    → b < 256
    → is_printable b ≡ false
    → search_byte rounds byte (gaps byte) (256 + gaps b) ≡ some b
search_byte_complete zero byte b e le lt h = absurd (omega arith)
search_byte_complete (suc rounds) byte b e le lt h =
    let step = search_byte-suc rounds byte (256 + gaps b) (omega arith) in
    let rest = search_byte_complete rounds (suc byte) b (omega arith) in
    elim (Bool-cases (is_printable byte)) [
      | inl p ↦
          let later : byte < b = elim (Bool-cases (byte == b)) [
            | inl same ↦ absurd (cc (p, h, (==_iff byte b).0 same))
            | inr other ↦ ground arith
          ] in
          rw p at step ∙ rest (omega arith) lt h
      | inr q ↦ elim (Bool-cases (byte == b)) [
        | inl same ↦
            let same' : byte ≡ b = (==_iff byte b).0 same in
            let found : (256 + gaps b == 256 + gaps byte) ≡ true =
              (==_iff (256 + gaps b) (256 + gaps byte)).1 (ap (λ k. 256 + gaps k) (sym same')) in
            rw (q, found) at step ∙ ap some same'
        | inr other ↦
            let later : byte < b = ground arith in
            let more : gaps byte < gaps b = gaps-lt byte b later lt q in
            let missed : (256 + gaps b == 256 + gaps byte) ≡ false = ground arith in
            rw (q, missed) at step ∙ rest (omega arith) lt h
      ]
    ]

-- `gpt2_char_to_byte` is the inverse of GPT-2's table: it gives the byte `b` for the character
-- that the table has at `b`, and for no other.
pub gpt2_char_to_byte_iff :
    (code b : ℕ) → (gpt2_char_to_byte code ≡ some b) ↔ ((byte_to_unicode b ≡ code) × (b < 256))
unfolding gpt2_char_to_byte
gpt2_char_to_byte_iff code b =
    let start : gaps 0 ≡ 0 = gaps_zero in
    elim (Bool-cases (is_printable code)) [
      | inl p ↦ rw p (
        (λ h.
            let same = some-injective h in
            rw (← same) (byte_to_unicode-printable code p, printable-lt code p)),
        λ h. let same = unicode_printable b h.1 (cc (p, h.0)) in ap some (sym h.0 ∙ same),
      )
      | inr q ↦ rw q (
        (λ h.
            let found = search_byte_sound 256 0 code {b = b} (omega arith) (rw start h) in
            (found.0, found.1)),
        λ h.
            let q' = unicode_unprintable b h.1 (cc (q, h.0)) in
            let found = search_byte_complete 256 0 b (omega arith) (omega arith) h.1 q' in
            rw (sym h.0, byte_to_unicode-gap b h.1 q') (rw start at found),
      )
    ]
