-- ===== src/Token/Bpe/Entering.antt =====
-- The first loop of the constructor enters the vocabulary.
use detllm.Base.{
  ℕ, suc, ◌≤◌, ◌^◌, ◌≡◌, ◌∙◌, ap, subst, arith, Bool, true, false, not, Option, some, List, [], ◌∷◌,
  ◌++◌, length, ok, >>=-eq-ok, guard-eq-ok, ok-injective, Map, insert, insert-eq-some, is_some,
  bytes_eq, num_eq, pair_eq, inl, inr,
}
use detllm.Token.Pieces.{token_piece_bytes}
use detllm.Token.Metadata.{token_is_emittable}
use detllm.Token.Fallback.{token_id}
use detllm.Token.Fallback.Vocabulary.{token_id-ok}
use detllm.Token.Spelling.{piece_at, Knows, Knows-insert, Left, Left-next, Left-here, Left-none}
use detllm.Token.Bpe.{Entered, enter_byte, enter_token, enter_tokens}

unfoldable pub ByteTokens : List (List ℕ) → Map ℕ ℕ → Type 0
ByteTokens tokens m = (b id : ℕ) → m b ≡ some id → piece_at tokens id ≡ some (b ∷ [])

unfoldable pub Texts : List (List ℕ) → Map (List ℕ) ℕ → Type 0
Texts tokens m = (bytes : List ℕ) (id : ℕ) → m bytes ≡ some id → piece_at tokens id ≡ some bytes

-- The third token stands for the bytes of the first two.
unfoldable pub Joins : List (List ℕ) → ℕ → ℕ → ℕ → Type 0
Joins tokens left right merged =
    (x : List ℕ) × (y : List ℕ) × (piece_at tokens left ≡ some x)
    × (piece_at tokens right ≡ some y)
    × (piece_at tokens merged ≡ some (x ++ y))

unfoldable pub Rules : List (List ℕ) → Map (ℕ × ℕ) (ℕ × ℕ) → Type 0
Rules tokens m =
    (left right rank merged : ℕ)
    → m (left, right) ≡ some (rank, merged)
    → Joins tokens left right merged

enter_byte-ByteTokens :
    (tokens : List (List ℕ)) (bytes : List ℕ) (id : ℕ) (m : Map ℕ ℕ) {m' : Map ℕ ℕ}
    → piece_at tokens id ≡ some bytes
    → ByteTokens tokens m
    → enter_byte bytes id m ≡ ok m'
    → ByteTokens tokens m'
unfolding enter_byte ByteTokens
enter_byte-ByteTokens tokens [] id m here h run = subst (ByteTokens tokens) (ok-injective run) h
enter_byte-ByteTokens tokens (byte ∷ []) id m {m'} here h run = λ b id' found.
    let (fresh, run') = guard-eq-ok (not (is_some (m byte))) _ _ run in
    let found' : insert byte id m b ≡ some id' =
      ap (λ (f : Map ℕ ℕ). f b) (ok-injective run') ∙ found in
    elim (insert-eq-some byte id m found') [
      | inl (same, same') ↦ rw (← same, ← same') here
      | inr (other, old) ↦ h b id' old
    ]
enter_byte-ByteTokens tokens (a ∷ b ∷ bytes) id m here h run =
    subst (ByteTokens tokens) (ok-injective run) h

insert-Texts :
    (tokens : List (List ℕ)) (bytes : List ℕ) (id : ℕ) (m : Map (List ℕ) ℕ)
    → piece_at tokens id ≡ some bytes
    → Texts tokens m
    → Texts tokens (insert bytes id m)
unfolding Texts
insert-Texts tokens bytes id m here h bytes' id' found = elim (insert-eq-some bytes id m found) [
  | inl (same, same') ↦ rw (← same, ← same') here
  | inr (other, old) ↦ h bytes' id' old
]

pub record EnteredTo (tokens : List (List ℕ)) (e : Entered) (idx : ℕ) : Type 0 where
  pub bytes : ByteTokens tokens e.byte_to_token
  pub texts : Texts tokens e.bytes_to_token
  pub knows : Knows tokens e.token_to_bytes idx

enter_token-EnteredTo :
    (tokens : List (List ℕ)) (emits : Bool) (bytes : List ℕ) (idx : ℕ) (e : Entered) {e' : Entered}
    → piece_at tokens idx ≡ some bytes
    → EnteredTo tokens e idx
    → enter_token emits bytes idx e ≡ ok e'
    → EnteredTo tokens e' (suc idx)
unfolding enter_token
enter_token-EnteredTo tokens false bytes idx e here h run =
    subst (λ e. EnteredTo tokens e (suc idx)) (ok-injective run)
      record {
        bytes = h.bytes;
        texts = h.texts;
        knows = Knows-insert tokens e.token_to_bytes idx bytes here h.knows;
      }
enter_token-EnteredTo tokens true bytes idx e here h run =
    let (m, first, run') = >>=-eq-ok (enter_byte bytes idx e.byte_to_token) _ run in
    let (fresh, run'') = guard-eq-ok (not (is_some (e.bytes_to_token bytes))) _ _ run' in
    subst (λ e. EnteredTo tokens e (suc idx)) (ok-injective run'')
      record {
        bytes = enter_byte-ByteTokens tokens bytes idx e.byte_to_token here h.bytes first;
        texts = insert-Texts tokens bytes idx e.bytes_to_token here h.texts;
        knows = Knows-insert tokens e.token_to_bytes idx bytes here h.knows;
      }

pub enter_tokens-EnteredTo :
    (tokens : List (List ℕ)) (emit_mask : Option (List Bool)) (idx : ℕ) (rest : List (List ℕ))
    (e : Entered) {e' : Entered}
    → Left tokens idx rest
    → idx ≤ 2 ^ 32
    → EnteredTo tokens e idx
    → enter_tokens emit_mask idx rest e ≡ ok e'
    → (end : ℕ) × EnteredTo tokens e' end × (length tokens ≤ end) × (end ≤ 2 ^ 32)
unfolding enter_tokens
enter_tokens-EnteredTo tokens emit_mask idx [] e left small h run =
    (idx, subst (λ e. EnteredTo tokens e idx) (ok-injective run) h, Left-none idx left, small)
enter_tokens-EnteredTo tokens emit_mask idx (token ∷ rest) e left small h run =
    let emits = token_is_emittable emit_mask idx in
    let bytes = token_piece_bytes token in
    let (id, first, run') = >>=-eq-ok (token_id idx) _ run in
    let (e', second, run'') = >>=-eq-ok (enter_token emits bytes id e) _ run' in
    let (same, lt) = token_id-ok idx first in
    let entered : enter_token emits bytes idx e ≡ ok e' =
      ap (λ i. enter_token emits bytes i e) same ∙ second in
    enter_tokens-EnteredTo tokens emit_mask (suc idx) rest e' (Left-next idx left) (omega arith)
      (enter_token-EnteredTo tokens emits bytes idx e (Left-here idx left) h entered) run''
