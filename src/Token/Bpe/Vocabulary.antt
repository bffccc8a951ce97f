-- ===== src/Token/Bpe/Vocabulary.antt =====
-- What the constructor of `ByteBpeTokenizer` enters is the vocabulary, and the rules join texts.
use detllm.Base.{
  ℕ, suc, ◌≤◌, ◌^◌, ◌≡◌, ◌∙◌, refl, ap, subst, arith, Bool, true, false, not, Option, none, some,
  some-injective, List, [], ◌∷◌, ◌++◌, length, Outcome, ok, >>=-eq-ok, guard-eq-ok, ok-injective,
  Map, insert, insert-eq-some, is_some, bytes_eq, num_eq, pair_eq, no_keys, inl, inr,
}
use detllm.Token.{TokenError, missing_token_bytes, missing_merge_token}
use detllm.Token.Pieces.{token_piece_bytes, parse_merge}
use detllm.Token.Spelling.{piece_at, Knows-nothing, Knows-all, Left-all}
use detllm.Token.Bpe.{
  ByteBpeTokenizer, enter_tokens, or_skip, find_rule, add_rule, add_merges,
  from_tokens_merges_and_emit_mask,
}
use detllm.Token.Bpe.Entering.{ByteTokens, Texts, Joins, Rules, EnteredTo, enter_tokens-EnteredTo}

or_skip-some :
    {A : Type 0} (masked : Bool) (e : TokenError) (o : Option ℕ)
    (next : ℕ → Outcome TokenError (Option A)) {a : A}
    → or_skip masked e o next ≡ ok (some a)
    → (id : ℕ) × (o ≡ some id) × (next id ≡ ok (some a))
unfolding or_skip
or_skip-some masked e (some id) next h = (id, refl, h)
or_skip-some true e none next h = absurd (cc (ok-injective h))
or_skip-some false e none next h = absurd (cc h)

find_rule-Joins :
    (tokens : List (List ℕ)) (masked : Bool) (m : Map (List ℕ) ℕ) (x y : List ℕ)
    {left right merged : ℕ}
    → Texts tokens m
    → find_rule masked m x y ≡ ok (some ((left, right), merged))
    → Joins tokens left right merged
unfolding find_rule Joins Texts
find_rule-Joins tokens masked m x y {left} {right} {merged} h run =
    let (l, found_l, run') = or_skip-some masked (missing_token_bytes x) (m x) _ run in
    let (r, found_r, run'') = or_skip-some masked (missing_token_bytes y) (m y) _ run' in
    let (k, found_k, end) =
      or_skip-some masked (missing_merge_token (x ++ y)) (m (x ++ y)) _ run'' in
    let same : ◌≡◌ {A = (ℕ × ℕ) × ℕ} ((l, r), k) ((left, right), merged) =
      some-injective (ok-injective end) in
    let same_l : l ≡ left = ap (λ (p : (ℕ × ℕ) × ℕ). p.0.0) same in
    let same_r : r ≡ right = ap (λ (p : (ℕ × ℕ) × ℕ). p.0.1) same in
    let same_k : k ≡ merged = ap (λ (p : (ℕ × ℕ) × ℕ). p.1) same in
    (
      x,
      y,
      h x left (found_l ∙ ap some same_l),
      h y right (found_r ∙ ap some same_r),
      h (x ++ y) merged (found_k ∙ ap some same_k),
    )

add_rule-Rules :
    (tokens : List (List ℕ)) (merge : List ℕ) (rank : ℕ) (rule : Option ((ℕ × ℕ) × ℕ))
    (m : Map (ℕ × ℕ) (ℕ × ℕ)) {m' : Map (ℕ × ℕ) (ℕ × ℕ)}
    → ((left right merged : ℕ)
        → rule ≡ some ((left, right), merged)
        → Joins tokens left right merged)
    → Rules tokens m
    → add_rule merge rank rule m ≡ ok m'
    → Rules tokens m'
unfolding add_rule Rules
add_rule-Rules tokens merge rank none m joins h run = subst (Rules tokens) (ok-injective run) h
add_rule-Rules tokens merge rank (some ((l, r), k)) m {m'} joins h run =
    λ left right rank' merged found.
      let (fresh, run') = guard-eq-ok (not (is_some (m (l, r)))) _ _ run in
      let found' : insert (l, r) (rank, k) m (left, right) ≡ some (rank', merged) =
        ap (λ (f : Map (ℕ × ℕ) (ℕ × ℕ)). f (left, right)) (ok-injective run') ∙ found in
      elim (insert-eq-some (l, r) (rank, k) m found') [
        | inl (same, same') ↦
            let same_l : l ≡ left = ap (λ (p : ℕ × ℕ). p.0) same in
            let same_r : r ≡ right = ap (λ (p : ℕ × ℕ). p.1) same in
            let same_k : k ≡ merged = ap (λ (p : ℕ × ℕ). p.1) same' in
            subst (λ i. Joins tokens i right merged) same_l
              (subst (λ i. Joins tokens l i merged) same_r
                (subst (Joins tokens l r) same_k (joins l r k refl)))
        | inr (other, old) ↦ h left right rank' merged old
      ]

add_merges-Rules :
    (tokens : List (List ℕ)) (masked : Bool) (texts : Map (List ℕ) ℕ) (rank : ℕ)
    (merges : List (List ℕ)) (m : Map (ℕ × ℕ) (ℕ × ℕ)) {m' : Map (ℕ × ℕ) (ℕ × ℕ)}
    → Texts tokens texts
    → Rules tokens m
    → add_merges masked texts rank merges m ≡ ok m'
    → Rules tokens m'
unfolding add_merges
add_merges-Rules tokens masked texts rank [] m t h run = subst (Rules tokens) (ok-injective run) h
add_merges-Rules tokens masked texts rank (merge ∷ merges) m t h run =
    let ((left, right), first, run') = >>=-eq-ok (parse_merge merge) _ run in
    let x = token_piece_bytes left in
    let y = token_piece_bytes right in
    let (rule, second, run'') = >>=-eq-ok (find_rule masked texts x y) _ run' in
    let (m'', third, end) = >>=-eq-ok (add_rule merge rank rule m) _ run'' in
    let joins : (l r k : ℕ) → rule ≡ some ((l, r), k) → Joins tokens l r k =
      λ l r k e. find_rule-Joins tokens masked texts x y t (second ∙ ap ok e) in
    add_merges-Rules tokens masked texts (suc rank) merges m'' t
      (add_rule-Rules tokens merge rank rule m joins h third) end

-- What a finished tokenizer keeps of the vocabulary.
pub record Built (tokens : List (List ℕ)) (t : ByteBpeTokenizer) : Type 0 where
  pub bytes : ByteTokens tokens t.byte_to_token
  pub whole : (id : ℕ) → t.token_to_bytes id ≡ piece_at tokens id
  pub rules : Rules tokens t.merge_ranks
  pub small : length tokens ≤ 2 ^ 32

no_keys-EnteredTo :
    (tokens : List (List ℕ))
    → EnteredTo tokens
        record { byte_to_token = no_keys; token_to_bytes = no_keys; bytes_to_token = no_keys }
        0
unfolding ByteTokens Texts
no_keys-EnteredTo tokens = record {
  bytes = λ b id found. cc found;
  texts = λ bytes id found. cc found;
  knows = Knows-nothing tokens;
}

no_keys-Rules : (tokens : List (List ℕ)) → Rules tokens no_keys
unfolding Rules
no_keys-Rules tokens left right rank merged found = cc

pub from_tokens-Built :
    (tokens merges : List (List ℕ)) (emit_mask : Option (List Bool)) {t : ByteBpeTokenizer}
    → from_tokens_merges_and_emit_mask tokens merges emit_mask ≡ ok t
    → Built tokens t
unfolding from_tokens_merges_and_emit_mask
from_tokens-Built tokens merges emit_mask {t} run =
    let (e, first, run') = >>=-eq-ok (enter_tokens emit_mask 0 tokens _) _ run in
    let (m, second, end) =
      >>=-eq-ok (add_merges (is_some emit_mask) e.bytes_to_token 0 merges no_keys) _ run' in
    let (last, entered, high, small) =
      enter_tokens-EnteredTo tokens emit_mask 0 tokens _ (Left-all tokens) (omega arith)
        (no_keys-EnteredTo tokens) first in
    let rules =
      add_merges-Rules tokens (is_some emit_mask) e.bytes_to_token 0 merges no_keys entered.texts
        (no_keys-Rules tokens) second in
    let same = ok-injective end in
    subst (Built tokens) same record {
      bytes = entered.bytes;
      whole = Knows-all tokens e.token_to_bytes last entered.knows high;
      rules = rules;
      small = omega (arith, high, small);
    }
