-- ===== src/Codec/Symbols/Table.antt =====
-- The uniform table of the state is made once and stays.
use detllm.Base.{
  ℕ, ◌≡◌, ◌⊎◌, inl, inr, ◌∙◌, sym, ap, subst, Bool, true, false, not, ◌&&◌, List, [], ◌∷◌, leb,
  ◌==◌, if◌then◌else◌, length, slice, Outcome, ok, ◌>>◌, >>=-eq-ok, guard-eq-ok, guard, ok_or,
  map_err-eq-ok, ok-injective, checked_add,
}
use detllm.Coder.Cdf.{Cdf, uniform_cdf_with_byte_escapes, byte_escape_symbols, too_many_symbols}
use detllm.Coder.Cdf.Logits.{Floats}
use detllm.Token.Codec.{codec_symbol_is_token}
use detllm.Codec.{next_window_start}
use detllm.Codec.Model.{
  CodecError, Model, rope_error, cache_error, workspace_error, forward_error, outside_vocabulary,
  cdf,
}
use detllm.Codec.State.{State, uniform_table, new, advance, advance_all, replay, sync}
use detllm.Codec.Symbols.{push_token, push_encoded, push_decoded}
use detllm.Codec.Symbols.Agree.{Even, uniform_cdf-Even}

if-cases :
    {A : Type 0} (test : Bool) (a b : A) {c : A} → (if test then a else b) ≡ c → (a ≡ c) ⊎ (b ≡ c)
if-cases true a b h = inl h
if-cases false a b h = inr h

-- A check that has passed can be left out.
if-guarded :
    {A : Type 0} (test passed : Bool) (first second : Outcome CodecError A) (e : CodecError) {a : A}
    → (if test then first else (guard passed e >> second)) ≡ ok a
    → (if test then first else second) ≡ ok a
if-guarded true passed first second e h = h
if-guarded false passed first second e h = (guard-eq-ok passed e second h).1

module _ (floats : Floats) (model : Model floats.F32) where
  advance-table :
      (token : ℕ) (s : State floats model) {s' : State floats model}
      → advance floats model token s ≡ ok s'
      → s'.table ≡ s.table
  unfolding advance
  advance-table token s h =
      let (room, h₁) = guard-eq-ok (not (leb s.n_ctx s.context_len)) _ _ h in
      let (out, stepped, h₂) =
        >>=-eq-ok
          (ok_or (model.forward_one token s.context_len s.rope s.cache s.logits s.workspace)
            forward_error)
          _ h₁ in
      sym (ap (λ (s : State floats model). s.table) (ok-injective h₂))

  advance_all-table :
      (context : List ℕ) (s : State floats model) {s' : State floats model}
      → advance_all floats model context s ≡ ok s'
      → s'.table ≡ s.table
  unfolding advance_all
  advance_all-table [] s h = sym (ap (λ (s : State floats model). s.table) (ok-injective h))
  advance_all-table (token ∷ context) s h =
      let (s₁, first, h₁) = >>=-eq-ok (advance floats model token s) _ h in
      advance_all-table context s₁ h₁ ∙ advance-table token s first

  replay-table :
      (start : ℕ) (context : List ℕ) (s : State floats model) {s' : State floats model}
      → replay floats model start context s ≡ ok s'
      → s'.table ≡ s.table
  unfolding replay
  replay-table start context s h =
      let (cache, made, h₁) = >>=-eq-ok (ok_or model.new_cache cache_error) _ h in
      advance_all-table context _ h₁

  if-table :
      (test : Bool) (s : State floats model) (replayed : Outcome CodecError (State floats model))
      {s' : State floats model}
      → (replayed ≡ ok s' → s'.table ≡ s.table)
      → (if test then ok s else replayed) ≡ ok s'
      → s'.table ≡ s.table
  if-table true s replayed k h = sym (ap (λ (s : State floats model). s.table) (ok-injective h))
  if-table false s replayed k h = k h

  pub sync-table :
      (pos : ℕ) (tokens : List ℕ) (overlap : ℕ) (s : State floats model) {s' : State floats model}
      → sync floats model pos tokens overlap s ≡ ok s'
      → s'.table ≡ s.table
  unfolding sync
  sync-table pos tokens overlap s h =
      let (same, h₁) = guard-eq-ok (pos == length tokens) _ _ h in
      let start = next_window_start pos s.window_start s.n_ctx overlap in
      if-table (start == s.window_start) s (replay floats model start (slice start pos tokens) s)
        (replay-table start (slice start pos tokens) s) h₁

  push_token-table :
      (symbol : ℕ) (context : List ℕ) (s : State floats model) {context' : List ℕ}
      {s' : State floats model}
      → push_token floats model symbol context s ≡ ok (context', s')
      → s'.table ≡ s.table
  unfolding push_token
  push_token-table symbol context s h =
      let (s₁, stepped, h₁) = >>=-eq-ok (advance floats model symbol s) _ h in
      sym (ap (λ (p : List ℕ × State floats model). p.1.table) (ok-injective h₁))
      ∙ advance-table symbol s stepped

  push_decoded-table :
      (escapes : Bool) (symbol : ℕ) (context : List ℕ) (s : State floats model) {context' : List ℕ}
      {s' : State floats model}
      → push_decoded floats model escapes symbol context s ≡ ok (context', s')
      → s'.table ≡ s.table
  unfolding push_decoded
  push_decoded-table escapes symbol context s h =
      elim (if-cases (escapes && not (codec_symbol_is_token symbol model.rows)) _ _ h) [
        | inl here ↦ sym (ap (λ (p : List ℕ × State floats model). p.1.table) (ok-injective here))
        | inr pushed ↦ push_token-table symbol context s pushed
      ]

  -- What the encoder does at the end of a round, the decoder does.
  pub push_decoded-push_encoded :
      (escapes : Bool) (symbol : ℕ) (context : List ℕ) (s : State floats model) {context' : List ℕ}
      {s' : State floats model}
      → push_encoded floats model escapes symbol context s ≡ ok (context', s')
      → (push_decoded floats model escapes symbol context s ≡ ok (context', s'))
        × (s'.table ≡ s.table)
  unfolding push_encoded push_decoded
  push_decoded-push_encoded escapes symbol context s h =
      let done =
        if-guarded (escapes && not (codec_symbol_is_token symbol model.rows))
          (not (leb model.rows symbol)) (ok (context, s)) (push_token floats model symbol context s)
          (outside_vocabulary symbol) h in
      (done, push_decoded-table escapes symbol context s done)

  uniform_table-Even :
      (escapes : Bool) {c : Cdf} → uniform_table floats model escapes ≡ ok c → (n : ℕ) × Even n c
  unfolding uniform_table uniform_cdf_with_byte_escapes
  uniform_table-Even true h =
      let (n, sum, h₁) =
        >>=-eq-ok (ok_or (checked_add model.rows byte_escape_symbols) too_many_symbols) _
          (map_err-eq-ok cdf _ h) in
      (n, uniform_cdf-Even n h₁)
  uniform_table-Even false h = (model.rows, uniform_cdf-Even model.rows (map_err-eq-ok cdf _ h))

  -- A new state has a uniform table.
  pub new-Even :
      (n_ctx : ℕ) (escapes : Bool) {s : State floats model}
      → new floats model n_ctx escapes ≡ ok s
      → (n : ℕ) × Even n s.table
  unfolding new
  new-Even n_ctx escapes {s} h =
      let (rope, h₁', h₁) = >>=-eq-ok (ok_or (model.rope_tables n_ctx) rope_error) _ h in
      let (cache, h₂', h₂) = >>=-eq-ok (ok_or model.new_cache cache_error) _ h₁ in
      let (workspace, h₃', h₃) =
        >>=-eq-ok (ok_or (model.forward_workspace n_ctx) workspace_error) _ h₂ in
      let (table, made, h₄) = >>=-eq-ok (uniform_table floats model escapes) _ h₃ in
      let (n, even) = uniform_table-Even escapes made in
      (n, subst (Even n) (ap (λ (s : State floats model). s.table) (ok-injective h₄)) even)
