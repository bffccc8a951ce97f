-- ===== src/Codec.antt =====
-- crates/det-cli/src/main.rs: the window of the model's context, of which the codec keeps the last
-- tokens when it is full.
pub mod Model
pub mod Load
pub mod State
pub mod Symbols
pub mod File
mod Tests
use detllm.Base.{
  ℕ, ◌+◌, ◌-◌, ◌*◌, ◌^◌, ◌≤◌, ◌<◌, ◌≡◌, ◌↔◌, arith, not, ltb, leb, ◌==◌, if◌then◌else◌, Outcome, ok,
  err, ◌>>=◌, ◌>>◌, guard,
}

-- The messages of `validate_window`.
pub data WindowError : Type 0 where
  empty_context : WindowError
  exceeds_model overlap_too_large : ℕ → ℕ → WindowError

unfoldable pub validate_window : ℕ → ℕ → ℕ → Outcome WindowError (Unit {0})
validate_window n_ctx overlap model_ctx = do
  guard (not (n_ctx == 0)) empty_context
  guard (not (ltb model_ctx n_ctx)) (exceeds_model n_ctx model_ctx)
  guard (not (leb n_ctx overlap)) (overlap_too_large overlap n_ctx)

-- `saturating_sub` on words is the difference of numbers.
unfoldable pub next_window_start : ℕ → ℕ → ℕ → ℕ → ℕ
next_window_start pos window_start n_ctx overlap =
    if leb n_ctx (pos - window_start) then pos - overlap else window_start

-- In a window that `validate_window` accepts, and from a start that leaves at most `n_ctx` tokens,
-- the next start is not before the old one and not behind the position, and leaves fewer than
-- `n_ctx` tokens, so that one more fits; if it moves, exactly `overlap` tokens stay.
pub next_window_start-room :
    (pos window_start n_ctx overlap model_ctx : ℕ)
    → validate_window n_ctx overlap model_ctx ≡ ok tt
    → window_start ≤ pos
    → pos ≤ window_start + n_ctx
    → (window_start ≤ next_window_start pos window_start n_ctx overlap)
      × (next_window_start pos window_start n_ctx overlap ≤ pos)
      × (pos < next_window_start pos window_start n_ctx overlap + n_ctx)
      × (window_start < next_window_start pos window_start n_ctx overlap
          → next_window_start pos window_start n_ctx overlap + overlap ≡ pos)
unfolding validate_window next_window_start
next_window_start-room pos window_start n_ctx overlap model_ctx accepted le room = ground arith
