-- ===== src/Fs/Retry/Checks.antt =====
-- A fetch that breaks once and then succeeds.
use neofs_mount.Prelude.{ℕ, ◌≡◌, refl, ◌<◌, inl, codes, true, false, none, zero, suc, arith, strip}
use neofs_mount.Fs.Retry.{
  StreamError, Retrying, Attempt, broken, copied, Window, bytes, failed, fetch_window,
  fetch_payload, is_retryable_stream_error, payload_attempts, prepare, after_attempt, continue_with,
  contains_text,
}
use neofs_mount.Fs.Retry.Payload.{Copies, is_prefix, fetch_payload-content}
use neofs_mount.Fs.Retry.Settled.{goes_on, fetch_window-settled}

-- A connection that was reset.
abbrev reset : StreamError
reset = record {
  unexpected_eof = false;
  canceled = false;
  deadline_exceeded = false;
  object_not_found = false;
  container_not_found = false;
  object_access_denied = false;
  object_already_removed = false;
  code_canceled = false;
  message = codes "connection reset";
}

abbrev retrying : Retrying
retrying = record {
  seek_error = λ i. none;
  truncates = λ i. false;
  context_error = λ i. none;
  seek_prefix = codes "seek: ";
  get_prefix = codes "get: ";
  copy_prefix = codes "copy: ";
}

abbrev attempts : ℕ → Attempt
attempts zero = broken (codes "ab") reset
attempts (suc i) = copied (codes "abcd")

attempts-Copies : (i : ℕ) → Copies (codes "abcd") (attempts i)
unfolding is_prefix
attempts-Copies zero = refl
attempts-Copies (suc i) = refl

fetch_payload-content_example : (fetch_payload retrying attempts).0.content ≡ codes "abcd"
unfolding fetch_payload payload_attempts prepare after_attempt continue_with
    is_retryable_stream_error contains_text strip
fetch_payload-content_example =
    fetch_payload-content retrying attempts (codes "abcd") attempts-Copies refl

abbrev windows : ℕ → Window
windows zero = failed reset
windows (suc i) = bytes (codes "ab")

windows-before : (j : ℕ) → j < 1 → goes_on (windows j) ≡ true
unfolding goes_on is_retryable_stream_error contains_text strip
windows-before zero h = refl
windows-before (suc j) h = absurd (omega arith)

fetch_window-settled_example : fetch_window (λ i. none) windows ≡ bytes (codes "ab")
unfolding goes_on
fetch_window-settled_example =
    fetch_window-settled (λ i. none) windows 1 (λ i. refl) (omega arith) windows-before (inl refl)
