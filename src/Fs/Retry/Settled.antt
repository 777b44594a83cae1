-- ===== src/Fs/Retry/Settled.antt =====
-- How often the loops try: an attempt that brings its bytes or an error of another kind is the last.
use neofs_mount.Prelude.{
  ℕ, ◌≡◌, refl, ap, sym, ◌∙◌, ◌⊎◌, inl, inr, ◌<◌, ◌+◌, Bool, true, false, Option, none, some, zero,
  suc, arith,
}
use neofs_mount.Fs.Retry.{
  StreamError, is_retryable_stream_error, Window, bytes, failed, stopped, after_window,
  window_attempts, fetch_window, max_attempts,
}

-- That an answer makes the loop go on.
unfoldable pub goes_on : Window → Bool
goes_on (bytes buf) = false
goes_on (failed e) = is_retryable_stream_error e

abbrev error_of : Window → Option StreamError
error_of (bytes buf) = none
error_of (failed e) = some e

module _ (done : ℕ → Option StreamError) (ask : ℕ → Window) (lives : (i : ℕ) → done i ≡ none) where
  stopped-none : (i : ℕ) → stopped done i ≡ none
  stopped-none zero = refl
  stopped-none (suc i) = lives (suc i)

  after_window-settled :
      (again : StreamError → Window) (a : Window) → goes_on a ≡ false → after_window again a ≡ a
  unfolding after_window goes_on
  after_window-settled again (bytes buf) h = refl
  after_window-settled again (failed e) h = rw h refl

  after_window-goes_on :
      (again : StreamError → Window) (e : StreamError)
      → goes_on (failed e) ≡ true
      → after_window again (failed e) ≡ again e
  unfolding after_window goes_on
  after_window-goes_on again e h = rw h refl

  -- One turn.
  turn :
      (left i : ℕ) (last : Option StreamError)
      → window_attempts done ask (suc left) i last
        ≡ after_window (λ e. window_attempts done ask left (suc i) (some e)) (ask i)
  unfolding window_attempts
  turn left i last = rw (window_attempts, stopped-none i) refl

  last_turn :
      (i : ℕ) (a : Window) → after_window (λ e. window_attempts done ask 0 (suc i) (some e)) a ≡ a
  unfolding after_window window_attempts
  last_turn i (bytes buf) = refl
  last_turn i (failed e) = ground arith

  -- A turn whose answer goes on is followed by the next.
  next_turn :
      (left i : ℕ) (last : Option StreamError) (x : Window)
      → goes_on (ask i) ≡ true
      → ((e : StreamError) → window_attempts done ask left (suc i) (some e) ≡ x)
      → window_attempts done ask (suc left) i last ≡ x
  unfolding goes_on
  next_turn left i last x h rest = turn left i last ∙ followed (ask i) h
    where
      followed :
          (a : Window)
          → goes_on a ≡ true
          → after_window (λ e. window_attempts done ask left (suc i) (some e)) a ≡ x
      followed (bytes buf) g = absurd (ground arith)
      followed (failed e) g =
          after_window-goes_on (λ y. window_attempts done ask left (suc i) (some y)) e g ∙ rest e

  settled_at :
      (k left i : ℕ) (last : Option StreamError)
      → k < left
      → ((j : ℕ) → j < k → goes_on (ask (i + j)) ≡ true)
      → (goes_on (ask (i + k)) ≡ false) ⊎ (suc k ≡ left)
      → window_attempts done ask left i last ≡ ask (i + k)
  settled_at k zero i last h before here = absurd (omega arith)
  settled_at zero (suc left) i last h before (inl here) =
      let e : i + 0 ≡ i = omega arith in
      rw e (
        turn left i last
        ∙ after_window-settled (λ x. window_attempts done ask left (suc i) (some x)) (ask i)
            (ap (λ n. goes_on (ask n)) (sym e) ∙ here))
  settled_at zero (suc zero) i last h before (inr here) =
      let e : i + 0 ≡ i = omega arith in rw e (turn 0 i last ∙ last_turn i (ask i))
  settled_at zero (suc (suc left)) i last h before (inr here) = absurd (omega arith)
  settled_at (suc k) (suc left) i last h before here =
      let e : i + suc k ≡ suc i + k = omega arith in
      rw e (
        next_turn left i last (ask (suc i + k))
          (ap (λ n. goes_on (ask n)) (omega arith) ∙ before 0 (omega arith))
          (λ x.
            settled_at k left (suc i) (some x) (omega arith)
              (λ j l. ap (λ n. goes_on (ask n)) (omega arith) ∙ before (suc j) (omega arith))
              (shift here)))
    where
      shift :
          (goes_on (ask (i + suc k)) ≡ false) ⊎ (suc (suc k) ≡ suc left)
          → (goes_on (ask (suc i + k)) ≡ false) ⊎ (suc k ≡ left)
      shift (inl z) = inl (ap (λ n. goes_on (ask n)) (omega arith) ∙ z)
      shift (inr z) = inr (omega arith)

-- While its context lives, fetchWindow answers with one of its first three attempts: the first that
-- brings bytes or an error that is not retried, and the third, whatever it brings, if the first two are
-- to be retried.
pub fetch_window-settled :
    (done : ℕ → Option StreamError) (ask : ℕ → Window) (k : ℕ)
    → ((i : ℕ) → done i ≡ none)
    → k < max_attempts
    → ((j : ℕ) → j < k → goes_on (ask j) ≡ true)
    → (goes_on (ask k) ≡ false) ⊎ (k ≡ 2)
    → fetch_window done ask ≡ ask k
unfolding fetch_window
fetch_window-settled done ask k lives h before here =
    let e : 0 + k ≡ k = omega arith in
    settled_at done ask lives k 3 0 none h
      (λ j l. ap (λ n. goes_on (ask n)) (omega arith) ∙ before j l) (at_end here)
    ∙ ap ask e
  where
    at_end : (goes_on (ask k) ≡ false) ⊎ (k ≡ 2) → (goes_on (ask (0 + k)) ≡ false) ⊎ (suc k ≡ 3)
    at_end (inl z) = inl (ap (λ n. goes_on (ask n)) (omega arith) ∙ z)
    at_end (inr z) = inr (omega arith)
