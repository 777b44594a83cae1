-- ===== src/Fs/Retry/Payload.antt =====
-- What `fetchPayload` has written when it answers no error.
use neofs_mount.Prelude.{
  ℕ, ◌≡◌, refl, ap, Text, Bool, true, false, Option, none, some, [], ◌∷◌, ◌++◌, append-nil, drop,
  length, if◌then◌else◌, zero, suc, arith, ◌==◌, ◌&&◌,
}
use neofs_mount.Prelude.Slices.{drop-nil}
use neofs_mount.Fs.Upload.{overlay, write_at}
use neofs_mount.Fs.Retry.{
  StreamError, Retrying, Attempt, not_got, broken, copied, File, append_to, prepare, rewound,
  after_attempt, continue_with, payload_attempts, fetch_payload, is_retryable_stream_error, wrap,
}

-- That a text begins with another.
unfoldable pub is_prefix : Text → Text → Bool
is_prefix [] s = true
is_prefix (c ∷ p) [] = false
is_prefix (c ∷ p) (d ∷ s) = c == d && is_prefix p s

-- An attempt to get an object: what is copied of it is the start of its payload, or all of it.
abbrev pub Copies : Text → Attempt → Type 0
Copies payload (not_got e) = Unit
Copies payload (broken part e) = is_prefix part payload ≡ true
Copies payload (copied buf) = buf ≡ payload

-- Writing the whole over a start of it leaves the whole, also if the file was not truncated.
overlay-whole :
    (part whole : Text) → is_prefix part whole ≡ true → whole ++ drop (length whole) part ≡ whole
unfolding is_prefix
overlay-whole [] whole h = rw (drop-nil (length whole)) (append-nil whole)
overlay-whole (c ∷ part) [] h = absurd (ground arith)
overlay-whole (c ∷ part) (d ∷ whole) h = ap (◌∷◌ d) (overlay-whole part whole (ground arith))

write_at-whole : (part whole : Text) → is_prefix part whole ≡ true → write_at 0 whole part ≡ whole
unfolding write_at overlay is_prefix
write_at-whole [] [] h = refl
write_at-whole (c ∷ part) [] h = absurd (ground arith)
write_at-whole part (d ∷ whole) h = overlay-whole part (d ∷ whole) h

-- Writing a start over another start leaves a start.
overlay-part :
    (a b whole : Text)
    → is_prefix a whole ≡ true
    → is_prefix b whole ≡ true
    → is_prefix (b ++ drop (length b) a) whole ≡ true
unfolding is_prefix
overlay-part a [] whole h k = h
overlay-part a (c ∷ b) [] h k = absurd (ground arith)
overlay-part [] (c ∷ b) (d ∷ whole) h k =
    ground (arith, overlay-part [] b whole, drop-nil (length b), append-nil b)
overlay-part (x ∷ a) (c ∷ b) (d ∷ whole) h k = ground (arith, overlay-part a b whole)

write_at-part :
    (a b whole : Text)
    → is_prefix a whole ≡ true
    → is_prefix b whole ≡ true
    → is_prefix (write_at 0 b a) whole ≡ true
unfolding write_at overlay
write_at-part a [] whole h k = h
write_at-part a (c ∷ b) whole h k = overlay-part a (c ∷ b) whole h k

-- What holds of a file between the attempts, and of an answer.
abbrev Begun : Text → ℕ → File → Type 0
Begun payload zero f = (f.content ≡ []) × (f.pos ≡ 0)
Begun payload (suc i) f = is_prefix f.content payload ≡ true

abbrev Ready : Text → File → Type 0
Ready payload f = (is_prefix f.content payload ≡ true) × (f.pos ≡ 0)

abbrev Good : Text → File × Option StreamError → Type 0
Good payload (f, none) = f.content ≡ payload
Good payload (f, some e) = Unit

abbrev Prepared : Text → File × Option StreamError → Type 0
Prepared payload (f, none) = Ready payload f
Prepared payload (f, some e) = Unit

rewound-Prepared :
    (r : Retrying) (payload : Text) (i : ℕ) (f : File) (e : Option StreamError)
    → is_prefix f.content payload ≡ true
    → Prepared payload (rewound r i f e)
unfolding is_prefix
rewound-Prepared r payload i f (some e) h = tt
rewound-Prepared r payload i f none h = with_context (r.context_error i)
  where
    with_truncate : (b : Bool) → is_prefix (if b then [] else f.content) payload ≡ true
    with_truncate true = refl
    with_truncate false = h

    with_context :
        (e : Option StreamError)
        → Prepared payload
            (record { content = if r.truncates i then [] else f.content; pos = 0 }, e)
    with_context none = (with_truncate (r.truncates i), refl)
    with_context (some e) = tt

prepare-Prepared :
    (r : Retrying) (payload : Text) (i : ℕ) (f : File)
    → Begun payload i f
    → Prepared payload (prepare r i f)
unfolding prepare is_prefix
prepare-Prepared r payload zero f h = (ground (arith, h.0), h.1)
prepare-Prepared r payload (suc i) f h =
    rewound-Prepared r payload (suc i) f (r.seek_error (suc i)) h

continue_with-Good :
    (payload : Text) (go : File → File × Option StreamError) (p : File × Option StreamError)
    → Prepared payload p
    → ((f : File) → Ready payload f → Good payload (go f))
    → Good payload (continue_with go p)
unfolding continue_with
continue_with-Good payload go (f, some e) h goes = tt
continue_with-Good payload go (f, none) h goes = goes f h

-- One of two answers.
Good-if :
    (payload : Text) (b : Bool) (o o' : File × Option StreamError)
    → Good payload o
    → Good payload o'
    → Good payload (if b then o else o')
Good-if payload true o o' h k = h
Good-if payload false o o' h k = k

after_attempt-Good :
    (r : Retrying) (payload : Text) (again : StreamError → File → File × Option StreamError)
    (f : File) (a : Attempt)
    → Ready payload f
    → Copies payload a
    → ((e : StreamError) (g : File) → is_prefix g.content payload ≡ true → Good payload (again e g))
    → Good payload (after_attempt r again f a)
unfolding after_attempt
after_attempt-Good r payload again f (not_got e) ready copies goes =
    Good-if payload (is_retryable_stream_error e) (again (wrap r.get_prefix e) f)
      (f, some (wrap r.get_prefix e)) (goes (wrap r.get_prefix e) f ready.0) tt
after_attempt-Good r payload again f (broken part e) ready copies goes =
    Good-if payload (is_retryable_stream_error e) (again (wrap r.copy_prefix e) (append_to part f))
      (append_to part f, some (wrap r.copy_prefix e))
      (goes (wrap r.copy_prefix e) (append_to part f)
        (rw ready.1 (write_at-part f.content part payload ready.0 copies)))
      tt
after_attempt-Good r payload again f (copied buf) ready copies goes =
    rw (copies, ready.1) (write_at-whole f.content payload ready.0)

later-Good :
    (r : Retrying) (ask : ℕ → Attempt) (payload : Text) (left i : ℕ) (e : StreamError) (f : File)
    → ((i : ℕ) → Copies payload (ask i))
    → is_prefix f.content payload ≡ true
    → Good payload (payload_attempts r ask left (suc i) (some e) f)
unfolding payload_attempts
later-Good r ask payload zero i e f copies h = tt
later-Good r ask payload (suc left) i e f copies h =
    continue_with-Good payload
      (λ g.
        after_attempt r (λ e h. payload_attempts r ask left (suc (suc i)) (some e) h) g
          (ask (suc i)))
      (prepare r (suc i) f) (prepare-Prepared r payload (suc i) f h)
      (λ g ready.
        after_attempt-Good r payload (λ e h. payload_attempts r ask left (suc (suc i)) (some e) h) g
          (ask (suc i)) ready (copies (suc i))
          (λ e' g' h'. later-Good r ask payload left (suc i) e' g' copies h'))

fetch_payload-Good :
    (r : Retrying) (ask : ℕ → Attempt) (payload : Text)
    → ((i : ℕ) → Copies payload (ask i))
    → Good payload (fetch_payload r ask)
unfolding fetch_payload payload_attempts continue_with prepare is_prefix
fetch_payload-Good r ask payload copies =
    after_attempt-Good r payload (λ e h. payload_attempts r ask 2 1 (some e) h)
      (record { content = []; pos = 0 }) (ask 0) (refl, refl) (copies 0)
      (λ e g h. later-Good r ask payload 2 0 e g copies h)

Good-content :
    (payload : Text) (out : File × Option StreamError)
    → Good payload out
    → out.1 ≡ none
    → out.0.content ≡ payload
Good-content payload (f, none) h e = h
Good-content payload (f, some x) h e = absurd (ground arith)

-- If every attempt copies the payload or, when it breaks, a start of it, then a fetch without an error
-- has left exactly the payload in the file, however many attempts broke before, and also if no
-- truncation worked.
pub fetch_payload-content :
    (r : Retrying) (ask : ℕ → Attempt) (payload : Text)
    → ((i : ℕ) → Copies payload (ask i))
    → (fetch_payload r ask).1 ≡ none
    → (fetch_payload r ask).0.content ≡ payload
fetch_payload-content r ask payload copies e =
    Good-content payload (fetch_payload r ask) (fetch_payload-Good r ask payload copies) e
