-- ===== src/Fs/Retry.antt =====
-- internal/fs/tree.go: the reading of an error (`isRetryableStreamError`, `isCanceledReadError`,
-- `errno`), and the two loops that try again: `fetchWindow`, and `fetchPayload` in `Open`, which writes
-- a temporary file of the object cache. An error is what `errors.Is` and `status.Code` tell of it and
-- its text; the network, the clock and the file system answer as arguments.
pub mod Settled
pub mod Payload
mod Checks
use neofs_mount.Prelude.{
  ℕ, ◌+◌, Text, codes, Bool, true, false, ◌&&◌, ◌||◌, Option, none, some, List, [], ◌∷◌, ◌++◌,
  strip, if◌then◌else◌, zero, suc, length,
}
use neofs_mount.Fs.Directory.{starts_with}
use neofs_mount.Fs.Upload.{write_at}

pub record StreamError : Type 0 where
  pub unexpected_eof : Bool
  pub canceled : Bool
  pub deadline_exceeded : Bool
  pub object_not_found : Bool
  pub container_not_found : Bool
  pub object_access_denied : Bool
  pub object_already_removed : Bool
  pub code_canceled : Bool
  pub message : Text

-- `strings.Contains`
unfoldable pub contains_text : Text → Text → Bool
contains_text part [] = starts_with part []
contains_text part (c ∷ s) = starts_with part (c ∷ s) || contains_text part s

-- `isRetryableStreamError`
unfoldable pub is_retryable_stream_error : StreamError → Bool
unfolding contains_text
is_retryable_stream_error e =
    if e.unexpected_eof
    then true
    else if e.canceled || e.deadline_exceeded
    then false
    else if e.object_not_found
        || (e.container_not_found || (e.object_access_denied || e.object_already_removed))
    then false
    else contains_text (codes "unexpected EOF") e.message
      || (contains_text (codes "connection reset") e.message
          || (contains_text (codes "broken pipe") e.message
              || (contains_text (codes "transport is closing") e.message
                  || contains_text (codes "server closed the stream") e.message)))

-- `isCanceledReadError`
unfoldable pub is_canceled_read_error : Option StreamError → Bool
is_canceled_read_error none = false
is_canceled_read_error (some e) = e.canceled || e.code_canceled

pub data Errno : Type 0 where
  ok enoent eacces eio : Errno

-- `errno`
unfoldable pub errno_of : Option StreamError → Errno
errno_of none = ok
errno_of (some e) =
    if e.object_not_found || e.container_not_found
    then enoent
    else if e.object_access_denied
    then eacces
    else if e.object_already_removed
    then enoent
    else eio

-- `fmt.Errorf` with `%w`: the error says the same to `errors.Is`.
abbrev pub wrap : Text → StreamError → StreamError
wrap prefix e = record e { message = prefix ++ e.message }

abbrev pub max_attempts : ℕ
max_attempts = 3

pub data Window : Type 0 where
  bytes : Text → Window
  failed : StreamError → Window

abbrev pub last_window : Option StreamError → Window
last_window none = bytes []
last_window (some e) = failed e

-- The error of the context, if it ends while an attempt that is not the first waits.
abbrev pub stopped : (ℕ → Option StreamError) → ℕ → Option StreamError
stopped done zero = none
stopped done (suc i) = done (suc i)

unfoldable pub after_window : (StreamError → Window) → Window → Window
after_window again (bytes buf) = bytes buf
after_window again (failed e) =
    let next = again e in if is_retryable_stream_error e then next else failed e

-- The loop of `fetchWindow`, with the attempts that are left, the number of the next one, and the last
-- error; `ask` is the answer of each attempt.
unfoldable pub window_attempts :
    (ℕ → Option StreamError) → (ℕ → Window) → ℕ → ℕ → Option StreamError → Window
unfolding after_window
window_attempts done ask zero i last = last_window last
window_attempts done ask (suc left) i last = elim (stopped done i) [
  | some e ↦ failed e
  | none ↦ after_window (λ e. window_attempts done ask left (suc i) (some e)) (ask i)
]

-- `fetchWindow`
unfoldable pub fetch_window : (ℕ → Option StreamError) → (ℕ → Window) → Window
unfolding window_attempts
fetch_window done ask = window_attempts done ask max_attempts 0 none

-- The temporary file of the cache, with the place where the next write goes.
pub record File : Type 0 where
  pub content : Text
  pub pos : ℕ

-- What one `ObjectGet` and the copy of its payload come to.
pub data Attempt : Type 0 where
  not_got : StreamError → Attempt
  broken : Text → StreamError → Attempt
  copied : Text → Attempt

abbrev pub append_to : Text → File → File
append_to buf f = record { content = write_at f.pos buf f.content; pos = f.pos + length buf }

-- What the file and the context answer at an attempt: the error of `Seek`, whether `Truncate` works,
-- and the error of a context that ends.
pub record Retrying : Type 0 where
  pub seek_error : ℕ → Option StreamError
  pub truncates : ℕ → Bool
  pub context_error : ℕ → Option StreamError
  pub seek_prefix : Text
  pub get_prefix : Text
  pub copy_prefix : Text

abbrev pub rewound : Retrying → ℕ → File → Option StreamError → File × Option StreamError
rewound r i f (some e) = (f, some (wrap r.seek_prefix e))
rewound r i f none =
    (record { content = if r.truncates i then [] else f.content; pos = 0 }, r.context_error i)

-- What comes before an attempt.
unfoldable pub prepare : Retrying → ℕ → File → File × Option StreamError
prepare r zero f = (f, none)
prepare r (suc i) f = rewound r (suc i) f (r.seek_error (suc i))

unfoldable pub after_attempt :
    Retrying
    → (StreamError → File → File × Option StreamError)
    → File
    → Attempt
    → File × Option StreamError
after_attempt r again f (not_got e) =
    let next = again (wrap r.get_prefix e) f in
    if is_retryable_stream_error e then next else (f, some (wrap r.get_prefix e))
after_attempt r again f (broken part e) =
    let next = again (wrap r.copy_prefix e) (append_to part f) in
    if is_retryable_stream_error e then next else (append_to part f, some (wrap r.copy_prefix e))
after_attempt r again f (copied buf) = (append_to buf f, none)

unfoldable pub continue_with :
    (File → File × Option StreamError) → File × Option StreamError → File × Option StreamError
continue_with go (f, some e) = (f, some e)
continue_with go (f, none) = go f

unfoldable pub payload_attempts :
    Retrying → (ℕ → Attempt) → ℕ → ℕ → Option StreamError → File → File × Option StreamError
unfolding prepare after_attempt continue_with
payload_attempts r ask zero i last f = (f, last)
payload_attempts r ask (suc left) i last f =
    continue_with
      (λ g. after_attempt r (λ e h. payload_attempts r ask left (suc i) (some e) h) g (ask i))
      (prepare r i f)

-- `fetchPayload`, into a new file.
unfoldable pub fetch_payload : Retrying → (ℕ → Attempt) → File × Option StreamError
unfolding payload_attempts
fetch_payload r ask = payload_attempts r ask max_attempts 0 none (record { content = []; pos = 0 })
