-- ===== src/Fs/Reader/Reads.antt =====
-- `Read` of the range handle, all turns of its loop together.
use neofs_mount.Prelude.{
  ℕ, zero, suc, ◌+◌, ◌-◌, ◌^◌, ◌≤◌, ◌<◌, ◌≡◌, ◌⊎◌, refl, Text, true, false, ◌||◌, ◌++◌, ltb, leb,
  ◌==◌, length, min, arith, Bool-cases, inl, inr, ltb→lt, ltb→le,
}
use neofs_mount.Prelude.Slices.{slice, length-slice, slice-append}
use neofs_mount.Fs.Reader.{Handle, at_most, Loaded, err}
use neofs_mount.Fs.Reader.Loop.{turn, Turn, copied, Answer, bytes, read_turns, note_read, read}
use neofs_mount.Fs.Reader.Progress.{IsReady}
use neofs_mount.Fs.Reader.Stores.{queued-IsReady}
use neofs_mount.Fs.Reader.Turns.{Honest, turn-Copies}
use neofs_mount.Fs.Reader.Ahead.{run_queued}
use neofs_mount.Fs.Reader.Queued.{run_queued-IsReady}

-- A read that fails has the error of a load.
abbrev pub ReadFails : (ℕ → ℕ → Loaded) → Answer → Type 0
ReadFails load answer =
    (e : ℕ) × (start : ℕ) × (n : ℕ) × (load start n ≡ err e) × (answer ≡ Answer.failed e)

-- A read of these bytes, after which the handle can be read again.
abbrev Copied : Text → Text → Handle × Answer → Type 0
Copied object wanted out = (out.1 ≡ bytes wanted) × IsReady object out.0

-- The same, also when what it queued was prefetched.
abbrev pub Reads : (ℕ → ℕ → Loaded) → Text → Text → Handle × Answer → Type 0
Reads load object wanted out =
    (out.1 ≡ bytes wanted) × IsReady object out.0 × IsReady object (run_queued load out.0)

Reads-prefetched :
    {object wanted : Text} (load : ℕ → ℕ → Loaded) (out : Handle × Answer)
    → Honest object load
    → Copied object wanted out ⊎ ReadFails load out.1
    → Reads load object wanted out ⊎ ReadFails load out.1
Reads-prefetched load out honest (inl (b, r)) = inl (b, r, run_queued-IsReady load honest r)
Reads-prefetched load out honest (inr f) = inr f

read_done :
    (n : ℕ) (load : ℕ → ℕ → Loaded) (pos stop : ℕ) (out : Text) (h : Handle)
    → ltb pos stop ≡ false
    → read_turns (suc n) load pos stop out h ≡ (h, bytes out)
unfolding read_turns
read_done n load pos stop out h e = rw (e, read_turns)

module _ (n : ℕ) (load : ℕ → ℕ → Loaded) (pos stop : ℕ) (out : Text) (h : Handle)
    (e : ltb pos stop ≡ true) where
  read_copied :
      (b : Text)
      → (turn load pos stop h).1 ≡ copied b
      → read_turns (suc n) load pos stop out h
        ≡ read_turns n load (pos + length b) stop (out ++ b) (turn load pos stop h).0
  unfolding read_turns
  read_copied b t = rw (read_turns, e, t)

  read_failed :
      (x : ℕ)
      → (turn load pos stop h).1 ≡ Turn.failed x
      → read_turns (suc n) load pos stop out h ≡ ((turn load pos stop h).0, Answer.failed x)
  unfolding read_turns
  read_failed x t = rw (read_turns, e, t)

module _ {object : Text} (load : ℕ → ℕ → Loaded) (honest : Honest object load) (off m : ℕ) where
  read_turns-Copied :
      (n k : ℕ) {h : Handle}
      → IsReady object h
      → off + m ≤ h.size
      → k ≤ m
      → m < n + k
      → Copied object
          (slice off m object)
          (read_turns n load (off + k) (off + m) (slice off k object) h)
        ⊎ ReadFails load (read_turns n load (off + k) (off + m) (slice off k object) h).1
  read_turns-Copied zero k r whole le lt = absurd (omega (arith, le, lt))
  read_turns-Copied (suc n) k {h} r whole le lt = elim (Bool-cases (ltb (off + k) (off + m))) [
    | inr e ↦
        let same : k ≡ m = omega (arith, le, ltb→le (off + k) (off + m) e) in
        rw (read_done n load (off + k) (off + m) (slice off k object) h e) (inl (rw same refl, r))
    | inl e ↦
        let before = ltb→lt (off + k) (off + m) e in
        elim (turn-Copies r (off + k) (off + m) before load honest whole) [
          | inr (x, start, len, l, t) ↦
              rw (read_failed n load (off + k) (off + m) (slice off k object) h e x t)
                (inr (x, start, len, l, refl))
          | inl c ↦
              let b = slice (off + k) c.count object in
              let full : length b ≡ c.count =
                length-slice (off + k) c.count object (omega (arith, c.in_range, whole, r.whole)) in
              let next =
                read_turns-Copied n (k + c.count) {h = (turn load (off + k) (off + m) h).0} c.ready
                  (omega (arith, c.ready.whole, r.whole, whole)) (omega (arith, c.in_range))
                  (omega (arith, lt, c.some_bytes)) in
              let sum : off + k + c.count ≡ off + (k + c.count) = omega arith in
              rw
                (
                  read_copied n load (off + k) (off + m) (slice off k object) h e b c.bytes,
                  full,
                  slice-append off k c.count object,
                  sum,
                )
                next
        ]
  ]

module _ {object : Text} (load : ℕ → ℕ → Loaded) (honest : Honest object load) (len off : ℕ)
    {h : Handle} (r : IsReady object h) where
  read_nothing :
      (len == 0 || leb h.size off) ≡ true
      → Copied object (slice off (min len (length object - off)) object) (read load len off h)
        ⊎ ReadFails load (read load len off h).1
  unfolding read
  read_nothing t =
      let none_left : min len (length object - off) ≡ 0 = ground (arith, r.whole) in
      rw (read, t, none_left) (inl (refl, r))

  read_some :
      (len == 0 || leb h.size off) ≡ false
      → off + len < 2 ^ 63
      → Copied object (slice off (min len (length object - off)) object) (read load len off h)
        ⊎ ReadFails load (read load len off h).1
  unfolding read note_read
  read_some t bound =
      let m = min len (length object - off) in
      let fits : leb (2 ^ 63) (off + len) ≡ false = ground arith in
      let stop : at_most h.size (off + len) ≡ off + min len (length object - off) =
        ground (arith, r.whole) in
      let start : off + 0 ≡ off = omega arith in
      let all =
        read_turns-Copied load honest off m (len + 1) 0 {h = note_read off h}
          (queued-IsReady true (note_read off h).queued r) (ground (arith, r.whole)) (omega arith)
          (omega arith) in
      rw (read, t, fits, stop) (rw start at all)

-- `Read` of a handle that is ready, of a range that does not overflow, while no other goroutine makes a
-- step, also none of the prefetches that it starts itself, gives exactly the bytes of the object from the
-- offset on, as many as were asked for and are there, or it fails with the error of a load. After the
-- bytes the handle is ready, and so it is when the prefetches that are queued have then run, one after
-- another.
pub read-Reads :
    (object : Text) (load : ℕ → ℕ → Loaded) (len off : ℕ) (h : Handle)
    → Honest object load
    → IsReady object h
    → off + len < 2 ^ 63
    → Reads load object (slice off (min len (length object - off)) object) (read load len off h)
      ⊎ ReadFails load (read load len off h).1
read-Reads object load len off h honest r bound =
    Reads-prefetched load (read load len off h) honest
      (elim (Bool-cases (len == 0 || leb h.size off)) [
        | inl t ↦ read_nothing load honest len off r t
        | inr t ↦ read_some load honest len off r t bound
      ])
