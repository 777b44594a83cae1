-- ===== src/Fs/Reader/Checks.antt =====
-- The range handle at concrete inputs.
use neofs_mount.Prelude.{ℕ, ◌≡◌, refl, Text, codes, false, [], ◌∷◌, inl, ◌⊎◌, arith}
use neofs_mount.Prelude.Slices.{slice}
use neofs_mount.Fs.Reader.{Handle, Loaded, ok, tail_probe_start}
use neofs_mount.Fs.Reader.Loop.{queue_lookahead, note_read, read}
use neofs_mount.Fs.Reader.Ahead.{run_prefetch, Follow, BoundedIfAny, queue_lookahead-run_prefetch}
use neofs_mount.Fs.Reader.Progress.{IsReady}
use neofs_mount.Fs.Reader.Turns.{Honest}
use neofs_mount.Fs.Reader.Reads.{Reads, ReadFails, read-Reads}

abbrev text : Text
text = codes "hello, world"

abbrev load_text : ℕ → ℕ → Loaded
load_text start n = ok (slice start n text)

load_text-Honest : Honest text load_text
load_text-Honest start n h = inl refl

-- `newRangeFileHandle`
abbrev opened : Handle
opened = record { size = 12; chunks = []; use_seq = 0; was_read = false; queued = [] }

opened-IsReady : IsReady text opened
opened-IsReady = record { whole = refl; sound = tt; idle = tt; distinct = tt }

read-Reads_example :
    Reads load_text text (slice 7 5 text) (read load_text 9 7 opened)
    ⊎ ReadFails load_text (read load_text 9 7 opened).1
read-Reads_example =
    read-Reads text load_text 9 7 opened load_text-Honest opened-IsReady (omega arith)

-- The first read at the start of a large object queues its tail.
queued_tail :
    (note_read 0
      (record { size = 10000000; chunks = []; use_seq = 0; was_read = false; queued = [] })).queued
    ≡ (9961472, 10000000) ∷ []
unfolding note_read tail_probe_start
queued_tail = refl

-- The last chunk of a handle of ten million bytes is ahead of its second.
queue_lookahead-run_prefetch_example :
    Follow 10000000 8388608 (queue_lookahead 10000000 4194304 4194304)
    × BoundedIfAny 8388608 10000000
        (run_prefetch 8388608 10000000 0
          (record { size = 10000000; chunks = []; use_seq = 0; was_read = false; queued = [] })).1
queue_lookahead-run_prefetch_example =
    queue_lookahead-run_prefetch 4194304 4194304 8388608 10000000 0
      (record { size = 10000000; chunks = []; use_seq = 0; was_read = false; queued = [] })
