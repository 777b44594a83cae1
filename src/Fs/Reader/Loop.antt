-- ===== src/Fs/Reader/Loop.antt =====
-- internal/fs/tree.go: `Read` of a `rangeFileHandle`, with `noteRead` and the prefetches that a read
-- queues (`queueLookahead`, `prefetchTail`).
use neofs_mount.Prelude.{
  ℕ, zero, suc, ◌+◌, ◌-◌, ◌*◌, ◌^◌, Text, true, false, not, ◌&&◌, ◌||◌, Option, none, some, List,
  [], ◌∷◌, ◌++◌, ltb, leb, ◌==◌, if◌then◌else◌, length, take, drop,
}
use neofs_mount.Fs.Reader.{
  chunk_size, lookahead, Chunk, Handle, tail_probe_start, at_most, lookup_chunk_locked, touch_chunk,
  plan_fetch, Ensure, ensure_chunk, Loaded, finish_chunk_fetch, err, ok, covered, wait, fetch,
}

-- The loop of `queueLookahead`, with the rounds that are left and the counter.
unfoldable pub targets_from : ℕ → ℕ → ℕ → ℕ → ℕ → List (ℕ × ℕ)
targets_from size start fetched zero i = []
targets_from size start fetched (suc left) i =
    let next_start = start + fetched * i in
    let rest = targets_from size start fetched left (i + 1) in
    if leb size next_start then [] else (next_start, at_most size (next_start + fetched)) ∷ rest

-- What `queueLookahead` prefetches after a chunk of some length at a start was fetched.
unfoldable pub queue_lookahead : ℕ → ℕ → ℕ → List (ℕ × ℕ)
unfolding targets_from
queue_lookahead size start fetched =
    if fetched == chunk_size then targets_from size start fetched lookahead 1 else []

-- What `prefetchTail` does.
unfoldable pub prefetch_tail : ℕ → List (ℕ × ℕ)
unfolding tail_probe_start
prefetch_tail size =
    let tail = tail_probe_start size in
    if leb size (2 * chunk_size) || leb tail 0 then [] else (tail, size) ∷ []

abbrev pub queue_ahead : ℕ → ℕ → Handle → Handle
queue_ahead start fetched h = record h { queued = h.queued ++ queue_lookahead h.size start fetched }

-- `noteRead`
unfoldable pub note_read : ℕ → Handle → Handle
unfolding prefetch_tail
note_read off h = record h {
  was_read = true;
  queued = if not h.was_read && off == 0 then h.queued ++ prefetch_tail h.size else h.queued;
}

-- What one turn of the loop of `Read` comes to: an error, bytes, or `continue`.
pub data Turn : Type 0 where
  failed : ℕ → Turn
  again : Turn
  copied : Text → Turn

unfoldable pub copy_out : ℕ → ℕ → Option Chunk → Handle → Handle × Turn
unfolding touch_chunk
copy_out pos stop none h = (h, again)
copy_out pos stop (some ch) h =
    let chunk_off = pos - ch.start in
    (
      touch_chunk ch h,
      copied (take (at_most (stop - pos) (length ch.bytes - chunk_off)) (drop chunk_off ch.bytes)),
    )

unfoldable pub copy_turn : ℕ → ℕ → Handle → Handle × Turn
unfolding copy_out
copy_turn pos stop h = copy_out pos stop (lookup_chunk_locked pos h) h

unfoldable pub after_load : ℕ → ℕ → ℕ → Loaded → Handle → Handle × Turn
after_load pos stop start (err e) h = ((finish_chunk_fetch start (err e) h).0, failed e)
after_load pos stop start (ok buf) h =
    copy_turn pos stop (queue_ahead start (length buf) (finish_chunk_fetch start (ok buf) h).0)

-- Without another goroutine no chunk is being fetched when a turn begins, so none is waited for.
unfoldable pub after_ensure : (ℕ → ℕ → Loaded) → ℕ → ℕ → ℕ → Handle × Ensure → Handle × Turn
unfolding after_load
after_ensure load pos stop start (h, covered) = copy_turn pos stop h
after_ensure load pos stop start (h, wait) = (h, again)
after_ensure load pos stop start (h, fetch len) = after_load pos stop start (load start len) h

-- One turn of the loop of `Read`, with no other goroutine between its stretches, also none of those
-- that it starts; `load` is `loadChunk`.
unfoldable pub turn : (ℕ → ℕ → Loaded) → ℕ → ℕ → Handle → Handle × Turn
turn load pos stop h =
    let (start, need_end) = plan_fetch pos stop h in
    after_ensure load pos stop start (ensure_chunk start need_end 0 h)

pub data Answer : Type 0 where
  bytes : Text → Answer
  overflow : Answer
  failed : ℕ → Answer
  out_of_turns : Answer

-- The loop of `Read`, with the turns that are left and what has been copied.
unfoldable pub read_turns : ℕ → (ℕ → ℕ → Loaded) → ℕ → ℕ → Text → Handle → Handle × Answer
read_turns zero load pos stop out h = (h, out_of_turns)
read_turns (suc n) load pos stop out h = elim (ltb pos stop) [
  | false ↦ (h, bytes out)
  | true ↦
      let (h', t) = turn load pos stop h in
      elim t [
        | Turn.failed e ↦ (h', Answer.failed e)
        | again ↦ read_turns n load pos stop out h'
        | copied b ↦ read_turns n load (pos + length b) stop (out ++ b) h'
      ]
]

-- `Read` of `len` bytes at `off`; a turn that copies advances, so `len + 1` turns are enough.
unfoldable pub read : (ℕ → ℕ → Loaded) → ℕ → ℕ → Handle → Handle × Answer
read load len off h =
    if len == 0 || leb h.size off
    then (h, bytes [])
    else if leb (2 ^ 63) (off + len)
    then (note_read off h, overflow)
    else read_turns (len + 1) load off (at_most h.size (off + len)) [] (note_read off h)
