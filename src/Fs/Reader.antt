-- ===== src/Fs/Reader.antt =====
-- internal/fs/tree.go: `rangeFileHandle`, the chunk cache behind reads of large objects. Offsets are
-- int64 in the source; they are natural here, with the sum that may overflow tested as the source
-- tests it. The map of chunks is a list in which no two chunks have one start. The statistics
-- fields, which only the trace prints, are left out.
pub mod Loop
pub mod Chunks
pub mod Survival
pub mod Progress
pub mod Plans
pub mod Stores
pub mod Turns
pub mod Reads
pub mod Ahead
pub mod Queued
mod Checks
use neofs_mount.Prelude.{
  ℕ, zero, suc, ◌+◌, ◌-◌, ◌*◌, ◌/◌, ◌%◌, ◌^◌, Text, Bool, true, false, not, ◌&&◌, ◌||◌, Option,
  none, some, List, [], ◌∷◌, ◌++◌, ltb, leb, ◌==◌, if◌then◌else◌, length, take, drop,
}

abbrev pub chunk_size : ℕ
chunk_size = 4194304

abbrev pub probe_size : ℕ
probe_size = 524288

abbrev pub max_chunks : ℕ
max_chunks = 8

abbrev pub lookahead : ℕ
lookahead = 2

pub record Chunk : Type 0 where
  pub start : ℕ
  pub bytes : Text
  pub use_seq : ℕ
  pub pinned : Bool
  pub fetching : Bool
  pub waiters : List ℕ

abbrev pub end : Chunk → ℕ
end ch = ch.start + length ch.bytes

-- `was_read` is whether `firstReadAtNs` is set; `queued` are the prefetches of the
-- goroutines that were started, none of which has made a step yet.
pub record Handle : Type 0 where
  pub size : ℕ
  pub chunks : List Chunk
  pub use_seq : ℕ
  pub was_read : Bool
  pub queued : List (ℕ × ℕ)

unfoldable pub chunk_start : ℕ → ℕ
chunk_start off = off / chunk_size * chunk_size

unfoldable pub probe_start : ℕ → ℕ
probe_start off = off / probe_size * probe_size

unfoldable pub tail_probe_start : ℕ → ℕ
unfolding probe_start
tail_probe_start size = if leb size 0 then 0 else probe_start (size - 1)

abbrev pub at_most : ℕ → ℕ → ℕ
at_most limit n = if ltb limit n then limit else n

-- `h.chunks[start]`
unfoldable pub find_chunk : ℕ → List Chunk → Option Chunk
find_chunk start [] = none
find_chunk start (ch ∷ l) = if ch.start == start then some ch else find_chunk start l

unfoldable pub remove_chunk : ℕ → List Chunk → List Chunk
remove_chunk start [] = []
remove_chunk start (ch ∷ l) =
    let rest = remove_chunk start l in if ch.start == start then rest else ch ∷ rest

-- `h.chunks[start] = ch`
unfoldable pub put_chunk : Chunk → List Chunk → List Chunk
put_chunk ch l = ch ∷ remove_chunk ch.start l

abbrev pub holds : ℕ → Chunk → Bool
holds off ch = not ch.fetching && (leb ch.start off && ltb off (end ch))

abbrev pub more_recent : Chunk → Option Chunk → Option Chunk
more_recent ch none = some ch
more_recent ch (some hit) = if ltb hit.use_seq ch.use_seq then some ch else some hit

-- One round of the loop over the chunks: the hit so far, or this chunk if it was used later.
unfoldable pub pick : ℕ → Chunk → Option Chunk → Option Chunk
pick off ch hit = if holds off ch then more_recent ch hit else hit

unfoldable pub lookup_from : Option Chunk → ℕ → List Chunk → Option Chunk
lookup_from hit off [] = hit
lookup_from hit off (ch ∷ l) = lookup_from (pick off ch hit) off l

-- `lookupChunkLocked`
unfoldable pub lookup_chunk_locked : ℕ → Handle → Option Chunk
unfolding lookup_from
lookup_chunk_locked off h = lookup_from none off h.chunks

-- `touchChunkLocked` of the chunk that is written back.
unfoldable pub touch_chunk : Chunk → Handle → Handle
touch_chunk ch h =
    let seq = h.use_seq + 1 in
    record h { use_seq = seq; chunks = put_chunk (record ch { use_seq = seq }) h.chunks }

-- `planFetch`: where the chunk for an offset begins, and how far it has to reach.
abbrev pub plan_hit : Chunk → ℕ → Handle → ℕ × ℕ
plan_hit ch read_end h = (ch.start, at_most (at_most h.size (ch.start + chunk_size)) read_end)

abbrev pub plan_probe : ℕ → ℕ → Handle → ℕ × ℕ
plan_probe off read_end h =
    let start = probe_start off in (start, at_most (at_most h.size (start + probe_size)) read_end)

abbrev pub plan_miss : ℕ → ℕ → Handle → Option Chunk → ℕ × ℕ
plan_miss off read_end h none = plan_probe off read_end h
plan_miss off read_end h (some ch) =
    if not ch.fetching && leb (end ch) off
    then (chunk_start off, at_most h.size (chunk_start off + chunk_size))
    else plan_probe off read_end h

unfoldable pub plan_fetch : ℕ → ℕ → Handle → ℕ × ℕ
plan_fetch off read_end h = elim (lookup_chunk_locked off h) [
  | some ch ↦ plan_hit ch read_end h
  | none ↦ plan_miss off read_end h (find_chunk (chunk_start off) h.chunks)
]

unfoldable pub chunk_covers_range : Chunk → ℕ → Bool
chunk_covers_range ch need_end = leb need_end (end ch)

unfoldable pub next_fetch_end : Chunk → ℕ → ℕ → ℕ
next_fetch_end ch need_end size =
    let double_end = ch.start + length ch.bytes * 2 in
    let target = if ltb need_end double_end then double_end else need_end in
    at_most (at_most size (ch.start + chunk_size)) target

unfoldable pub fetch_length : ℕ → ℕ → ℕ → ℕ
fetch_length start need_end size =
    let need = if leb need_end start then start + 1 else need_end in
    let len = need - start in
    let wide = if ltb len probe_size then probe_size else len in
    let cut = at_most chunk_size wide in if ltb size (start + cut) then size - start else cut

-- What the loop of `ensureChunk` goes on with when it has looked at the chunk.
pub data Ensure : Type 0 where
  covered : Ensure
  wait : Ensure
  fetch : ℕ → Ensure

unfoldable pub begin_fetch : ℕ → ℕ → Handle → Handle × Ensure
unfolding fetch_length tail_probe_start touch_chunk
begin_fetch start need_end h = (
  touch_chunk
      (record {
        start = start;
        bytes = [];
        use_seq = 0;
        pinned = start == 0 || start == tail_probe_start h.size;
        fetching = true;
        waiters = [];
      })
      h,
  fetch (fetch_length start need_end h.size),
)

unfoldable pub ensure_at : ℕ → ℕ → ℕ → Handle → Option Chunk → Handle × Ensure
unfolding begin_fetch
ensure_at start need_end channel h none = begin_fetch start need_end h
ensure_at start need_end channel h (some ch) =
    if ch.fetching
    then (
      record h { chunks = put_chunk (record ch { waiters = ch.waiters ++ channel ∷ [] }) h.chunks },
      wait,
    )
    else if chunk_covers_range ch need_end
    then (touch_chunk ch h, covered)
    else begin_fetch start (next_fetch_end ch need_end h.size) h

-- One stretch of `ensureChunk` under `h.mu`.
unfoldable pub ensure_chunk : ℕ → ℕ → ℕ → Handle → Handle × Ensure
unfolding ensure_at
ensure_chunk start need_end channel h =
    ensure_at start need_end channel h (find_chunk start h.chunks)

abbrev pub older : Chunk → Option Chunk → Option Chunk
older ch none = some ch
older ch (some v) = if ltb ch.use_seq v.use_seq then some ch else some v

unfoldable pub victim_from : Option Chunk → List Chunk → Option Chunk
victim_from v [] = v
victim_from v (ch ∷ l) = victim_from (if ch.pinned || ch.fetching then v else older ch v) l

-- `evictChunksLocked`, with the rounds that are left.
unfoldable pub evict_chunks : ℕ → List Chunk → List Chunk
evict_chunks zero l = l
evict_chunks (suc n) l = elim (ltb max_chunks (length l)) [
  | false ↦ l
  | true ↦ elim (victim_from none l) [ none ↦ l | some v ↦ evict_chunks n (remove_chunk v.start l) ]
]

unfoldable pub evict_chunks_locked : Handle → Handle
evict_chunks_locked h = record h { chunks = evict_chunks (length h.chunks) h.chunks }

pub data Loaded : Type 0 where
  ok : Text → Loaded
  err : ℕ → Loaded

-- `finishChunkFetch`: the waiters are woken in every case where the chunk is still there.
unfoldable pub finish_chunk : ℕ → Loaded → Handle → Option Chunk → Handle × List ℕ
finish_chunk start loaded h none = (h, [])
finish_chunk start (err e) h (some ch) =
    (record h { chunks = remove_chunk start h.chunks }, ch.waiters)
finish_chunk start (ok buf) h (some ch) = (
  evict_chunks_locked (touch_chunk (record ch { bytes = buf; fetching = false; waiters = [] }) h),
  ch.waiters,
)

unfoldable pub finish_chunk_fetch : ℕ → Loaded → Handle → Handle × List ℕ
unfolding finish_chunk
finish_chunk_fetch start loaded h = finish_chunk start loaded h (find_chunk start h.chunks)
