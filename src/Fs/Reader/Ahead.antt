-- ===== src/Fs/Reader/Ahead.antt =====
-- internal/fs/tree.go: `runPrefetch` of a `rangeFileHandle`, and the bounds of what is fetched ahead,
-- which stays within the object.
use neofs_mount.Prelude.{
  ℕ, ◌≡◌, refl, ◌≤◌, ◌<◌, ◌+◌, ◌*◌, Bool, true, false, ◌||◌, Option, none, some, List, [], ◌∷◌, leb,
  ◌==◌, if◌then◌else◌, zero, suc, arith,
}
use neofs_mount.Fs.Reader.{
  chunk_size, lookahead, at_most, Chunk, Handle, find_chunk, chunk_covers_range, fetch_length,
  Ensure, covered, wait, fetch, begin_fetch, ensure_at, ensure_chunk, next_fetch_end, Loaded,
  finish_chunk_fetch,
}
use neofs_mount.Fs.Reader.Loop.{targets_from, queue_lookahead}

abbrev pub busy : ℕ → Option Chunk → Bool
busy need_end none = false
busy need_end (some ch) = ch.fetching || chunk_covers_range ch need_end

abbrev pub started_prefetch : Handle × Ensure → Handle × Option Ensure
started_prefetch (h, x) = (h, some x)

-- `runPrefetch` up to the first stretch of `ensureChunk`.
unfoldable pub run_prefetch : ℕ → ℕ → ℕ → Handle → Handle × Option Ensure
unfolding ensure_chunk chunk_covers_range
run_prefetch start need_end channel h =
    if leb h.size start
    then (h, none)
    else if leb need_end start
    then (h, none)
    else if busy (at_most h.size need_end) (find_chunk start h.chunks)
    then (h, none)
    else started_prefetch (ensure_chunk start (at_most h.size need_end) channel h)

-- A prefetch with no other goroutine between its stretches; it queues nothing, and an error only takes
-- the chunk away.
unfoldable pub after_run : (ℕ → ℕ → Loaded) → ℕ → Handle × Option Ensure → Handle
after_run load start (h, none) = h
after_run load start (h, some covered) = h
after_run load start (h, some wait) = h
after_run load start (h, some (fetch n)) = (finish_chunk_fetch start (load start n) h).0

unfoldable pub prefetch : (ℕ → ℕ → Loaded) → ℕ × ℕ → Handle → Handle
unfolding run_prefetch after_run
prefetch load t h = after_run load t.0 (run_prefetch t.0 t.1 0 h)

unfoldable pub prefetch_each : (ℕ → ℕ → Loaded) → List (ℕ × ℕ) → Handle → Handle
unfolding prefetch
prefetch_each load [] h = h
prefetch_each load (t ∷ targets) h = prefetch_each load targets (prefetch load t h)

-- The prefetches that are queued, one after another.
unfoldable pub run_queued : (ℕ → ℕ → Loaded) → Handle → Handle
unfolding prefetch_each
run_queued load h = prefetch_each load h.queued (record h { queued = [] })

-- A stretch of an object of some size, of a chunk at most.
pub record IsWithin (size from : ℕ) (t : ℕ × ℕ) : Type 0 where
  pub after : from ≤ t.0
  pub filled : t.0 < t.1
  pub inside : t.1 ≤ size
  pub short : t.1 ≤ t.0 + chunk_size

-- Targets that follow one another without a gap.
unfoldable pub Follow : ℕ → ℕ → List (ℕ × ℕ) → Type 0
Follow size from [] = Unit
Follow size from (t ∷ targets) =
    (t.0 ≡ from) × IsWithin size from t × Follow size (from + chunk_size) targets

Follow-if :
    (size from : ℕ) (b : Bool) (t : ℕ × ℕ) (rest : List (ℕ × ℕ))
    → (b ≡ false → Follow size from (t ∷ rest))
    → Follow size from (if b then [] else t ∷ rest)
unfolding Follow
Follow-if size from true t rest h = tt
Follow-if size from false t rest h = h refl

targets_from-Follow :
    (size start left i : ℕ)
    → Follow size (start + chunk_size * i) (targets_from size start chunk_size left i)
unfolding targets_from Follow
targets_from-Follow size start zero i = tt
targets_from-Follow size start (suc left) i =
    let s = start + chunk_size * i in
    let next : s + chunk_size ≡ start + chunk_size * (i + 1) = omega arith in
    Follow-if size s (leb size s) (s, at_most size (s + chunk_size))
      (targets_from size start chunk_size left (i + 1))
      (λ q. (refl, first s q, rw next (targets_from-Follow size start left (i + 1))))
  where
    first : (s : ℕ) → leb size s ≡ false → IsWithin size s (s, at_most size (s + chunk_size))
    first s q = record {
      after = omega arith;
      filled = ground (arith, q);
      inside = ground arith;
      short = ground arith;
    }

queue_lookahead-Follow :
    (size start fetched : ℕ) → Follow size (start + chunk_size) (queue_lookahead size start fetched)
unfolding queue_lookahead Follow
queue_lookahead-Follow size start fetched = picked (fetched == chunk_size) refl
  where
    picked :
        (b : Bool)
        → (fetched == chunk_size) ≡ b
        → Follow size
            (start + chunk_size)
            (if b then targets_from size start fetched lookahead 1 else [])
    picked false q = tt
    picked true q =
        let same : fetched ≡ chunk_size = ground (arith, q) in
        let once : start + chunk_size ≡ start + chunk_size * 1 = omega arith in
        rw (same, once) (targets_from-Follow size start lookahead 1)

pub fetch_length-bounds :
    (start need size : ℕ)
    → start < size
    → (0 < fetch_length start need size)
      × (start + fetch_length start need size ≤ size)
      × (fetch_length start need size ≤ chunk_size)
unfolding fetch_length
fetch_length-bounds start need size h = (ground arith, ground arith, ground arith)

-- What is asked for, if something is.
abbrev pub Bounded : ℕ → ℕ → Ensure → Type 0
Bounded start size covered = Unit
Bounded start size wait = Unit
Bounded start size (fetch n) = (0 < n) × (start + n ≤ size) × (n ≤ chunk_size)

Bounded-if :
    (start size : ℕ) (b : Bool) (x y : Handle × Ensure)
    → Bounded start size x.1
    → Bounded start size y.1
    → Bounded start size (if b then x else y).1
Bounded-if start size true x y h k = h
Bounded-if start size false x y h k = k

ensure_at-Bounded :
    (start need channel : ℕ) (h : Handle) (o : Option Chunk)
    → start < h.size
    → Bounded start h.size (ensure_at start need channel h o).1
unfolding ensure_at begin_fetch
ensure_at-Bounded start need channel h none l = fetch_length-bounds start need h.size l
ensure_at-Bounded start need channel h (some ch) l = Bounded-if start h.size ch.fetching _ _ tt (
    Bounded-if start h.size (chunk_covers_range ch need) _ _ tt
      (fetch_length-bounds start (next_fetch_end ch need h.size) h.size l))

abbrev pub BoundedIfAny : ℕ → ℕ → Option Ensure → Type 0
BoundedIfAny start size none = Unit
BoundedIfAny start size (some x) = Bounded start size x

BoundedIfAny-if :
    (start size : ℕ) (b : Bool) (x y : Handle × Option Ensure)
    → BoundedIfAny start size x.1
    → (b ≡ false → BoundedIfAny start size y.1)
    → BoundedIfAny start size (if b then x else y).1
BoundedIfAny-if start size true x y h k = h
BoundedIfAny-if start size false x y h k = k refl

run_prefetch-Bounded :
    (start need_end channel : ℕ) (h : Handle)
    → BoundedIfAny start h.size (run_prefetch start need_end channel h).1
unfolding run_prefetch ensure_chunk
run_prefetch-Bounded start need_end channel h =
    let need = at_most h.size need_end in
    BoundedIfAny-if start h.size (leb h.size start) _ _ tt (λ q.
      BoundedIfAny-if start h.size (leb need_end start) _ _ tt (λ r.
        BoundedIfAny-if start h.size (busy need (find_chunk start h.chunks)) _ _ tt (λ b.
          ensure_at-Bounded start need channel h (find_chunk start h.chunks) (ground (arith, q)))))

-- What is fetched ahead of a chunk follows it without a gap, in stretches of a chunk, of which the last
-- may be shorter, all within the object; and whatever stretch a prefetch is given, it asks for some
-- bytes, of a chunk at most, within the object, or for nothing.
pub queue_lookahead-run_prefetch :
    (start fetched from need_end channel : ℕ) (h : Handle)
    → Follow h.size (start + chunk_size) (queue_lookahead h.size start fetched)
      × BoundedIfAny from h.size (run_prefetch from need_end channel h).1
queue_lookahead-run_prefetch start fetched from need_end channel h =
    (queue_lookahead-Follow h.size start fetched, run_prefetch-Bounded from need_end channel h)
