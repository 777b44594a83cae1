-- ===== src/Fs/Reader/Stores.antt =====
-- What a fetch leaves: its chunk is in front, and a handle that was ready is ready again.
use neofs_mount.Prelude.{
  ℕ, ◌+◌, ◌≡◌, ◌⊎◌, refl, Text, Bool, true, false, ◌||◌, some, List, [], ◌∷◌, ◌==◌, length, arith,
}
use neofs_mount.Fs.Reader.{
  Chunk, Handle, find_chunk, remove_chunk, put_chunk, tail_probe_start, begin_fetch, ok,
  evict_chunks, evict_chunks_locked, finish_chunk_fetch,
}
use neofs_mount.Fs.Reader.Chunks.{
  All, All-map, Distinct, All-remove_chunk, Distinct-remove_chunk, remove_chunk-gone,
}
use neofs_mount.Fs.Reader.Survival.{IsIdle, Kept, evict_chunks-Kept}
use neofs_mount.Fs.Reader.Progress.{IsSound, IsReady}

-- What is queued makes no difference.
pub queued-IsReady :
    {object : Text} {h : Handle} (b : Bool) (q : List (ℕ × ℕ))
    → IsReady object h
    → IsReady object (record h { was_read = b; queued = q })
queued-IsReady b q r = record {
  whole = r.whole;
  sound = r.sound;
  idle = r.idle;
  distinct = r.distinct;
}

-- The chunk that a fetch leaves, and the chunks before the eviction.
abbrev pub blank : ℕ → Handle → Chunk
blank start h = record {
  start = start;
  bytes = [];
  use_seq = h.use_seq + 1;
  pinned = start == 0 || start == tail_probe_start h.size;
  fetching = true;
  waiters = [];
}

abbrev pub fresh : ℕ → Text → Handle → Chunk
fresh start buf h = record {
  start = start;
  bytes = buf;
  use_seq = h.use_seq + 1 + 1;
  pinned = start == 0 || start == tail_probe_start h.size;
  fetching = false;
  waiters = [];
}

abbrev pub around : ℕ → Handle → List Chunk
around start h = remove_chunk start (blank start h ∷ remove_chunk start h.chunks)

abbrev pub stored : ℕ → Text → Handle → Handle
stored start buf h = record h {
  use_seq = h.use_seq + 1 + 1;
  chunks =
      evict_chunks (length (fresh start buf h ∷ around start h))
        (fresh start buf h ∷ around start h);
}

pub find_chunk-front :
    (start : ℕ) (ch : Chunk) (l : List Chunk)
    → ch.start ≡ start
    → find_chunk start (ch ∷ l) ≡ some ch
unfolding find_chunk
find_chunk-front start ch l e = ground arith

pub finish_chunk_fetch-stored :
    (start need : ℕ) (buf : Text) (h : Handle)
    → (finish_chunk_fetch start (ok buf) (begin_fetch start need h).0).0 ≡ stored start buf h
unfolding finish_chunk_fetch begin_fetch put_chunk evict_chunks_locked
finish_chunk_fetch-stored start need buf h =
    rw (find_chunk-front start (blank start h) (remove_chunk start h.chunks) refl) refl

remove_chunk-same :
    (start : ℕ) (ch : Chunk) (l : List Chunk)
    → ch.start ≡ start
    → remove_chunk start (ch ∷ l) ≡ remove_chunk start l
unfolding remove_chunk
remove_chunk-same start ch l e = ground arith

pub around-remove_chunk :
    (start : ℕ) (h : Handle) → around start h ≡ remove_chunk start (remove_chunk start h.chunks)
around-remove_chunk start h =
    remove_chunk-same start (blank start h) (remove_chunk start h.chunks) refl

module _ {object : Text} {h : Handle} (r : IsReady object h) (start : ℕ) where
  pub All-around : (P : Chunk → Type 0) → All P h.chunks → All P (around start h)
  All-around P a =
      rw (around-remove_chunk start h) (
        All-remove_chunk P start (remove_chunk start h.chunks)
          (All-remove_chunk P start h.chunks a))

  pub Distinct-around : Distinct (around start h)
  Distinct-around = rw (around-remove_chunk start h) (
      Distinct-remove_chunk start (remove_chunk start h.chunks)
        (Distinct-remove_chunk start h.chunks r.distinct))

  pins_of :
      (start == 0 || start == tail_probe_start h.size) ≡ true
      → (start ≡ 0) ⊎ (start ≡ tail_probe_start h.size)
  pins_of e = ground arith

  -- What a fetch stores is in front, and the handle is ready again.
  pub stored-Kept :
      (buf : Text)
      → Kept
          (tail_probe_start h.size)
          (IsSound object)
          (fresh start buf h)
          (stored start buf h).chunks
  stored-Kept buf =
      evict_chunks-Kept (tail_probe_start h.size) (IsSound object) (fresh start buf h)
        (length (fresh start buf h ∷ around start h)) (around start h)
        (All-around (IsSound object) r.sound)
        (All-around (IsIdle (tail_probe_start h.size) (fresh start buf h).use_seq) (
          All-map h.chunks
            (λ x p. record { idle = p.idle; pins = p.pins; past = omega (arith, p.past) }) r.idle))
        (
          rw (around-remove_chunk start h) (remove_chunk-gone start (remove_chunk start h.chunks)),
          Distinct-around,
        )

  pub stored-IsReady :
      (buf : Text) → IsSound object (fresh start buf h) → IsReady object (stored start buf h)
  stored-IsReady buf s =
      let k = stored-Kept buf in
      record {
        whole = r.whole;
        sound = rw k.shape (s, k.all);
        idle = rw k.shape (
          record { idle = refl; pins = pins_of; past = omega arith },
          All-map k.others
              (λ x p. record { idle = p.idle; pins = p.pins; past = omega (arith, p.past) }) k.idle,
        );
        distinct = rw k.shape k.distinct;
      }
