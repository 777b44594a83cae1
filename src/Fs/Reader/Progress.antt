-- ===== src/Fs/Reader/Progress.antt =====
-- Every turn of the loop of `Read` that has no error copies the right bytes.
use neofs_mount.Prelude.{
  ℕ, suc, ◌+◌, ◌-◌, ◌≤◌, ◌<◌, ◌≡◌, refl, ap, ◌∙◌, Text, true, Option, none, some, List, [], ◌∷◌,
  length, take, drop, min, arith,
}
use neofs_mount.Prelude.Slices.{slice, slice-slice}
use neofs_mount.Fs.Reader.{
  Chunk, Handle, holds, pick, lookup_chunk_locked, remove_chunk, put_chunk, touch_chunk, at_most,
  chunk_size, tail_probe_start,
}
use neofs_mount.Fs.Reader.Loop.{copy_out, copy_turn, copied, Turn}
use neofs_mount.Fs.Reader.Chunks.{
  All, All-map, Distinct, All-remove_chunk, All-lookup_from, Distinct-remove_chunk,
  remove_chunk-gone, lookup_from-some,
}
use neofs_mount.Fs.Reader.Survival.{IsIdle}

-- A chunk holds bytes of the object, from its start on, and not more than a chunk may.
pub record IsSound (object : Text) (ch : Chunk) : Type 0 where
  pub right : ch.bytes ≡ slice ch.start (length ch.bytes) object
  pub small : length ch.bytes ≤ chunk_size

-- What holds of a handle between two stretches when nothing is being fetched.
pub record IsReady (object : Text) (h : Handle) : Type 0 where
  pub whole : h.size ≡ length object
  pub sound : All (IsSound object) h.chunks
  pub idle : All (IsIdle (tail_probe_start h.size) (suc h.use_seq)) h.chunks
  pub distinct : Distinct h.chunks

-- What a chunk is worth wherever it is found.
abbrev pub Usable : Text → ℕ → ℕ → Chunk → Type 0
Usable object tail seq ch = IsSound object ch × IsIdle tail seq ch

All-both : (P Q : Chunk → Type 0) (l : List Chunk) → All P l → All Q l → All (λ ch. P ch × Q ch) l
All-both P Q [] p q = tt
All-both P Q (ch ∷ l) (p, ps) (q, qs) = ((p, q), All-both P Q l ps qs)

module _ {object : Text} {h : Handle} (r : IsReady object h) where
  pub usable : All (Usable object (tail_probe_start h.size) (suc h.use_seq)) h.chunks
  usable =
      All-both (IsSound object) (IsIdle (tail_probe_start h.size) (suc h.use_seq)) h.chunks r.sound
        r.idle

  -- Touching a sound chunk keeps the handle ready.
  pub touch_chunk-IsReady :
      (ch : Chunk)
      → Usable object (tail_probe_start h.size) (suc h.use_seq) ch
      → IsReady object (touch_chunk ch h)
  unfolding touch_chunk put_chunk
  touch_chunk-IsReady ch (s, i) = record {
    whole = r.whole;
    sound = (
      record { right = s.right; small = s.small },
      All-remove_chunk (IsSound object) ch.start h.chunks r.sound,
    );
    idle = (
      record { idle = i.idle; pins = i.pins; past = omega arith },
      All-map (remove_chunk ch.start h.chunks)
          (λ x p. record { idle = p.idle; pins = p.pins; past = omega (arith, p.past) })
          (All-remove_chunk (IsIdle (tail_probe_start h.size) (suc h.use_seq)) ch.start h.chunks
            r.idle),
    );
    distinct =
        (remove_chunk-gone ch.start h.chunks, Distinct-remove_chunk ch.start h.chunks r.distinct);
  }

-- What a turn comes to that copies `n` bytes, and leaves the handle ready.
pub record Copies (object : Text) (pos stop : ℕ) (out : Handle × Turn) : Type 0 where
  pub count : ℕ
  pub some_bytes : 0 < count
  pub in_range : pos + count ≤ stop
  pub bytes : out.1 ≡ copied (slice pos count object)
  pub ready : IsReady object out.0

pick_front : (pos : ℕ) (ch : Chunk) → holds pos ch ≡ true → pick pos ch none ≡ some ch
unfolding pick
pick_front pos ch at = rw at refl

module _ {object : Text} {h : Handle} (r : IsReady object h) (pos stop : ℕ)
    (before : pos < stop) where
  -- The chunk that is found for an offset gives the bytes at the offset.
  copy_found :
      (ch : Chunk)
      → Usable object (tail_probe_start h.size) (suc h.use_seq) ch
      → holds pos ch ≡ true
      → Copies object pos stop (copy_out pos stop (some ch) h)
  unfolding copy_out
  copy_found ch u at =
      let skip = pos - ch.start in
      let rest = length ch.bytes - skip in
      let n = at_most (stop - pos) rest in
      let inside : (ch.start ≤ pos) × (pos < ch.start + length ch.bytes) = ground arith in
      let m : n ≡ min (stop - pos) rest = ground arith in
      record {
        count = n;
        some_bytes = omega (arith, m, inside, before);
        in_range = omega (arith, m, before);
        bytes = ap copied (bytes_at skip n (omega (arith, inside)) (omega (arith, m, inside)));
        ready = touch_chunk-IsReady r ch u;
      }
    where
      bytes_at :
          (skip n : ℕ)
          → ch.start + skip ≡ pos
          → skip + n ≤ length ch.bytes
          → take n (drop skip ch.bytes) ≡ slice pos n object
      bytes_at skip n e le =
          ap (λ (b : Text). take n (drop skip b)) u.0.right
          ∙ slice-slice ch.start (length ch.bytes) skip n object le
          ∙ rw e refl

  -- With a chunk in front that holds the offset there is something to copy.
  pub copy_turn-Copies :
      (new : Chunk) (others : List Chunk)
      → h.chunks ≡ new ∷ others
      → holds pos new ≡ true
      → Copies object pos stop (copy_turn pos stop h)
  unfolding copy_turn lookup_chunk_locked
  copy_turn-Copies new others e at = go (lookup_chunk_locked pos h) refl
    where
      first : (d : Chunk) × (lookup_chunk_locked pos h ≡ some d)
      first = rw e (lookup_from-some pos others (pick pos new none) new (pick_front pos new at))

      go :
          (o : Option Chunk)
          → lookup_chunk_locked pos h ≡ o
          → Copies object pos stop (copy_out pos stop o h)
      go none q = absurd (ground (arith, first))
      go (some d) q =
          let (u, at') =
            All-lookup_from (Usable object (tail_probe_start h.size) (suc h.use_seq)) pos h.chunks
              none (usable r) (λ x n. absurd (ground arith)) q in
          copy_found d u at'
