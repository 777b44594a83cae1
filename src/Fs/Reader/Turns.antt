-- ===== src/Fs/Reader/Turns.antt =====
-- A turn of the loop of `Read`, its three ways to a chunk: at hand, fetched, fetched again.
use neofs_mount.Prelude.{
  ℕ, suc, ◌+◌, ◌≤◌, ◌<◌, ◌≡◌, ◌⊎◌, refl, Text, true, false, Option, none, some, ◌++◌, length, arith,
  Bool-cases, inl, inr,
}
use neofs_mount.Prelude.Slices.{slice, length-slice}
use neofs_mount.Fs.Reader.{
  Chunk, Handle, holds, find_chunk, remove_chunk, put_chunk, touch_chunk, tail_probe_start,
  plan_fetch, next_fetch_end, fetch_length, begin_fetch, ensure_at, ensure_chunk,
  chunk_covers_range, Loaded, err, ok, covered,
}
use neofs_mount.Fs.Reader.Loop.{
  copy_turn, after_load, after_ensure, queue_lookahead, turn, Turn, failed,
}
use neofs_mount.Fs.Reader.Chunks.{All-find_chunk}
use neofs_mount.Fs.Reader.Progress.{
  IsSound, IsReady, Usable, usable, touch_chunk-IsReady, Copies, copy_turn-Copies,
}
use neofs_mount.Fs.Reader.Plans.{
  Reaches, plan_fetch-Reaches, next_fetch_end-Reaches, fetch_length-Reaches,
}
use neofs_mount.Fs.Reader.Stores.{
  queued-IsReady, fresh, finish_chunk_fetch-stored, stored-IsReady, stored-Kept,
}

-- A load of bytes of the object brings those bytes, or an error.
abbrev pub Honest : Text → (ℕ → ℕ → Loaded) → Type 0
Honest object load =
    (start n : ℕ)
    → start + n ≤ length object
    → (load start n ≡ ok (slice start n object)) ⊎ ((e : ℕ) × (load start n ≡ err e))

-- A turn that fails has the error of a load.
abbrev pub Fails : (ℕ → ℕ → Loaded) → Handle × Turn → Type 0
Fails load out = (e : ℕ) × (start : ℕ) × (n : ℕ) × (load start n ≡ err e) × (out.1 ≡ failed e)

ensure_at-covered :
    (start need channel : ℕ) (h : Handle) (ch : Chunk)
    → ch.fetching ≡ false
    → chunk_covers_range ch need ≡ true
    → ensure_at start need channel h (some ch) ≡ (touch_chunk ch h, covered)
unfolding ensure_at
ensure_at-covered start need channel h ch f t = ground arith

pub ensure_at-again :
    (start need channel : ℕ) (h : Handle) (ch : Chunk)
    → ch.fetching ≡ false
    → chunk_covers_range ch need ≡ false
    → ensure_at start need channel h (some ch) ≡ begin_fetch start (next_fetch_end ch need h.size) h
unfolding ensure_at
ensure_at-again start need channel h ch f t = ground arith

module _ {object : Text} {h : Handle} (r : IsReady object h) (pos stop : ℕ)
    (before : pos < stop) where
  -- The turn after a load of the planned stretch.
  after_load-Copies :
      (start n need : ℕ)
      → Reaches pos h.size start (start + n)
      → Copies object pos stop
          (after_load pos stop start (ok (slice start n object)) (begin_fetch start need h).0)
  unfolding after_load
  after_load-Copies start n need p =
      let buf = slice start n object in
      let len : length buf ≡ n = length-slice start n object (omega (arith, p.within, r.whole)) in
      let s : IsSound object (fresh start buf h) = record {
        right = rw len refl;
        small = omega (arith, len, p.small);
      } in
      let k = stored-Kept r start buf in
      rw (finish_chunk_fetch-stored start need buf h) (
        copy_turn-Copies
          (queued-IsReady h.was_read (h.queued ++ queue_lookahead h.size start (length buf))
            (stored-IsReady r start buf s))
          pos stop before (fresh start buf h) k.others k.shape
          (ground (arith, len, p.before, p.past)))

  -- A chunk at hand that covers the plan is copied from.
  touched-Copies :
      (ch : Chunk)
      → Usable object (tail_probe_start h.size) (suc h.use_seq) ch
      → holds pos ch ≡ true
      → Copies object pos stop (copy_turn pos stop (touch_chunk ch h))
  unfolding touch_chunk put_chunk
  touched-Copies ch u at =
      copy_turn-Copies (touch_chunk-IsReady r ch u) pos stop before
        (record ch { use_seq = h.use_seq + 1 }) (remove_chunk ch.start h.chunks) refl at

  after_load-failed :
      (start x need : ℕ)
      → (after_load pos stop start (err x) (begin_fetch start need h).0).1 ≡ failed x
  unfolding after_load
  after_load-failed start x need = refl

  module _ (load : ℕ → ℕ → Loaded) (honest : Honest object load) where
    fetched-Copies :
        (start need : ℕ)
        → Reaches pos h.size start need
        → Copies object pos stop (after_ensure load pos stop start (begin_fetch start need h))
          ⊎ Fails load (after_ensure load pos stop start (begin_fetch start need h))
    unfolding after_ensure begin_fetch
    fetched-Copies start need p =
        let n = fetch_length start need h.size in
        let q = fetch_length-Reaches pos h.size start need p in
        elim (honest start n (omega (arith, q.within, r.whole))) [
          | inl e ↦ inl (rw e (after_load-Copies start n need q))
          | inr (x, e) ↦ inr (x, start, n, e, rw e (after_load-failed start x need))
        ]

    next_reach :
        {start need : ℕ} (ch : Chunk)
        → ch.start ≡ start
        → Reaches pos h.size start need
        → Reaches pos h.size start (next_fetch_end ch need h.size)
    next_reach {need = need} ch e p = rw (← e) (next_fetch_end-Reaches pos h.size ch need (rw e p))

    ensured :
        (start need : ℕ) (c : Option Chunk)
        → find_chunk start h.chunks ≡ c
        → Reaches pos h.size start need
        → Copies object pos stop (after_ensure load pos stop start (ensure_at start need 0 h c))
          ⊎ Fails load (after_ensure load pos stop start (ensure_at start need 0 h c))
    unfolding ensure_at after_ensure chunk_covers_range
    ensured start need none e p = fetched-Copies start need p
    ensured start need (some ch) e p =
        let (u, same) =
          All-find_chunk (Usable object (tail_probe_start h.size) (suc h.use_seq)) start h.chunks
            {ch = ch} (usable r) e in
        elim (Bool-cases (chunk_covers_range ch need)) [
          | inl t ↦
              rw (ensure_at-covered start need 0 h ch u.1.idle t)
                (inl (touched-Copies ch u (ground (arith, u.1.idle, same, t, p.before, p.past))))
          | inr t ↦
              rw (ensure_at-again start need 0 h ch u.1.idle t)
                (fetched-Copies start (next_fetch_end ch need h.size) (next_reach ch same p))
        ]

    -- A turn copies bytes of the object, or fails as a load failed.
    pub turn-Copies :
        stop ≤ h.size
        → Copies object pos stop (turn load pos stop h) ⊎ Fails load (turn load pos stop h)
    unfolding turn ensure_chunk
    turn-Copies whole =
        ensured (plan_fetch pos stop h).0 (plan_fetch pos stop h).1
          (find_chunk (plan_fetch pos stop h).0 h.chunks) refl
          (plan_fetch-Reaches r pos stop before whole)
