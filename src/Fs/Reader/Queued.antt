-- ===== src/Fs/Reader/Queued.antt =====
-- A prefetch that runs with no other goroutine leaves a handle ready that is ready.
use neofs_mount.Prelude.{
  ℕ, ◌<◌, ◌≡◌, refl, Text, Bool, true, false, if◌then◌else◌, Option, none, some, List, [], ◌∷◌, leb,
  length, arith, inl, inr,
}
use neofs_mount.Prelude.Slices.{slice, length-slice}
use neofs_mount.Fs.Reader.{
  Chunk, Handle, at_most, Ensure, find_chunk, remove_chunk, put_chunk, fetch_length, begin_fetch,
  ensure_at, ensure_chunk, next_fetch_end, Loaded, err, finish_chunk_fetch,
}
use neofs_mount.Fs.Reader.Chunks.{All-map}
use neofs_mount.Fs.Reader.Progress.{IsSound, IsReady}
use neofs_mount.Fs.Reader.Stores.{
  queued-IsReady, blank, fresh, around, find_chunk-front, finish_chunk_fetch-stored, All-around,
  Distinct-around, stored-IsReady,
}
use neofs_mount.Fs.Reader.Turns.{Honest, ensure_at-again}
use neofs_mount.Fs.Reader.Ahead.{
  busy, run_prefetch, after_run, prefetch, prefetch_each, run_queued, fetch_length-bounds,
}

module _ {object : Text} (load : ℕ → ℕ → Loaded) (honest : Honest object load) where
  module _ {h : Handle} (r : IsReady object h) (start : ℕ) where
    failed-IsReady :
        (need e : ℕ)
        → IsReady object (finish_chunk_fetch start (err e) (begin_fetch start need h).0).0
    unfolding finish_chunk_fetch begin_fetch put_chunk
    failed-IsReady need e =
        rw (find_chunk-front start (blank start h) (remove_chunk start h.chunks) refl) (record {
          whole = r.whole;
          sound = All-around r start (IsSound object) r.sound;
          idle =
              All-map (around start h)
                (λ x p. record { idle = p.idle; pins = p.pins; past = omega (arith, p.past) })
                (All-around r start _ r.idle);
          distinct = Distinct-around r start;
        })

    fetched-IsReady :
        (need : ℕ)
        → start < h.size
        → IsReady object
            (finish_chunk_fetch start
              (load start (fetch_length start need h.size))
              (begin_fetch start need h).0).0
    fetched-IsReady need inside =
        let n = fetch_length start need h.size in
        let (_, within, small) = fetch_length-bounds start need h.size inside in
        elim (honest start n (omega (arith, within, r.whole))) [
          | inr (x, e) ↦ rw e (failed-IsReady need x)
          | inl e ↦
              let buf = slice start n object in
              let len : length buf ≡ n =
                length-slice start n object (omega (arith, within, r.whole)) in
              let s : IsSound object (fresh start buf h) = record {
                right = rw len refl;
                small = omega (arith, len, small);
              } in
              rw (e, finish_chunk_fetch-stored start need buf h) (stored-IsReady r start buf s)
        ]

    run_prefetch-at :
        (need : ℕ) (o : Option Chunk)
        → find_chunk start h.chunks ≡ o
        → busy need o ≡ false
        → start < h.size
        → IsReady object (
            after_run load start
              ((ensure_at start need 0 h o).0, some (ensure_at start need 0 h o).1))
    unfolding ensure_at after_run begin_fetch
    run_prefetch-at need none e q inside = fetched-IsReady need inside
    run_prefetch-at need (some ch) e q inside =
        rw (ensure_at-again start need 0 h ch (ground arith) (ground arith))
          (fetched-IsReady (next_fetch_end ch need h.size) inside)

    if-IsReady :
        (b : Bool) (x y : Handle × Option Ensure)
        → IsReady object (after_run load start x)
        → (b ≡ false → IsReady object (after_run load start y))
        → IsReady object (after_run load start (if b then x else y))
    if-IsReady true x y p q = p
    if-IsReady false x y p q = q refl

  prefetch-IsReady :
      {h : Handle} (t : ℕ × ℕ) → IsReady object h → IsReady object (prefetch load t h)
  unfolding prefetch run_prefetch after_run ensure_chunk
  prefetch-IsReady {h} (start, need_end) r =
      let need = at_most h.size need_end in
      if-IsReady r start (leb h.size start) _ _ r (λ q.
        if-IsReady r start (leb need_end start) _ _ r (λ _.
          if-IsReady r start (busy need (find_chunk start h.chunks)) _ _ r (λ b.
            run_prefetch-at r start need (find_chunk start h.chunks) refl b (ground (arith, q)))))

  prefetch_each-IsReady :
      (targets : List (ℕ × ℕ)) {h : Handle}
      → IsReady object h
      → IsReady object (prefetch_each load targets h)
  unfolding prefetch_each
  prefetch_each-IsReady [] r = r
  prefetch_each-IsReady (t ∷ targets) r = prefetch_each-IsReady targets (prefetch-IsReady t r)

  pub run_queued-IsReady : {h : Handle} → IsReady object h → IsReady object (run_queued load h)
  unfolding run_queued
  run_queued-IsReady {h} r = prefetch_each-IsReady h.queued (queued-IsReady h.was_read [] r)
