-- ===== src/Fs/Reader/Plans.antt =====
-- `planFetch`, `nextFetchEnd` and `fetchLength`: what a turn of `Read` asks for.
use neofs_mount.Prelude.{
  ℕ, ◌+◌, ◌≤◌, ◌<◌, ◌≡◌, Text, true, not, ◌&&◌, Option, none, some, leb, arith, Bool-cases,
  Option-cases, inl, inr,
}
use neofs_mount.Fs.Reader.{
  Chunk, Handle, end, holds, lookup_chunk_locked, find_chunk, chunk_size, probe_size, chunk_start,
  probe_start, plan_hit, plan_probe, plan_miss, plan_fetch, next_fetch_end, fetch_length,
}
use neofs_mount.Fs.Reader.Chunks.{All-lookup_from}
use neofs_mount.Fs.Reader.Progress.{IsSound, IsReady}

-- A chunk from `start` to `need` holds the offset, and is one that may be read.
pub record Reaches (pos size start need : ℕ) : Type 0 where
  pub before : start ≤ pos
  pub past : pos < need
  pub within : need ≤ size
  pub small : need ≤ start + chunk_size

probe_start-le : (pos : ℕ) → (probe_start pos ≤ pos) × (pos < probe_start pos + probe_size)
unfolding probe_start
probe_start-le pos = (omega arith, omega arith)

chunk_start-le : (pos : ℕ) → (chunk_start pos ≤ pos) × (pos < chunk_start pos + chunk_size)
unfolding chunk_start
chunk_start-le pos = (omega arith, omega arith)

module _ {object : Text} {h : Handle} (r : IsReady object h) (pos stop : ℕ) (before : pos < stop)
    (whole : stop ≤ h.size) where
  plan_probe-Reaches : Reaches pos h.size (plan_probe pos stop h).0 (plan_probe pos stop h).1
  plan_probe-Reaches =
      let (a, b) = probe_start-le pos in
      record { before = a; past = ground (arith, b); within = ground arith; small = ground arith }

  plan_miss-Reaches :
      (c : Option Chunk) → Reaches pos h.size (plan_miss pos stop h c).0 (plan_miss pos stop h c).1
  plan_miss-Reaches none = plan_probe-Reaches
  plan_miss-Reaches (some ch) = elim (Bool-cases (not ch.fetching && leb (end ch) pos)) [
    | inr t ↦ rw t plan_probe-Reaches
    | inl t ↦
        let (a, b) = chunk_start-le pos in
        rw t (record {
          before = a;
          past = ground (arith, b);
          within = ground arith;
          small = ground arith;
        })
  ]

  plan_hit-Reaches :
      (ch : Chunk)
      → IsSound object ch
      → holds pos ch ≡ true
      → Reaches pos h.size (plan_hit ch stop h).0 (plan_hit ch stop h).1
  plan_hit-Reaches ch s at = record {
    before = ground arith;
    past = ground (arith, s.small);
    within = ground arith;
    small = ground arith;
  }

  -- What is planned reaches over the offset.
  pub plan_fetch-Reaches : Reaches pos h.size (plan_fetch pos stop h).0 (plan_fetch pos stop h).1
  unfolding plan_fetch lookup_chunk_locked
  plan_fetch-Reaches = elim (Option-cases (lookup_chunk_locked pos h)) [
    | inl n ↦ rw (plan_fetch, n) (plan_miss-Reaches (find_chunk (chunk_start pos) h.chunks))
    | inr (ch, e) ↦
        let (s, at) =
          All-lookup_from (IsSound object) pos h.chunks none {ch = ch} r.sound
            (λ x n. absurd (ground arith)) e in
        rw (plan_fetch, e) (plan_hit-Reaches ch s at)
  ]

pub next_fetch_end-Reaches :
    (pos size : ℕ) (ch : Chunk) (need : ℕ)
    → Reaches pos size ch.start need
    → Reaches pos size ch.start (next_fetch_end ch need size)
unfolding next_fetch_end
next_fetch_end-Reaches pos size ch need p = record {
  before = p.before;
  past = ground (arith, p.past, p.within, p.small);
  within = ground arith;
  small = ground arith;
}

-- The length of a fetch reaches the end that is needed, and stays in the object.
pub fetch_length-Reaches :
    (pos size start need : ℕ)
    → Reaches pos size start need
    → Reaches pos size start (start + fetch_length start need size)
unfolding fetch_length
fetch_length-Reaches pos size start need p = record {
  before = p.before;
  past = ground (arith, p.past, p.before, p.within, p.small);
  within = ground (arith, p.past, p.before, p.within, p.small);
  small = ground (arith, p.past, p.before, p.within, p.small);
}
