-- ===== src/Neofs/Scan/Flights.antt =====
-- One scan serves all who ask while it runs, unless the container is invalidated meanwhile.
use neofs_mount.Prelude.{ℕ, ◌+◌, ◌-◌, ◌<◌, ◌≡◌, refl, none, some, List, [], ◌∷◌, arith}
use neofs_mount.Neofs.Listing.{SearchEntry}
use neofs_mount.Neofs.Scan.{
  Scans, Started, hit, follow, lead, list_begin, Outcome, ok, err, scan_done, entries, follow_end,
  lead_end, invalidate_container_scan, head_scan_cache_ttl,
}

-- Callers that come one after the other, at the given times; what each does next.
unfoldable pub arrive : List ℕ → Scans → Scans × List Started
arrive [] s = (s, [])
arrive (now ∷ times) s =
    let (s', what) = list_begin now s in let (s'', others) = arrive times s' in (s'', what ∷ others)

-- Every one of them follows a flight.
unfoldable pub all_follow : ℕ → List ℕ → List Started
all_follow fl [] = []
all_follow fl (now ∷ times) = follow fl ∷ all_follow fl times

list_begin-follow :
    (now fl : ℕ) (s : Scans)
    → s.cache ≡ none
    → s.inflight ≡ some fl
    → list_begin now s ≡ (s, follow fl)
unfolding list_begin
list_begin-follow now fl s c i = rw (c, i) refl

arrive-all_follow :
    (times : List ℕ) (fl : ℕ) (s : Scans)
    → s.cache ≡ none
    → s.inflight ≡ some fl
    → arrive times s ≡ (s, all_follow fl times)
unfolding arrive all_follow
arrive-all_follow [] fl s c i = refl
arrive-all_follow (now ∷ times) fl s c i =
    rw (list_begin-follow now fl s c i, arrive-all_follow times fl s c i) refl

-- What a leader and its followers come to, when the scan ends at the time `later`.
pub record Together (now later : ℕ) (times : List ℕ) (outcome : Outcome) (s : Scans) : Type 0 where
  pub leads : (list_begin now s).1 ≡ lead s.next
  pub others : (arrive times (list_begin now s).0).1 ≡ all_follow s.next times
  pub answer :
      follow_end s.next (scan_done later s.next outcome (arrive times (list_begin now s).0).0)
      ≡ lead_end outcome

module _ (now later : ℕ) (times : List ℕ) (s : Scans) (empty : s.cache ≡ none)
    (idle : s.inflight ≡ none) where
  begun : list_begin now s ≡ (record s { inflight = some s.next; next = s.next + 1 }, lead s.next)
  unfolding list_begin
  begun = rw (empty, idle) refl

  joined :
      arrive times (list_begin now s).0
      ≡ (record s { inflight = some s.next; next = s.next + 1 }, all_follow s.next times)
  joined = rw begun (
      arrive-all_follow times s.next (record s { inflight = some s.next; next = s.next + 1 }) empty
        refl)

  answered :
      (outcome : Outcome) (t : Scans)
      → t.cache ≡ none
      → follow_end s.next (scan_done later s.next outcome t) ≡ lead_end outcome
  unfolding follow_end scan_done lead_end
  answered (ok l) t h = refl
  answered (err e) t h = rw h (ground arith)

  -- With nothing kept and no scan running, the first caller leads a scan, all who come before it
  -- ends follow it, and a follower that looks right after the end, with no other step in between,
  -- returns what the leader returns, entries or error.
  pub list_begin-Together : (outcome : Outcome) → Together now later times outcome s
  list_begin-Together outcome = record {
    leads = rw begun refl;
    others = rw joined refl;
    answer = rw joined (answered outcome _ empty);
  }

  -- With nothing kept, no scan running and no error under the next number, a follower of a scan that
  -- went well returns no entries and no error if the container is invalidated before it looks.
  pub follow_end-invalidated :
      (l : List SearchEntry)
      → s.errors s.next ≡ none
      → follow_end s.next (
          invalidate_container_scan
            (scan_done later s.next (ok l) (arrive times (list_begin now s).0).0))
        ≡ entries []
  unfolding follow_end scan_done invalidate_container_scan
  follow_end-invalidated l fresh = rw (joined, fresh) refl

  -- With nothing kept and no scan running, an invalidation after a scan that went well makes the next
  -- caller lead a new scan; but an invalidation while the scan runs does not: then every caller within
  -- the time that a scan is kept gets the entries of the scan that began before the invalidation.
  pub scan_done-stale :
      (t : ℕ) (old : List SearchEntry)
      → t - later < head_scan_cache_ttl
      → let led = (list_begin now s).0 in
        ((list_begin t (invalidate_container_scan (scan_done later s.next (ok old) led))).1
          ≡ lead (s.next + 1))
        × ((list_begin t (scan_done later s.next (ok old) (invalidate_container_scan led))).1
            ≡ hit old)
  unfolding list_begin scan_done invalidate_container_scan
  scan_done-stale t old h = rw begun (refl, ground arith)
