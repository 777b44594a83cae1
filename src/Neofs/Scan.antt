-- ===== src/Neofs/Scan.antt =====
-- internal/neofs/client.go: the stretches of `ListEntriesByHeadScan` under the mutex, for one
-- container, and `InvalidateContainerScan`. A flight is a number, its `done` channel is closed when
-- the leader has finished, and its error is kept under its number. The trie that is kept beside the
-- entries is a function of them.
pub mod Flights
mod Checks
use neofs_mount.Prelude.{
  ℕ, ◌+◌, ◌-◌, Bool, true, false, Option, none, some, List, [], ◌∷◌, ltb, ◌==◌, if◌then◌else◌,
}
use neofs_mount.Neofs.Listing.{SearchEntry}

abbrev pub head_scan_cache_ttl : ℕ
head_scan_cache_ttl = 300000000000

-- `cachedScanEntries`
pub record CachedScan : Type 0 where
  pub at : ℕ
  pub entries : List SearchEntry

-- What the client keeps for a container, the errors of flights, and the number of the next flight.
pub record Scans : Type 0 where
  pub cache : Option CachedScan
  pub inflight : Option ℕ
  pub errors : ℕ → Option ℕ
  pub next : ℕ

unfoldable pub new_scans : Scans
new_scans = record { cache = none; inflight = none; errors = λ fl. none; next = 0 }

-- What a caller does after its first stretch.
pub data Started : Type 0 where
  hit : List SearchEntry → Started
  follow : ℕ → Started
  lead : ℕ → Started

abbrev pub start_scan : Scans → Scans × Started
start_scan s = (record s { inflight = some s.next; next = s.next + 1 }, lead s.next)

abbrev pub join_scan : Scans → Option ℕ → Scans × Started
join_scan s none = start_scan s
join_scan s (some fl) = (s, follow fl)

abbrev pub check_cache : ℕ → Scans → Option CachedScan → Scans × Started
check_cache now s none = join_scan s s.inflight
check_cache now s (some ent) =
    if ltb (now - ent.at) head_scan_cache_ttl then (s, hit ent.entries) else join_scan s s.inflight

unfoldable pub list_begin : ℕ → Scans → Scans × Started
list_begin now s = check_cache now s s.cache

pub data Outcome : Type 0 where
  ok : List SearchEntry → Outcome
  err : ℕ → Outcome

-- `setErr` of a flight.
abbrev pub set_err : ℕ → ℕ → (ℕ → Option ℕ) → ℕ → Option ℕ
set_err fl e errors i = if i == fl then some e else errors i

-- The deferred stretch of the leader, at the time `now`.
unfoldable pub scan_done : ℕ → ℕ → Outcome → Scans → Scans
scan_done now fl (ok entries) s = record s {
  cache = some (record { at = now; entries = entries });
  inflight = none;
}
scan_done now fl (err e) s = record s { errors = set_err fl e s.errors; inflight = none }

-- What a call returns: entries and no error, or an error.
pub data Listed : Type 0 where
  entries : List SearchEntry → Listed
  failed : ℕ → Listed

abbrev pub flight_answer : Option ℕ → Listed
flight_answer none = entries []
flight_answer (some e) = failed e

abbrev pub cached_answer : Option CachedScan → Option ℕ → Listed
cached_answer none e = flight_answer e
cached_answer (some ent) e = entries ent.entries

-- The last stretch of a follower, after the channel of its flight is closed.
unfoldable pub follow_end : ℕ → Scans → Listed
follow_end fl s = cached_answer s.cache (s.errors fl)

unfoldable pub lead_end : Outcome → Listed
lead_end (ok l) = entries l
lead_end (err e) = failed e

unfoldable pub invalidate_container_scan : Scans → Scans
invalidate_container_scan s = record s { cache = none }
