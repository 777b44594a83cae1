-- ===== src/Cache/Checks.antt =====
-- The cache at concrete inputs.
use neofs_mount.Prelude.{
  ℕ, ◌+◌, ◌≤◌, ◌≡◌, refl, Text, codes, text_eq, true, false, none, some, [], ◌∷◌, ◌++◌, lookup,
  insert, delete, is_empty, arith,
}
use neofs_mount.Cache.State.{Entry, Cache, ok, new, remove_from_lru, bump_lru}
use neofs_mount.Cache.Sections.{hit, wait, look, drop_stale, finish_fetch, store}
use neofs_mount.Cache.Evict.{split_last, evict_if_needed}
use neofs_mount.Cache.Lru.{has}
use neofs_mount.Cache.Invariant.{IsValid, total}
use neofs_mount.Cache.Limit.{Evicted, evict_if_needed-Evicted}
use neofs_mount.Cache.Exact.{IsExact}
use neofs_mount.Cache.Program.{
  Answer, Download, looking, fetching, returned, run, download, store_from_path, advance,
}
use neofs_mount.Cache.Keeps.{new-IsValid}
use neofs_mount.Cache.Interleave.{
  IsJoin, get, Reach, start, next, new-Reach-IsValid, new-Reach-total-le,
}
use neofs_mount.Cache.Alone.{run_fetch}
use neofs_mount.Cache.Waiters.{
  arrive, arrive-finish_fetch, finish_fetch-evicted, finish_fetch_twice,
}

program : Unit {0}
unfolding new look drop_stale finish_fetch store evict_if_needed download run store_from_path has
    total lookup insert delete text_eq remove_from_lru bump_lru split_last
program = tt

-- A `filepath.Join` for the checks.
abbrev slash_join : Text → Text → Text
slash_join dir name = dir ++ b'/' ∷ name

full-slash_join : (dir name : Text) → is_empty (slash_join dir name) ≡ false
full-slash_join [] name = refl
full-slash_join (c ∷ dir) name = refl

slash_join-IsJoin : IsJoin slash_join
slash_join-IsJoin = record { full = λ dir name h. full-slash_join dir name }

abbrev good : ℕ → Download
good n = record { opened = none; payload = none; closed = none; stat = ok n; renamed = none }

abbrev answer : ℕ → Answer
answer n = record { now = 7; channel = 1; stat = ok n; cancelled = none; download = good n }

abbrev empty : Cache
empty = record { dir = codes "/c"; max_bytes = 10; cur_bytes = 0; lru = []; entries = [] }

empty-new : new (codes "/c") 10 ≡ ok empty
unfolding program
empty-new = refl

-- `a` is being fetched, and has a caller that waits, when `b` comes with 11 bytes.
abbrev fetching_a : Cache
fetching_a = (advance slash_join (codes "a") (answer 4) looking empty).1

abbrev waiting_a : Cache
waiting_a = (advance slash_join (codes "a") (answer 4) looking fetching_a).1

abbrev fetching_b : Cache
fetching_b = (advance slash_join (codes "b") (answer 11) looking waiting_a).1

abbrev ended_b : Cache
ended_b = (advance slash_join (codes "b") (answer 11) fetching fetching_b).1

ended_b-Reach : Reach slash_join empty ended_b
ended_b-Reach =
    next
      (next
        (next (next start (get (codes "a") (answer 4) looking))
          (get (codes "a") (answer 4) looking))
        (get (codes "b") (answer 11) looking))
      (get (codes "b") (answer 11) fetching)

abbrev waiting_entry : Entry
waiting_entry = record {
  path = [];
  size = 0;
  atime = 7;
  fetching = true;
  waiters = 1 ∷ [];
  last_err = none;
}

lookup-ended_b : lookup (codes "a") ended_b.entries ≡ some waiting_entry
unfolding program advance
lookup-ended_b = refl

empty-IsExact : IsExact empty
unfolding program
empty-IsExact = record {
  valid = new-IsValid (codes "/c") 10 empty-new;
  unique = tt;
  idle = λ k. tt;
  exact = refl;
}

ended_b-IsValid : IsValid ended_b
ended_b-IsValid =
    new-Reach-IsValid slash_join slash_join-IsJoin (codes "/c") 10 empty-new ended_b-Reach

new-Reach-IsValid_example : IsValid ended_b
new-Reach-IsValid_example =
    new-Reach-IsValid slash_join slash_join-IsJoin (codes "/c") 10 empty-new ended_b-Reach

new-Reach-total-le_example : total (evict_if_needed ended_b).0.entries ≤ ended_b.max_bytes
new-Reach-total-le_example =
    new-Reach-total-le slash_join slash_join-IsJoin (codes "/c") 10 empty-new ended_b-Reach

evict_if_needed-Evicted_example : Evicted ended_b (evict_if_needed ended_b).0
evict_if_needed-Evicted_example = evict_if_needed-Evicted ended_b ended_b-IsValid

run_fetch_example :
    let (p, c') = run slash_join (codes "a") (answer 4 ∷ answer 4 ∷ answer 4 ∷ []) looking empty in
    (p ≡ returned (ok (codes "/c/a.blob", 4)))
    × IsExact c'
    × ((now channel : ℕ) → (look (codes "a") now channel c').1 ≡ hit (codes "/c/a.blob") 4)
unfolding program
run_fetch_example =
    run_fetch slash_join slash_join-IsJoin (codes "a") empty-IsExact refl (answer 4) (answer 4)
      (answer 4) 4 refl (omega arith)

arrive-finish_fetch_example :
    let (c', bs) = arrive (codes "a") ((8, 2) ∷ (9, 3) ∷ []) ended_b in
    (bs ≡ wait ∷ wait ∷ [])
    × ((finish_fetch (codes "a") (codes "/c/a.blob") 4 none c').1 ≡ 1 ∷ 2 ∷ 3 ∷ [])
arrive-finish_fetch_example =
    arrive-finish_fetch (codes "a") (codes "/c/a.blob") 4 none ((8, 2) ∷ (9, 3) ∷ []) ended_b
      waiting_entry lookup-ended_b refl

evicts_a : has (codes "a") (evict_if_needed ended_b).0.lru ≡ false
unfolding program advance
evicts_a = refl

finish_fetch-evicted_example :
    let c' = (evict_if_needed ended_b).0 in
    ((finish_fetch (codes "a") (codes "/c/a.blob") 4 none ended_b).1 ≡ 1 ∷ [])
    × (finish_fetch (codes "a") (codes "/c/a.blob") 4 none c' ≡ (c', []))
finish_fetch-evicted_example =
    finish_fetch-evicted (codes "a") (codes "/c/a.blob") 4 none ended_b waiting_entry
      ended_b-IsValid lookup-ended_b evicts_a

-- The cache with `a` in it.
abbrev with_a : Cache
with_a = (run slash_join (codes "a") (answer 4 ∷ answer 4 ∷ answer 4 ∷ []) looking empty).1

abbrev entry_a : Entry
entry_a = record waiting_entry {
  path = codes "/c/a.blob";
  size = 4;
  fetching = false;
  waiters = [];
}

lookup-with_a : lookup (codes "a") with_a.entries ≡ some entry_a
unfolding program
lookup-with_a = refl

finish_fetch_twice_example :
    let c' = (finish_fetch (codes "a") (codes "/c/a.blob") 6 none with_a).0 in
    c'.cur_bytes ≡ total c'.entries + 4
finish_fetch_twice_example =
    finish_fetch_twice (codes "a") (codes "/c/a.blob") 6 with_a entry_a run_fetch_example.1
      lookup-with_a
