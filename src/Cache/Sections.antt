-- ===== src/Cache/Sections.antt =====
-- internal/cache/cache.go: what each method does while it holds `c.mu`. Each function here is one
-- stretch between a `Lock` and its `Unlock`, so callers interleave only between these.
use neofs_mount.Prelude.{
  ℕ, ◌+◌, ◌-◌, Text, Bool, true, false, not, ◌&&◌, Option, none, some, List, [], ◌∷◌, ◌++◌, lookup,
  insert, delete, text_eq, is_empty, ◌==◌, if◌then◌else◌,
}
use neofs_mount.Cache.State.{Entry, Cache, Error, remove_from_lru, bump_lru, no_error}

-- What the loop of `GetOrFetch` goes on with when it has looked at the entry.
pub data Begin : Type 0 where
  hit : Text → ℕ → Begin
  wait : Begin
  fetch : Begin

unfoldable pub usable : Entry → Bool
usable e = not e.fetching && no_error e.last_err

abbrev pub fresh : ℕ → Entry
fresh now = record {
  path = [];
  size = 0;
  atime = now;
  fetching = true;
  waiters = [];
  last_err = none;
}

unfoldable pub start_fetch : Text → ℕ → Cache → Cache × Begin
start_fetch key now c =
    (record c { entries = insert key (fresh now) c.entries; lru = bump_lru key c.lru }, fetch)

unfoldable pub look_at : Text → ℕ → ℕ → Option Entry → Cache → Cache × Begin
unfolding start_fetch usable
look_at key now channel none c = start_fetch key now c
look_at key now channel (some e) c =
    if usable e
    then (
      record c {
        entries = insert key (record e { atime = now }) c.entries;
        lru = bump_lru key c.lru;
      },
      hit e.path e.size,
    )
    else if e.fetching
    then (
      record c {
        entries = insert key (record e { waiters = e.waiters ++ channel ∷ [] }) c.entries;
      },
      wait,
    )
    else start_fetch key now c

-- The head of the loop: a hit, a fetch of somebody else to wait for, or a fetch of one's own.
unfoldable pub look : Text → ℕ → ℕ → Cache → Cache × Begin
unfolding look_at
look key now channel c = look_at key now channel (lookup key c.entries) c

unfoldable pub drop_found : Text → Text → ℕ → Option Entry → Cache → Cache
unfolding usable
drop_found key path size none c = c
drop_found key path size (some e) c =
    if usable e && (text_eq e.path path && e.size == size)
    then record c {
      entries = delete key c.entries;
      lru = remove_from_lru key c.lru;
      cur_bytes = c.cur_bytes - e.size;
    }
    else c

-- The blob of a hit is gone or has another size: forget the entry, if it is still the one seen.
unfoldable pub drop_stale : Text → Text → ℕ → Cache → Cache
unfolding drop_found
drop_stale key path size c = drop_found key path size (lookup key c.entries) c

unfoldable pub finish_found : Text → Text → ℕ → Option Error → Option Entry → Cache → Cache × List ℕ
finish_found key path size failure none c = (c, [])
finish_found key path size none (some e) c = (
  record c {
    entries =
        insert key
          (record e { path = path; size = size; fetching = false; waiters = []; last_err = none })
          c.entries;
    cur_bytes = c.cur_bytes + size;
  },
  e.waiters,
)
finish_found key path size (some failure) (some e) c = (
  record c {
    entries =
        insert key (record e { fetching = false; waiters = []; last_err = some failure }) c.entries;
  },
  e.waiters,
)

-- `finishFetch`, with the channels that it closes.
unfoldable pub finish_fetch : Text → Text → ℕ → Option Error → Cache → Cache × List ℕ
unfolding finish_found
finish_fetch key path size failure c = finish_found key path size failure (lookup key c.entries) c

-- What the replaced entry is worth, and the file that goes with it.
unfoldable pub discount : ℕ → Option Entry → ℕ × List Text
discount cur none = (cur, [])
discount cur (some e) =
    if no_error e.last_err && not (is_empty e.path) then (cur - e.size, e.path ∷ []) else (cur, [])

unfoldable pub store_over : Text → Text → ℕ → ℕ → Option Entry → Cache → Cache × List Text
unfolding discount
store_over key path size now old c =
    let (cur, removed) = discount c.cur_bytes old in
    (
      record c {
        entries =
            insert key
              (record {
                path = path;
                size = size;
                atime = now;
                fetching = false;
                waiters = [];
                last_err = none;
              })
              c.entries;
        lru = bump_lru key c.lru;
        cur_bytes = cur + size;
      },
      removed,
    )

-- `StoreFromPath` after the rename to `path`, with the files that it removes.
unfoldable pub store : Text → Text → ℕ → ℕ → Cache → Cache × List Text
unfolding store_over
store key path size now c = store_over key path size now (lookup key c.entries) c
