-- ===== src/Cache/Waiters.antt =====
-- Callers that arrive while a key is being fetched, and what becomes of them.
use neofs_mount.Prelude.{
  ℕ, ◌+◌, ◌≡◌, refl, ap, ◌∙◌, Text, true, false, Option, none, some, List, [], ◌∷◌, ◌++◌,
  append-nil, append-cons, map, lookup, insert, lookup-insert_self, arith,
}
use neofs_mount.Cache.State.{Entry, Cache, Error}
use neofs_mount.Cache.Sections.{Begin, wait, usable, look_at, look, finish_found, finish_fetch}
use neofs_mount.Cache.Evict.{evict_if_needed}
use neofs_mount.Cache.Lru.{has}
use neofs_mount.Cache.Invariant.{IsValid, total}
use neofs_mount.Cache.Limit.{evict_if_needed-Evicted}
use neofs_mount.Cache.Exact.{IsExact, total-insert}

-- Callers with these clocks and channels look at the key one after the other.
unfoldable pub arrive : Text → List (ℕ × ℕ) → Cache → Cache × List Begin
arrive key [] c = (c, [])
arrive key ((now, channel) ∷ rest) c =
    let (c', b) = look key now channel c in let (c'', bs) = arrive key rest c' in (c'', b ∷ bs)

abbrev pub all_wait : List (ℕ × ℕ) → List Begin
all_wait [] = []
all_wait (a ∷ rest) = wait ∷ all_wait rest

look_fetching :
    (key : Text) (now channel : ℕ) (c : Cache) (e : Entry)
    → lookup key c.entries ≡ some e
    → e.fetching ≡ true
    → look key now channel c ≡ (
      record c {
        entries = insert key (record e { waiters = e.waiters ++ channel ∷ [] }) c.entries;
      },
      wait,
    )
unfolding look look_at usable
look_fetching key now channel c e p f = ground arith

finish_waiters :
    (key path : Text) (n : ℕ) (failure : Option Error) (c : Cache) (e : Entry)
    → lookup key c.entries ≡ some e
    → (finish_fetch key path n failure c).1 ≡ e.waiters
unfolding finish_fetch finish_found
finish_waiters key path n none c e p = ground arith
finish_waiters key path n (some f) c e p = ground arith

-- Callers that arrive one after the other while the key is being fetched all wait; and if the end of
-- the fetch, good or bad, is the next step after the last of them, it closes the channels of those who
-- waited before and of each of them, in order of arrival.
pub arrive-finish_fetch :
    (key path : Text) (n : ℕ) (failure : Option Error) (calls : List (ℕ × ℕ)) (c : Cache)
    (e : Entry)
    → lookup key c.entries ≡ some e
    → e.fetching ≡ true
    → let (c', bs) = arrive key calls c in
      (bs ≡ all_wait calls)
      × ((finish_fetch key path n failure c').1 ≡ e.waiters ++ map (λ a. a.1) calls)
unfolding arrive
arrive-finish_fetch key path n failure [] c e p f =
    (refl, finish_waiters key path n failure c e p ∙ rw append-nil)
arrive-finish_fetch key path n failure ((now, channel) ∷ rest) c e p f =
    let e' = record e { waiters = e.waiters ++ channel ∷ [] } in
    let (waits, woken) =
      arrive-finish_fetch key path n failure rest (record c { entries = insert key e' c.entries })
        e' (lookup-insert_self key e' c.entries) f in
    rw (look_fetching key now channel c e p f)
      (ap (◌∷◌ wait) waits, woken ∙ append-cons e.waiters channel _)

-- A key that is evicted while it is being fetched: before the eviction the end of the fetch would
-- have woken those who wait for it; after it, the end of the fetch changes nothing, wakes nobody
-- and counts no byte.
pub finish_fetch-evicted :
    (key path : Text) (n : ℕ) (failure : Option Error) (c : Cache) (e : Entry)
    → IsValid c
    → lookup key c.entries ≡ some e
    → has key (evict_if_needed c).0.lru ≡ false
    → let c' = (evict_if_needed c).0 in
      ((finish_fetch key path n failure c).1 ≡ e.waiters)
      × (finish_fetch key path n failure c' ≡ (c', []))
unfolding finish_fetch finish_found
finish_fetch-evicted key path n failure c e v p gone = (
  finish_waiters key path n failure c e p,
  ground (arith, (evict_if_needed-Evicted c v).kept_entries key),
)

-- What a good end of a fetch makes of an entry.
abbrev blob_entry : Entry → Text → ℕ → Entry
blob_entry e path n = record e {
  path = path;
  size = n;
  fetching = false;
  waiters = [];
  last_err = none;
}

-- A good end of a fetch leaves `curBytes` above the sum of the sizes by the size that the entry had
-- before: a second end for the same key counts the blob twice.
pub finish_fetch_twice :
    (key path : Text) (n : ℕ) (c : Cache) (e : Entry)
    → IsExact c
    → lookup key c.entries ≡ some e
    → let c' = (finish_fetch key path n none c).0 in c'.cur_bytes ≡ total c'.entries + e.size
unfolding finish_fetch finish_found
finish_fetch_twice key path n c e x p =
    let f = blob_entry e path n in ground (arith, x.exact, total-insert key f c.entries x.unique, p)
