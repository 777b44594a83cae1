-- ===== src/Cache/Alone.antt =====
-- One goroutine in `GetOrFetch` with nobody between its steps.
use neofs_mount.Prelude.{
  ℕ, ◌+◌, ◌≤◌, ◌≡◌, inl, inr, refl, ap, ◌∙◌, Text, Bool, true, false, not, ◌&&◌, Option, none, some,
  List, [], ◌∷◌, lookup, insert, lookup-insert_self, text_eq_refl, arith,
}
use neofs_mount.Cache.State.{Entry, Cache, ok, bump_lru, remove_from_lru}
use neofs_mount.Cache.Sections.{
  hit, usable, start_fetch, look_at, look, finish_found, finish_fetch, fresh,
}
use neofs_mount.Cache.Evict.{evict_if_needed}
use neofs_mount.Cache.Lru.{has}
use neofs_mount.Cache.Invariant.{weight}
use neofs_mount.Cache.Rounds.{total_of_empty}
use neofs_mount.Cache.Limit.{Evicted, evict_if_needed-Evicted}
use neofs_mount.Cache.Exact.{IsExact, evict_if_needed-IsExact, look-IsExact, finish_fetch-IsExact}
use neofs_mount.Cache.Interleave.{IsJoin, blob_full}
use neofs_mount.Cache.Program.{
  Answer, looking, returned, advance, end_fetch, download, tmp_path, final_path, run,
}

-- The most recently used key outlives an eviction if its blob fits.
module _ {c : Cache} (x : IsExact c) (key : Text) (rest : List Text) (top : c.lru ≡ key ∷ rest)
    (fits : weight (lookup key c.entries) ≤ c.max_bytes) where
  stays :
      (kept : List Text) (E : Evicted c (evict_if_needed c).0)
      → (evict_if_needed c).0.lru ≡ kept
      → has key (evict_if_needed c).0.lru ≡ true
  unfolding has
  stays [] E e = absurd (elim E.needed [
    | inl none_gone ↦ ground (arith, top, E.kept_order, e, none_gone)
    | inr (k, more, g, over) ↦
        let same : k ≡ key = ground (arith, top, E.kept_order, e, g) in
        let z : (evict_if_needed c).0.cur_bytes ≡ 0 =
          (evict_if_needed-IsExact c x).exact ∙ total_of_empty _ E.valid e in
        omega (arith, over, z, E.limit, ap (λ (j : Text). weight (lookup j c.entries)) same)
  ])
  stays (y ∷ kept) E e =
      let same : y ≡ key = ground (arith, top, E.kept_order, e) in
      rw (e, same) (ground (arith, text_eq_refl key))

  lookup-evict_front : lookup key (evict_if_needed c).0.entries ≡ lookup key c.entries
  lookup-evict_front =
      let E = evict_if_needed-Evicted c x.valid in
      ground (arith, E.kept_entries key, stays _ E refl)

-- Nothing usable is there, and nobody fetches it.
abbrev pub startable : Option Entry → Bool
startable none = true
startable (some e) = not (usable e) && not e.fetching

-- The entry of a fetch that went well.
abbrev blob : Text → ℕ → ℕ → Entry
blob path n now = record {
  path = path;
  size = n;
  atime = now;
  fetching = false;
  waiters = [];
  last_err = none;
}

look-startable :
    (key : Text) (now channel : ℕ) (c : Cache)
    → startable (lookup key c.entries) ≡ true
    → look key now channel c ≡ start_fetch key now c
unfolding look look_at
look-startable key now channel c s = ground arith

look-blob :
    (key path : Text) (n at now channel : ℕ) (c : Cache)
    → lookup key c.entries ≡ some (blob path n at)
    → (look key now channel c).1 ≡ hit path n
unfolding look look_at usable
look-blob key path n at now channel c p = ground arith

finish_started :
    (key path : Text) (n now : ℕ) (c : Cache)
    → lookup key c.entries ≡ some (fresh now)
    → (finish_fetch key path n none c).0
      ≡ record c { entries = insert key (blob path n now) c.entries; cur_bytes = c.cur_bytes + n }
unfolding finish_fetch finish_found
finish_started key path n now c p = ground arith

module _ (join : Text → Text → Text) (joins : IsJoin join) (key : Text) {c : Cache} (x : IsExact c)
    (free : startable (lookup key c.entries) ≡ true) where
  -- The state when the fetch is under way, and when it has ended with `n` bytes.
  abbrev started : ℕ → Cache
  started now = (start_fetch key now c).0

  abbrev ended : ℕ → ℕ → Cache
  ended now n = (finish_fetch key (final_path join c key) n none (started now)).0

  started-IsExact : (now : ℕ) → IsExact (started now)
  started-IsExact now =
      rw (ap (λ r. r.0) (look-startable key now 0 c free)) at (look-IsExact key x now 0)

  lookup-started : (now : ℕ) → lookup key (started now).entries ≡ some (fresh now)
  unfolding start_fetch
  lookup-started now = lookup-insert_self key (fresh now) c.entries

  ended-IsExact : (now n : ℕ) → IsExact (ended now n)
  ended-IsExact now n =
      finish_fetch-IsExact key (started-IsExact now) (final_path join c key) n none
        (λ _. blob_full join joins c key) (ap weight (lookup-started now))

  lru-ended :
      (now n : ℕ)
      → ((ended now n).lru ≡ key ∷ remove_from_lru key c.lru)
        × ((ended now n).max_bytes ≡ c.max_bytes)
  unfolding start_fetch bump_lru
  lru-ended now n = rw (finish_started key _ n now (started now) (lookup-started now)) (refl, refl)

  lookup-ended :
      (now n : ℕ) → lookup key (ended now n).entries ≡ some (blob (final_path join c key) n now)
  lookup-ended now n =
      rw (finish_started key _ n now (started now) (lookup-started now))
        (lookup-insert_self key _ (started now).entries)

  run_steps :
      (a b e : Answer) (n : ℕ)
      → (download (tmp_path join c key) (final_path join c key) b.download).0 ≡ ok n
      → run join key (a ∷ b ∷ e ∷ []) looking c
        ≡ (returned (ok (final_path join c key, n)), (evict_if_needed (ended a.now n)).0)
  unfolding run advance end_fetch start_fetch
  run_steps a b e n d = rw (look-startable key a.now a.channel c free) (rw d)

  lookup-kept :
      (now n : ℕ)
      → n ≤ c.max_bytes
      → lookup key (evict_if_needed (ended now n)).0.entries
        ≡ some (blob (final_path join c key) n now)
  lookup-kept now n fits =
      lookup-evict_front (ended-IsExact now n) key (remove_from_lru key c.lru) (lru-ended now n).0
        (rw (lookup-ended now n) (omega (arith, fits, (lru-ended now n).1)))
      ∙ lookup-ended now n

  -- Undisturbed, `GetOrFetch` of a key that is not there, with a download that went well and a blob
  -- that fits the cache, returns the blob after three steps, with the accounting still exact, and the
  -- next look at the key is a hit on that very blob, whenever it comes.
  pub run_fetch :
      (a b e : Answer) (n : ℕ)
      → (download (tmp_path join c key) (final_path join c key) b.download).0 ≡ ok n
      → n ≤ c.max_bytes
      → let (p, c') = run join key (a ∷ b ∷ e ∷ []) looking c in
        (p ≡ returned (ok (final_path join c key, n)))
        × IsExact c'
        × ((now channel : ℕ) → (look key now channel c').1 ≡ hit (final_path join c key) n)
  run_fetch a b e n d fits = rw (run_steps a b e n d) (
    refl,
    evict_if_needed-IsExact _ (ended-IsExact a.now n),
    λ now channel.
        look-blob key (final_path join c key) n a.now now channel _ (lookup-kept a.now n fits),
  )
