-- ===== src/Cache/Interleave.antt =====
-- Any number of goroutines over one cache: every order of their stretches under `c.mu`.
use neofs_mount.Prelude.{
  ℕ, ◌≤◌, ◌≡◌, refl, Text, codes, false, Option, none, some, [], ◌∷◌, ◌++◌, is_empty, ◌==◌, arith,
  Bool-cases, inl, inr,
}
use neofs_mount.Cache.State.{Cache, Error, Result, ok, err, new}
use neofs_mount.Cache.Evict.{evict_if_needed}
use neofs_mount.Cache.Invariant.{IsValid, total}
use neofs_mount.Cache.Keeps.{
  new-IsValid, look-IsValid, drop_stale-IsValid, finish_fetch-IsValid, store-IsValid,
}
use neofs_mount.Cache.Limit.{evict_if_needed-Evicted, total-evict_if_needed-le}
use neofs_mount.Cache.Program.{
  Answer, Point, looking, checking, waiting, fetching, evicting, returned, advance, check_blob,
  end_fetch, final_path, store_from_path, source_found,
}

-- `filepath.Join` does not return an empty path for a file name that is not empty.
pub record IsJoin (join : Text → Text → Text) : Type 0 where
  pub full : (dir name : Text) → is_empty name ≡ false → is_empty (join dir name) ≡ false

module _ (join : Text → Text → Text) where
  -- One stretch of some goroutine: of any call of `GetOrFetch` at any point of it, of any call of
  -- `StoreFromPath`, or of the `evictIfNeeded` that one of those started.
  pub data Step (c : Cache) : Cache → Type 0 where
    get : (key : Text) (a : Answer) (p : Point) → Step c (advance join key a p c).1
    store :
        (key src : Text) (stat : Result ℕ) (renamed : Option Error) (now : ℕ)
        → Step c (store_from_path join key src stat renamed now c).1
    evict : Step c (evict_if_needed c).0

  pub data Reach (c : Cache) : Cache → Type 0 where
    start : Reach c c
    next : {d e : Cache} → Reach c d → Step d e → Reach c e

  module _ (joins : IsJoin join) where
    pub blob_full : (c : Cache) (key : Text) → is_empty (final_path join c key) ≡ false
    blob_full c key = joins.full c.dir (key ++ codes ".blob") (named key)
      where
        named : (k : Text) → is_empty (k ++ codes ".blob") ≡ false
        named [] = refl
        named (x ∷ k) = refl

    check_blob-IsValid :
        (key path : Text) (size : ℕ) (stat : Result ℕ) {c : Cache}
        → IsValid c
        → IsValid (check_blob join key path size stat c).1
    unfolding check_blob
    check_blob-IsValid key path size (err e) v = drop_stale-IsValid key path size v
    check_blob-IsValid key path size (ok n) v = elim (Bool-cases (n == size)) [
      | inl same ↦ rw same v
      | inr other ↦ rw other (drop_stale-IsValid key path size v)
    ]

    end_fetch-IsValid :
        (key : Text) (r : Result ℕ) {c : Cache} → IsValid c → IsValid (end_fetch join key r c).1
    unfolding end_fetch
    end_fetch-IsValid key (err e) {c} v = finish_fetch-IsValid key [] 0 (some e) (λ q. cc) v
    end_fetch-IsValid key (ok n) {c} v = finish_fetch-IsValid key _ n none (λ _. blob_full c key) v

    advance-IsValid :
        (key : Text) (a : Answer) (p : Point) {c : Cache}
        → IsValid c
        → IsValid (advance join key a p c).1
    unfolding advance
    advance-IsValid key a looking v = look-IsValid key a.now a.channel v
    advance-IsValid key a (checking path size) v = check_blob-IsValid key path size a.stat v
    advance-IsValid key a waiting {c} v =
        elim a.cancelled
          as (λ o.
            IsValid
              (elim o as (λ _. Point × Cache) [
                | some e ↦ (returned (err e), c)
                | none ↦ (looking, c)
              ]).1) [ none ↦ v | some e ↦ v ]
    advance-IsValid key a fetching {c} v = end_fetch-IsValid key _ v
    advance-IsValid key a (evicting path size) {c} v = (evict_if_needed-Evicted c v).valid
    advance-IsValid key a (returned r) v = v

    store_from_path-IsValid :
        (key src : Text) (stat : Result ℕ) (renamed : Option Error) (now : ℕ) {c : Cache}
        → IsValid c
        → IsValid (store_from_path join key src stat renamed now c).1
    unfolding store_from_path
    store_from_path-IsValid key src stat renamed now {c} v = ground (arith, stored stat renamed)
      where
        stored :
            (st : Result ℕ) (r : Option Error) → IsValid (source_found join key src st r now c).1
        stored (err e) r = v
        stored (ok n) (some e) = v
        stored (ok n) none = store-IsValid key _ n now (blob_full c key) v

    pub Reach-IsValid : {c d : Cache} → IsValid c → Reach c d → IsValid d
    Reach-IsValid v start = v
    Reach-IsValid v (next r (get key a p)) = advance-IsValid key a p (Reach-IsValid v r)
    Reach-IsValid v (next r (store key src stat renamed now)) =
        store_from_path-IsValid key src stat renamed now (Reach-IsValid v r)
    Reach-IsValid v (next {d = d} r evict) = (evict_if_needed-Evicted d (Reach-IsValid v r)).valid

    -- However the goroutines of a new cache interleave, no key is twice in the list, the list has
    -- exactly the keys of the entries, and the sizes of the entries add up to at most `curBytes`.
    pub new-Reach-IsValid :
        (dir : Text) (n : ℕ) {c d : Cache} → new dir n ≡ ok c → Reach c d → IsValid d
    new-Reach-IsValid dir n e r = Reach-IsValid (new-IsValid dir n e) r

    -- However the goroutines of a new cache interleave, an `evictIfNeeded` leaves blobs of at most
    -- the limit in the entries.
    pub new-Reach-total-le :
        (dir : Text) (n : ℕ) {c d : Cache}
        → new dir n ≡ ok c
        → Reach c d
        → total (evict_if_needed d).0.entries ≤ d.max_bytes
    new-Reach-total-le dir n {d = d} e r = total-evict_if_needed-le d (new-Reach-IsValid dir n e r)
