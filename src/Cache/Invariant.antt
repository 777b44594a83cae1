-- ===== src/Cache/Invariant.antt =====
-- The invariant of the cache that every stretch under `c.mu` keeps, whatever the interleaving.
use neofs_mount.Prelude.{
  ℕ, ◌+◌, ◌≤◌, ◌≡◌, Text, Bool, true, false, Option, none, some, [], ◌∷◌, Map, lookup, delete,
  insert, lookup-delete, lookup-insert, text_eq_iff, is_empty, arith,
}
use neofs_mount.Cache.State.{Entry, Cache, bump_lru, remove_from_lru}
use neofs_mount.Cache.Lru.{has, Distinct, has-remove, remove-Distinct, has-bump, bump-Distinct}

abbrev pub present : Option Entry → Bool
present none = false
present (some e) = true

-- What an entry counts for.
abbrev pub weight : Option Entry → ℕ
weight none = 0
weight (some e) = e.size

-- The bytes of all entries together.
unfoldable pub total : Map Entry → ℕ
total [] = 0
total ((k, e) ∷ m) = e.size + total m

-- An entry with no blob counts for nothing.
abbrev pub Sized : Option Entry → Type 0
Sized none = Unit
Sized (some e) = is_empty e.path ≡ true → e.size ≡ 0

pub record IsValid (c : Cache) : Type 0 where
  pub distinct : Distinct c.lru
  pub same_keys : (k : Text) → has k c.lru ≡ present (lookup k c.entries)
  pub sized : (k : Text) → Sized (lookup k c.entries)
  pub covered : total c.entries ≤ c.cur_bytes

pub total-delete-le :
    (k : Text) (m : Map Entry) → total (delete k m) + weight (lookup k m) ≤ total m
unfolding total delete lookup
total-delete-le k [] = omega arith
total-delete-le k ((j, e) ∷ m) = ground (arith, total-delete-le k m)

pub total-insert-le :
    (k : Text) (e : Entry) (m : Map Entry)
    → total (insert k e m) + weight (lookup k m) ≤ e.size + total m
unfolding total insert
total-insert-le k e m = omega (arith, total-delete-le k m)

pub weight-le-total : (k : Text) (m : Map Entry) → weight (lookup k m) ≤ total m
weight-le-total k m = omega (arith, total-delete-le k m)

-- Rewriting one entry.
module _ {c : Cache} (v : IsValid c) (key : Text) (e : Entry) where
  put_same_keys :
      (k : Text) → has k (bump_lru key c.lru) ≡ present (lookup k (insert key e c.entries))
  put_same_keys k =
      rw (lookup-insert, has-bump k key c.lru v.distinct) (ground (arith, v.same_keys k))

  put-Sized : Sized (some e) → (k : Text) → Sized (lookup k (insert key e c.entries))
  put-Sized h k = rw lookup-insert (ground (arith, v.sized k))

  -- Bumping the key and writing its entry, with the bytes that are counted afterwards.
  pub put-IsValid :
      (cur : ℕ)
      → Sized (some e)
      → total (insert key e c.entries) ≤ cur
      → IsValid
          (record c { entries = insert key e c.entries; lru = bump_lru key c.lru; cur_bytes = cur })
  put-IsValid cur h le = record {
    distinct = bump-Distinct key c.lru v.distinct;
    same_keys = put_same_keys;
    sized = put-Sized h;
    covered = le;
  }

  -- Writing the entry of a key that is there.
  pub update-IsValid :
      (cur : ℕ)
      → present (lookup key c.entries) ≡ true
      → Sized (some e)
      → total (insert key e c.entries) ≤ cur
      → IsValid (record c { entries = insert key e c.entries; cur_bytes = cur })
  update-IsValid cur p h le = record {
    distinct = v.distinct;
    same_keys =
        λ k. rw lookup-insert (ground (arith, v.same_keys k, text_eq_iff key k, v.same_keys key));
    sized = put-Sized h;
    covered = le;
  }

-- Dropping a key from the map and from the list.
pub remove-IsValid :
    {c : Cache} (v : IsValid c) (key : Text) (cur : ℕ)
    → total (delete key c.entries) ≤ cur
    → IsValid (record c {
      entries = delete key c.entries;
      lru = remove_from_lru key c.lru;
      cur_bytes = cur;
    })
remove-IsValid {c} v key cur le = record {
  distinct = remove-Distinct key c.lru v.distinct;
  same_keys =
      λ k. rw (lookup-delete, has-remove k key c.lru v.distinct) (ground (arith, v.same_keys k));
  sized = λ k. rw lookup-delete (ground (arith, v.sized k));
  covered = le;
}
