-- ===== src/Cache/Evict.antt =====
-- internal/cache/cache.go: `evictIfNeeded`, with the files that it removes.
use neofs_mount.Prelude.{
  ℕ, zero, suc, ◌-◌, Text, true, false, Option, none, some, List, [], ◌∷◌, ◌++◌, lookup, delete,
  is_empty, ltb, if◌then◌else◌, length,
}
use neofs_mount.Cache.State.{Entry, Cache}

-- The last key of the list and those before it.
unfoldable pub split_last {ℓ} : {A : Type ℓ} → List A → Option (List A × A)
split_last [] = none
split_last (x ∷ []) = some ([], x)
split_last (x ∷ y ∷ xs) = elim (split_last (y ∷ xs)) [
  | none ↦ none
  | some (front, last) ↦ some (x ∷ front, last)
]

unfoldable pub evict_found : Option Entry → Cache → Cache × List Text
evict_found none c = (c, [])
evict_found (some e) c =
    if is_empty e.path
    then (c, [])
    else (record c { cur_bytes = c.cur_bytes - e.size }, e.path ∷ [])

-- One round of the loop, for the key at the end of the list.
unfoldable pub evict_key : List Text → Text → Cache → Cache × List Text
unfolding evict_found
evict_key front key c =
    evict_found (lookup key c.entries) (record c { lru = front; entries = delete key c.entries })

-- The loop, with the rounds that are left.
unfoldable pub evict_rounds : ℕ → Cache → Cache × List Text
unfolding evict_key split_last
evict_rounds zero c = (c, [])
evict_rounds (suc n) c = elim (ltb c.max_bytes c.cur_bytes) [
  | false ↦ (c, [])
  | true ↦ elim (split_last c.lru) [
    | none ↦ (c, [])
    | some (front, key) ↦
        let (c', removed) = evict_key front key c in
        let (c'', more) = evict_rounds n c' in (c'', removed ++ more)
  ]
]

-- Each round takes a key from the list, so the list's length is enough rounds.
unfoldable pub evict_if_needed : Cache → Cache × List Text
unfolding evict_rounds
evict_if_needed c = evict_rounds (length c.lru) c
