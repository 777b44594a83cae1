-- ===== src/Cache/Limit.antt =====
-- `evictIfNeeded`: which keys go, and that the rest is within the limit.
use native.Mathlib.Nat.{le_refl}
use neofs_mount.Prelude.{
  ◌+◌, ◌≤◌, ◌<◌, ◌≡◌, ◌⊎◌, inl, inr, refl, ap, sym, ◌∙◌, Text, none, List, [], ◌∷◌, ◌++◌,
  append-nil, append-cons, lookup, lookup-delete, text_eq_iff, text_eq_refl, if◌then◌else◌, length,
  arith,
}
use neofs_mount.Cache.State.{Cache}
use neofs_mount.Cache.Evict.{evict_key, evict_if_needed}
use neofs_mount.Cache.Lru.{has, has-concat}
use neofs_mount.Cache.Invariant.{IsValid, weight, total}
use neofs_mount.Cache.Rounds.{
  lru-evict_key, entries-evict_key, max_bytes-evict_key, cur_bytes-evict_key, front_Distinct,
  evict_key-IsValid, evict_rounds_induction, evict_rounds_ends, total_of_empty,
}

-- What is left of a cache after keys went from the end of its list: the most recently used keys
-- with their entries as they were, and no key went that was not needed for the limit.
pub record Evicted (c : Cache) (c' : Cache) : Type 0 where
  pub gone : List Text
  pub kept_order : c.lru ≡ c'.lru ++ gone
  pub kept_entries :
      (k : Text) → lookup k c'.entries ≡ (if has k c'.lru then lookup k c.entries else none)
  pub needed :
      (gone ≡ [])
      ⊎ ((k : Text) × (rest : List Text) × (gone ≡ k ∷ rest)
          × (c'.max_bytes < c'.cur_bytes + weight (lookup k c.entries)))
  pub limit : c'.max_bytes ≡ c.max_bytes
  pub valid : IsValid c'

Evicted-refl : (c : Cache) → IsValid c → Evicted c c
Evicted-refl c v = record {
  gone = [];
  kept_order = sym (append-nil c.lru);
  kept_entries = λ k. ground (arith, v.same_keys k);
  needed = inl refl;
  limit = refl;
  valid = v;
}

key_weight :
    (c₀ c : Cache) (front : List Text) (key : Text)
    → Evicted c₀ c
    → c.lru ≡ front ++ key ∷ []
    → weight (lookup key c.entries) ≡ weight (lookup key c₀.entries)
key_weight c₀ c front key h p =
    ground (arith, h.kept_entries key, has-concat key front key, ap (has key) p, text_eq_refl key)

Evicted-step :
    (c₀ c : Cache) (front : List Text) (key : Text)
    → Evicted c₀ c
    → c.max_bytes < c.cur_bytes
    → c.lru ≡ front ++ key ∷ []
    → Evicted c₀ (evict_key front key c).0
Evicted-step c₀ c front key h over p = record {
  gone = key ∷ h.gone;
  kept_order = rw (lru-evict_key c front key) (h.kept_order ∙ rw p (append-cons front key h.gone));
  kept_entries = λ k.
      rw (entries-evict_key c front key, lru-evict_key c front key, lookup-delete)
        (ground (
          arith,
          h.kept_entries k,
          has-concat k front key,
          front_Distinct c front key h.valid p,
          text_eq_iff key k,
          ap (has k) p,
        ));
  needed = inr (
    key,
    h.gone,
    refl,
    rw (max_bytes-evict_key c front key, cur_bytes-evict_key c front key h.valid)
        (omega (arith, over, key_weight c₀ c front key h p)),
  );
  limit = max_bytes-evict_key c front key ∙ h.limit;
  valid = evict_key-IsValid c front key h.valid p;
}

-- `evictIfNeeded` takes keys from the end of the list only, leaves the entries of the others as
-- they were, keeps the invariant, and takes no key without which the rest was within the limit.
pub evict_if_needed-Evicted : (c : Cache) → IsValid c → Evicted c (evict_if_needed c).0
unfolding evict_if_needed
evict_if_needed-Evicted c v =
    evict_rounds_induction (Evicted c) (Evicted-step c) (length c.lru) c (Evicted-refl c v)

-- After `evictIfNeeded` the blobs of all entries together are within the limit.
pub total-evict_if_needed-le :
    (c : Cache) → IsValid c → total (evict_if_needed c).0.entries ≤ c.max_bytes
unfolding evict_if_needed
total-evict_if_needed-le c v =
    let h = evict_if_needed-Evicted c v in
    elim (evict_rounds_ends (length c.lru) c (le_refl (length c.lru))) [
      | inl within ↦ omega (arith, within, h.limit, h.valid.covered)
      | inr none_left ↦ omega (arith, total_of_empty _ h.valid none_left)
    ]
