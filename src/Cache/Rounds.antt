-- ===== src/Cache/Rounds.antt =====
-- `evictIfNeeded`, round by round: what a round keeps, and that the loop ends by its test.
use neofs_mount.Prelude.{
  ℕ, suc, zero, ◌-◌, ◌≤◌, ◌<◌, ◌≡◌, ◌⊎◌, inl, inr, refl, ap, Text, true, false, Option, none, some,
  List, [], ◌∷◌, ◌++◌, lookup, delete, lookup-delete, nil_of_lookup, text_eq_iff, ltb, length,
  length-append, arith, Option-cases, Bool-cases, ltb→le, ltb→lt,
}
use neofs_mount.Cache.State.{Entry, Cache}
use neofs_mount.Cache.Evict.{evict_found, evict_key, evict_rounds, split_last}
use neofs_mount.Cache.Lru.{
  has, Distinct, has-concat, Distinct-concat, append_of_split_last, nil_of_split_last,
}
use neofs_mount.Cache.Invariant.{IsValid, Sized, present, weight, total, total-delete-le}

-- The bytes that go with the evicted entry are those that it counted for.
evict_found-cur :
    (o : Option Entry) (c : Cache)
    → Sized o
    → (evict_found o c).0.cur_bytes ≡ c.cur_bytes - weight o
unfolding evict_found
evict_found-cur none c h = omega arith
evict_found-cur (some e) c h = ground arith

evict_found-same :
    (o : Option Entry) (c : Cache)
    → ((evict_found o c).0.lru ≡ c.lru)
      × ((evict_found o c).0.entries ≡ c.entries)
      × ((evict_found o c).0.max_bytes ≡ c.max_bytes)
unfolding evict_found
evict_found-same none c = (refl, refl, refl)
evict_found-same (some e) c = (ground arith, ground arith, ground arith)

module _ (c : Cache) (front : List Text) (key : Text) where
  pub lru-evict_key : (evict_key front key c).0.lru ≡ front
  unfolding evict_key
  lru-evict_key = (evict_found-same (lookup key c.entries) _).0

  pub entries-evict_key : (evict_key front key c).0.entries ≡ delete key c.entries
  unfolding evict_key
  entries-evict_key = (evict_found-same (lookup key c.entries) _).1

  pub max_bytes-evict_key : (evict_key front key c).0.max_bytes ≡ c.max_bytes
  unfolding evict_key
  max_bytes-evict_key = (evict_found-same (lookup key c.entries) _).2

  module _ (v : IsValid c) where
    pub cur_bytes-evict_key :
        (evict_key front key c).0.cur_bytes ≡ c.cur_bytes - weight (lookup key c.entries)
    unfolding evict_key
    cur_bytes-evict_key = evict_found-cur (lookup key c.entries) _ (v.sized key)

    module _ (p : c.lru ≡ front ++ key ∷ []) where
      pub front_Distinct : Distinct front × (has key front ≡ false)
      front_Distinct = Distinct-concat front key (rw p at v.distinct)

      front_keys : (k : Text) → has k front ≡ present (lookup k (delete key c.entries))
      front_keys k = rw lookup-delete (
          ground (
            arith,
            v.same_keys k,
            has-concat k front key,
            front_Distinct,
            text_eq_iff key k,
            ap (has k) p,
          ))

      pub evict_key-IsValid : IsValid (evict_key front key c).0
      evict_key-IsValid = record {
        distinct = rw lru-evict_key front_Distinct.0;
        same_keys = λ k. rw (lru-evict_key, entries-evict_key) (front_keys k);
        sized = λ k. rw (entries-evict_key, lookup-delete) (ground (arith, v.sized k));
        covered =
            rw (entries-evict_key, cur_bytes-evict_key)
              (omega (arith, v.covered, total-delete-le key c.entries));
      }

-- One round of the loop.
rounds_stop :
    (n : ℕ) (c : Cache) → ltb c.max_bytes c.cur_bytes ≡ false → evict_rounds (suc n) c ≡ (c, [])
unfolding evict_rounds
rounds_stop n c t = rw (t, evict_rounds)

rounds_empty : (n : ℕ) (c : Cache) → split_last c.lru ≡ none → evict_rounds (suc n) c ≡ (c, [])
unfolding evict_rounds
rounds_empty n c e = ground arith

rounds_step :
    (n : ℕ) (c : Cache) (front : List Text) (key : Text)
    → ltb c.max_bytes c.cur_bytes ≡ true
    → split_last c.lru ≡ some (front, key)
    → (evict_rounds (suc n) c).0 ≡ (evict_rounds n (evict_key front key c).0).0
unfolding evict_rounds
rounds_step n c front key t e = ground arith

-- What holds before the loop and is kept by each round holds after it.
module _ {ℓ} (P : Cache → Type ℓ)
    (keep : (c : Cache) (front : List Text) (key : Text)
      → P c
      → c.max_bytes < c.cur_bytes
      → c.lru ≡ front ++ key ∷ []
      → P (evict_key front key c).0) where
  pub evict_rounds_induction : (n : ℕ) (c : Cache) → P c → P (evict_rounds n c).0
  unfolding evict_rounds
  evict_rounds_induction zero c h = h
  evict_rounds_induction (suc n) c h = elim (Bool-cases (ltb c.max_bytes c.cur_bytes)) [
    | inr t ↦ rw (rounds_stop n c t) h
    | inl t ↦ elim (Option-cases (split_last c.lru)) [
      | inl e ↦ rw (rounds_empty n c e) h
      | inr ((front, key), e) ↦ rw (rounds_step n c front key t e) (
          evict_rounds_induction n (evict_key front key c).0
            (keep c front key h (ltb→lt _ _ t) (append_of_split_last c.lru front key e)))
    ]
  ]

evict_rounds-IsValid : (n : ℕ) (c : Cache) → IsValid c → IsValid (evict_rounds n c).0
evict_rounds-IsValid =
    evict_rounds_induction IsValid (λ c front key v over p. evict_key-IsValid c front key v p)

nil_of_length {ℓ} : {A : Type ℓ} (l : List A) → length l ≤ 0 → l ≡ []
nil_of_length [] h = refl
nil_of_length (x ∷ l) h = absurd (omega arith)

-- As many rounds as there are keys are enough for the loop to end by its test.
pub evict_rounds_ends :
    (n : ℕ) (c : Cache)
    → length c.lru ≤ n
    → let c' = (evict_rounds n c).0 in (c'.cur_bytes ≤ c'.max_bytes) ⊎ (c'.lru ≡ [])
unfolding evict_rounds
evict_rounds_ends zero c h = inr (nil_of_length c.lru h)
evict_rounds_ends (suc n) c h = elim (Bool-cases (ltb c.max_bytes c.cur_bytes)) [
  | inr t ↦ rw (rounds_stop n c t) (inl (ltb→le _ _ t))
  | inl t ↦ elim (Option-cases (split_last c.lru)) [
    | inl e ↦ rw (rounds_empty n c e) (inr (nil_of_split_last c.lru e))
    | inr ((front, key), e) ↦ rw (rounds_step n c front key t e) (
        evict_rounds_ends n (evict_key front key c).0 (
          omega (
            arith,
            ap length (lru-evict_key c front key),
            ap length (append_of_split_last c.lru front key e),
            length-append front (key ∷ []),
          )))
  ]
]

-- With no key left there is no entry left.
pub total_of_empty : (c : Cache) → IsValid c → c.lru ≡ [] → total c.entries ≡ 0
unfolding has total
total_of_empty c v e =
    rw (nil_of_lookup c.entries λ k. ground (arith, v.same_keys k, ap (has k) e)) refl
