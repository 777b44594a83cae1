-- ===== src/Cache/Keeps.antt =====
-- Every stretch under `c.mu` keeps the invariant of the cache.
use neofs_mount.Prelude.{
  ℕ, ◌+◌, ◌-◌, ◌≤◌, ◌≡◌, inl, inr, refl, ap, Text, true, false, ◌&&◌, Option, none, some, [], ◌∷◌,
  ◌++◌, lookup, delete, insert, text_eq, ◌==◌, is_empty, arith, Bool-cases,
}
use neofs_mount.Cache.State.{Entry, Cache, Error, ok, new}
use neofs_mount.Cache.Sections.{
  fresh, usable, start_fetch, look_at, look, drop_found, drop_stale, finish_found, finish_fetch,
  discount, store_over, store,
}
use neofs_mount.Cache.Lru.{has}
use neofs_mount.Cache.Invariant.{
  IsValid, Sized, present, weight, total, total-delete-le, total-insert-le, weight-le-total,
  put-IsValid, update-IsValid, remove-IsValid,
}

-- A new cache is valid.
pub new-IsValid : (dir : Text) (n : ℕ) {c : Cache} → new dir n ≡ ok c → IsValid c
unfolding new has lookup total
new-IsValid dir n h = ground arith

pub start_fetch-IsValid :
    (key : Text) (now : ℕ) {c : Cache} → IsValid c → IsValid (start_fetch key now c).0
unfolding start_fetch
start_fetch-IsValid key now {c} v =
    put-IsValid v key (fresh now) c.cur_bytes (λ _. refl)
      (omega (arith, v.covered, total-insert-le key (fresh now) c.entries))

-- What is known of the entry of a key that is there, and of one written in its place.
module _ {c : Cache} (v : IsValid c) (key : Text) (e : Entry)
    (p : lookup key c.entries ≡ some e) where
  Sized-at : Sized (some e)
  Sized-at = rw p at (v.sized key)

  size-le : e.size ≤ c.cur_bytes
  size-le = omega (arith, v.covered, weight-le-total key c.entries, ap weight p)

  total-rewrite-le : (f : Entry) → total (insert key f c.entries) + e.size ≤ f.size + c.cur_bytes
  total-rewrite-le f = omega (arith, v.covered, total-insert-le key f c.entries, ap weight p)

  total-delete_at : total (delete key c.entries) ≤ c.cur_bytes - e.size
  total-delete_at = omega (arith, v.covered, total-delete-le key c.entries, ap weight p)

pub look_at-IsValid :
    (key : Text) (now channel : ℕ) (o : Option Entry) {c : Cache}
    → IsValid c
    → lookup key c.entries ≡ o
    → IsValid (look_at key now channel o c).0
unfolding look_at
look_at-IsValid key now channel none v p = start_fetch-IsValid key now v
look_at-IsValid key now channel (some e) {c} v p = elim (Bool-cases (usable e)) [
  | inl u ↦
      let f = record e { atime = now } in
      rw u (
        put-IsValid v key f c.cur_bytes (Sized-at v key e p)
          (omega (arith, total-rewrite-le v key e p f)))
  | inr u ↦ rw u (elim (Bool-cases e.fetching) [
    | inl r ↦
        let f = record e { fetching = true; waiters = e.waiters ++ channel ∷ [] } in
        rw r (
          update-IsValid v key f c.cur_bytes (ap present p) (Sized-at v key e p)
            (omega (arith, total-rewrite-le v key e p f)))
    | inr r ↦ rw r (start_fetch-IsValid key now v)
  ])
]

pub look-IsValid :
    (key : Text) (now channel : ℕ) {c : Cache} → IsValid c → IsValid (look key now channel c).0
unfolding look
look-IsValid key now channel {c} v = look_at-IsValid key now channel (lookup key c.entries) v refl

pub drop_found-IsValid :
    (key path : Text) (size : ℕ) (o : Option Entry) {c : Cache}
    → IsValid c
    → lookup key c.entries ≡ o
    → IsValid (drop_found key path size o c)
unfolding drop_found
drop_found-IsValid key path size none v p = v
drop_found-IsValid key path size (some e) {c} v p =
    elim (Bool-cases (usable e && (text_eq e.path path && e.size == size))) [
      | inl t ↦ rw t (remove-IsValid v key (c.cur_bytes - e.size) (total-delete_at v key e p))
      | inr t ↦ rw t v
    ]

pub drop_stale-IsValid :
    (key path : Text) (size : ℕ) {c : Cache} → IsValid c → IsValid (drop_stale key path size c)
unfolding drop_stale
drop_stale-IsValid key path size {c} v =
    drop_found-IsValid key path size (lookup key c.entries) v refl

pub finish_found-IsValid :
    (key path : Text) (size : ℕ) (failure : Option Error) (o : Option Entry) {c : Cache}
    → (failure ≡ none → is_empty path ≡ false)
    → IsValid c
    → lookup key c.entries ≡ o
    → IsValid (finish_found key path size failure o c).0
unfolding finish_found
finish_found-IsValid key path size failure none full v p = v
finish_found-IsValid key path size none (some e) {c} full v p =
    update-IsValid v key _ (c.cur_bytes + size) (ap present p) (λ q. cc (full refl))
      (omega (
        arith,
        total-rewrite-le v key e p (record e {
          path = path;
          size = size;
          fetching = false;
          waiters = [];
          last_err = none;
        }),
      ))
finish_found-IsValid key path size (some x) (some e) {c} full v p =
    update-IsValid v key _ c.cur_bytes (ap present p) (Sized-at v key e p) (
      omega (
        arith,
        total-rewrite-le v key e p (record e { fetching = false; waiters = []; last_err = some x }),
      ))

-- A successful fetch ends with the path of its blob, which is not empty.
pub finish_fetch-IsValid :
    (key path : Text) (size : ℕ) (failure : Option Error) {c : Cache}
    → (failure ≡ none → is_empty path ≡ false)
    → IsValid c
    → IsValid (finish_fetch key path size failure c).0
unfolding finish_fetch
finish_fetch-IsValid key path size failure {c} full v =
    finish_found-IsValid key path size failure (lookup key c.entries) full v refl

discount-le :
    (key : Text) (o : Option Entry) {c : Cache} (f : Entry)
    → IsValid c
    → lookup key c.entries ≡ o
    → total (insert key f c.entries) ≤ (discount c.cur_bytes o).0 + f.size
unfolding discount
discount-le key none {c} f v p = omega (arith, v.covered, total-insert-le key f c.entries)
discount-le key (some e) {c} f v p = ground (arith, size-le v key e p, total-rewrite-le v key e p f)

pub store-IsValid :
    (key path : Text) (size now : ℕ) {c : Cache}
    → is_empty path ≡ false
    → IsValid c
    → IsValid (store key path size now c).0
unfolding store store_over
store-IsValid key path size now {c} full v =
    put-IsValid v key _ _ (λ q. cc)
      (discount-le key (lookup key c.entries)
        (record {
          path = path;
          size = size;
          atime = now;
          fetching = false;
          waiters = [];
          last_err = none;
        })
        v refl)
