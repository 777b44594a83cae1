-- ===== src/Cache/Exact.antt =====
-- Exact accounting: `curBytes` is the sum of the sizes. It is kept by every stretch but a
-- `finishFetch` of a key whose entry is no longer the one of that fetch.
use neofs_mount.Prelude.{
  ℕ, ◌+◌, ◌-◌, ◌≡◌, inl, inr, refl, ap, ◌∙◌, Text, true, false, ◌&&◌, Option, none, some, [], ◌∷◌,
  ◌++◌, Map, lookup, delete, insert, lookup-insert, lookup-delete, Unique, insert-Unique,
  delete-Unique, text_eq, ◌==◌, text_eq_iff, is_empty, arith, Bool-cases,
}
use neofs_mount.Cache.State.{Entry, Cache, Error}
use neofs_mount.Cache.Sections.{
  fresh, usable, start_fetch, look_at, look, drop_found, drop_stale, finish_found, finish_fetch,
}
use neofs_mount.Cache.Evict.{evict_if_needed}
use neofs_mount.Cache.Invariant.{IsValid, weight, total}
use neofs_mount.Cache.Keeps.{
  start_fetch-IsValid, look_at-IsValid, drop_found-IsValid, finish_found-IsValid,
}
use neofs_mount.Cache.Rounds.{
  entries-evict_key, cur_bytes-evict_key, evict_key-IsValid, evict_rounds_induction,
}

-- An entry that is being fetched, or that failed, counts for nothing.
abbrev pub Idle : Option Entry → Type 0
Idle none = Unit
Idle (some e) = usable e ≡ false → e.size ≡ 0

pub record IsExact (c : Cache) : Type 0 where
  pub valid : IsValid c
  pub unique : Unique c.entries
  pub idle : (k : Text) → Idle (lookup k c.entries)
  pub exact : c.cur_bytes ≡ total c.entries

total-delete :
    (k : Text) (m : Map Entry) → Unique m → total (delete k m) + weight (lookup k m) ≡ total m
unfolding total delete lookup
total-delete k [] u = refl
total-delete k ((j, e) ∷ m) u = ground (arith, total-delete k m u.1, text_eq_iff j k)

pub total-insert :
    (k : Text) (e : Entry) (m : Map Entry)
    → Unique m
    → total (insert k e m) + weight (lookup k m) ≡ e.size + total m
unfolding total insert
total-insert k e m u = omega (arith, total-delete k m u)

-- Dropping the entry of a key with the bytes that it counted for.
delete-IsExact :
    {c d : Cache} (key : Text)
    → IsExact c
    → IsValid d
    → d.entries ≡ delete key c.entries
    → d.cur_bytes ≡ c.cur_bytes - weight (lookup key c.entries)
    → IsExact d
delete-IsExact {c} {d} key x v e b = record {
  valid = v;
  unique = rw e (delete-Unique key c.entries x.unique);
  idle = λ k. rw (e, lookup-delete) (ground (arith, x.idle k));
  exact = rw (e, b) (omega (arith, x.exact, total-delete key c.entries x.unique));
}

-- Writing the entry of a key, with the difference in bytes.
insert-IsExact :
    {c d : Cache} (key : Text) (f : Entry)
    → IsExact c
    → IsValid d
    → Idle (some f)
    → d.entries ≡ insert key f c.entries
    → d.cur_bytes + weight (lookup key c.entries) ≡ c.cur_bytes + f.size
    → IsExact d
insert-IsExact {c} {d} key f x v i e b = record {
  valid = v;
  unique = rw e (insert-Unique key f c.entries x.unique);
  idle = λ k. rw (e, lookup-insert) (ground (arith, x.idle k));
  exact = rw e (omega (arith, b, x.exact, total-insert key f c.entries x.unique));
}

pub evict_if_needed-IsExact : (c : Cache) → IsExact c → IsExact (evict_if_needed c).0
unfolding evict_if_needed
evict_if_needed-IsExact c =
    evict_rounds_induction IsExact
      (λ c front key x over p.
        delete-IsExact key x (evict_key-IsValid c front key x.valid p)
          (entries-evict_key c front key) (cur_bytes-evict_key c front key x.valid))
      _ c

start_fetch-IsExact :
    (key : Text) (now : ℕ) {c : Cache}
    → IsExact c
    → weight (lookup key c.entries) ≡ 0
    → IsExact (start_fetch key now c).0
unfolding start_fetch
start_fetch-IsExact key now {c} x w =
    insert-IsExact key (fresh now) x (start_fetch-IsValid key now x.valid) (λ _. refl) refl
      (omega (arith, w))

look_at-IsExact :
    (key : Text) (now channel : ℕ) (o : Option Entry) {c : Cache}
    → IsExact c
    → lookup key c.entries ≡ o
    → IsExact (look_at key now channel o c).0
unfolding look_at usable
look_at-IsExact key now channel none x p = start_fetch-IsExact key now x (ap weight p)
look_at-IsExact key now channel (some e) {c} x p =
    let v = look_at-IsValid key now channel (some e) x.valid p in
    let i : Idle (some e) = rw p at (x.idle key) in
    elim (Bool-cases (usable e)) [
      | inl u ↦ rw u (
          insert-IsExact key (record e { atime = now }) x (rw u at v) i refl
            (omega (arith, ap weight p)))
      | inr u ↦ elim (Bool-cases e.fetching) [
        | inl r ↦
            rw (u, r)
              (insert-IsExact key
                (record e { fetching = true; waiters = e.waiters ++ channel ∷ [] }) x
                (rw (u, r) at v) (λ _. i u) refl (omega (arith, ap weight p)))
        | inr r ↦ rw (u, r) (start_fetch-IsExact key now x (ap weight p ∙ i u))
      ]
    ]

drop_found-IsExact :
    (key path : Text) (size : ℕ) (o : Option Entry) {c : Cache}
    → IsExact c
    → lookup key c.entries ≡ o
    → IsExact (drop_found key path size o c)
unfolding drop_found
drop_found-IsExact key path size none x p = x
drop_found-IsExact key path size (some e) {c} x p =
    elim (Bool-cases (usable e && (text_eq e.path path && e.size == size))) [
      | inl t ↦ rw t (
          delete-IsExact key x (rw t at (drop_found-IsValid key path size (some e) x.valid p)) refl
            (omega (arith, ap weight p)))
      | inr t ↦ rw t x
    ]

finish_found-IsExact :
    (key path : Text) (size : ℕ) (failure : Option Error) (o : Option Entry) {c : Cache}
    → IsExact c
    → (failure ≡ none → is_empty path ≡ false)
    → lookup key c.entries ≡ o
    → weight o ≡ 0
    → IsExact (finish_found key path size failure o c).0
unfolding finish_found usable
finish_found-IsExact key path size failure none x full p w = x
finish_found-IsExact key path size none (some e) {c} x full p w =
    insert-IsExact key _ x (finish_found-IsValid key path size none (some e) full x.valid p)
      (λ u. cc) refl (omega (arith, ap weight p))
finish_found-IsExact key path size (some f) (some e) {c} x full p w =
    insert-IsExact key _ x (finish_found-IsValid key path size (some f) (some e) full x.valid p)
      (λ _. w) refl (omega (arith, ap weight p))

module _ (key : Text) {c : Cache} (x : IsExact c) where
  pub look-IsExact : (now channel : ℕ) → IsExact (look key now channel c).0
  unfolding look
  look-IsExact now channel = look_at-IsExact key now channel (lookup key c.entries) x refl

  pub drop_stale-IsExact : (path : Text) (size : ℕ) → IsExact (drop_stale key path size c)
  unfolding drop_stale
  drop_stale-IsExact path size = drop_found-IsExact key path size (lookup key c.entries) x refl

  -- `finishFetch` keeps the accounting exact if the entry that it finds counts for nothing yet, as
  -- the one of a fetch in progress does.
  pub finish_fetch-IsExact :
      (path : Text) (size : ℕ) (failure : Option Error)
      → (failure ≡ none → is_empty path ≡ false)
      → weight (lookup key c.entries) ≡ 0
      → IsExact (finish_fetch key path size failure c).0
  unfolding finish_fetch
  finish_fetch-IsExact path size failure full w =
      finish_found-IsExact key path size failure (lookup key c.entries) x full refl w
