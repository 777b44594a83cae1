-- ===== src/Fs/DirCache/Served.antt =====
-- What the directory cache serves after any calls.
use neofs_mount.Prelude.{
  ℕ, ◌-◌, ◌≤◌, ◌≡◌, ◌⊎◌, refl, ap, sym, ◌∙◌, Text, false, Option, none, some, List, [], ◌∷◌,
  text_eq, text_eq_iff, leb, if◌then◌else◌, arith, Option-cases, inl, inr,
}
use neofs_mount.Fs.Directory.{Row}
use neofs_mount.Fs.DirCache.{
  Key, Kept, DirCache, new_dir_cache, key_eq, find, remove, remove_container, get, put,
  invalidate_container,
}

pub data Call : Type 0 where
  get_at : ℕ → Key → Call
  put_at : ℕ → Key → List Row → Call
  invalidate : Text → Call

unfoldable pub step : Call → DirCache → DirCache
step (get_at now k) c = (get now k c).0
step (put_at now k rows) c = put now k rows c
step (invalidate container) c = invalidate_container container c

unfoldable pub run : List Call → DirCache → DirCache
run [] c = c
run (call ∷ calls) c = run calls (step call c)

-- What a call makes of the listing that was last put under a key.
abbrev pub noted : Key → Call → Option Kept → Option Kept
noted k (get_at now j) v = v
noted k (put_at now j rows) v = if key_eq j k then some (record { at = now; entries = rows }) else v
noted k (invalidate container) v = if text_eq k.container container then none else v

-- The last listing put under a key since its container was invalidated.
unfoldable pub last_put : Key → List Call → Option Kept → Option Kept
last_put k [] v = v
last_put k (call ∷ calls) v = last_put k calls (noted k call v)

-- Nothing, or just that.
abbrev Within : Option Kept → Option Kept → Type 0
Within o v = (o ≡ none) ⊎ (o ≡ v)

find-remove :
    (j k : Key) (m : List (Key × Kept))
    → find k (remove j m) ≡ (if key_eq j k then none else find k m)
unfolding find remove
find-remove j k [] = ground arith
find-remove j k ((i, e) ∷ m) = ground (
  arith,
  find-remove j k m,
  text_eq_iff i.container j.container,
  text_eq_iff i.prefix j.prefix,
  text_eq_iff i.container k.container,
  text_eq_iff i.prefix k.prefix,
  text_eq_iff j.container k.container,
  text_eq_iff j.prefix k.prefix,
)

find-remove_container :
    (container : Text) (k : Key) (m : List (Key × Kept))
    → find k (remove_container container m)
      ≡ (if text_eq k.container container then none else find k m)
unfolding find remove_container
find-remove_container container k [] = ground arith
find-remove_container container k ((i, e) ∷ m) = ground (
  arith,
  find-remove_container container k m,
  text_eq_iff i.container k.container,
  text_eq_iff i.container container,
  text_eq_iff k.container container,
)

step-ttl : (call : Call) (c : DirCache) → (step call c).ttl ≡ c.ttl
unfolding step get put invalidate_container
step-ttl (get_at now j) c = elim (Option-cases (find j c.m)) [
  | inl e ↦ ground (arith, e)
  | inr (x, e) ↦ ground (arith, e)
]
step-ttl (put_at now j rows) c = ground arith
step-ttl (invalidate container) c = refl

run-ttl : (calls : List Call) (c : DirCache) → (run calls c).ttl ≡ c.ttl
unfolding run
run-ttl [] c = refl
run-ttl (call ∷ calls) c = run-ttl calls (step call c) ∙ step-ttl call c

step-Within :
    (k : Key) (call : Call) (c : DirCache) (v : Option Kept)
    → leb c.ttl 0 ≡ false
    → Within (find k c.m) v
    → Within (find k (step call c).m) (noted k call v)
unfolding step get put invalidate_container find
step-Within k (get_at now j) c v on h = elim (Option-cases (find j c.m)) [
  | inl e ↦ ground (arith, e, h)
  | inr (x, e) ↦ ground (arith, e, h, find-remove j k c.m)
]
step-Within k (put_at now j rows) c v on h = ground (arith, h, find-remove j k c.m)
step-Within k (invalidate container) c v on h =
    ground (arith, h, find-remove_container container k c.m)

run-Within :
    (k : Key) (calls : List Call) (c : DirCache) (v : Option Kept)
    → leb c.ttl 0 ≡ false
    → Within (find k c.m) v
    → Within (find k (run calls c).m) (last_put k calls v)
unfolding run last_put
run-Within k [] c v on h = h
run-Within k (call ∷ calls) c v on h =
    run-Within k calls (step call c) (noted k call v) (ap (λ t. leb t 0) (step-ttl call c) ∙ on)
      (step-Within k call c v on h)

get-kept :
    (now : ℕ) (k : Key) (c : DirCache) (rows : List Row)
    → (get now k c).1 ≡ some rows
    → (leb c.ttl 0 ≡ false)
      × ((e : Kept) × (find k c.m ≡ some e) × (e.entries ≡ rows) × (now - e.at ≤ c.ttl))
unfolding get
get-kept now k c rows h = elim (Option-cases (find k c.m)) [
  | inl e ↦ absurd (ground (arith, e, h))
  | inr (x, e) ↦ (ground (arith, e, h), (x, e, ground (arith, e, h), ground (arith, e, h)))
]

-- Whatever Get, Put and InvalidateContainer calls a new directory cache has seen, what Get then
-- serves for a key are the rows that were last put under it, since its container was last
-- invalidated, and they were put at most the time to live ago.
pub get-last_put :
    (ttl now : ℕ) (k : Key) (calls : List Call) (rows : List Row)
    → (get now k (run calls (new_dir_cache ttl))).1 ≡ some rows
    → (at : ℕ) × (last_put k calls none ≡ some (record { at = at; entries = rows }))
      × (now - at ≤ ttl)
unfolding new_dir_cache find
get-last_put ttl now k calls rows h =
    let c = run calls (record { ttl = ttl; m = [] }) in
    let same : c.ttl ≡ ttl = run-ttl calls (record { ttl = ttl; m = [] }) in
    let (on, (e, f, g, fresh)) = get-kept now k c rows h in
    let w =
      run-Within k calls (record { ttl = ttl; m = [] }) none (ap (λ t. leb t 0) (sym same) ∙ on)
        (inl refl) in
    (e.at, ground (arith, w, f, g), ground (arith, fresh, same))
