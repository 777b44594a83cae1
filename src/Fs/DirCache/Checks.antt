-- ===== src/Fs/DirCache/Checks.antt =====
-- The directory cache at concrete calls.
use neofs_mount.Prelude.{ℕ, ◌-◌, ◌≤◌, ◌≡◌, refl, codes, none, some, false, List, [], ◌∷◌, text_eq}
use neofs_mount.Fs.Directory.{Row}
use neofs_mount.Fs.DirCache.{
  Key, new_dir_cache, get, put, find, remove, remove_container, invalidate_container,
}
use neofs_mount.Fs.DirCache.Served.{
  Call, get_at, put_at, invalidate, step, run, last_put, get-last_put,
}

abbrev docs : Key
docs = record { container = codes "c"; prefix = codes "docs/" }

abbrev rows : List Row
rows = record { name = codes "a"; directory = false } ∷ []

abbrev calls : List Call
calls =
    put_at 5 docs []
    ∷ invalidate (codes "c")
    ∷ put_at 7 docs rows
    ∷ get_at 9 docs
    ∷ invalidate (codes "d")
    ∷ []

serves : (get 12 docs (run calls (new_dir_cache 6))).1 ≡ some rows
unfolding get put find remove remove_container invalidate_container run step new_dir_cache text_eq
serves = refl

get-last_put_example :
    (at : ℕ) × (last_put docs calls none ≡ some (record { at = at; entries = rows }))
    × (12 - at ≤ 6)
get-last_put_example = get-last_put 6 12 docs calls rows serves
