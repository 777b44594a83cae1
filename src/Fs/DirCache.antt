-- ===== src/Fs/DirCache.antt =====
-- internal/fs/dircache.go: the cache of directory listings. Times are those that the clock answers, and
-- a time to live that is not positive is 0, which is also what a nil cache answers like.
pub mod Served
mod Checks
use neofs_mount.Prelude.{
  ℕ, ◌-◌, Text, Bool, true, false, ◌&&◌, Option, none, some, List, [], ◌∷◌, text_eq, leb, ltb,
  if◌then◌else◌,
}
use neofs_mount.Fs.Directory.{Row}

-- `dirCacheKey`
pub record Key : Type 0 where
  pub container : Text
  pub prefix : Text

-- `dirCacheEntry`
pub record Kept : Type 0 where
  pub at : ℕ
  pub entries : List Row

pub record DirCache : Type 0 where
  pub ttl : ℕ
  pub m : List (Key × Kept)

unfoldable pub new_dir_cache : ℕ → DirCache
new_dir_cache ttl = record { ttl = ttl; m = [] }

abbrev pub key_eq : Key → Key → Bool
key_eq j k = text_eq j.container k.container && text_eq j.prefix k.prefix

unfoldable pub find : Key → List (Key × Kept) → Option Kept
find k [] = none
find k ((j, e) ∷ m) = if key_eq j k then some e else find k m

unfoldable pub remove : Key → List (Key × Kept) → List (Key × Kept)
remove k [] = []
remove k ((j, e) ∷ m) = let rest = remove k m in if key_eq j k then rest else (j, e) ∷ rest

unfoldable pub remove_container : Text → List (Key × Kept) → List (Key × Kept)
remove_container container [] = []
remove_container container ((j, e) ∷ m) =
    let rest = remove_container container m in
    if text_eq j.container container then rest else (j, e) ∷ rest

abbrev pub served : ℕ → Key → DirCache → Option Kept → DirCache × Option (List Row)
served now k c none = (c, none)
served now k c (some e) =
    if ltb c.ttl (now - e.at) then (record c { m = remove k c.m }, none) else (c, some e.entries)

-- `Get`
unfoldable pub get : ℕ → Key → DirCache → DirCache × Option (List Row)
get now k c = if leb c.ttl 0 then (c, none) else served now k c (find k c.m)

-- `Put`
unfoldable pub put : ℕ → Key → List Row → DirCache → DirCache
put now k rows c =
    if leb c.ttl 0
    then c
    else record c { m = (k, record { at = now; entries = rows }) ∷ remove k c.m }

-- `InvalidateContainer`
unfoldable pub invalidate_container : Text → DirCache → DirCache
invalidate_container container c = record c { m = remove_container container c.m }
