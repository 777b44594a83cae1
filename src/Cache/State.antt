-- ===== src/Cache/State.antt =====
-- internal/cache/cache.go: the state of `Cache`, and the list of keys by last use.
use neofs_mount.Prelude.{
  ℕ, Text, Bool, true, false, Option, none, some, List, [], ◌∷◌, Map, text_eq, is_empty, leb,
  if◌then◌else◌,
}

-- The errors that the package makes itself, and those that it passes on from the operating system,
-- the context or the `fetch` callback.
pub data Error : Type 0 where
  empty_dir bad_max_bytes nil_cache empty_key empty_src_path : Error
  outside : ℕ → Error

pub data Result {ℓ} (A : Type ℓ) : Type ℓ where
  ok : A → Result A
  err : Error → Result A

-- `waiters` holds the channels of the callers that wait for the fetch; a channel is a number.
pub record Entry : Type 0 where
  pub path : Text
  pub size : ℕ
  pub atime : ℕ
  pub fetching : Bool
  pub waiters : List ℕ
  pub last_err : Option Error

pub record Cache : Type 0 where
  pub dir : Text
  pub max_bytes : ℕ
  pub cur_bytes : ℕ
  pub lru : List Text  -- most recent first
  pub entries : Map Entry

-- `New` for a directory that can be made; `maxBytes` is positive after the test.
unfoldable pub new : Text → ℕ → Result Cache
new dir max_bytes =
    if is_empty dir
    then err empty_dir
    else if leb max_bytes 0
    then err bad_max_bytes
    else ok (record { dir = dir; max_bytes = max_bytes; cur_bytes = 0; lru = []; entries = [] })

-- `removeFromLRU`: the first occurrence goes.
unfoldable pub remove_from_lru : Text → List Text → List Text
remove_from_lru key [] = []
remove_from_lru key (k ∷ lru) = if text_eq k key then lru else k ∷ remove_from_lru key lru

unfoldable pub bump_lru : Text → List Text → List Text
unfolding remove_from_lru
bump_lru key lru = key ∷ remove_from_lru key lru

-- `e.lastErr == nil`
abbrev pub no_error : Option Error → Bool
no_error none = true
no_error (some e) = false
