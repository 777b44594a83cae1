-- ===== src/Neofs/Linear.antt =====
-- internal/neofs/client.go: `listEntriesByPrefixLinear`, the listing that goes through all entries, for
-- a prefix in NeoFS form, and `ListEntriesByPrefix`, which uses it where the trie has nothing.
pub mod Pieces
pub mod Agree
mod Checks
use neofs_mount.Prelude.{
  ℕ, Text, Bool, true, false, ◌||◌, Option, none, some, List, [], ◌∷◌, ◌++◌, text_eq, is_empty,
  strip, if◌then◌else◌,
}
use neofs_mount.Neofs.Listing.{
  SearchEntry, DirEntry, slash, entry_path_key, split_slash, list_immediate_children,
  build_listing_trie,
}
use neofs_mount.Neofs.Objects.{trim_suffix_slash}

abbrev pub dir_row : Text → DirEntry
dir_row name = record { name = name; object_id = []; size = 0; is_directory = true }

abbrev pub file_row : Text → SearchEntry → DirEntry
file_row name e = record {
  name = name;
  object_id = e.object_id;
  size = e.size;
  is_directory = false;
}

-- What follows the prefix, up to its first slash and behind it.
abbrev pub piece_row : SearchEntry → Text × List Text → Option DirEntry
piece_row e (piece, []) = if is_empty piece then none else some (file_row piece e)
piece_row e (piece, next ∷ more) = if is_empty piece then none else some (dir_row piece)

abbrev pub rest_row : SearchEntry → Option Text → Option DirEntry
rest_row e none = none
rest_row e (some rest) = if is_empty rest then none else piece_row e (split_slash rest)

-- The row that one entry would make.
unfoldable pub linear_row : Text → SearchEntry → Option DirEntry
linear_row prefix e =
    if is_empty (entry_path_key e) then none else rest_row e (strip prefix (entry_path_key e))

unfoldable pub is_seen : Text → List Text → Bool
is_seen name [] = false
is_seen name (s ∷ seen) = text_eq s name || is_seen name seen

abbrev pub add_row : Option DirEntry → List Text → (List Text → List DirEntry) → List DirEntry
add_row none seen go = go seen
add_row (some r) seen go =
    let rest = go seen in
    let more = go (r.name ∷ seen) in if is_seen r.name seen then rest else r ∷ more

unfoldable pub linear_from : Text → List Text → List SearchEntry → List DirEntry
unfolding linear_row is_seen
linear_from prefix seen [] = []
linear_from prefix seen (e ∷ entries) =
    add_row (linear_row prefix e) seen (λ seen'. linear_from prefix seen' entries)

-- `listEntriesByPrefixLinear`
unfoldable pub list_entries_by_prefix_linear : List SearchEntry → Text → List DirEntry
unfolding linear_from
list_entries_by_prefix_linear entries prefix = linear_from prefix [] entries

-- `normalizeNeoFSPrefix`, where paths have slashes; `trim_space` is `strings.TrimSpace`.
abbrev pub with_slash : Text → Text
with_slash s = if is_empty s then [] else s ++ slash ∷ []

unfoldable pub normalize_neofs_prefix : (Text → Text) → Text → Text
unfolding trim_suffix_slash
normalize_neofs_prefix trim_space prefix = with_slash (trim_suffix_slash (trim_space prefix))

abbrev pub or_rows : List DirEntry → List DirEntry → List DirEntry
or_rows [] alt = alt
or_rows (r ∷ out) alt = r ∷ out

-- The rows of a kept scan: those of its trie or, if there are none, those of its entries.
unfoldable pub kept_rows : List SearchEntry → Text → List DirEntry
unfolding list_entries_by_prefix_linear
kept_rows entries prefix =
    or_rows (list_immediate_children prefix (build_listing_trie entries))
      (list_entries_by_prefix_linear entries prefix)

-- What a scan answers, and what is kept after it.
pub record Scanned : Type 0 where
  pub error : Option ℕ
  pub kept : Option (List SearchEntry)

pub data Entries : Type 0 where
  scanned : List SearchEntry → Entries
  no_entries : ℕ → Entries

pub data Listing : Type 0 where
  listed_rows : List DirEntry → Listing
  list_error : ℕ → Listing
  bad_container : Listing

abbrev pub rows_of_second : Text → Entries → Listing
rows_of_second prefix (scanned l) = listed_rows (list_entries_by_prefix_linear l prefix)
rows_of_second prefix (no_entries e) = list_error e

abbrev pub rows_of_kept : Text → Option (List SearchEntry) → Entries → Listing
rows_of_kept prefix (some l) second = listed_rows (kept_rows l prefix)
rows_of_kept prefix none second = rows_of_second prefix second

abbrev pub rows_of_scan : Text → Scanned → Entries → Listing
rows_of_scan prefix first second = elim first.error [
  | some e ↦ list_error e
  | none ↦ rows_of_kept prefix first.kept second
]

abbrev pub rows_of_cache : Text → Option (List SearchEntry) → Scanned → Entries → Listing
rows_of_cache prefix (some l) first second = listed_rows (kept_rows l prefix)
rows_of_cache prefix none first second = rows_of_scan prefix first second

-- `ListEntriesByPrefix` of a container whose id is read or not, with what is kept of it and recent, and
-- what the scans answer that it begins.
unfoldable pub list_entries_by_prefix :
    (Text → Text) → Bool → Option (List SearchEntry) → Scanned → Entries → Text → Listing
unfolding kept_rows normalize_neofs_prefix
list_entries_by_prefix trim_space is_id cached first second prefix =
    if is_id
    then rows_of_cache (normalize_neofs_prefix trim_space prefix) cached first second
    else bad_container
