-- ===== src/Neofs/Listing/Checks.antt =====
-- The listing trie at concrete inputs.
use neofs_mount.Prelude.{◌≡◌, refl, Text, text_eq, codes, true, false, some, none, List, [], ◌∷◌}
use neofs_mount.Neofs.Listing.{
  SearchEntry, DirEntry, node_rows, descend, segments, insert_entry, insert_non_empty,
  entry_path_key, insert_segments, find_child, update, clear, park, rows, build_listing_trie,
  list_immediate_children,
}
use neofs_mount.Neofs.Listing.Views.{view, beneath, first_at, relate, view-build_listing_trie}
use neofs_mount.Neofs.Listing.Rows.{find_row, find_row-list_immediate_children}

abbrev entry : Text → Text → SearchEntry
entry id path = record {
  object_id = id;
  file_path = path;
  file_name = [];
  name = [];
  key = [];
  size = 5;
}

abbrev entries : List SearchEntry
entries =
    entry (codes "1") (codes "/docs")
    ∷ entry (codes "2") (codes "docs/a")
    ∷ entry (codes "3") (codes "docs//b/c")
    ∷ entry (codes "4") (codes "docs/a")
    ∷ []

-- The listing of `docs`: a file and a directory.
unfoldable listing : List DirEntry
unfolding list_immediate_children build_listing_trie
listing = list_immediate_children (codes "docs/") (build_listing_trie entries)

listing_rows :
    listing
    ≡ record { name = codes "a"; object_id = codes "2"; size = 5; is_directory = false }
      ∷ record { name = codes "b"; object_id = []; size = 0; is_directory = true }
      ∷ []
unfolding listing node_rows descend segments insert_entry insert_non_empty entry_path_key
    insert_segments find_child update text_eq clear park rows
listing_rows = refl

view-build_listing_trie_example :
    view (codes "docs" ∷ []) (build_listing_trie entries)
    ≡ some (record { directory = true; file = none })
unfolding beneath first_at relate segments entry_path_key text_eq
view-build_listing_trie_example = view-build_listing_trie (codes "docs") [] entries

find_row-list_immediate_children_example :
    find_row (codes "a") (list_immediate_children (codes "docs/") (build_listing_trie entries))
    ≡ some (record { name = codes "a"; object_id = codes "2"; size = 5; is_directory = false })
unfolding beneath first_at relate segments entry_path_key text_eq
find_row-list_immediate_children_example =
    find_row-list_immediate_children (codes "docs/") (codes "a") entries
