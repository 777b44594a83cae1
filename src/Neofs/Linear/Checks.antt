-- ===== src/Neofs/Linear/Checks.antt =====
-- A container listed both ways.
use neofs_mount.Prelude.{
  ◌≡◌, refl, true, none, some, inl, Text, codes, List, [], ◌∷◌, ◌++◌, text_eq, strip,
}
use neofs_mount.Neofs.Listing.{
  SearchEntry, DirEntry, entry_path_key, split_slash, segments, non_empty, trim_slash,
  list_immediate_children, build_listing_trie,
}
use neofs_mount.Neofs.Listing.Views.{beneath, first_at, relate, expected}
use neofs_mount.Neofs.Listing.Rows.{find_row, row_of}
use neofs_mount.Neofs.Linear.{
  file_row, dir_row, no_entries, listed_rows, normalize_neofs_prefix, list_entries_by_prefix,
  list_entries_by_prefix_linear, linear_from, linear_row, is_seen,
}
use neofs_mount.Neofs.Linear.Pieces.{prefix_text, all_segments, none_empty}
use neofs_mount.Neofs.Linear.Agree.{
  all_plain, find_row-list_entries_by_prefix_linear, list_entries_by_prefix-expected,
}
use neofs_mount.Fs.Directory.{contains_slash}
use neofs_mount.Neofs.Objects.{trim_suffix_slash}

abbrev entry : Text → Text → SearchEntry
entry id path = record {
  object_id = id;
  file_path = path;
  file_name = [];
  name = [];
  key = [];
  size = 5;
}

abbrev stored : List SearchEntry
stored =
    entry (codes "1") (codes "/docs/a/x")
    ∷ entry (codes "2") (codes "docs/b")
    ∷ entry (codes "3") (codes "docs/a/y")
    ∷ entry (codes "4") (codes "docs/b")
    ∷ []

abbrev docs : List Text
docs = codes "docs" ∷ []

rows_linear :
    list_entries_by_prefix_linear stored (codes "docs/")
    ≡ dir_row (codes "a") ∷ file_row (codes "b") (entry (codes "2") (codes "docs/b")) ∷ []
unfolding list_entries_by_prefix_linear linear_from linear_row is_seen entry_path_key trim_slash
    split_slash strip text_eq
rows_linear = refl

find_row-list_entries_by_prefix_linear_example :
    find_row (codes "b") (list_entries_by_prefix_linear stored (prefix_text docs))
    ≡ find_row (codes "b") (list_immediate_children (prefix_text docs) (build_listing_trie stored))
unfolding all_plain all_segments none_empty contains_slash entry_path_key trim_slash split_slash
    segments non_empty beneath relate text_eq
find_row-list_entries_by_prefix_linear_example =
    find_row-list_entries_by_prefix_linear docs (codes "b") stored refl refl refl (inl refl)

list_entries_by_prefix-expected_example :
    (l : List DirEntry) × (list_entries_by_prefix
        (λ s. s)
        true
        (some stored)
        (record { error = none; kept = none })
        (no_entries 1)
        (codes "docs")
      ≡ listed_rows l)
    × (find_row (codes "b") l
        ≡ row_of (codes "b") (
            expected
              (beneath (docs ++ codes "b" ∷ []) stored)
              (first_at (docs ++ codes "b" ∷ []) stored)))
unfolding all_plain all_segments none_empty contains_slash entry_path_key trim_slash split_slash
    segments non_empty beneath relate text_eq normalize_neofs_prefix trim_suffix_slash prefix_text
list_entries_by_prefix-expected_example =
    list_entries_by_prefix-expected (λ s. s) (codes "docs") docs (codes "b") stored
      (record { error = none; kept = none }) (no_entries 1) refl refl refl refl (inl refl)
