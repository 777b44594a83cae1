-- ===== src/Fs/Directory/Checks.antt =====
-- Listing and lookup at concrete inputs.
use neofs_mount.Prelude.{
  ℕ, ◌≡◌, refl, Text, codes, true, Option, none, some, List, [], ◌∷◌, text_eq, strip,
}
use neofs_mount.Neofs.Listing.{SearchEntry, trim_slash}
use neofs_mount.Fs.Directory.{
  look_up, list_children, listed, found_dir, not_found, join_rel, contains_slash,
  is_ephemeral_editor_hidden_name, child_path, look_scan, answer, match_entries, match_entry,
  match_path, match_flat,
}
use neofs_mount.Fs.Directory.Children.{
  IsPlain, find_row, row_of, later, any, goes_beneath, ends_at, KeepsNames, find_row-list_children,
}
use neofs_mount.Fs.Directory.Found.{AllPlaced}
use neofs_mount.Fs.Directory.Agree.{look_up-list_children}

abbrev entry : Text → Text → Text → SearchEntry
entry id path key = record {
  object_id = id;
  file_path = path;
  file_name = [];
  name = [];
  key = key;
  size = 5;
}

abbrev entries : List SearchEntry
entries =
    entry (codes "1") (codes "/docs/a/b") []
    ∷ entry (codes "2") [] (codes "docs/c")
    ∷ entry (codes "3") (codes "docs/a") []
    ∷ []

entries-AllPlaced : AllPlaced (codes "docs") entries
entries-AllPlaced = (
  record { id = refl; placed = refl },
  (record { id = refl; placed = refl }, (record { id = refl; placed = refl }, tt)),
)

a-IsPlain : IsPlain (codes "a")
unfolding contains_slash is_ephemeral_editor_hidden_name text_eq strip
a-IsPlain = record { filled = refl; flat = refl; shown = refl }

same_names : KeepsNames (λ names. names)
same_names name names = refl

abbrev no_header : Text → Option ℕ
no_header id = none

a_listed :
    find_row (codes "a") (list_children (λ names. names) (codes "docs") entries)
    ≡ some (record { name = codes "a"; directory = true })
unfolding any child_path trim_slash strip text_eq
a_listed =
    find_row-list_children (λ names. names) (codes "docs") (codes "a") entries same_names a-IsPlain

find_row-list_children_example :
    find_row (codes "a") (list_children (λ names. names) (codes "docs") entries)
    ≡ row_of (codes "a") (
        later none
          (any (goes_beneath (codes "docs/") (codes "a")) entries)
          (any (ends_at (codes "docs/") (codes "a")) entries))
find_row-list_children_example =
    find_row-list_children (λ names. names) (codes "docs") (codes "a") entries same_names a-IsPlain

look_up-list_children_example :
    look_up no_header (codes "docs") (codes "a") (listed entries) ≡ found_dir (codes "docs/a")
unfolding join_rel text_eq
look_up-list_children_example =
    look_up-list_children (λ names. names) no_header (codes "docs") (codes "a") entries true
      same_names entries-AllPlaced a-IsPlain refl a_listed

-- In the root an entry with nothing but a name that has a slash is listed as a directory, which no
-- lookup finds.
abbrev flat : List SearchEntry
flat =
    record {
      object_id = codes "1";
      file_path = [];
      file_name = codes "a/b";
      name = [];
      key = [];
      size = 5;
    }
    ∷ []

flat_listed :
    find_row (codes "a") (list_children (λ names. names) [] flat)
    ≡ some (record { name = codes "a"; directory = true })
unfolding any child_path trim_slash strip text_eq
flat_listed = find_row-list_children (λ names. names) [] (codes "a") flat same_names a-IsPlain

flat_missed : look_up no_header [] (codes "a") (listed flat) ≡ not_found
unfolding look_up look_scan answer match_entries match_entry match_path match_flat trim_slash strip
    text_eq join_rel contains_slash is_ephemeral_editor_hidden_name
flat_missed = refl
