-- ===== src/Fs/Directory/Agree.antt =====
-- `Lookup` finds what `listChildren` lists.
use neofs_mount.Prelude.{
  ℕ, ◌≡◌, ◌⊎◌, sym, ◌∙◌, Text, Bool, true, false, ◌||◌, Option, none, some, List, [], is_empty,
  if◌then◌else◌, ◌==◌, arith, Bool-cases, inl, inr,
}
use neofs_mount.Neofs.Listing.{SearchEntry}
use neofs_mount.Fs.Directory.{
  is_dots, join_rel, dir_prefix, Finding, match_entries, Looked, found_dir, found_file, listed,
  header_size, answer, look_scan, look_up, list_children,
}
use neofs_mount.Fs.Directory.Children.{
  IsPlain, goes_beneath, ends_at, any, find_row, KeepsNames, row_of, later, find_row-list_children,
}
use neofs_mount.Fs.Directory.Found.{AllPlaced, matched_directories, matched_files}

-- What a lookup has to answer for a row: the directory, or where a file is listed at least
-- something with that path.
abbrev pub Agrees : Text → Bool → Looked → Type 0
Agrees target true l = l ≡ found_dir target
Agrees target false l =
    (l ≡ found_dir target) ⊎ ((id : Text) × (size : ℕ) × (l ≡ found_file id target size))

answer-directory :
    (head : Text → Option ℕ) (target : Text) (f : Finding)
    → f.directory ≡ true
    → answer head target f ≡ found_dir target
unfolding answer
answer-directory head target f h = ground arith

answer-file :
    (head : Text → Option ℕ) (target : Text) (f : Finding)
    → is_empty f.file ≡ false
    → Agrees target false (answer head target f)
unfolding answer
answer-file head target f h = elim (Bool-cases f.directory) [
  | inl d ↦ inl (ground arith)
  | inr d ↦
      inr (f.file, (if f.size == 0 then header_size (head f.file) f.size else f.size), ground arith)
]

look_up-answer :
    (head : Text → Option ℕ) (path name : Text) (entries : List SearchEntry)
    → IsPlain name
    → is_dots name ≡ false
    → look_up head path name (listed entries)
      ≡ answer head
          (join_rel path name)
          (match_entries path name entries (record { file = []; size = 0; directory = false }))
unfolding look_up look_scan
look_up-answer head path name entries plain dots =
    ground (arith, plain.filled, plain.flat, plain.shown)

-- A row was made by entries beneath its name or at it.
row_of-later :
    (name : Text) (d b a : Bool)
    → row_of name (later none b a) ≡ some (record { name = name; directory = d })
    → (d ≡ b) × (b || a ≡ true)
row_of-later name d b a h = ground arith

-- For a sort that keeps the names, entries that have an id and, in the root of the container, a
-- path, and a name that is not empty, has no slash, is not hidden and is not `.` or `..`: what the
-- listing of a directory shows as a directory, a lookup of that name finds as that directory, and
-- what it shows as a file is found as a directory or as a file with that path, never missed.
pub look_up-list_children :
    (sort : List Text → List Text) (head : Text → Option ℕ) (path name : Text)
    (entries : List SearchEntry) (d : Bool)
    → KeepsNames sort
    → AllPlaced path entries
    → IsPlain name
    → is_dots name ≡ false
    → find_row name (list_children sort path entries) ≡ some (record { name = name; directory = d })
    → Agrees (join_rel path name) d (look_up head path name (listed entries))
look_up-list_children sort head path name entries d keeps placed plain dots row =
    let below = any (goes_beneath (dir_prefix path) name) entries in
    let there = any (ends_at (dir_prefix path) name) entries in
    let found =
      match_entries path name entries (record { file = []; size = 0; directory = false }) in
    let (same, some_entry) =
      row_of-later name d below there
        (sym (find_row-list_children sort path name entries keeps plain) ∙ row) in
    rw (look_up-answer head path name entries plain dots) (decide d same some_entry)
  where
    decide :
        (d : Bool)
        → d ≡ any (goes_beneath (dir_prefix path) name) entries
        → any (goes_beneath (dir_prefix path) name) entries
            || any (ends_at (dir_prefix path) name) entries
          ≡ true
        → Agrees (join_rel path name) d (
            answer head
              (join_rel path name)
              (match_entries path name entries (record { file = []; size = 0; directory = false })))
    decide true e h =
        answer-directory head (join_rel path name) _
          (matched_directories path name plain entries _ placed (ground arith))
    decide false e h =
        answer-file head (join_rel path name) _
          (matched_files path name plain entries _ placed (ground arith))
