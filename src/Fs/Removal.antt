-- ===== src/Fs/Removal.antt =====
-- internal/fs/tree.go: `Unlink`, `Rmdir` and `findObjectsByExactPath` of a `containerNode`. The client
-- is a record of operations on a state of any type; the log and the audit are left out.
pub mod Exact
pub mod Cached
pub mod Checks
use neofs_mount.Prelude.{
  ℕ, Text, Bool, true, false, ◌||◌, Option, none, some, List, [], ◌∷◌, text_eq, is_empty,
  if◌then◌else◌,
}
use neofs_mount.Neofs.Listing.{SearchEntry, trim_slash}
use neofs_mount.Fs.Directory.{Scan, listed, scan_error, join_rel, contains_slash, is_dots}

-- The calls that a removal makes: `ListEntriesByHeadScan`, `ObjectDelete` with its error, and the
-- invalidations of the directory cache and of the scan.
pub record Client (W : Type 0) : Type 0 where
  pub scan : W → W × Scan
  pub delete : Text → W → W × Option ℕ
  pub invalidate_container : W → W
  pub invalidate_container_scan : W → W

pub data Errno : Type 0 where
  done : Errno
  erofs einval enoent : Errno
  remote : ℕ → Errno

pub data Found : Type 0 where
  objects : List Text → Found
  not_listed : ℕ → Found

abbrev pub is_exact : Text → SearchEntry → Bool
is_exact rel_path e =
    text_eq (trim_slash e.file_path) rel_path || text_eq (trim_slash e.key) rel_path

unfoldable pub exact_ids : Text → List SearchEntry → List Text
exact_ids rel_path [] = []
exact_ids rel_path (e ∷ entries) =
    let rest = exact_ids rel_path entries in
    if is_exact rel_path e then e.object_id ∷ rest else rest

abbrev pub exact_of : Text → Scan → Found
exact_of rel_path (listed entries) = objects (exact_ids (trim_slash rel_path) entries)
exact_of rel_path (scan_error e) = not_listed e

module _ {W : Type 0} (neo : Client W) where
  unfoldable pub find_objects_by_exact_path : Text → W → W × Found
  unfolding exact_ids
  find_objects_by_exact_path rel_path w = let (w', s) = neo.scan w in (w', exact_of rel_path s)

  -- The loop of `Unlink`, which stops at the first error.
  unfoldable pub delete_each : List Text → W → W × Option ℕ
  delete_each [] w = (w, none)
  delete_each (id ∷ ids) w =
      let (w', e) = neo.delete id w in elim e [ some x ↦ (w', some x) | none ↦ delete_each ids w' ]

  unfoldable pub after_deletes : W × Option ℕ → W × Errno
  after_deletes (w, some e) = (w, remote e)
  after_deletes (w, none) = (neo.invalidate_container_scan (neo.invalidate_container w), done)

  unfoldable pub unlink_found : W × Found → W × Errno
  unfolding delete_each after_deletes
  unlink_found (w, not_listed e) = (w, remote e)
  unlink_found (w, objects []) = (w, enoent)
  unlink_found (w, objects (id ∷ ids)) = after_deletes (delete_each (id ∷ ids) w)

  -- `Unlink` of a name in the directory `path` of a mount that is read-only or not.
  unfoldable pub unlink : Bool → Text → Text → W → W × Errno
  unfolding unlink_found
  unlink ro path name w =
      if ro
      then (w, erofs)
      else if is_empty name || (contains_slash name || is_dots name)
      then (w, einval)
      else unlink_found (find_objects_by_exact_path (join_rel path name) w)

  -- `Rmdir`
  unfoldable pub rmdir : Bool → Text → Text → W → W × Errno
  unfolding unlink
  rmdir ro path name w = unlink ro path name w
