-- ===== src/Fs/Changes.antt =====
-- internal/fs/tree.go: `Rename`, `Mkdir` and `Create` of a `containerNode`. The client is a record of
-- calls; the log, the audit, and the modes and timeouts of an answer are left out.
pub mod Stored
pub mod Moved
pub mod Renamed
pub mod Lost
pub mod Checks
use neofs_mount.Prelude.{
  ℕ, Text, codes, Bool, true, false, ◌&&◌, ◌||◌, Option, none, some, List, [], ◌∷◌, text_eq,
  is_empty, ◌==◌, if◌then◌else◌,
}
use neofs_mount.Fs.Directory.{join_rel, contains_slash, is_dots}
use neofs_mount.Fs.Removal.{Client, Found, objects, not_listed, find_objects_by_exact_path}

pub data Got : Type 0 where
  got : Text → Got
  not_got : ℕ → Got

pub data Put : Type 0 where
  stored_as : Text → Put
  not_stored : ℕ → Put

-- The calls that change objects: those of a removal, `ObjectGet` with the payload, and
-- `ObjectPutContentType` of a path, a payload and a content type.
pub record Writer (W : Type 0) : Type 0 where
  pub client : Client W
  pub get : Text → W → W × Got
  pub put : Text → Text → Text → W → W × Put

pub data Errno : Type 0 where
  done : Errno
  erofs einval enotsup exdev enoent eio : Errno
  remote : ℕ → Errno

-- Where a rename goes: a directory of some container, or another kind of node.
pub data Target : Type 0 where
  directory : Text → Text → Target
  other : Target

abbrev pub is_bad_name : Text → Bool
is_bad_name name = is_empty name || contains_slash name

module _ {W : Type 0} (neo : Writer W) where
  -- The overwriting of the destination, whose errors are not looked at.
  unfoldable pub delete_all : List Text → W → W
  delete_all [] w = w
  delete_all (id ∷ ids) w = delete_all ids (neo.client.delete id w).0

  unfoldable pub overwrite : W × Found → W
  unfolding delete_all
  overwrite (w, not_listed e) = w
  overwrite (w, objects ids) = delete_all ids w

  unfoldable pub after_put : Text → W × Put → W × Option ℕ
  after_put src (w, not_stored e) = (w, some e)
  after_put src (w, stored_as id) = neo.client.delete src w

  unfoldable pub after_get : Text → Text → W × Got → W × Option ℕ
  unfolding after_put
  after_get src dst_rel (w, not_got e) = (w, some e)
  after_get src dst_rel (w, got payload) = after_put src (neo.put dst_rel payload [] w)

  -- One round of the copying loop.
  unfoldable pub move : Text → Text → W → W × Option ℕ
  unfolding after_get
  move dst_rel src w = after_get src dst_rel (neo.get src w)

  unfoldable pub move_each : Text → List Text → W → W × Option ℕ
  unfolding move
  move_each dst_rel [] w = (w, none)
  move_each dst_rel (src ∷ ids) w =
      let (w', e) = move dst_rel src w in
      elim e [ some x ↦ (w', some x) | none ↦ move_each dst_rel ids w' ]

  unfoldable pub finish : W × Option ℕ → W × Errno
  finish (w, some e) = (w, remote e)
  finish (w, none) =
      (neo.client.invalidate_container_scan (neo.client.invalidate_container w), done)

  unfoldable pub rename_found : Text → W × Found → W × Errno
  unfolding overwrite move_each finish
  rename_found dst_rel (w, not_listed e) = (w, remote e)
  rename_found dst_rel (w, objects []) = (w, enoent)
  rename_found dst_rel (w, objects (id ∷ ids)) =
      finish
        (move_each dst_rel (id ∷ ids) (overwrite (find_objects_by_exact_path neo.client dst_rel w)))

  unfoldable pub rename_to : Text → Text → Text → Text → Target → W → W × Errno
  unfolding rename_found
  rename_to container path name new_name other w = (w, exdev)
  rename_to container path name new_name (directory dst_container dst_path) w =
      if text_eq dst_container container
      then rename_found (join_rel dst_path new_name)
          (find_objects_by_exact_path neo.client (join_rel path name) w)
      else (w, exdev)

  -- `Rename` in the directory `path` of a container.
  unfoldable pub rename : Bool → ℕ → Text → Text → Text → Target → Text → W → W × Errno
  unfolding rename_to
  rename ro flags container path name target new_name w =
      if ro
      then (w, erofs)
      else if is_bad_name name || is_bad_name new_name
      then (w, einval)
      else if flags == 0
      then rename_to container path name new_name target w
      else (w, enotsup)

  unfoldable pub mkdir_put : W × Put → W × Errno
  mkdir_put (w, not_stored e) = (w, remote e)
  mkdir_put (w, stored_as id) =
      (neo.client.invalidate_container_scan (neo.client.invalidate_container w), done)

  -- `Mkdir`: an empty object with a type of its own.
  unfoldable pub mkdir : Bool → Text → Text → W → W × Errno
  unfolding mkdir_put
  mkdir ro path name w =
      if ro
      then (w, erofs)
      else if is_bad_name name || is_dots name
      then (w, einval)
      else mkdir_put (neo.put (join_rel path name) [] (codes "application/x-directory") w)

  -- `Create`: the cache has a directory or not, and the temporary file is made there or not; the
  -- upload handle has the path that is returned.
  unfoldable pub create : Bool → Bool → Bool → Text → Text → W → W × Errno × Option Text
  create ro has_dir made path name w =
      if ro
      then (w, erofs, none)
      else if is_bad_name name || is_dots name
      then (w, einval, none)
      else if has_dir && made
      then (
        neo.client.invalidate_container_scan (neo.client.invalidate_container w),
        done,
        some (join_rel path name),
      )
      else (w, eio, none)
