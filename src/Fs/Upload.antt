-- ===== src/Fs/Upload.antt =====
-- internal/fs/tree.go: `uploadFileHandle`, the handle of a file that is written, and the upload that
-- its `Release` starts, as one run of that goroutine. The client is the record of calls that a rename
-- uses. The temporary file is its bytes; there are a tracker and a history. The log, the audit and the
-- progress ticker are left out.
pub mod Bytes
pub mod Ended
pub mod Replaced
pub mod Saved
mod Checks
use neofs_mount.Prelude.{
  ℕ, ◌+◌, ◌-◌, Text, codes, Bool, true, false, Option, none, some, List, [], ◌∷◌, ◌++◌, text_eq,
  is_empty, if◌then◌else◌, length, take, drop, zero, suc, ltb, min, Map, lookup, delete, insert,
}
use neofs_mount.Neofs.Listing.{slash}
use neofs_mount.Neofs.Objects.{after_slash}
use neofs_mount.Fs.Containers.{drop_last_slashes}
use neofs_mount.Fs.Directory.{is_ephemeral_editor_hidden_name}
use neofs_mount.Fs.Removal.{Found, objects, not_listed, find_objects_by_exact_path}
use neofs_mount.Fs.Changes.{Writer, Put, stored_as, not_stored}
use neofs_mount.Uploads.History.{Item, History, File, append}
use neofs_mount.Uploads.Tracker.{Tracker, register, finish_upload, add_sent}

-- `WriteAt` of a file: what is before the offset and missing reads as zeros.
unfoldable pub overlay : ℕ → Text → Text → Text
overlay zero buf content = buf ++ drop (length buf) content
overlay (suc off) buf [] = 0 ∷ overlay off buf []
overlay (suc off) buf (c ∷ content) = c ∷ overlay off buf content

unfoldable pub write_at : ℕ → Text → Text → Text
unfolding overlay
write_at off buf content = if is_empty buf then content else overlay off buf content

-- The handle: whether its file is open, and the file.
pub record Handle : Type 0 where
  pub is_open : Bool
  pub tmp_path : Text
  pub rel_path : Text
  pub container : Text
  pub has_dir_cache : Bool

pub data WriteResult : Type 0 where
  ok : ℕ → WriteResult
  eio : ℕ → WriteResult

abbrev pub wrote : ℕ → ℕ → WriteResult
wrote n size = if ltb n size then eio n else ok n

-- What a temporary file holds; one that is removed can be written as long as it is open, but no more
-- read under its name.
abbrev pub content_of : Option Text → Text
content_of none = []
content_of (some content) = content

-- `Write` at an offset that is not negative, to a disk on which there is room for `room` bytes of it.
unfoldable pub write : Handle → ℕ → Text → ℕ → Map Text → Map Text × WriteResult
unfolding write_at
write h room buf off files =
    if h.is_open
    then (
      insert h.tmp_path (write_at off (take room buf) (content_of (lookup h.tmp_path files))) files,
      wrote (min room (length buf)) (length buf),
    )
    else (files, eio 0)

-- `filepath.Base`
abbrev pub or_slash : Text → Text
or_slash s = if is_empty s then slash ∷ [] else s

unfoldable pub file_base : Text → Text
unfolding after_slash drop_last_slashes
file_base path =
    let s = drop_last_slashes path in
    if is_empty path then codes "." else or_slash (after_slash s s)

-- What the system answers during an upload: whether the file's size can be read, the error that
-- opening it brings, how many bytes the put has read, what `StoreFromPath` answers for a key and a
-- file, the text of an error, the times, and whether the history's file can be written.
pub record System : Type 0 where
  pub stats : Bool
  pub open_error : Option Text
  pub missing_error : Text
  pub read : ℕ
  pub stores : Text → Text → Option ℕ
  pub error_text : ℕ → Text
  pub started : ℕ
  pub ended : ℕ
  pub saved : Bool

-- What an upload works on: the client's state, the temporary files, the tracker, the history, and the
-- object and size of the node.
pub record State (W : Type 0) : Type 0 where
  pub world : W
  pub files : Map Text
  pub tracker : Tracker
  pub history : History × File
  pub obj : Text
  pub file_size : ℕ

abbrev pub size_of : Bool → Option Text → ℕ
size_of stats none = 0
size_of stats (some content) = if stats then length content else 0

pub data Opened : Type 0 where
  opened : Text → Opened
  open_failed : Text → Opened

abbrev pub opened_with : Text → Option Text → Opened
opened_with content none = opened content
opened_with content (some e) = open_failed e

abbrev pub open_file : System → Option Text → Opened
open_file sys none = open_failed sys.missing_error
open_file sys (some content) = opened_with content sys.open_error

abbrev pub old_ids : Found → List Text
old_ids (objects ids) = ids
old_ids (not_listed e) = []

abbrev pub history_item : ℕ → ℕ → Text → ℕ → Text → Text → Item
history_item started ended key bytes status detail = record {
  finished_at = ended;
  started_at = started;
  neo_key = key;
  disk_path = [];
  bytes = bytes;
  status = status;
  detail = detail;
}

abbrev pub history_key : Handle → Text
history_key h = h.container ++ slash ∷ h.rel_path

module _ {W : Type 0} (neo : Writer W) (encode : List Item → Text)
    (decode : Text → Option (List Item)) where
  -- The deletion of the old objects, whose errors are not looked at.
  unfoldable pub delete_others : Text → List Text → W → W
  delete_others new [] w = w
  delete_others new (id ∷ ids) w =
      delete_others new ids (if text_eq id new then w else (neo.client.delete id w).0)

  abbrev pub forget : Bool → W → W
  forget has_dir_cache w =
      let w' = neo.client.invalidate_container_scan w in
      if has_dir_cache then neo.client.invalidate_container w' else w'

  abbrev pub set_node : Text → Option ℕ → State W → State W
  set_node new none s = record s { obj = new }
  set_node new (some size) s = record s { obj = new; file_size = size }

  abbrev pub log_item : System → Item → State W → State W
  log_item sys it s = record s { history = append encode decode sys.ended it sys.saved s.history }

  -- What follows `ObjectPut`.
  unfoldable pub after_upload :
      Handle → System → Text → ℕ → List Text → Text → State W → W × Put → State W
  unfolding delete_others
  after_upload h sys key bytes old content s (w, not_stored e) =
      log_item sys
        (history_item sys.started sys.ended key bytes (codes "failed") (sys.error_text e))
        (record s { world = w })
  after_upload h sys key bytes old content s (w, stored_as new) =
      log_item sys (history_item sys.started sys.ended key bytes (codes "ok") []) (
        set_node new (sys.stores new content)
          (record s { world = forget h.has_dir_cache (delete_others new old w) }))

  unfoldable pub transfer_opened : Handle → System → ℕ → ℕ → State W → List Text → Opened → State W
  unfolding after_upload
  transfer_opened h sys bytes entry s old (open_failed e) =
      log_item sys
        (history_item sys.ended sys.ended (history_key h) bytes (codes "failed")
          (codes "open temp: " ++ e))
        s
  transfer_opened h sys bytes entry s old (opened content) =
      after_upload h sys (history_key h) bytes old content
        (record s { tracker = add_sent entry sys.read s.tracker })
        (neo.put h.rel_path content [] s.world)

  -- What follows the search for old objects.
  abbrev pub transfer : Handle → System → ℕ → ℕ → State W → W × Found → State W
  transfer h sys bytes entry s (w, found) =
      transfer_opened h sys bytes entry (record s { world = w }) (old_ids found)
        (open_file sys (lookup h.tmp_path s.files))

  -- What is deferred to the end.
  abbrev pub leave : Handle → State W → State W
  leave h s = record s {
    files = delete h.tmp_path s.files;
    tracker = finish_upload h.rel_path s.tracker;
  }

  -- The goroutine that `Release` starts.
  unfoldable pub upload : Handle → System → State W → State W
  unfolding transfer_opened
  upload h sys s =
      let bytes = size_of sys.stats (lookup h.tmp_path s.files) in
      let (t, entry) = register h.rel_path bytes sys.started s.tracker in
      leave h (
        transfer h sys bytes entry (record s { tracker = t })
          (find_objects_by_exact_path neo.client h.rel_path s.world))

  -- `Release`, with the upload that it starts; its answer is always that all is well.
  unfoldable pub release : Handle → System → State W → Handle × State W
  unfolding upload file_base
  release h sys s =
      if h.is_open
      then (
        record h { is_open = false },
        if is_ephemeral_editor_hidden_name (file_base h.rel_path)
            then record s {
              files = delete h.tmp_path s.files;
              world =
                  neo.client.invalidate_container_scan
                    (if h.has_dir_cache then neo.client.invalidate_container s.world else s.world);
            }
            else upload h sys s,
      )
      else (h, s)
