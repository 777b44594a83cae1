-- ===== src/Fs/Upload/Checks.antt =====
-- Uploads to a container of three objects: over one that is there, and with a put that is refused.
use neofs_mount.Prelude.{
  ◌≡◌, refl, true, Text, codes, none, some, List, [], ◌∷◌, map, length, text_eq, lookup, strip,
}
use neofs_mount.Fs.Directory.{is_ephemeral_editor_hidden_name}
use neofs_mount.Uploads.History.{Item, missing}
use neofs_mount.Uploads.Tracker.{new_tracker}
use neofs_mount.Neofs.Objects.{after_slash}
use neofs_mount.Fs.Containers.{drop_last_slashes}
use neofs_mount.Fs.Changes.Checks.{Store, store, full, three, store-Serves, store-Puts}
use neofs_mount.Fs.Upload.{Handle, System, State, ok, file_base, upload, release}
use neofs_mount.Fs.Upload.Ended.{Ended, upload-Ended}
use neofs_mount.Fs.Upload.Replaced.{Replaced}
use neofs_mount.Fs.Upload.Saved.{write_each, joined, release-Saved}

abbrev handle : Handle
handle = record {
  is_open = true;
  tmp_path = codes "/tmp/1";
  rel_path = codes "docs/b";
  container = codes "c";
  has_dir_cache = true;
}

abbrev system : System
system = record {
  stats = true;
  open_error = none;
  missing_error = codes "no such file";
  read = 5;
  stores = λ key content. some (length content);
  error_text = λ e. codes "refused";
  started = 10;
  ended = 20;
  saved = true;
}

abbrev encode : List Item → Text
encode items = []

abbrev state : State Store
state = record {
  world = three;
  files = (codes "/tmp/1", []) ∷ [];
  tracker = new_tracker;
  history = (record { path = codes "h"; max = 2; items = [] }, missing);
  obj = codes "2";
  file_size = 5;
}

abbrev chunks : List Text
chunks = codes "one " ∷ codes "two" ∷ []

release-Saved_example :
    let (files, results) = write_each handle 0 chunks state.files in
    (results ≡ map (λ c. ok (length c)) chunks)
    × Replaced
        (λ s. s.entries)
        (λ s. s.payload)
        (codes "docs/b")
        (joined chunks)
        three
        (release store encode (λ t. none) handle system (record state { files = files })).1.world
unfolding lookup text_eq file_base is_ephemeral_editor_hidden_name after_slash drop_last_slashes
    strip
release-Saved_example =
    release-Saved store (λ s. s.entries) (λ s. s.payload) encode (λ t. none) handle system state
      chunks store-Serves store-Puts refl refl refl refl refl

upload-Ended_example :
    Ended full encode
      (λ t. none)
      handle
      system
      state
      (upload full encode (λ t. none) handle system state)
upload-Ended_example = upload-Ended full encode (λ t. none) handle system state
