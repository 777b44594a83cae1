-- ===== src/Fs/Root.antt =====
-- internal/fs/tree.go: `rootNode`, the directory of the containers. Ids are in their encoded form;
-- `decode` is `DecodeString` followed by `EncodeToString`, and `get` the name that `ContainerGet`
-- answers, if it has no error. The locks make each use of the fields a step of its own; one caller is
-- modelled. Modes, owners and timeouts of an answer are left out.
pub mod Finds
mod Checks
use neofs_mount.Prelude.{
  ℕ, ◌-◌, Text, Bool, true, false, ◌&&◌, Option, none, some, List, [], ◌∷◌, is_empty, ltb, ◌==◌,
  if◌then◌else◌, Map, lookup,
}
use neofs_mount.Fs.Containers.{
  Named, drop_slashes, drop_last_slashes, remove_byte, replace_byte, unless_dots, or_id, contains,
  named_list, unique_names, alias_of, Listed, containers, failed,
}

pub record Root : Type 0 where
  pub container_by_ui : Option (Map Text)
  pub root_entries : List Text
  pub root_entries_at : Option ℕ
  pub root_entries_ttl : ℕ

-- 30 seconds
abbrev pub default_ttl : ℕ
default_ttl = 30000000000

unfoldable pub new_root : Root
new_root = record {
  container_by_ui = none;
  root_entries = [];
  root_entries_at = none;
  root_entries_ttl = 0;
}

-- `sanitizeDirName`
unfoldable pub sanitize_dir_name : (Text → Text) → Text → Text
unfolding drop_slashes drop_last_slashes remove_byte replace_byte
sanitize_dir_name trim_space s =
    unless_dots
      (replace_byte b'/' b'_' (remove_byte 0 (drop_last_slashes (drop_slashes (trim_space s)))))

abbrev pub sanitized_or : (Text → Text) → Text → Text → Text
sanitized_or trim_space id nm = if is_empty nm then id else sanitize_dir_name trim_space nm

abbrev pub root_known : (Text → Text) → Text → Option Text → Text
root_known trim_space id none = id
root_known trim_space id (some name) = sanitized_or trim_space id (trim_space name)

unfoldable pub root_name : (Text → Text) → (Text → Option Text) → Text → Text
unfolding sanitize_dir_name
root_name trim_space get id = or_id id (root_known trim_space id (get id))

unfoldable pub names_of : List Named → List Text
names_of [] = []
names_of (it ∷ l) = it.name ∷ names_of l

pub data Read : Type 0 where
  rows : List Text → Read
  errno : ℕ → Read

pub data Found : Type 0 where
  container : Text → Found
  enoent : Found

abbrev pub or_default : ℕ → ℕ
or_default ttl = if ttl == 0 then default_ttl else ttl

abbrev pub is_fresh : ℕ → ℕ → Option ℕ → Bool
is_fresh now ttl none = false
is_fresh now ttl (some at) = ltb 0 ttl && ltb (now - at) ttl

-- What the directory is asked with: the sorts, the names, the ids that are ignored, the decoding, and
-- the answer of `ListContainers`.
pub record Network : Type 0 where
  pub trim_space : Text → Text
  pub sort_ids : List Text → List Text
  pub sort_names : List Named → List Named
  pub get : Text → Option Text
  pub decode : Text → Option Text
  pub ignore : List Text
  pub listed : Listed

-- The list that is shown of some ids.
unfoldable pub root_list : Network → List Text → List Named
unfolding named_list unique_names root_name
root_list net ids =
    net.sort_names
      (unique_names (named_list (root_name net.trim_space net.get) net.ignore (net.sort_ids ids)))

unfoldable pub refresh : Network → ℕ → Root → Listed → Root × Read
unfolding root_list alias_of
refresh net later n (failed e) = (n, errno e)
refresh net later n (containers ids) =
    let l = root_list net ids in
    (
      record n {
        container_by_ui = some (alias_of l []);
        root_entries = names_of l;
        root_entries_at = some later;
        root_entries_ttl = or_default n.root_entries_ttl;
      },
      rows (names_of l),
    )

-- `Readdir`, which begins at the time `now` and stores its entries at the time `later`.
unfoldable pub readdir : Network → ℕ → ℕ → Root → Root × Read
unfolding refresh
readdir net now later n =
    if is_fresh now n.root_entries_ttl n.root_entries_at
    then (n, rows n.root_entries)
    else refresh net later n net.listed

abbrev pub lookup_in : Text → Option (Map Text) → Option Text
lookup_in name none = none
lookup_in name (some m) = lookup name m

abbrev pub checked : Network → Option Text → Found
checked net none = enoent
checked net (some id) = if contains id net.ignore then enoent else container id

abbrev pub after_read : Network → Text → Root × Read → Root × Found
after_read net name (n, errno e) = (n, enoent)
after_read net name (n, rows l) = (n, checked net (lookup_in name n.container_by_ui))

abbrev pub by_ui : Network → ℕ → ℕ → Text → Root → Option Text → Root × Found
by_ui net now later name n (some id) = (n, checked net (some id))
by_ui net now later name n none = after_read net name (readdir net now later n)

abbrev pub by_id : Network → ℕ → ℕ → Text → Root → Option Text → Root × Found
by_id net now later name n (some id) = (n, checked net (some id))
by_id net now later name n none = by_ui net now later name n (lookup_in name n.container_by_ui)

-- `Lookup`
unfoldable pub look_up : Network → ℕ → ℕ → Text → Root → Root × Found
unfolding readdir
look_up net now later name n = by_id net now later name n (net.decode name)
