-- ===== src/Fs/Directory.antt =====
-- internal/fs/tree.go: `Lookup` and `listChildren` of a `containerNode`, and the names that
-- internal/fs/ephemeral_names.go hides. Modes, owners, times and timeouts of an answer are left out,
-- so is the log. An object's id is its encoded form, and the zero id the empty text.
mod Names
pub mod Children
pub mod Found
pub mod Agree
mod Checks
use neofs_mount.Prelude.{
  ℕ, Text, codes, Bool, true, false, not, ◌&&◌, ◌||◌, Option, none, some, List, [], ◌∷◌, ◌++◌,
  text_eq, is_empty, strip, ◌==◌, if◌then◌else◌, Map, lookup, insert,
}
use neofs_mount.Neofs.Listing.{SearchEntry, slash, trim_slash}

unfoldable pub join_rel : Text → Text → Text
join_rel base seg = if is_empty base then seg else base ++ slash ∷ seg

abbrev pub starts_with : Text → Text → Bool
starts_with p s = elim (strip p s) [ none ↦ false | some rest ↦ true ]

unfoldable pub contains_slash : Text → Bool
contains_slash [] = false
contains_slash (c ∷ s) = c == slash || contains_slash s

abbrev pub is_dots : Text → Bool
is_dots name = text_eq name (codes ".") || text_eq name (codes "..")

-- `isEphemeralEditorHiddenName`
unfoldable pub is_ephemeral_editor_hidden_name : Text → Bool
is_ephemeral_editor_hidden_name name =
    if is_empty name || is_dots name
    then false
    else starts_with (codes ".goutputstream-") name || starts_with (codes ".gsavefile-") name

-- What the loop of `Lookup` has found.
pub record Finding : Type 0 where
  pub file : Text
  pub size : ℕ
  pub directory : Bool

abbrev pub set_file : SearchEntry → Finding → Finding
set_file e f = record f { file = e.object_id; size = e.size }

-- One of `FilePath` and `Key`, without a leading slash, against the path that is looked up.
unfoldable pub match_path : Text → SearchEntry → Text → Finding → Finding
match_path prefix e p f =
    if is_empty p
    then f
    else if text_eq p prefix
    then set_file e f
    else if starts_with (prefix ++ slash ∷ []) p
    then record f { directory = true }
    else f

abbrev pub is_flat : Text → SearchEntry → Bool
is_flat name e =
    text_eq (trim_slash e.file_name) name
    || (text_eq (trim_slash e.name) name || text_eq e.object_id name)

unfoldable pub match_flat : Text → Text → SearchEntry → Finding → Finding
match_flat path name e f =
    if is_empty f.file && (not f.directory && (is_empty path && is_flat name e))
    then set_file e f
    else f

-- One round of the loop of `Lookup`.
unfoldable pub match_entry : Text → Text → SearchEntry → Finding → Finding
match_entry path name e f =
    let prefix = join_rel path name in
    match_flat path name e
      (match_path prefix e (trim_slash e.key) (match_path prefix e (trim_slash e.file_path) f))

unfoldable pub match_entries : Text → Text → List SearchEntry → Finding → Finding
match_entries path name [] f = f
match_entries path name (e ∷ entries) f =
    match_entries path name entries (match_entry path name e f)

pub data Scan : Type 0 where
  listed : List SearchEntry → Scan
  scan_error : ℕ → Scan

pub data Looked : Type 0 where
  found_dir : Text → Looked
  found_file : Text → Text → ℕ → Looked
  not_found : Looked
  failed : ℕ → Looked

abbrev pub header_size : Option ℕ → ℕ → ℕ
header_size none size = size
header_size (some n) size = n

-- The end of `Lookup`: the object's header is read only if the size is not known.
unfoldable pub answer : (Text → Option ℕ) → Text → Finding → Looked
answer head prefix f =
    if f.directory
    then found_dir prefix
    else if is_empty f.file
    then not_found
    else found_file f.file prefix (if f.size == 0 then header_size (head f.file) f.size else f.size)

unfoldable pub look_scan : (Text → Option ℕ) → Text → Text → Scan → Looked
look_scan head path name (scan_error e) = failed e
look_scan head path name (listed entries) =
    answer head (join_rel path name)
      (match_entries path name entries (record { file = []; size = 0; directory = false }))

-- `Lookup` of a name in the directory `path`, with what the scan of the container answers.
unfoldable pub look_up : (Text → Option ℕ) → Text → Text → Scan → Looked
look_up head path name scan =
    if is_empty name || (contains_slash name || is_dots name)
    then not_found
    else if is_ephemeral_editor_hidden_name name
    then not_found
    else look_scan head path name scan

-- `childInfo`
pub record Child : Type 0 where
  pub is_dir : Bool
  pub size : ℕ
  pub object_id : Text

abbrev pub dir_prefix : Text → Text
dir_prefix path = if is_empty path then path else path ++ slash ∷ []

abbrev pub or_else : Text → Text → Text
or_else s t = if is_empty s then t else s

-- The path of an entry as `listChildren` reads it.
unfoldable pub child_path : Text → SearchEntry → Text
child_path prefix e =
    let p = or_else (trim_slash e.file_path) (trim_slash e.key) in
    if is_empty p && is_empty prefix
    then or_else (or_else (trim_slash e.file_name) (trim_slash e.name)) e.object_id
    else p

-- `strings.Cut(s, "/")`: what stands before the first slash, and whether there is one.
unfoldable pub cut : Text → Text × Bool
cut [] = ([], false)
cut (c ∷ s) = let (seg, more) = cut s in if c == slash then ([], true) else (c ∷ seg, more)

-- `children[seg]`, a blank one if it is not there.
abbrev pub child_or_blank : Option Child → Child
child_or_blank none = record { is_dir = false; size = 0; object_id = [] }
child_or_blank (some c) = c

unfoldable pub add_child : SearchEntry → Text → Bool → Map Child → Map Child
add_child e seg has_slash children =
    let info = child_or_blank (lookup seg children) in
    if is_empty seg || is_ephemeral_editor_hidden_name seg
    then children
    else if has_slash
    then insert seg (record info { is_dir = true }) children
    else if info.is_dir
    then children
    else insert seg (record { is_dir = false; size = e.size; object_id = e.object_id }) children

unfoldable pub add_rest : SearchEntry → Option Text → Map Child → Map Child
add_rest e none children = children
add_rest e (some rest) children = let (seg, more) = cut rest in add_child e seg more children

-- The loop of `listChildren`.
unfoldable pub gather : Text → List SearchEntry → Map Child → Map Child
gather prefix [] children = children
gather prefix (e ∷ entries) children =
    gather prefix entries (add_rest e (strip prefix (child_path prefix e)) children)

pub record Row : Type 0 where
  pub name : Text
  pub directory : Bool

unfoldable pub names_of : Map Child → List Text
names_of [] = []
names_of ((name, c) ∷ children) = name ∷ names_of children

unfoldable pub rows_of : Map Child → List Text → List Row
rows_of children [] = []
rows_of children (name ∷ names) =
    record { name = name; directory = (child_or_blank (lookup name children)).is_dir }
    ∷ rows_of children names

-- `listChildren` of a directory that is not in the directory cache; `sort` is `sort.Strings`.
unfoldable pub list_children : (List Text → List Text) → Text → List SearchEntry → List Row
list_children sort path entries =
    let children = gather (dir_prefix path) entries [] in
    rows_of children (sort (names_of children))
