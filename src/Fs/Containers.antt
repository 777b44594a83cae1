-- ===== src/Fs/Containers.antt =====
-- internal/fs/container_list.go: the names under which containers are shown, and the way back. The
-- ids are in their encoded form. `trim_space` is `strings.TrimSpace`, the sorts are those of
-- `sort.Slice`, and `equal_fold` is `strings.EqualFold`.
pub mod Unique
pub mod Resolve
pub mod Checks
use neofs_mount.Prelude.{
  ℕ, Text, codes, Bool, true, false, ◌&&◌, ◌||◌, Option, none, some, List, [], ◌∷◌, map, is_empty,
  text_eq, ltb, ◌==◌, if◌then◌else◌, Map, lookup, insert,
}
use neofs_mount.Prelude.Counts.{count}
use neofs_mount.Neofs.Listing.{slash}
use neofs_mount.Fs.Directory.{is_dots}

-- `named`
pub record Named : Type 0 where
  pub id : Text
  pub name : Text

-- `strings.Trim(s, "/")`
unfoldable pub drop_slashes : Text → Text
drop_slashes [] = []
drop_slashes (c ∷ s) = let rest = drop_slashes s in if c == slash then rest else c ∷ s

unfoldable pub drop_last_slashes : Text → Text
drop_last_slashes [] = []
drop_last_slashes (c ∷ s) =
    let rest = drop_last_slashes s in if c == slash && is_empty rest then [] else c ∷ rest

-- `strings.ReplaceAll(s, c, "")` and `strings.ReplaceAll(s, c, "_")` for a byte.
unfoldable pub remove_byte : ℕ → Text → Text
remove_byte b [] = []
remove_byte b (c ∷ s) = let rest = remove_byte b s in if c == b then rest else c ∷ rest

unfoldable pub replace_byte : ℕ → ℕ → Text → Text
replace_byte b by [] = []
replace_byte b by (c ∷ s) = (if c == b then by else c) ∷ replace_byte b by s

unfoldable pub replace_each : List ℕ → Text → Text
unfolding replace_byte
replace_each [] s = s
replace_each (b ∷ bytes) s = replace_each bytes (replace_byte b b'_' s)

abbrev pub reserved : List ℕ
reserved = codes "\\/:*?\"<>|"

abbrev pub unless_dots : Text → Text
unless_dots s = if is_empty s || is_dots s then [] else s

-- `SanitizeContainerDirName`
unfoldable pub sanitize_container_dir_name : (Text → Text) → Text → Text
unfolding drop_slashes drop_last_slashes remove_byte replace_each
sanitize_container_dir_name trim_space s =
    unless_dots
      (replace_each reserved (remove_byte 0 (drop_last_slashes (drop_slashes (trim_space s)))))

abbrev pub or_id : Text → Text → Text
or_id id name = if is_empty name then id else name

abbrev pub known_name : (Text → Text) → Text → Option Text → Text
known_name trim_space id none = id
known_name trim_space id (some name) = or_id id (sanitize_container_dir_name trim_space name)

-- The name of one container; `get` is the name that `ContainerGet` answers, if it has no error.
unfoldable pub ui_name : (Text → Text) → (Text → Option Text) → Text → Text
unfolding sanitize_container_dir_name
ui_name trim_space get id = or_id id (known_name trim_space id (get id))

unfoldable pub contains : Text → List Text → Bool
contains id [] = false
contains id (i ∷ ids) = text_eq i id || contains id ids

-- The first loop, over the containers that are not ignored, with the name that each gets.
unfoldable pub named_list : (Text → Text) → List Text → List Text → List Named
unfolding contains
named_list name_of ignore [] = []
named_list name_of ignore (id ∷ ids) =
    let rest = named_list name_of ignore ids in
    if contains id ignore then rest else record { id = id; name = name_of id } ∷ rest

abbrev pub name_is : Text → Named → Bool
name_is name it = text_eq it.name name

-- The loop that falls back to the id, against the counts in the whole list.
unfoldable pub rename : List Named → Named → Named
rename whole it = if ltb 1 (count (name_is it.name) whole) then record it { name = it.id } else it

unfoldable pub unique_names : List Named → List Named
unfolding rename
unique_names l = map (rename l) l

unfoldable pub alias_of : List Named → Map Text → Map Text
alias_of [] m = m
alias_of (it ∷ l) m = alias_of l (insert it.name it.id m)

-- What `ListContainers` answers.
pub data Listed : Type 0 where
  containers : List Text → Listed
  failed : ℕ → Listed

pub data UiList : Type 0 where
  listed : List Named → Map Text → UiList
  not_listed : ℕ → UiList

abbrev pub shown : List Named → UiList
shown l = listed l (alias_of l [])

-- `ListContainersForUI`
module _ (trim_space : Text → Text) (sort_ids : List Text → List Text)
    (sort_names : List Named → List Named) (get : Text → Option Text) (ignore : List Text) where
  unfoldable pub list_containers_for_ui : Listed → UiList
  unfolding named_list unique_names alias_of ui_name
  list_containers_for_ui (failed e) = not_listed e
  list_containers_for_ui (containers ids) =
      shown (sort_names (unique_names (named_list (ui_name trim_space get) ignore (sort_ids ids))))

-- The last loop of `ResolveContainerSegment`, in the order in which the map is walked.
unfoldable pub find_folded : (Text → Text → Bool) → Text → Map Text → Option Text
find_folded equal_fold seg [] = none
find_folded equal_fold seg ((k, v) ∷ m) =
    if equal_fold k seg then some v else find_folded equal_fold seg m

abbrev pub found_or_folded : (Text → Text → Bool) → Text → Map Text → Option Text → Option Text
found_or_folded equal_fold seg m (some id) = some id
found_or_folded equal_fold seg m none = find_folded equal_fold seg m

abbrev pub by_name : (Text → Text → Bool) → Text → Option (Map Text) → Option Text
by_name equal_fold seg none = none
by_name equal_fold seg (some m) = found_or_folded equal_fold seg m (lookup seg m)

-- `ResolveContainerSegment`; `is_id` tells what `DecodeString` accepts.
unfoldable pub resolve_container_segment :
    (Text → Bool) → (Text → Text → Bool) → Text → Option (Map Text) → Option Text
unfolding find_folded
resolve_container_segment is_id equal_fold seg names =
    if is_id seg then some seg else by_name equal_fold seg names
