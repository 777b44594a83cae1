-- ===== src/Neofs/Listing.antt =====
-- internal/neofs/client.go: `SearchEntry`, its path, and the trie that answers listings. An entry's
-- `Time` and `Attrs` play no part in a listing and are left out.
pub mod Views
pub mod Rows
mod Checks
use neofs_mount.Prelude.{
  ℕ, zero, suc, Text, codes, Bool, true, false, not, ◌&&◌, Option, none, some, List, [], ◌∷◌, ◌++◌,
  text_eq, is_empty, ◌==◌, if◌then◌else◌,
}

pub record SearchEntry : Type 0 where
  pub object_id : Text
  pub file_path : Text
  pub file_name : Text
  pub name : Text
  pub key : Text
  pub size : ℕ

pub record DirEntry : Type 0 where
  pub name : Text
  pub object_id : Text
  pub size : ℕ
  pub is_directory : Bool

abbrev pub slash : ℕ
slash = b'/'

-- `strings.TrimPrefix(s, "/")`
unfoldable pub trim_slash : Text → Text
trim_slash [] = []
trim_slash (c ∷ s) = if c == slash then s else c ∷ s

abbrev or_text : Text → Text → Text
or_text s t = if is_empty s then t else s

unfoldable pub entry_path_key : SearchEntry → Text
unfolding trim_slash
entry_path_key e = trim_slash (or_text (or_text (or_text e.file_path e.key) e.name) e.file_name)

-- `strings.Split(s, "/")`; the text before the first slash, and the pieces after it.
unfoldable pub split_slash : Text → Text × List Text
split_slash [] = ([], [])
split_slash (c ∷ s) =
    let (piece, more) = split_slash s in
    if c == slash then ([], piece ∷ more) else (c ∷ piece, more)

unfoldable pub non_empty : List Text → List Text
non_empty [] = []
non_empty (s ∷ l) = if is_empty s then non_empty l else s ∷ non_empty l

unfoldable pub segments : Text → List Text
unfolding split_slash non_empty
segments s = let (piece, more) = split_slash s in non_empty (piece ∷ more)

-- `listingTrieNode`: the map of the children and their order of insertion are one list.
mutual
  pub data Node : Type 0 where
    node : Children → Option SearchEntry → Node

  pub data Children : Type 0 where
    nil : Children
    child : Text → Node → Children → Children

abbrev pub blank : Node
blank = node nil none

-- `cur.children[s]`, made and put at the end of the order if it is not there, then changed by `f`.
unfoldable pub update : Text → (Node → Node) → Children → Children
update s f nil = child s (f blank) nil
update s f (child t n ch) = if text_eq t s then child t (f n) ch else child t n (update s f ch)

unfoldable pub find_child : Text → Children → Option Node
find_child s nil = none
find_child s (child t n ch) = if text_eq t s then some n else find_child s ch

abbrev pub has_children : Children → Bool
has_children nil = false
has_children (child t n ch) = true

abbrev or_file : Option SearchEntry → SearchEntry → Option SearchEntry
or_file none e = some e
or_file (some f) e = some f

-- The end of `insertSegments`: a file only where nothing lives beneath.
unfoldable pub park : SearchEntry → Node → Node
park e (node ch f) = node ch (if has_children ch then f else or_file f e)

-- `cur.file = nil` where the path goes on.
unfoldable pub clear : List Text → Node → Node
clear [] n = n
clear (s ∷ segs) (node ch f) = node ch none

-- `insertSegments` from a node on.
unfoldable pub insert_segments : List Text → SearchEntry → Node → Node
insert_segments [] e n = park e n
insert_segments (s ∷ segs) e (node ch f) =
    node (update s (λ n. insert_segments segs e (clear segs n)) ch) f

unfoldable pub insert_non_empty : List Text → SearchEntry → Node → Node
insert_non_empty [] e root = root
insert_non_empty (s ∷ segs) e root = insert_segments (s ∷ segs) e root

-- One round of `buildListingTrie`.
unfoldable pub insert_entry : SearchEntry → Node → Node
insert_entry e root = insert_non_empty (segments (entry_path_key e)) e root

unfoldable pub build_from : List SearchEntry → Node → Node
build_from [] root = root
build_from (e ∷ entries) root = build_from entries (insert_entry e root)

unfoldable pub build_listing_trie : List SearchEntry → Node
unfolding build_from
build_listing_trie entries = build_from entries blank

-- The walk down of `listImmediateChildren`.
unfoldable pub descend : List Text → Node → Option Node
descend [] n = some n
descend (s ∷ segs) (node ch f) = elim (find_child s ch) [ none ↦ none | some n ↦ descend segs n ]

unfoldable pub row : Text → Node → Option DirEntry
row name (node ch f) =
    if has_children ch
    then some (record { name = name; object_id = []; size = 0; is_directory = true })
    else elim f [
      | none ↦ none
      | some e ↦
          some
            (record { name = name; object_id = e.object_id; size = e.size; is_directory = false })
    ]

abbrev pub cons_row : Option DirEntry → List DirEntry → List DirEntry
cons_row none rows = rows
cons_row (some r) rows = r ∷ rows

unfoldable pub rows : Children → List DirEntry
unfolding row
rows nil = []
rows (child name n ch) = cons_row (row name n) (rows ch)

unfoldable pub node_rows : Option Node → List DirEntry
node_rows none = []
node_rows (some (node ch f)) = rows ch

-- `listImmediateChildren` of a prefix in NeoFS form (`normalizeNeoFSPrefix` has been applied).
unfoldable pub list_immediate_children : Text → Node → List DirEntry
list_immediate_children prefix root = node_rows (descend (segments prefix) root)
