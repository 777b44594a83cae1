-- ===== src/Neofs/Objects.antt =====
-- internal/neofs/client.go: the attributes that `ObjectPutContentType` gives an object, and what
-- `searchEntryFromHead` reads of a header. The attributes' keys are those of the NeoFS SDK. Of the
-- header's attributes the time is left out, as in `SearchEntry`.
pub mod Written
mod Checks
use neofs_mount.Prelude.{
  ℕ, Text, codes, Bool, true, false, ◌&&◌, List, [], ◌∷◌, ◌++◌, text_eq, is_empty, ◌==◌,
  if◌then◌else◌,
}
use neofs_mount.Neofs.Listing.{SearchEntry, slash, trim_slash}

pub record Attribute : Type 0 where
  pub key : Text
  pub value : Text

abbrev pub file_path_key : Text
file_path_key = codes "FilePath"

abbrev pub file_name_key : Text
file_name_key = codes "FileName"

abbrev pub name_key : Text
name_key = codes "Name"

abbrev pub key_key : Text
key_key = codes "Key"

abbrev pub content_type_key : Text
content_type_key = codes "Content-Type"

-- `strings.TrimSuffix(p, "/")`
unfoldable pub trim_suffix_slash : Text → Text
trim_suffix_slash [] = []
trim_suffix_slash (c ∷ s) =
    let rest = trim_suffix_slash s in if c == slash && is_empty s then [] else c ∷ rest

-- What follows the last slash; all of it, if there is none.
unfoldable pub after_slash : Text → Text → Text
after_slash seen [] = seen
after_slash seen (c ∷ s) = if c == slash then after_slash s s else after_slash seen s

-- `baseName`
unfoldable pub base_name : Text → Text
unfolding trim_suffix_slash after_slash
base_name p = let s = trim_suffix_slash p in after_slash s s

abbrev pub with_name : Text → List Attribute → List Attribute
with_name base attrs =
    if is_empty base then attrs else attrs ++ record { key = file_name_key; value = base } ∷ []

abbrev pub with_type : Text → Text → List Attribute → List Attribute
with_type user over attrs =
    if is_empty over
    then (if is_empty user
        then attrs
        else attrs ++ record { key = content_type_key; value = user } ∷ [])
    else attrs ++ record { key = content_type_key; value = over } ∷ []

-- The attributes of `ObjectPutContentType`.
unfoldable pub put_attributes : Text → Text → Text → List Attribute
unfolding trim_slash base_name
put_attributes rel_path user over =
    let rel = trim_slash rel_path in
    with_type user over
      (with_name (base_name rel) (record { key = file_path_key; value = slash ∷ rel } ∷ []))

-- The `switch` of `searchEntryFromHead`.
unfoldable pub read_attribute : Attribute → SearchEntry → SearchEntry
read_attribute a e =
    if text_eq a.key file_path_key
    then record e { file_path = a.value }
    else if text_eq a.key file_name_key
    then record e { file_name = a.value }
    else if text_eq a.key name_key
    then record e { name = a.value }
    else if text_eq a.key key_key
    then record e { key = a.value }
    else e

unfoldable pub read_attributes : List Attribute → SearchEntry → SearchEntry
unfolding read_attribute
read_attributes [] e = e
read_attributes (a ∷ attrs) e = read_attributes attrs (read_attribute a e)

-- `searchEntryFromHead` of a header with a size and attributes.
unfoldable pub search_entry_from_head : Text → ℕ → List Attribute → SearchEntry
unfolding read_attributes
search_entry_from_head id size attrs =
    read_attributes attrs
      (record { object_id = id; file_path = []; file_name = []; name = []; key = []; size = size })
