-- ===== src/Neofs/Objects/Written.antt =====
-- An object that was put under a path is read back under that path.
use neofs_mount.Prelude.{ℕ, ◌≡◌, refl, ◌∙◌, Text, List, [], ◌∷◌, ◌++◌, text_eq, arith}
use neofs_mount.Neofs.Listing.{SearchEntry, slash, trim_slash}
use neofs_mount.Neofs.Objects.{
  put_attributes, base_name, with_name, with_type, read_attribute, read_attributes, Attribute,
  content_type_key, search_entry_from_head, file_path_key,
}

-- The entry of an object that was put under a path.
abbrev pub put_entry : Text → Text → ℕ → SearchEntry
put_entry rel_path id size = record {
  object_id = id;
  file_path = slash ∷ trim_slash rel_path;
  file_name = base_name (trim_slash rel_path);
  name = [];
  key = [];
  size = size;
}

read_attributes-append :
    (attrs : List Attribute) (a : Attribute) (e : SearchEntry)
    → read_attributes (attrs ++ a ∷ []) e ≡ read_attribute a (read_attributes attrs e)
unfolding read_attributes
read_attributes-append [] a e = refl
read_attributes-append (b ∷ attrs) a e = read_attributes-append attrs a (read_attribute b e)

-- A content type is not read.
read_attributes-with_type :
    (user over : Text) (attrs : List Attribute) (e : SearchEntry)
    → read_attributes (with_type user over attrs) e ≡ read_attributes attrs e
unfolding read_attribute text_eq
read_attributes-with_type [] [] attrs e = refl
read_attributes-with_type (c ∷ user) [] attrs e =
    read_attributes-append attrs (record { key = content_type_key; value = c ∷ user }) e
read_attributes-with_type user (d ∷ over) attrs e =
    read_attributes-append attrs (record { key = content_type_key; value = d ∷ over }) e

read_attributes-with_name :
    (base path : Text) (e : SearchEntry)
    → e.file_name ≡ []
    → read_attributes (with_name base (record { key = file_path_key; value = path } ∷ [])) e
      ≡ record e { file_path = path; file_name = base }
unfolding read_attributes read_attribute text_eq
read_attributes-with_name [] path e h = ground (arith, h)
read_attributes-with_name (c ∷ base) path e h = refl

-- Whatever the content type, a header with the attributes of a put reads as the entry of its path,
-- its last segment, its id and its size.
pub search_entry_from_head-put :
    (rel_path user over id : Text) (size : ℕ)
    → search_entry_from_head id size (put_attributes rel_path user over)
      ≡ put_entry rel_path id size
unfolding search_entry_from_head put_attributes
search_entry_from_head-put rel_path user over id size =
    let rel = trim_slash rel_path in
    let new : SearchEntry = record {
      object_id = id;
      file_path = [];
      file_name = [];
      name = [];
      key = [];
      size = size;
    } in
    read_attributes-with_type user over
      (with_name (base_name rel) (record { key = file_path_key; value = slash ∷ rel } ∷ [])) new
    ∙ read_attributes-with_name (base_name rel) (slash ∷ rel) new refl
