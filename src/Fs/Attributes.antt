-- ===== src/Fs/Attributes.antt =====
-- internal/fs/tree.go: the extended attributes of a `fileNode`, which are those of its object, and
-- their cache. The map is walked in the order of its list; an error is its `errno`. The mutex makes
-- each stretch a step; one caller is modelled, and `head` is what `ObjectHead` answers if it is asked.
pub mod Read
mod Checks
use neofs_mount.Prelude.{
  ℕ, ◌-◌, ◌%◌, ◌^◌, Text, codes, Bool, true, false, ◌&&◌, Option, none, some, List, [], ◌∷◌, ◌++◌,
  is_empty, strip, length, ltb, ◌==◌, if◌then◌else◌, Map, lookup, insert,
}
use neofs_mount.Fs.Retry.{Errno, ok, enoent, eacces, eio}
use neofs_mount.Neofs.Objects.{Attribute}

-- The fields of a `fileNode` that keep attributes; its object is the zero id, the empty text, or not.
pub record FileNode : Type 0 where
  pub obj : Text
  pub attrs : Option (Map Text)
  pub attr_fetched : Option ℕ
  pub attr_err : Option Errno
  pub attr_ttl : ℕ

pub data Head : Type 0 where
  header : List Attribute → Head
  head_error : Errno → Head

pub data Attrs : Type 0 where
  attributes : Map Text → Attrs
  attrs_error : Errno → Attrs

-- 5 minutes
abbrev pub default_attr_ttl : ℕ
default_attr_ttl = 300000000000

abbrev pub is_recent : ℕ → ℕ → Option ℕ → Bool
is_recent now ttl none = false
is_recent now ttl (some fetched) = ltb (now - fetched) ttl

-- The map of a header's attributes, without those that have no key.
unfoldable pub collect_attrs : List Attribute → Map Text → Map Text
collect_attrs [] m = m
collect_attrs (a ∷ attrs) m =
    collect_attrs attrs (if is_empty a.key then m else insert a.key a.value m)

unfoldable pub after_head : ℕ → FileNode → Head → FileNode × Attrs
unfolding collect_attrs
after_head later n (head_error e) =
    (record n { attr_fetched = some later; attr_err = some e }, attrs_error e)
after_head later n (header attrs) =
    let m = collect_attrs attrs [] in
    (record n { attr_fetched = some later; attr_err = none; attrs = some m }, attributes m)

abbrev pub kept_or : Option Errno → Map Text → Attrs
kept_or none m = attributes m
kept_or (some e) m = attrs_error e

-- What is kept and recent, if anything.
abbrev pub served_attrs : Bool → Option (Map Text) → Option Errno → Option Attrs
served_attrs false attrs err = none
served_attrs true (some m) err = some (kept_or err m)
served_attrs true none (some e) = some (attrs_error e)
served_attrs true none none = none

abbrev pub or_head : ℕ → Head → FileNode → Option Attrs → FileNode × Attrs
or_head later head n (some a) = (n, a)
or_head later head n none = after_head later n head

-- `getAttrs`, asked at the time `now`, with the header read by the time `later`.
unfoldable pub get_attrs : ℕ → ℕ → Head → FileNode → FileNode × Attrs
unfolding after_head
get_attrs now later head n =
    let ttl = if n.attr_ttl == 0 then default_attr_ttl else n.attr_ttl in
    or_head later head n (served_attrs (is_recent now ttl n.attr_fetched) n.attrs n.attr_err)

pub data XattrErrno : Type 0 where
  fine : XattrErrno
  enodata : XattrErrno
  erange : XattrErrno
  other : Errno → XattrErrno

-- The answer of a call: a size, what is copied to the buffer, and the error.
pub record Xattr : Type 0 where
  pub size : ℕ
  pub copy : Text
  pub error : XattrErrno

-- Bytes for a buffer of some length; a size is a 32-bit number.
abbrev pub fill : ℕ → Text → Xattr
fill dest b =
    let size = length b % 2 ^ 32 in
    if dest == 0
    then record { size = size; copy = []; error = fine }
    else if ltb dest (length b)
    then record { size = size; copy = []; error = erange }
    else record { size = size; copy = b; error = fine }

abbrev pub no_xattr : XattrErrno → Xattr
no_xattr e = record { size = 0; copy = []; error = e }

abbrev pub xattr_prefix : Text
xattr_prefix = codes "user.neofs."

unfoldable pub xattr_names : Map Text → Text
xattr_names [] = []
xattr_names ((k, v) ∷ m) =
    let rest = xattr_names m in if is_empty k then rest else (xattr_prefix ++ k) ++ 0 ∷ rest

unfoldable pub listed_xattrs : ℕ → FileNode × Attrs → FileNode × Xattr
unfolding xattr_names
listed_xattrs dest (n, attrs_error e) = (n, no_xattr (other e))
listed_xattrs dest (n, attributes m) = (n, fill dest (xattr_names m))

-- `Listxattr`
unfoldable pub list_xattr : ℕ → ℕ → Head → ℕ → FileNode → FileNode × Xattr
unfolding get_attrs listed_xattrs
list_xattr now later head dest n =
    if is_empty n.obj
    then (n, no_xattr (other enoent))
    else listed_xattrs dest (get_attrs now later head n)

abbrev pub value_or : ℕ → Option Text → Xattr
value_or dest none = no_xattr enodata
value_or dest (some v) = fill dest v

unfoldable pub read_xattr : Text → ℕ → FileNode × Attrs → FileNode × Xattr
read_xattr key dest (n, attrs_error e) = (n, no_xattr (other e))
read_xattr key dest (n, attributes m) = (n, value_or dest (lookup key m))

abbrev pub get_key : ℕ → ℕ → Head → ℕ → FileNode → Option Text → FileNode × Xattr
get_key now later head dest n none = (n, no_xattr enodata)
get_key now later head dest n (some key) =
    if is_empty n.obj
    then (n, no_xattr (other enoent))
    else if is_empty key
    then (n, no_xattr enodata)
    else read_xattr key dest (get_attrs now later head n)

-- `Getxattr`
unfoldable pub get_xattr : ℕ → ℕ → Head → Text → ℕ → FileNode → FileNode × Xattr
unfolding get_attrs read_xattr
get_xattr now later head attr dest n = get_key now later head dest n (strip xattr_prefix attr)
