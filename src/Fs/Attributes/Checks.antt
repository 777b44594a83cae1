-- ===== src/Fs/Attributes/Checks.antt =====
-- An object with two attributes of one key, read after a failure of the network.
use neofs_mount.Prelude.{
  ◌≡◌, refl, ◌⊎◌, codes, none, some, List, [], ◌∷◌, ◌++◌, lookup, insert, delete, text_eq, strip,
}
use neofs_mount.Fs.Retry.{Errno, eio}
use neofs_mount.Neofs.Objects.{Attribute}
use neofs_mount.Fs.Attributes.{
  FileNode, xattr_prefix, value_or, no_xattr, other, header, get_xattr, list_xattr, get_attrs,
  after_head, collect_attrs, read_xattr, listed_xattrs, xattr_names, fill,
}
use neofs_mount.Fs.Attributes.Read.{Call, answered, after_calls, last_value, get_xattr-last_value}

abbrev attrs : List Attribute
attrs =
    record { key = codes "A"; value = codes "1" }
    ∷ record { key = codes "B"; value = codes "22" }
    ∷ record { key = codes "A"; value = codes "333" }
    ∷ []

abbrev fresh_node : FileNode
fresh_node = record {
  obj = codes "o";
  attrs = none;
  attr_fetched = none;
  attr_err = none;
  attr_ttl = 0;
}

abbrev failing : Call
failing = record { now = 1; later = 2; failure = some eio }

abbrev late : Call
late = record { now = 900000000000; later = 900000000001; failure = none }

get_xattr-last_value_example :
    let out =
      get_xattr late.now late.later
        (answered attrs late.failure)
        (xattr_prefix ++ codes "A")
        8
        (after_calls attrs (failing ∷ []) fresh_node) in
    (out.1 ≡ value_or 8 (last_value (codes "A") attrs))
    ⊎ ((e : Errno) × (out.1 ≡ no_xattr (other e)))
get_xattr-last_value_example =
    get_xattr-last_value attrs (failing ∷ []) late (codes "A") 8 fresh_node refl refl refl

-- A late read gets the last value.
last_wins :
    (get_xattr late.now late.later (header attrs) (codes "user.neofs.A") 8 fresh_node).1
    ≡ fill 8 (codes "333")
unfolding get_xattr get_attrs after_head collect_attrs read_xattr lookup insert delete text_eq strip
last_wins = refl

names_listed :
    (list_xattr late.now late.later
      (header (record { key = codes "A"; value = codes "1" } ∷ []))
      0
      fresh_node).1.size
    ≡ 13
unfolding list_xattr get_attrs after_head collect_attrs listed_xattrs xattr_names lookup insert
    delete text_eq
names_listed = refl
