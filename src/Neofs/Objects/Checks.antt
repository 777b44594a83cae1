-- ===== src/Neofs/Objects/Checks.antt =====
-- A header of an object that was put.
use neofs_mount.Prelude.{◌≡◌, codes, []}
use neofs_mount.Neofs.Listing.{trim_slash}
use neofs_mount.Neofs.Objects.{put_attributes, base_name, search_entry_from_head}
use neofs_mount.Neofs.Objects.Written.{search_entry_from_head-put}

search_entry_from_head-put_example :
    search_entry_from_head
      (codes "1")
      5
      (put_attributes (codes "/docs/a.txt") (codes "text/plain") [])
    ≡ record {
      object_id = codes "1";
      file_path = codes "/docs/a.txt";
      file_name = codes "a.txt";
      name = [];
      key = [];
      size = 5;
    }
unfolding trim_slash base_name
search_entry_from_head-put_example =
    search_entry_from_head-put (codes "/docs/a.txt") (codes "text/plain") [] (codes "1") 5
