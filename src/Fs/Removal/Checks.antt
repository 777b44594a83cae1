-- ===== src/Fs/Removal/Checks.antt =====
-- A removal from a container of three objects, of which the scan that is kept lists the first two and
-- one that is gone.
use neofs_mount.Prelude.{◌≡◌, refl, false, Text, none, some, List, [], ◌∷◌, codes, text_eq}
use neofs_mount.Neofs.Listing.{SearchEntry, trim_slash}
use neofs_mount.Fs.Directory.{listed, join_rel, contains_slash}
use neofs_mount.Fs.Removal.{exact_ids, unlink}
use neofs_mount.Neofs.Scan.{Scans, list_begin}
use neofs_mount.Fs.Removal.Cached.{World, scan_from, scan_alone, cached, cached-Works, scan-unlink}
use neofs_mount.Fs.Removal.Exact.{Removed, member, drop_members, unlink-Removed}

abbrev pub entry : Text → Text → Text → SearchEntry
entry id path key = record {
  object_id = id;
  file_path = path;
  file_name = [];
  name = [];
  key = key;
  size = 5;
}

-- A scan that is kept, of a minute ago.
abbrev pub kept_scan : List SearchEntry → Scans
kept_scan l = record {
  cache = some (record { at = 0; entries = l });
  inflight = none;
  errors = λ fl. none;
  next = 1;
}

abbrev old : List SearchEntry
old =
    entry (codes "0") (codes "docs/a") []
    ∷ entry (codes "1") (codes "/docs/a") []
    ∷ entry (codes "2") (codes "docs/b") []
    ∷ []

abbrev world : World
world = record {
  stored =
      entry (codes "1") (codes "/docs/a") []
      ∷ entry (codes "2") (codes "docs/b") []
      ∷ entry (codes "3") [] (codes "docs/a")
      ∷ [];
  scans = kept_scan old;
  now = 60000000000;
}

unlink-Removed_example :
    let rel = trim_slash (join_rel (codes "docs") (codes "a")) in
    let out = unlink cached false (codes "docs") (codes "a") world in
    Removed (λ w. w.stored) (codes "0" ∷ codes "1" ∷ []) world out
    × (exact_ids rel out.0.stored
        ≡ drop_members (codes "0" ∷ codes "1" ∷ []) (exact_ids rel world.stored))
unfolding exact_ids trim_slash join_rel text_eq contains_slash scan_alone scan_from list_begin
unlink-Removed_example =
    unlink-Removed cached (λ w. w.stored) (codes "docs") (codes "a") (codes "0") (codes "1" ∷ [])
      old world cached-Works refl refl refl

-- What is left with the path.
left_ids :
    drop_members
      (codes "0" ∷ codes "1" ∷ [])
      (exact_ids (trim_slash (join_rel (codes "docs") (codes "a"))) world.stored)
    ≡ codes "3" ∷ []
unfolding exact_ids trim_slash join_rel text_eq contains_slash drop_members member
left_ids = refl

scan-unlink_example :
    let out = (unlink cached false (codes "docs") (codes "a") world).0 in
    (scan_alone (record out { now = 60000000001 })).1 ≡ listed out.stored
scan-unlink_example =
    scan-unlink false (codes "docs") (codes "a") world 60000000001 refl
      unlink-Removed_example.0.answer
