-- ===== src/Fs/Changes/Checks.antt =====
-- A rename in a container of three objects, over an object that stands at the destination.
use neofs_mount.Prelude.{
  ◌≡◌, refl, ap, false, true, Text, Option, none, some, List, [], ◌∷◌, ◌++◌, codes, text_eq,
  text_eq_refl, text_eq_iff, length, length-append, arith, if◌then◌else◌, ◌≤◌,
}
use neofs_mount.Neofs.Listing.{SearchEntry, trim_slash}
use neofs_mount.Neofs.Objects.Written.{put_entry}
use neofs_mount.Fs.Directory.{Scan, listed, join_rel, contains_slash}
use neofs_mount.Fs.Removal.{exact_ids}
use neofs_mount.Fs.Removal.Checks.{entry}
use neofs_mount.Fs.Removal.Exact.{Works, member, without}
use neofs_mount.Fs.Changes.{Writer, got, stored_as, not_stored, remote, directory, rename}
use neofs_mount.Fs.Changes.Lost.{rename-refused}
use neofs_mount.Fs.Changes.Stored.{ids_of, Serves, Puts}
use neofs_mount.Fs.Changes.Renamed.{Renamed, rename-Renamed}

-- A client with a cache for its scans: what is stored, the listing that is kept, if any, and the
-- payloads.
pub record Store : Type 0 where
  pub entries : List SearchEntry
  pub kept : Option (List SearchEntry)
  pub payload : Text → Text

-- An id longer than all that are stored.
unfoldable pub fresh_tail : List SearchEntry → Text
fresh_tail [] = []
fresh_tail (e ∷ l) = e.object_id ++ fresh_tail l

abbrev pub fresh_id : List SearchEntry → Text
fresh_id l = 49 ∷ fresh_tail l

member-fresh_tail :
    (x : Text) (l : List SearchEntry)
    → member x (ids_of l) ≡ true
    → length x ≤ length (fresh_tail l)
unfolding member ids_of fresh_tail
member-fresh_tail x [] h = absurd (ground arith)
member-fresh_tail x (e ∷ l) h = ground (
  arith,
  h,
  text_eq_iff e.object_id x,
  length-append e.object_id (fresh_tail l),
  member-fresh_tail x l,
)

fresh_id-fresh : (l : List SearchEntry) → member (fresh_id l) (ids_of l) ≡ false
fresh_id-fresh l = ground (arith, member-fresh_tail (fresh_id l) l)

abbrev pub scan_from : Store → Option (List SearchEntry) → Store × Scan
scan_from s (some l) = (s, listed l)
scan_from s none = (record s { kept = some s.entries }, listed s.entries)

abbrev pub store : Writer Store
store = record {
  client = record {
    scan = λ s. scan_from s s.kept;
    delete = λ id s. (record s { entries = without (id ∷ []) s.entries }, none);
    invalidate_container = λ s. s;
    invalidate_container_scan = λ s. record s { kept = none };
  };
  get = λ id s. (s, got (s.payload id));
  put = λ rel buf type s. (
    record {
      entries = put_entry rel (fresh_id s.entries) (length buf) ∷ s.entries;
      kept = s.kept;
      payload = λ id. if text_eq id (fresh_id s.entries) then buf else s.payload id;
    },
    stored_as (fresh_id s.entries),
  );
}

scan_from-keeps :
    (s : Store) (kept : Option (List SearchEntry))
    → ((scan_from s kept).0.entries ≡ s.entries) × ((scan_from s kept).0.payload ≡ s.payload)
scan_from-keeps s none = (refl, refl)
scan_from-keeps s (some l) = (refl, refl)

store-Works : Works store.client (λ s. s.entries)
store-Works = record {
  keeps = λ s. (scan_from-keeps s s.kept).0;
  deletes = λ id s. refl;
  takes = λ id s. refl;
  forgets = λ s. refl;
  forgets_scan = λ s. refl;
}

pub store-Serves : Serves store (λ s. s.entries) (λ s. s.payload)
store-Serves = record {
  works = store-Works;
  gets = λ id s h. refl;
  scan_keeps = λ s id. ap (λ payload. payload id) (scan_from-keeps s s.kept).1;
  delete_keeps = λ j id s h. refl;
  forget_keeps = λ s id. refl;
  forget_scan_keeps = λ s id. refl;
}

text_eq-apart : (a b : Text) → text_eq a b ≡ false → text_eq b a ≡ false
text_eq-apart a b h = ground (arith, h, text_eq_iff a b, text_eq_iff b a)

pub store-Puts :
    (rel buf type : Text) (s : Store) → Puts store (λ s. s.entries) (λ s. s.payload) rel buf type s
store-Puts rel buf type s = record {
  id = fresh_id s.entries;
  answer = refl;
  fresh = fresh_id-fresh s.entries;
  added = refl;
  holds = rw (text_eq_refl (fresh_id s.entries)) refl;
  keeps = λ j apart. rw (text_eq-apart (fresh_id s.entries) j apart) refl;
}

abbrev pub three : Store
three = record {
  entries =
      entry (codes "1") (codes "/docs/a") []
      ∷ entry (codes "2") (codes "docs/b") []
      ∷ entry (codes "3") [] (codes "docs/c")
      ∷ [];
  kept = none;
  payload = λ id. if text_eq id (codes "1") then codes "first" else codes "other";
}

rename-Renamed_example :
    Renamed
      (λ s. s.entries)
      (λ s. s.payload)
      (codes "1")
      (trim_slash (join_rel (codes "docs") (codes "a")))
      (join_rel (codes "docs") (codes "b"))
      three
      (rename store false 0
        (codes "c")
        (codes "docs")
        (codes "a")
        (directory (codes "c") (codes "docs"))
        (codes "b")
        three)
unfolding exact_ids trim_slash join_rel text_eq contains_slash member
rename-Renamed_example =
    rename-Renamed store (λ s. s.entries) (λ s. s.payload) (codes "c") (codes "docs") (codes "a")
      (codes "docs") (codes "b") (codes "1") three store-Serves store-Puts refl refl refl refl refl
      refl refl

-- The same client, which can store nothing more.
abbrev pub full : Writer Store
full = record store { put = λ rel buf type s. (s, not_stored 7) }

full-Serves : Serves full (λ s. s.entries) (λ s. s.payload)
full-Serves = record {
  works = store-Works;
  gets = λ id s h. refl;
  scan_keeps = λ s id. ap (λ payload. payload id) (scan_from-keeps s s.kept).1;
  delete_keeps = λ j id s h. refl;
  forget_keeps = λ s id. refl;
  forget_scan_keeps = λ s id. refl;
}

rename-refused_example :
    let out =
      rename full false 0
        (codes "c")
        (codes "docs")
        (codes "a")
        (directory (codes "c") (codes "docs"))
        (codes "b")
        three in
    (out.1 ≡ remote 7)
    × (out.0.entries
        ≡ without
            (exact_ids (trim_slash (join_rel (codes "docs") (codes "b"))) three.entries)
            three.entries)
unfolding exact_ids trim_slash join_rel text_eq contains_slash member
rename-refused_example =
    rename-refused full (λ s. s.entries) (λ s. s.payload) (codes "c") (codes "docs") (codes "a")
      (codes "docs") (codes "b") (codes "1") 7 three full-Serves (λ rel buf type s. (refl, refl))
      refl refl refl refl refl
