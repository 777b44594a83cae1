-- ===== src/Fs/Removal/Exact.antt =====
-- What an `Unlink` takes, with a client whose deletions work and whose scans may list what was stored
-- some time ago.
use neofs_mount.Prelude.{
  ℕ, ◌≡◌, refl, ap, sym, ◌∙◌, Text, Bool, true, false, ◌||◌, Option, none, some, List, [], ◌∷◌,
  text_eq, text_eq_refl, is_empty, if◌then◌else◌, arith,
}
use neofs_mount.Neofs.Listing.{SearchEntry, trim_slash}
use neofs_mount.Fs.Directory.{listed, join_rel, contains_slash, is_dots}
use neofs_mount.Fs.Removal.{
  Client, Errno, done, exact_ids, find_objects_by_exact_path, delete_each, after_deletes,
  unlink_found, unlink,
}

unfoldable pub member : Text → List Text → Bool
member id [] = false
member id (i ∷ ids) = text_eq i id || member id ids

-- The entries that are left when some ids are gone.
unfoldable pub without : List Text → List SearchEntry → List SearchEntry
without ids [] = []
without ids (e ∷ entries) =
    let rest = without ids entries in if member e.object_id ids then rest else e ∷ rest

unfoldable pub drop_members : List Text → List Text → List Text
drop_members ids [] = []
drop_members ids (i ∷ l) = let rest = drop_members ids l in if member i ids then rest else i ∷ rest

-- A client whose deletions work: a delete takes the object if it is there and has no error, and neither
-- a scan nor an invalidation takes anything. What a scan lists is left open, since it may come from a cache.
pub record Works {W : Type 0} (neo : Client W) (stored : W → List SearchEntry) : Type 0 where
  pub keeps : (w : W) → stored (neo.scan w).0 ≡ stored w
  pub deletes : (id : Text) (w : W) → (neo.delete id w).1 ≡ none
  pub takes : (id : Text) (w : W) → stored (neo.delete id w).0 ≡ without (id ∷ []) (stored w)
  pub forgets : (w : W) → stored (neo.invalidate_container w) ≡ stored w
  pub forgets_scan : (w : W) → stored (neo.invalidate_container_scan w) ≡ stored w

pub without-nil : (l : List SearchEntry) → without [] l ≡ l
unfolding without member
without-nil [] = refl
without-nil (e ∷ l) = ap (◌∷◌ e) (without-nil l)

pub without-without :
    (id : Text) (ids : List Text) (l : List SearchEntry)
    → without ids (without (id ∷ []) l) ≡ without (id ∷ ids) l
unfolding without member
without-without id ids [] = refl
without-without id ids (e ∷ l) = ground (arith, without-without id ids l)

pub exact_ids-without :
    (rel : Text) (ids : List Text) (l : List SearchEntry)
    → exact_ids rel (without ids l) ≡ drop_members ids (exact_ids rel l)
unfolding exact_ids without drop_members
exact_ids-without rel ids [] = refl
exact_ids-without rel ids (e ∷ l) = ground (arith, exact_ids-without rel ids l)

abbrev pub AllMembers : List Text → List Text → Type 0
AllMembers ids [] = Unit
AllMembers ids (i ∷ l) = (member i ids ≡ true) × AllMembers ids l

pub drop_members-nil : (ids l : List Text) → AllMembers ids l → drop_members ids l ≡ []
unfolding drop_members
drop_members-nil ids [] h = refl
drop_members-nil ids (i ∷ l) (p, h) = rw p (drop_members-nil ids l h)

AllMembers-cons : (i : Text) (ids l : List Text) → AllMembers ids l → AllMembers (i ∷ ids) l
unfolding member
AllMembers-cons i ids [] h = tt
AllMembers-cons i ids (j ∷ l) (p, h) = (ground (arith, p), AllMembers-cons i ids l h)

pub AllMembers-self : (l : List Text) → AllMembers l l
unfolding member
AllMembers-self [] = tt
AllMembers-self (i ∷ l) =
    (ground (arith, text_eq_refl i), AllMembers-cons i l l (AllMembers-self l))

delete_next :
    {W : Type 0} (neo : Client W) (id : Text) (ids : List Text) (w : W)
    → (neo.delete id w).1 ≡ none
    → delete_each neo (id ∷ ids) w ≡ delete_each neo ids (neo.delete id w).0
unfolding delete_each
delete_next neo id ids w e = ground arith

after_deletes-done :
    {W : Type 0} (neo : Client W) (out : W × Option ℕ)
    → out.1 ≡ none
    → after_deletes neo out ≡ (neo.invalidate_container_scan (neo.invalidate_container out.0), done)
unfolding after_deletes
after_deletes-done neo (w, none) e = refl
after_deletes-done neo (w, some x) e = absurd (ground arith)

-- What a removal of some ids comes to.
pub record Removed {W : Type 0} (stored : W → List SearchEntry) (ids : List Text) (w : W)
    (out : W × Errno) : Type 0 where
  pub answer : out.1 ≡ done
  pub left : stored out.0 ≡ without ids (stored w)

module _ {W : Type 0} (neo : Client W) (stored : W → List SearchEntry)
    (works : Works neo stored) where
  delete_each-without :
      (ids : List Text) (w : W)
      → ((delete_each neo ids w).1 ≡ none)
        × (stored (delete_each neo ids w).0 ≡ without ids (stored w))
  unfolding delete_each
  delete_each-without [] w = (refl, sym (without-nil (stored w)))
  delete_each-without (id ∷ ids) w =
      let (a, b) = delete_each-without ids (neo.delete id w).0 in
      let step = delete_next neo id ids w (works.deletes id w) in
      (
        ap (λ out. out.1) step ∙ a,
        ap (λ out. stored out.0) step
            ∙ b
            ∙ ap (without ids) (works.takes id w)
            ∙ without-without id ids (stored w),
      )

  deleted-Removed :
      (ids : List Text) (w : W) → Removed stored ids w (after_deletes neo (delete_each neo ids w))
  deleted-Removed ids w =
      let (a, b) = delete_each-without ids w in
      let e = after_deletes-done neo (delete_each neo ids w) a in
      record {
        answer = ap (λ out. out.1) e;
        left =
            ap (λ out. stored out.0) e
            ∙ works.forgets_scan (neo.invalidate_container (delete_each neo ids w).0)
            ∙ works.forgets (delete_each neo ids w).0
            ∙ b;
      }

  unlink_found-some :
      (rel id : Text) (ids : List Text) (l : List SearchEntry) (w : W)
      → (neo.scan w).1 ≡ listed l
      → exact_ids (trim_slash rel) l ≡ id ∷ ids
      → unlink_found neo (find_objects_by_exact_path neo rel w)
        ≡ after_deletes neo (delete_each neo (id ∷ ids) (neo.scan w).0)
  unfolding unlink_found find_objects_by_exact_path
  unlink_found-some rel id ids l w scans e = ground (arith, scans, e)

-- With a client whose deletions work, also of an object that is gone, on a mount that may be written,
-- Unlink of a valid name at which its scan, which may be out of date, lists some object answers no error.
-- It takes exactly the objects that are listed with that path, in `FilePath` or in `Key`, and so those
-- that are left with that path are just those stored with it that the scan did not list there.
pub unlink-Removed :
    {W : Type 0} (neo : Client W) (stored : W → List SearchEntry) (path name id : Text)
    (ids : List Text) (l : List SearchEntry) (w : W)
    → Works neo stored
    → is_empty name || (contains_slash name || is_dots name) ≡ false
    → (neo.scan w).1 ≡ listed l
    → exact_ids (trim_slash (join_rel path name)) l ≡ id ∷ ids
    → let rel = trim_slash (join_rel path name) in
      let out = unlink neo false path name w in
      Removed stored (id ∷ ids) w out
      × (exact_ids rel (stored out.0) ≡ drop_members (id ∷ ids) (exact_ids rel (stored w)))
unfolding unlink
unlink-Removed neo stored path name id ids l w works valid scans e =
    let rel = trim_slash (join_rel path name) in
    let same = unlink_found-some neo stored works (join_rel path name) id ids l w scans e in
    let d = deleted-Removed neo stored works (id ∷ ids) (neo.scan w).0 in
    let left : stored (after_deletes neo (delete_each neo (id ∷ ids) (neo.scan w).0)).0
        ≡ without (id ∷ ids) (stored w) =
      d.left ∙ ap (without (id ∷ ids)) (works.keeps w) in
    rw (unlink, valid, same)
      (
        record { answer = d.answer; left = left },
        ap (exact_ids rel) left ∙ exact_ids-without rel (id ∷ ids) (stored w),
      )
