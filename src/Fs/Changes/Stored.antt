-- ===== src/Fs/Changes/Stored.antt =====
-- A client whose calls work, as the changes see it.
use neofs_mount.Prelude.{
  ℕ, ◌≡◌, refl, ap, sym, ◌∙◌, Text, true, false, ◌||◌, List, [], ◌∷◌, text_eq, if◌then◌else◌,
  length, arith,
}
use neofs_mount.Neofs.Listing.{SearchEntry, trim_slash}
use neofs_mount.Neofs.Objects.Written.{put_entry}
use neofs_mount.Fs.Directory.{listed}
use neofs_mount.Fs.Removal.{objects, exact_ids, find_objects_by_exact_path}
use neofs_mount.Fs.Removal.Exact.{Works, member, without, without-nil, without-without}
use neofs_mount.Fs.Changes.{Writer, got, stored_as, delete_all, overwrite}

unfoldable pub ids_of : List SearchEntry → List Text
ids_of [] = []
ids_of (e ∷ l) = e.object_id ∷ ids_of l

-- A client that works also for reads of what is stored: a read changes nothing and brings the
-- payload, and no call changes the payload of another object.
pub record Serves {W : Type 0} (neo : Writer W) (stored : W → List SearchEntry)
    (payload : W → Text → Text) : Type 0 where
  pub works : Works neo.client stored
  pub gets :
      (id : Text) (w : W)
      → member id (ids_of (stored w)) ≡ true
      → neo.get id w ≡ (w, got (payload w id))
  pub scan_keeps : (w : W) (id : Text) → payload (neo.client.scan w).0 id ≡ payload w id
  pub delete_keeps :
      (j id : Text) (w : W)
      → text_eq j id ≡ false
      → payload (neo.client.delete j w).0 id ≡ payload w id
  pub forget_keeps :
      (w : W) (id : Text) → payload (neo.client.invalidate_container w) id ≡ payload w id
  pub forget_scan_keeps :
      (w : W) (id : Text) → payload (neo.client.invalidate_container_scan w) id ≡ payload w id

-- What a put that works comes to: an object with a new id, the path and the payload, and no change of
-- another payload.
pub record Puts {W : Type 0} (neo : Writer W) (stored : W → List SearchEntry)
    (payload : W → Text → Text) (rel buf type : Text) (w : W) : Type 0 where
  pub id : Text
  pub answer : (neo.put rel buf type w).1 ≡ stored_as id
  pub fresh : member id (ids_of (stored w)) ≡ false
  pub added : stored (neo.put rel buf type w).0 ≡ put_entry rel id (length buf) ∷ stored w
  pub holds : payload (neo.put rel buf type w).0 id ≡ buf
  pub keeps : (j : Text) → text_eq id j ≡ false → payload (neo.put rel buf type w).0 j ≡ payload w j

-- What is found at a path is stored.
pub exact_ids-member :
    (rel id : Text) (l : List SearchEntry)
    → member id (exact_ids rel l) ≡ true
    → member id (ids_of l) ≡ true
unfolding exact_ids ids_of member
exact_ids-member rel id [] h = h
exact_ids-member rel id (e ∷ l) h = ground (arith, h, exact_ids-member rel id l)

-- A put object stands at its own path only.
pub exact_ids-put_entry :
    (rel path id : Text) (size : ℕ) (l : List SearchEntry)
    → exact_ids path (put_entry rel id size ∷ l) ≡ (
        if text_eq (trim_slash rel) path || text_eq [] path
        then id ∷ exact_ids path l
        else exact_ids path l)
unfolding exact_ids trim_slash
exact_ids-put_entry rel path id size l = ground arith

module _ {W : Type 0} (neo : Writer W) (stored : W → List SearchEntry)
    (works : Works neo.client stored) where
  pub delete_all-without :
      (ids : List Text) (w : W) → stored (delete_all neo ids w) ≡ without ids (stored w)
  unfolding delete_all
  delete_all-without [] w = sym (without-nil (stored w))
  delete_all-without (id ∷ ids) w =
      delete_all-without ids (neo.client.delete id w).0
      ∙ ap (without ids) (works.takes id w)
      ∙ without-without id ids (stored w)

  pub find-objects :
      (rel : Text) (w : W)
      → (neo.client.scan w).1 ≡ listed (stored w)
      → find_objects_by_exact_path neo.client rel w
        ≡ ((neo.client.scan w).0, objects (exact_ids (trim_slash rel) (stored w)))
  unfolding find_objects_by_exact_path
  find-objects rel w scans = ground (arith, scans)

  -- The overwriting takes what is at the destination, when its scan is up to date.
  pub overwrite-without :
      (rel : Text) (w : W)
      → (neo.client.scan w).1 ≡ listed (stored w)
      → stored (overwrite neo (find_objects_by_exact_path neo.client rel w))
        ≡ without (exact_ids (trim_slash rel) (stored w)) (stored w)
  unfolding overwrite
  overwrite-without rel w scans =
      let ids = exact_ids (trim_slash rel) (stored w) in
      rw (find-objects rel w scans)
        (delete_all-without ids (neo.client.scan w).0 ∙ ap (without ids) (works.keeps w))

module _ {W : Type 0} {neo : Writer W} {stored : W → List SearchEntry} {payload : W → Text → Text}
    (serves : Serves neo stored payload) where
  pub delete_all-payload :
      (ids : List Text) (w : W) (id : Text)
      → member id ids ≡ false
      → payload (delete_all neo ids w) id ≡ payload w id
  unfolding delete_all member
  delete_all-payload [] w id h = refl
  delete_all-payload (j ∷ ids) w id h =
      delete_all-payload ids (neo.client.delete j w).0 id (ground arith)
      ∙ serves.delete_keeps j id w (ground arith)

  pub overwrite-payload :
      (rel : Text) (w : W) (id : Text)
      → (neo.client.scan w).1 ≡ listed (stored w)
      → member id (exact_ids (trim_slash rel) (stored w)) ≡ false
      → payload (overwrite neo (find_objects_by_exact_path neo.client rel w)) id ≡ payload w id
  unfolding overwrite
  overwrite-payload rel w id scans h = rw (find-objects neo stored serves.works rel w scans) (
      delete_all-payload (exact_ids (trim_slash rel) (stored w)) (neo.client.scan w).0 id h
      ∙ serves.scan_keeps w id)
