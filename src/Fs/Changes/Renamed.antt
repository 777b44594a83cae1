-- ===== src/Fs/Changes/Renamed.antt =====
-- `Rename` of one object, over what may stand at the destination.
use neofs_mount.Prelude.{
  ℕ, ◌≡◌, refl, ap, ◌∙◌, Text, true, false, ◌||◌, Option, none, some, List, [], ◌∷◌, text_eq,
  text_eq_refl, is_empty, length, arith,
}
use neofs_mount.Neofs.Listing.{SearchEntry, trim_slash}
use neofs_mount.Neofs.Objects.Written.{put_entry}
use neofs_mount.Fs.Directory.{listed, join_rel}
use neofs_mount.Fs.Removal.{objects, exact_ids, find_objects_by_exact_path}
use neofs_mount.Fs.Removal.Exact.{
  member, without, drop_members, exact_ids-without, drop_members-nil, AllMembers-self,
}
use neofs_mount.Fs.Changes.{
  Writer, Errno, done, directory, is_bad_name, overwrite, move, move_each, finish, rename_found,
  rename_to, rename,
}
use neofs_mount.Fs.Changes.Stored.{
  ids_of, Serves, Puts, exact_ids-member, overwrite-without, overwrite-payload, find-objects,
}
use neofs_mount.Fs.Changes.Moved.{move-Moved, move_each-one, left_at_source, left_at_target}

-- What a rename promises: no error, the new object alone at the destination, with a new id and the
-- payload of the old one, nothing at the source, and every other object with its payload as it was.
pub record Renamed {W : Type 0} (stored : W → List SearchEntry) (payload : W → Text → Text)
    (src from dst : Text) (w : W) (out : W × Errno) : Type 0 where
  pub answer : out.1 ≡ done
  pub id : Text
  pub gone : exact_ids from (stored out.0) ≡ []
  pub there : exact_ids (trim_slash dst) (stored out.0) ≡ id ∷ []
  pub content : payload out.0 id ≡ payload w src
  pub others :
      stored out.0
      ≡ put_entry dst id (length (payload w src))
        ∷ without (src ∷ []) (without (exact_ids (trim_slash dst) (stored w)) (stored w))
  pub fresh :
      member id (ids_of (without (exact_ids (trim_slash dst) (stored w)) (stored w))) ≡ false
  pub payloads :
      (j : Text)
      → member j (src ∷ exact_ids (trim_slash dst) (stored w)) ≡ false
      → text_eq id j ≡ false
      → payload out.0 j ≡ payload w j

module _ {W : Type 0} (neo : Writer W) where
  finish-done :
      (out : W × Option ℕ)
      → out.1 ≡ none
      → finish neo out
        ≡ (neo.client.invalidate_container_scan (neo.client.invalidate_container out.0), done)
  unfolding finish
  finish-done (w, none) e = refl
  finish-done (w, some x) e = absurd (ground arith)

  -- A rename that meets no test is the overwriting, the loop and the end.
  pub rename-steps :
      (container path name dst_path new_name src : Text) (w : W) (stored : W → List SearchEntry)
      → is_bad_name name || is_bad_name new_name ≡ false
      → find_objects_by_exact_path neo.client (join_rel path name) w
        ≡ ((neo.client.scan w).0, objects (src ∷ []))
      → rename neo false 0 container path name (directory container dst_path) new_name w
        ≡ finish neo (
            move_each neo (join_rel dst_path new_name) (src ∷ []) (
              overwrite neo (
                find_objects_by_exact_path neo.client
                  (join_rel dst_path new_name)
                  (neo.client.scan w).0)))
  unfolding rename rename_to rename_found
  rename-steps container path name dst_path new_name src w stored names found =
      rw (rename, names, rename_to, text_eq_refl container, found) refl

module _ {W : Type 0} {neo : Writer W} {stored : W → List SearchEntry} {payload : W → Text → Text}
    (serves : Serves neo stored payload)
    (puts : (rel buf type : Text) (w : W) → Puts neo stored payload rel buf type w) where
  -- The loop over one source, and the invalidations after it.
  moved-Renamed :
      (dst src from : Text) (w u : W)
      → stored u ≡ without (exact_ids (trim_slash dst) (stored w)) (stored w)
      → ((j : Text)
          → member j (exact_ids (trim_slash dst) (stored w)) ≡ false
          → payload u j ≡ payload w j)
      → exact_ids from (stored w) ≡ src ∷ []
      → member src (exact_ids (trim_slash dst) (stored w)) ≡ false
      → is_empty from ≡ false
      → text_eq (trim_slash dst) from ≡ false
      → Renamed stored payload src from dst w (finish neo (move_each neo dst (src ∷ []) u))
  unfolding drop_members member
  moved-Renamed dst src from w u left keeps at apart filled differ =
      let dsts = exact_ids (trim_slash dst) (stored w) in
      let same = keeps src apart in
      let at_u : exact_ids from (stored u) ≡ src ∷ [] =
        ap (exact_ids from) left
        ∙ exact_ids-without from dsts (stored w)
        ∙ ap (drop_members dsts) at
        ∙ ground (arith, apart) in
      let none_at_u : exact_ids (trim_slash dst) (stored u) ≡ [] =
        ap (exact_ids (trim_slash dst)) left
        ∙ exact_ids-without (trim_slash dst) dsts (stored w)
        ∙ drop_members-nil dsts dsts (AllMembers-self dsts) in
      let here : member src (ids_of (stored u)) ≡ true =
        exact_ids-member from src (stored u) (rw at_u (ground (arith, text_eq_refl src))) in
      let (ok, m) = move-Moved serves puts dst src u here in
      let v = (move neo dst src u).0 in
      let end = ap (finish neo) (move_each-one neo dst src u ok) ∙ finish-done neo (v, none) refl in
      let kept : stored (finish neo (move_each neo dst (src ∷ []) u)).0
          ≡ put_entry dst m.id (length (payload u src)) ∷ without (src ∷ []) (stored u) =
        ap (λ out. stored out.0) end
        ∙ serves.works.forgets_scan (neo.client.invalidate_container v)
        ∙ serves.works.forgets v
        ∙ m.left in
      record {
        answer = ap (λ out. out.1) end;
        id = m.id;
        gone =
            ap (exact_ids from) kept
            ∙ left_at_source src dst from from (stored u) m.id (length (payload u src)) at_u filled
                differ;
        there =
            ap (exact_ids (trim_slash dst)) kept
            ∙ left_at_target src dst from (trim_slash dst) (stored u) m.id (length (payload u src))
                none_at_u refl;
        content =
            ap (λ out. payload out.0 m.id) end
            ∙ serves.forget_scan_keeps (neo.client.invalidate_container v) m.id
            ∙ serves.forget_keeps v m.id
            ∙ m.content
            ∙ same;
        others = kept ∙ rw (same, left) refl;
        fresh = rw (← left) m.fresh;
        payloads = λ j h new.
            ap (λ out. payload out.0 j) end
            ∙ serves.forget_scan_keeps (neo.client.invalidate_container v) j
            ∙ serves.forget_keeps v j
            ∙ m.keeps j (ground arith) new
            ∙ keeps j (ground arith);
      }

-- With a client whose calls work and whose two scans, those that this call makes, list what is stored
-- (they may come from a cache that is up to date), on a mount that may be written, and within one
-- container, a Rename without flags of a name at which just one object is stored, to another path at
-- which that object does not stand too, answers no error. Then there is nothing at the old path, at the
-- new path just one object with a new id and the payload of the old, and the objects at neither path
-- are stored as they were, with the payloads that they had.
pub rename-Renamed :
    {W : Type 0} (neo : Writer W) (stored : W → List SearchEntry) (payload : W → Text → Text)
    (container path name dst_path new_name src : Text) (w : W)
    → Serves neo stored payload
    → ((rel buf type : Text) (u : W) → Puts neo stored payload rel buf type u)
    → (neo.client.scan w).1 ≡ listed (stored w)
    → (neo.client.scan (neo.client.scan w).0).1 ≡ listed (stored w)
    → is_bad_name name || is_bad_name new_name ≡ false
    → is_empty (trim_slash (join_rel path name)) ≡ false
    → text_eq (trim_slash (join_rel dst_path new_name)) (trim_slash (join_rel path name)) ≡ false
    → exact_ids (trim_slash (join_rel path name)) (stored w) ≡ src ∷ []
    → member src (exact_ids (trim_slash (join_rel dst_path new_name)) (stored w)) ≡ false
    → Renamed stored payload src
        (trim_slash (join_rel path name))
        (join_rel dst_path new_name)
        w
        (rename neo false 0 container path name (directory container dst_path) new_name w)
rename-Renamed neo stored payload container path name dst_path new_name src w serves puts scans
      scans_again names filled differ at apart =
    let dst = join_rel dst_path new_name in
    let w1 = (neo.client.scan w).0 in
    let kept = serves.works.keeps w in
    let again : (neo.client.scan w1).1 ≡ listed (stored w1) = rw kept scans_again in
    let found =
      find-objects neo stored serves.works (join_rel path name) w scans
      ∙ ap (λ ids. (w1, objects ids)) at in
    rw (rename-steps neo container path name dst_path new_name src w stored names found) (
      moved-Renamed serves puts dst src (trim_slash (join_rel path name)) w
        (overwrite neo (find_objects_by_exact_path neo.client dst w1))
        (overwrite-without neo stored serves.works dst w1 again ∙ rw kept refl)
        (λ j h. overwrite-payload serves dst w1 j again (rw kept h) ∙ serves.scan_keeps w j) at
        apart filled differ)
