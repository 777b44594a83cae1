-- ===== src/Fs/Changes/Lost.antt =====
-- `Rename` when the copying cannot store: the overwriting comes before the copy.
use neofs_mount.Prelude.{
  ℕ, ◌≡◌, refl, ap, ◌∙◌, Text, true, false, ◌||◌, some, List, [], ◌∷◌, text_eq_refl, arith,
}
use neofs_mount.Neofs.Listing.{SearchEntry, trim_slash}
use neofs_mount.Fs.Directory.{listed, join_rel}
use neofs_mount.Fs.Removal.{exact_ids, find_objects_by_exact_path, objects}
use neofs_mount.Fs.Removal.Exact.{member, without, drop_members, exact_ids-without}
use neofs_mount.Fs.Changes.{
  Writer, got, not_stored, remote, directory, is_bad_name, overwrite, move, move_each, after_get,
  after_put, finish, rename,
}
use neofs_mount.Fs.Changes.Stored.{
  ids_of, Serves, exact_ids-member, overwrite-without, find-objects,
}
use neofs_mount.Fs.Changes.Renamed.{rename-steps}

module _ {W : Type 0} (neo : Writer W) where
  move-refused :
      (dst src buf : Text) (e : ℕ) (w : W)
      → neo.get src w ≡ (w, got buf)
      → (neo.put dst buf [] w).1 ≡ not_stored e
      → move neo dst src w ≡ ((neo.put dst buf [] w).0, some e)
  unfolding move after_get after_put
  move-refused dst src buf e w g p = rw (move, g) (ground (arith, p))

  move_each-refused :
      (dst src : Text) (ids : List Text) (e : ℕ) (w : W)
      → (move neo dst src w).1 ≡ some e
      → move_each neo dst (src ∷ ids) w ≡ ((move neo dst src w).0, some e)
  unfolding move_each
  move_each-refused dst src ids e w h = ground arith

  finish-refused :
      (dst src : Text) (ids : List Text) (e : ℕ) (w v : W)
      → move neo dst src w ≡ (v, some e)
      → finish neo (move_each neo dst (src ∷ ids) w) ≡ (v, remote e)
  unfolding finish
  finish-refused dst src ids e w v m =
      ap (finish neo)
        (move_each-refused dst src ids e w (ap (λ out. out.1) m) ∙ ap (λ out. (out.0, some e)) m)

-- While no put can store, a Rename of an object over another path, whose two scans list what is stored,
-- answers the error of the put, with the object still stored, but with everything at the new path
-- already deleted.
pub rename-refused :
    {W : Type 0} (neo : Writer W) (stored : W → List SearchEntry) (payload : W → Text → Text)
    (container path name dst_path new_name src : Text) (e : ℕ) (w : W)
    → Serves neo stored payload
    → ((rel buf type : Text) (u : W)
        → ((neo.put rel buf type u).1 ≡ not_stored e)
          × (stored (neo.put rel buf type u).0 ≡ stored u))
    → (neo.client.scan w).1 ≡ listed (stored w)
    → (neo.client.scan (neo.client.scan w).0).1 ≡ listed (stored w)
    → is_bad_name name || is_bad_name new_name ≡ false
    → exact_ids (trim_slash (join_rel path name)) (stored w) ≡ src ∷ []
    → member src (exact_ids (trim_slash (join_rel dst_path new_name)) (stored w)) ≡ false
    → let out = rename neo false 0 container path name (directory container dst_path) new_name w in
      (out.1 ≡ remote e)
      × (stored out.0
          ≡ without (exact_ids (trim_slash (join_rel dst_path new_name)) (stored w)) (stored w))
unfolding drop_members member
rename-refused neo stored payload container path name dst_path new_name src e w serves refuses scans
      scans_again names at apart =
    let dst = join_rel dst_path new_name in
    let w1 = (neo.client.scan w).0 in
    let u = overwrite neo (find_objects_by_exact_path neo.client dst w1) in
    let kept = serves.works.keeps w in
    let again : (neo.client.scan w1).1 ≡ listed (stored w1) = rw kept scans_again in
    let found =
      find-objects neo stored serves.works (join_rel path name) w scans
      ∙ ap (λ ids. (w1, objects ids)) at in
    let left : stored u ≡ without (exact_ids (trim_slash dst) (stored w)) (stored w) =
      overwrite-without neo stored serves.works dst w1 again ∙ rw kept refl in
    let here : member src (ids_of (stored u)) ≡ true =
      exact_ids-member (trim_slash (join_rel path name)) src (stored u) (
        rw
          (
            left,
            exact_ids-without (trim_slash (join_rel path name))
                (exact_ids (trim_slash dst) (stored w)) (stored w),
            at,
          )
          (ground (arith, apart, text_eq_refl src))) in
    let steps =
      rename-steps neo container path name dst_path new_name src w stored names found
      ∙ finish-refused neo dst src [] e u (neo.put dst (payload u src) [] u).0 (
          move-refused neo dst src (payload u src) e u (serves.gets src u here)
            (refuses dst (payload u src) [] u).0) in
    (
      ap (λ out. out.1) steps,
      ap (λ out. stored out.0) steps ∙ (refuses dst (payload u src) [] u).1 ∙ left,
    )
