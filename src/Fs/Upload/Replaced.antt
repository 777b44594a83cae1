-- ===== src/Fs/Upload/Replaced.antt =====
-- An upload with a client whose calls work replaces what is stored at its path.
use neofs_mount.Prelude.{
  ◌≡◌, refl, ap, sym, ◌∙◌, Text, Bool, true, false, Option, List, [], ◌∷◌, length, text_eq,
  text_eq_refl, arith,
}
use neofs_mount.Neofs.Listing.{SearchEntry, trim_slash}
use neofs_mount.Neofs.Objects.Written.{put_entry}
use neofs_mount.Fs.Removal.{exact_ids}
use neofs_mount.Fs.Removal.Exact.{
  member, without, without-nil, without-without, drop_members, exact_ids-without, drop_members-nil,
  AllMembers-self,
}
use neofs_mount.Fs.Changes.{Writer}
use neofs_mount.Fs.Changes.Stored.{ids_of, Serves, Puts, exact_ids-member, exact_ids-put_entry}
use neofs_mount.Uploads.History.{Item}
use neofs_mount.Fs.Upload.{delete_others, forget}

-- An id that is stored nowhere is none of those to delete.
others-member :
    (new path : Text) (l : List SearchEntry)
    → member new (ids_of l) ≡ false
    → member new (exact_ids path l) ≡ false
others-member new path l h = ground (arith, exact_ids-member path new l, h)

-- What an upload leaves at its path, and elsewhere.
pub record Replaced {W : Type 0} (stored : W → List SearchEntry) (payload : W → Text → Text)
    (rel buf : Text) (w out : W) : Type 0 where
  pub id : Text
  pub there : exact_ids (trim_slash rel) (stored out) ≡ id ∷ []
  pub content : payload out id ≡ buf
  pub others :
      stored out
      ≡ put_entry rel id (length buf) ∷ without (exact_ids (trim_slash rel) (stored w)) (stored w)
  pub fresh : member id (ids_of (stored w)) ≡ false
  pub payloads :
      (j : Text)
      → member j (exact_ids (trim_slash rel) (stored w)) ≡ false
      → text_eq id j ≡ false
      → payload out j ≡ payload w j

module _ {W : Type 0} (neo : Writer W) (stored : W → List SearchEntry) (payload : W → Text → Text)
    (encode : List Item → Text) (decode : Text → Option (List Item))
    (serves : Serves neo stored payload) where
  delete_others-stored :
      (new : Text) (ids : List Text) (w : W)
      → member new ids ≡ false
      → stored (delete_others neo encode decode new ids w) ≡ without ids (stored w)
  unfolding delete_others member
  delete_others-stored new [] w h = sym (without-nil (stored w))
  delete_others-stored new (id ∷ ids) w h =
      let apart : text_eq id new ≡ false = ground arith in
      rw apart (
        delete_others-stored new ids (neo.client.delete id w).0 (ground arith)
        ∙ ap (without ids) (serves.works.takes id w)
        ∙ without-without id ids (stored w))

  delete_others-payload :
      (new j : Text) (ids : List Text) (w : W)
      → member new ids ≡ false
      → member j ids ≡ false
      → payload (delete_others neo encode decode new ids w) j ≡ payload w j
  unfolding delete_others member
  delete_others-payload new j [] w h hj = refl
  delete_others-payload new j (id ∷ ids) w h hj =
      let apart : text_eq id new ≡ false = ground arith in
      rw apart (
        delete_others-payload new j ids (neo.client.delete id w).0 (ground arith) (ground arith)
        ∙ serves.delete_keeps id j w (ground arith))

  forget-stored : (b : Bool) (w : W) → stored (forget neo encode decode b w) ≡ stored w
  forget-stored true w =
      serves.works.forgets (neo.client.invalidate_container_scan w) ∙ serves.works.forgets_scan w
  forget-stored false w = serves.works.forgets_scan w

  forget-payload :
      (b : Bool) (w : W) (id : Text) → payload (forget neo encode decode b w) id ≡ payload w id
  forget-payload true w id =
      serves.forget_keeps (neo.client.invalidate_container_scan w) id
      ∙ serves.forget_scan_keeps w id
  forget-payload false w id = serves.forget_scan_keeps w id

  -- The client's state after a put that stored the content, and the deletions.
  pub put-Replaced :
      (rel buf : Text) (has_dir_cache : Bool) (w : W) (p : Puts neo stored payload rel buf [] w)
      → let ids = exact_ids (trim_slash rel) (stored w) in
        Replaced stored payload rel buf w (
          forget neo encode decode has_dir_cache
            (delete_others neo encode decode p.id ids (neo.put rel buf [] w).0))
  unfolding without drop_members
  put-Replaced rel buf has_dir_cache w p =
      let to = trim_slash rel in
      let ids = exact_ids to (stored w) in
      let w' = (neo.put rel buf [] w).0 in
      let apart : member p.id ids ≡ false = others-member p.id to (stored w) p.fresh in
      let v = delete_others neo encode decode p.id ids w' in
      let kept : stored (forget neo encode decode has_dir_cache v)
          ≡ put_entry rel p.id (length buf) ∷ without ids (stored w) =
        forget-stored has_dir_cache v
        ∙ delete_others-stored p.id ids w' apart
        ∙ ap (without ids) p.added
        ∙ rw apart refl in
      record {
        id = p.id;
        there =
            ap (exact_ids to) kept
            ∙ exact_ids-put_entry rel to p.id (length buf) (without ids (stored w))
            ∙ rw
                (
                  text_eq_refl to,
                  exact_ids-without to ids (stored w),
                  drop_members-nil ids ids (AllMembers-self ids),
                )
                refl;
        content =
            forget-payload has_dir_cache v p.id
            ∙ delete_others-payload p.id p.id ids w' apart apart
            ∙ p.holds;
        others = kept;
        fresh = p.fresh;
        payloads = λ j h new.
            forget-payload has_dir_cache v j
            ∙ delete_others-payload p.id j ids w' apart h
            ∙ p.keeps j new;
      }

  -- The same, with the old objects found in a state from which a scan led here.
  pub put-Replaced_same :
      (rel buf : Text) (has_dir_cache : Bool) (v w : W)
      → stored w ≡ stored v
      → ((j : Text) → payload w j ≡ payload v j)
      → (p : Puts neo stored payload rel buf [] w)
      → let ids = exact_ids (trim_slash rel) (stored v) in
        Replaced stored payload rel buf v (
          forget neo encode decode has_dir_cache
            (delete_others neo encode decode p.id ids (neo.put rel buf [] w).0))
  put-Replaced_same rel buf has_dir_cache v w same keeps p =
      let r = put-Replaced rel buf has_dir_cache w p in
      let to = trim_slash rel in
      let ids = exact_ids to (stored w) in
      rw (← same) (record {
        id = r.id;
        there = r.there;
        content = r.content;
        others = rw (← same) r.others;
        fresh = rw (← same) r.fresh;
        payloads = λ j h new. r.payloads j (rw same h) new ∙ keeps j;
      })
