-- ===== src/Fs/Changes/Moved.antt =====
-- A rename with a client whose calls work moves the object.
use neofs_mount.Prelude.{
  ℕ, ◌≡◌, refl, ap, ◌∙◌, Text, true, false, none, List, [], ◌∷◌, text_eq, text_eq_iff, is_empty,
  length, arith,
}
use neofs_mount.Neofs.Listing.{SearchEntry, trim_slash}
use neofs_mount.Neofs.Objects.Written.{put_entry}
use neofs_mount.Fs.Removal.{exact_ids}
use neofs_mount.Fs.Removal.Exact.{
  member, without, drop_members, exact_ids-without, drop_members-nil, AllMembers-self,
}
use neofs_mount.Fs.Changes.{Writer, got, stored_as, move, move_each, after_get, after_put}
use neofs_mount.Fs.Changes.Stored.{ids_of, Serves, Puts, exact_ids-put_entry}

module _ {W : Type 0} (neo : Writer W) where
  pub move-steps :
      (dst src buf id : Text) (w : W)
      → neo.get src w ≡ (w, got buf)
      → (neo.put dst buf [] w).1 ≡ stored_as id
      → move neo dst src w ≡ neo.client.delete src (neo.put dst buf [] w).0
  unfolding move after_get after_put
  move-steps dst src buf id w g p = rw (move, g) (ground (arith, p))

  pub move_each-one :
      (dst src : Text) (w : W)
      → (move neo dst src w).1 ≡ none
      → move_each neo dst (src ∷ []) w ≡ ((move neo dst src w).0, none)
  unfolding move_each
  move_each-one dst src w e = ground arith

-- What is left when an object was moved: the new one, with a new id, in front of the others, which
-- keep their payloads.
pub record Moved {W : Type 0} (stored : W → List SearchEntry) (payload : W → Text → Text)
    (dst src : Text) (u w : W) : Type 0 where
  pub id : Text
  pub fresh : member id (ids_of (stored u)) ≡ false
  pub left : stored w ≡ put_entry dst id (length (payload u src)) ∷ without (src ∷ []) (stored u)
  pub content : payload w id ≡ payload u src
  pub keeps : (j : Text) → text_eq src j ≡ false → text_eq id j ≡ false → payload w j ≡ payload u j

module _ {W : Type 0} {neo : Writer W} {stored : W → List SearchEntry} {payload : W → Text → Text}
    (serves : Serves neo stored payload)
    (puts : (rel buf type : Text) (w : W) → Puts neo stored payload rel buf type w) where
  -- One round of the loop, for an object that is stored.
  pub move-Moved :
      (dst src : Text) (w : W)
      → member src (ids_of (stored w)) ≡ true
      → ((move neo dst src w).1 ≡ none) × Moved stored payload dst src w (move neo dst src w).0
  unfolding without member
  move-Moved dst src w here =
      let buf = payload w src in
      let p = puts dst buf [] w in
      let steps = move-steps neo dst src buf p.id w (serves.gets src w here) p.answer in
      let other : text_eq src p.id ≡ false = ground (arith, here, p.fresh, text_eq_iff src p.id) in
      let w' = (neo.put dst buf [] w).0 in
      (
        ap (λ out. out.1) steps ∙ serves.works.deletes src w',
        record {
          id = p.id;
          fresh = p.fresh;
          left =
              ap (λ out. stored out.0) steps
              ∙ serves.works.takes src w'
              ∙ ap (without (src ∷ [])) p.added
              ∙ ground (arith, other);
          content =
              ap (λ out. payload out.0 p.id) steps
              ∙ serves.delete_keeps src p.id w' other
              ∙ p.holds;
          keeps = λ j apart new.
              ap (λ out. payload out.0 j) steps
              ∙ serves.delete_keeps src j w' apart
              ∙ p.keeps j new;
        },
      )

-- What stands at a path when an object was moved to another.
module _ (src dst from to : Text) (l : List SearchEntry) where
  pub left_at_source :
      (id : Text) (size : ℕ)
      → exact_ids from l ≡ src ∷ []
      → is_empty from ≡ false
      → text_eq (trim_slash dst) from ≡ false
      → exact_ids from (put_entry dst id size ∷ without (src ∷ []) l) ≡ []
  unfolding text_eq drop_members member
  left_at_source id size e filled apart =
      exact_ids-put_entry dst from id size (without (src ∷ []) l)
      ∙ ground (
        arith,
        apart,
        nil_apart from filled,
        exact_ids-without from (src ∷ []) l
            ∙ ap (drop_members (src ∷ [])) e
            ∙ drop_members-nil (src ∷ []) (src ∷ []) (AllMembers-self (src ∷ [])),
      )
    where
      nil_apart : (s : Text) → is_empty s ≡ false → text_eq [] s ≡ false
      nil_apart [] h = h
      nil_apart (c ∷ s) h = refl

  pub left_at_target :
      (id : Text) (size : ℕ)
      → exact_ids to l ≡ []
      → trim_slash dst ≡ to
      → exact_ids to (put_entry dst id size ∷ without (src ∷ []) l) ≡ id ∷ []
  unfolding drop_members
  left_at_target id size e same =
      exact_ids-put_entry dst to id size (without (src ∷ []) l)
      ∙ ground (
        arith,
        text_eq_iff (trim_slash dst) to,
        same,
        exact_ids-without to (src ∷ []) l ∙ ap (drop_members (src ∷ [])) e,
      )
