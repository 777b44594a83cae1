-- ===== src/Fs/Root/Finds.antt =====
-- `Lookup` finds the containers that `Readdir` lists, with or without a `Readdir` before it.
use neofs_mount.Prelude.{
  ℕ, ◌≡◌, refl, ap, ◌∙◌, Text, Bool, true, false, Option, none, some, List, [], lookup,
  Option-cases, inl, inr,
}
use neofs_mount.Prelude.Counts.{In}
use neofs_mount.Fs.Containers.{Named, contains, containers, alias_of}
use neofs_mount.Fs.Containers.Unique.{Permutes, alias_of-lookup}
use neofs_mount.Fs.Containers.Resolve.{AreContainers, sorted_unique, row_origin}
use neofs_mount.Fs.Root.{
  Network, Root, new_root, root_name, root_list, readdir, refresh, look_up, checked, container,
  after_read,
}

abbrev pub is_some : Option Text → Bool
is_some none = false
is_some (some s) = true

-- Containers with different ids that decode to themselves, none named by something that decodes but
-- its own id.
pub record IsPlainNetwork (net : Network) (ids : List Text) : Type 0 where
  pub permutes : Permutes net.sort_names
  pub names :
      AreContainers
        (λ s. is_some (net.decode s))
        (root_name net.trim_space net.get)
        (net.sort_ids ids)
  pub decodes : (id : Text) → In id (net.sort_ids ids) → net.decode id ≡ some id

module _ {net : Network} {ids : List Text} (plain : IsPlainNetwork net ids) (it : Named)
    (shown : In it (root_list net ids)) where
  row_facts :
      (is_some (net.decode it.name) ≡ true → it.name ≡ it.id)
      × In it.id (net.sort_ids ids)
      × (contains it.id net.ignore ≡ false)
  unfolding root_list
  row_facts =
      row_origin plain.names (λ a b. false) net.sort_names plain.permutes net.ignore it shown

  table_row : lookup it.name (alias_of (root_list net ids) []) ≡ some it.id
  unfolding root_list
  table_row =
      alias_of-lookup (root_list net ids) [] it
        (sorted_unique plain.names (λ a b. false) net.sort_names plain.permutes net.ignore) shown

  checked_row : checked net (some it.id) ≡ container it.id
  checked_row = let (_, _, c) = row_facts in rw c refl

  -- Whatever the table, a name that decodes is found by its id.
  decoded_row :
      (now later : ℕ) (n : Root) (x : Text)
      → net.decode it.name ≡ some x
      → (look_up net now later it.name n).1 ≡ container it.id
  unfolding look_up
  decoded_row now later n x e =
      let (own, i, c) = row_facts in
      let same : it.name ≡ it.id = own (rw e refl) in
      let d : net.decode it.name ≡ some it.id = rw same (plain.decodes it.id i) in
      rw (look_up, d) checked_row

  -- With the table of a listing at hand, a name that does not decode is found in it.
  filled_row :
      (now later at after : ℕ) (n : Root)
      → net.decode it.name ≡ none
      → (look_up net at after it.name (refresh net later n (containers ids)).0).1 ≡ container it.id
  unfolding look_up refresh
  filled_row now later at after n d = rw (look_up, d, table_row) checked_row

  refreshed_row :
      (later : ℕ) (n : Root)
      → (after_read net it.name (refresh net later n (containers ids))).1 ≡ container it.id
  unfolding refresh
  refreshed_row later n = rw table_row checked_row

undecoded_new :
    (net : Network) (now later : ℕ) (name : Text)
    → net.decode name ≡ none
    → look_up net now later name new_root
      ≡ after_read net name (refresh net later new_root net.listed)
unfolding look_up new_root
undecoded_new net now later name d = rw (look_up, d) refl

readdir_new :
    (net : Network) (now later : ℕ)
    → readdir net now later new_root ≡ refresh net later new_root net.listed
unfolding readdir new_root
readdir_new net now later = refl

-- On a network with plain containers, a Lookup of any name that Readdir lists of them finds the
-- container of that name, on a new root, where it reads the directory itself, as well as on a root
-- that a Readdir has filled.
pub look_up-readdir :
    (net : Network) (ids : List Text) (it : Named) (start now later at after : ℕ)
    → IsPlainNetwork net ids
    → net.listed ≡ containers ids
    → In it (root_list net ids)
    → ((look_up net start now it.name new_root).1 ≡ container it.id)
      × ((look_up net at after it.name (readdir net now later new_root).0).1 ≡ container it.id)
look_up-readdir net ids it start now later at after plain e shown =
    elim (Option-cases (net.decode it.name)) [
      | inr (x, d) ↦ (
        decoded_row plain it shown start now new_root x d,
        decoded_row plain it shown at after (readdir net now later new_root).0 x d,
      )
      | inl d ↦ (
        ap (λ out. out.1) (undecoded_new net start now it.name d)
            ∙ ap (λ l. (after_read net it.name (refresh net now new_root l)).1) e
            ∙ refreshed_row plain it shown now new_root,
        ap (λ out. (look_up net at after it.name out.0).1) (readdir_new net now later)
            ∙ ap (λ l. (look_up net at after it.name (refresh net later new_root l).0).1) e
            ∙ filled_row plain it shown now later at after new_root d,
      )
    ]
