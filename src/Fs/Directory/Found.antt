-- ===== src/Fs/Directory/Found.antt =====
-- What `Lookup` finds of the names that `listChildren` lists.
use neofs_mount.Prelude.{
  ◌≡◌, refl, ap, sym, ◌∙◌, Text, true, false, not, ◌&&◌, ◌||◌, List, [], ◌∷◌, ◌++◌, text_eq,
  text_eq_iff, is_empty, strip, strip-append, append_assoc, append-nil, arith, Bool-cases, inl, inr,
}
use neofs_mount.Neofs.Listing.{SearchEntry, slash, trim_slash}
use neofs_mount.Fs.Directory.{
  starts_with, join_rel, dir_prefix, child_path, or_else, Finding, match_path, match_flat,
  match_entry, match_entries,
}
use neofs_mount.Fs.Directory.Names.{on_rest, starts_with-append}
use neofs_mount.Fs.Directory.Children.{IsPlain, goes_beneath, ends_at, any}

-- An entry has an id, and below the root or by its own account it has a path.
pub record IsPlaced (path : Text) (e : SearchEntry) : Type 0 where
  pub id : is_empty e.object_id ≡ false
  pub placed :
      is_empty path && (is_empty (trim_slash e.file_path) && is_empty (trim_slash e.key)) ≡ false

abbrev pub AllPlaced : Text → List SearchEntry → Type 0
AllPlaced path [] = Unit
AllPlaced path (e ∷ entries) = IsPlaced path e × AllPlaced path entries

append-filled : (s t : Text) → is_empty t ≡ false → is_empty (s ++ t) ≡ false
append-filled [] t h = h
append-filled (c ∷ s) t h = refl

-- A path is no prefix of itself with more behind it.
not_beneath_itself : (s t : Text) → text_eq t s ≡ true → starts_with (s ++ slash ∷ []) t ≡ false
unfolding strip
not_beneath_itself s t e =
    let same : t ≡ s ++ [] = (text_eq_iff t s).0 e ∙ sym (append-nil s) in
    starts_with-append s (slash ∷ []) t
    ∙ ap (on_rest (starts_with (slash ∷ []))) (ap (strip s) same ∙ strip-append s [])

not_beneath_nil : (s : Text) → starts_with (s ++ slash ∷ []) [] ≡ false
unfolding strip
not_beneath_nil [] = refl
not_beneath_nil (c ∷ s) = refl

module _ (path : Text) (e : SearchEntry) (f : Finding) where
  match_path-directory :
      (target p : Text)
      → (match_path target e p f).directory ≡ (f.directory || starts_with (target ++ slash ∷ []) p)
  unfolding match_path
  match_path-directory target [] = rw (not_beneath_nil target) (ground arith)
  match_path-directory target (c ∷ p) = elim (Bool-cases (text_eq (c ∷ p) target)) [
    | inl t ↦ ground (arith, t, not_beneath_itself target (c ∷ p) t)
    | inr t ↦ ground (arith, t)
  ]

  match_path-file :
      (target p : Text)
      → is_empty e.object_id ≡ false
      → is_empty target ≡ false
      → is_empty (match_path target e p f).file ≡ (is_empty f.file && not (text_eq p target))
  unfolding match_path text_eq
  match_path-file [] p h t = absurd (ground arith)
  match_path-file (d ∷ target) [] h t = ground arith
  match_path-file (d ∷ target) (c ∷ p) h t = ground arith

  match_flat-directory : (name : Text) → (match_flat path name e f).directory ≡ f.directory
  unfolding match_flat
  match_flat-directory name = ground arith

  match_flat-file :
      (name : Text)
      → is_empty e.object_id ≡ false
      → is_empty f.file ≡ false
      → is_empty (match_flat path name e f).file ≡ false
  unfolding match_flat
  match_flat-file name h g = ground arith

join_rel-dir_prefix : (path name : Text) → join_rel path name ≡ dir_prefix path ++ name
unfolding join_rel
join_rel-dir_prefix [] name = refl
join_rel-dir_prefix (c ∷ path) name = sym (append_assoc (c ∷ path) (slash ∷ []) name)

beneath_target :
    (path name : Text) → join_rel path name ++ slash ∷ [] ≡ dir_prefix path ++ (name ++ slash ∷ [])
beneath_target path name =
    ap (λ t. t ++ slash ∷ []) (join_rel-dir_prefix path name)
    ∙ append_assoc (dir_prefix path) name (slash ∷ [])

child_path-placed :
    (path : Text) (e : SearchEntry)
    → IsPlaced path e
    → child_path (dir_prefix path) e ≡ or_else (trim_slash e.file_path) (trim_slash e.key)
unfolding child_path
child_path-placed [] e p = ground (arith, p.placed)
child_path-placed (c ∷ path) e p = ground arith

module _ (path name : Text) (plain : IsPlain name) where
  target_filled : is_empty (join_rel path name) ≡ false
  target_filled =
      ap is_empty (join_rel-dir_prefix path name)
      ∙ append-filled (dir_prefix path) name plain.filled

  goes_beneath-placed :
      (e : SearchEntry)
      → IsPlaced path e
      → goes_beneath (dir_prefix path) name e
        ≡ starts_with
            (join_rel path name ++ slash ∷ [])
            (or_else (trim_slash e.file_path) (trim_slash e.key))
  goes_beneath-placed e p =
      ap (λ t. starts_with t (child_path (dir_prefix path) e)) (sym (beneath_target path name))
      ∙ ap (starts_with (join_rel path name ++ slash ∷ [])) (child_path-placed path e p)

  ends_at-placed :
      (e : SearchEntry)
      → IsPlaced path e
      → ends_at (dir_prefix path) name e
        ≡ text_eq (or_else (trim_slash e.file_path) (trim_slash e.key)) (join_rel path name)
  ends_at-placed e p =
      ap (text_eq (child_path (dir_prefix path) e)) (sym (join_rel-dir_prefix path name))
      ∙ ap (λ t. text_eq t (join_rel path name)) (child_path-placed path e p)

  -- The state of the loop before the flat names are tried.
  abbrev tried : SearchEntry → Finding → Finding
  tried e f =
      match_path (join_rel path name) e (trim_slash e.key)
        (match_path (join_rel path name) e (trim_slash e.file_path) f)

  matched_directory :
      (e : SearchEntry) (f : Finding)
      → IsPlaced path e
      → (f.directory || goes_beneath (dir_prefix path) name e) ≡ true
      → (match_entry path name e f).directory ≡ true
  unfolding match_entry
  matched_directory e f p h =
      match_flat-directory path e (tried e f) name
      ∙ ground (
        arith,
        h,
        goes_beneath-placed e p,
        match_path-directory path e f (join_rel path name) (trim_slash e.file_path),
        match_path-directory path e (match_path (join_rel path name) e (trim_slash e.file_path) f)
            (join_rel path name) (trim_slash e.key),
      )

  matched_file :
      (e : SearchEntry) (f : Finding)
      → IsPlaced path e
      → (is_empty f.file && not (ends_at (dir_prefix path) name e)) ≡ false
      → is_empty (match_entry path name e f).file ≡ false
  unfolding match_entry
  matched_file e f p h = match_flat-file path e (tried e f) name p.id (
      ground (
        arith,
        h,
        ends_at-placed e p,
        match_path-file path e f (join_rel path name) (trim_slash e.file_path) p.id target_filled,
        match_path-file path e (match_path (join_rel path name) e (trim_slash e.file_path) f)
            (join_rel path name) (trim_slash e.key) p.id target_filled,
      ))

  pub matched_directories :
      (entries : List SearchEntry) (f : Finding)
      → AllPlaced path entries
      → (f.directory || any (goes_beneath (dir_prefix path) name) entries) ≡ true
      → (match_entries path name entries f).directory ≡ true
  unfolding match_entries any
  matched_directories [] f p h = ground arith
  matched_directories (e ∷ entries) f (p, ps) h =
      matched_directories entries (match_entry path name e f) ps
        (ground (arith, matched_directory e f p))

  pub matched_files :
      (entries : List SearchEntry) (f : Finding)
      → AllPlaced path entries
      → (is_empty f.file && not (any (ends_at (dir_prefix path) name) entries)) ≡ false
      → is_empty (match_entries path name entries f).file ≡ false
  unfolding match_entries any
  matched_files [] f p h = ground arith
  matched_files (e ∷ entries) f (p, ps) h =
      matched_files entries (match_entry path name e f) ps (ground (arith, matched_file e f p))
