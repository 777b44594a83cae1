-- ===== src/Fs/Deletion/Under.antt =====
-- What a deletion under a path takes: what the scan lists at or beneath it.
use neofs_mount.Prelude.{
  ℕ, ◌≡◌, refl, ap, sym, ◌∙◌, ◌+◌, Text, ◌&&◌, ◌||◌, Option, none, some, List, [], ◌∷◌, ◌++◌,
  text_eq, text_eq_iff, if◌then◌else◌, arith,
}
use neofs_mount.Neofs.Listing.{SearchEntry}
use neofs_mount.Fs.Directory.{listed}
use neofs_mount.Fs.Removal.{Client}
use neofs_mount.Fs.Removal.Exact.{Works, member, without, without-nil, without-without}
use neofs_mount.Fs.Deletion.{
  Hit, is_hit, is_under, add_hit, clean, find_hits, delete_hits, after_hits, of_scan,
  delete_under_prefix,
}

-- The ids of the entries that have a path at or beneath a path.
unfoldable pub under_ids : (Text → Text) → Text → List SearchEntry → List Text
under_ids trim_space path [] = []
under_ids trim_space path (e ∷ entries) =
    let rest = under_ids trim_space path entries in
    if is_under path (clean trim_space e.file_path) || is_under path (clean trim_space e.key)
    then e.object_id ∷ rest
    else rest

unfoldable hit_ids : List Hit → List Text
hit_ids [] = []
hit_ids (h ∷ hits) = h.id ∷ hit_ids hits

is_hit-member : (id : Text) (hits : List Hit) → is_hit id hits ≡ member id (hit_ids hits)
unfolding is_hit member hit_ids
is_hit-member id [] = refl
is_hit-member id (h ∷ hits) = ap (λ b. text_eq h.id id || b) (is_hit-member id hits)

is_hit-append :
    (id : Text) (hits : List Hit) (h : Hit)
    → is_hit id (hits ++ h ∷ []) ≡ is_hit id hits || text_eq h.id id
unfolding is_hit
is_hit-append id [] h = ground arith
is_hit-append id (g ∷ hits) h = ground (arith, is_hit-append id hits h)

is_hit-add_hit :
    (path id p j : Text) (hits : List Hit)
    → is_hit j (add_hit path id p hits) ≡ is_hit j hits || (is_under path p && text_eq id j)
unfolding add_hit
is_hit-add_hit path id p j hits =
    ground (arith, is_hit-append j hits (record { id = id; path = p }), text_eq_iff id j)

is_hit-find_hits :
    (trim_space : Text → Text) (path j : Text) (entries : List SearchEntry) (hits : List Hit)
    → is_hit j (find_hits trim_space path entries hits)
      ≡ is_hit j hits || member j (under_ids trim_space path entries)
unfolding find_hits under_ids member
is_hit-find_hits trim_space path j [] hits = ground arith
is_hit-find_hits trim_space path j (e ∷ entries) hits =
    let one = add_hit path e.object_id (clean trim_space e.file_path) hits in
    is_hit-find_hits trim_space path j entries
      (add_hit path e.object_id (clean trim_space e.key) one)
    ∙ ground (
      arith,
      is_hit-add_hit path e.object_id (clean trim_space e.key) j one,
      is_hit-add_hit path e.object_id (clean trim_space e.file_path) j hits,
    )

without-same :
    (ids js : List Text) (l : List SearchEntry)
    → ((i : Text) → member i ids ≡ member i js)
    → without ids l ≡ without js l
unfolding without
without-same ids js [] h = refl
without-same ids js (e ∷ l) h = ground (arith, h e.object_id, without-same ids js l h)

module _ {W : Type 0} (neo : Client W) (stored : W → List SearchEntry)
    (works : Works neo stored) where
  delete_hits-cons :
      (h : Hit) (hits : List Hit) (n : ℕ) (w : W)
      → delete_hits neo (h ∷ hits) n w ≡ delete_hits neo hits (n + 1) (neo.delete h.id w).0
  unfolding delete_hits
  delete_hits-cons h hits n w = rw (delete_hits, works.deletes h.id w) refl

  after_hits-none :
      (out : W × ℕ × Option ℕ)
      → out.2 ≡ none
      → after_hits neo out ≡ (neo.invalidate_container_scan out.0, out.1, none)
  after_hits-none (w, n, none) h = refl
  after_hits-none (w, n, some e) h = absurd (ground arith)

  delete_hits-none :
      (hits : List Hit) (n : ℕ) (w : W)
      → ((delete_hits neo hits n w).2 ≡ none)
        × (stored (delete_hits neo hits n w).0 ≡ without (hit_ids hits) (stored w))
  unfolding delete_hits hit_ids
  delete_hits-none [] n w = (refl, sym (without-nil (stored w)))
  delete_hits-none (h ∷ hits) n w =
      let (ok, left) = delete_hits-none hits (n + 1) (neo.delete h.id w).0 in
      rw (delete_hits-cons h hits n w) (
        ok,
        left
            ∙ ap (without (hit_ids hits)) (works.takes h.id w)
            ∙ without-without h.id (hit_ids hits) (stored w),
      )

-- With a client whose deletions work, also of an object that is gone, and a sort that moves the hits
-- only, a deletion under a path answers no error, whatever its scan lists, also if that is out of date,
-- and leaves exactly the stored objects whose ids are not those of a listed entry with a FilePath or a
-- Key at or beneath the path.
pub delete_under_prefix-without :
    {W : Type 0} (neo : Client W) (stored : W → List SearchEntry) (trim_space : Text → Text)
    (sort : List Hit → List Hit) (rel_path : Text) (l : List SearchEntry) (w : W)
    → Works neo stored
    → ((i : Text) (hits : List Hit) → is_hit i (sort hits) ≡ is_hit i hits)
    → (neo.scan w).1 ≡ listed l
    → let out = delete_under_prefix neo trim_space sort rel_path w in
      (out.2 ≡ none)
      × (stored out.0 ≡ without (under_ids trim_space (clean trim_space rel_path) l) (stored w))
unfolding delete_under_prefix is_hit
delete_under_prefix-without neo stored trim_space sort rel_path l w works moves scans =
    let path = clean trim_space rel_path in
    let w1 = (neo.scan w).0 in
    let hits = find_hits trim_space path l [] in
    let gone = delete_hits neo (sort hits) 0 w1 in
    let (ok, left) = delete_hits-none neo stored works (sort hits) 0 w1 in
    let found : neo.scan w ≡ (w1, listed l) = ap (λ x. (w1, x)) scans in
    let steps =
      ap (of_scan neo trim_space sort path) found ∙ after_hits-none neo stored works gone ok in
    (
      ap (λ out. out.2) steps,
      ap (λ out. stored out.0) steps
          ∙ works.forgets_scan gone.0
          ∙ left
          ∙ ap (without (hit_ids (sort hits))) (works.keeps w)
          ∙ without-same (hit_ids (sort hits)) (under_ids trim_space path l) (stored w) (λ i.
            sym (is_hit-member i (sort hits))
            ∙ moves i hits
            ∙ is_hit-find_hits trim_space path i l []),
    )
