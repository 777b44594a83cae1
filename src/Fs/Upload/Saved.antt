-- ===== src/Fs/Upload/Saved.antt =====
-- A file that is written from its start to its end and closed is stored with what was written.
use neofs_mount.Prelude.{
  ℕ, ◌≡◌, refl, ap, sym, ◌∙◌, ◌+◌, Text, true, false, Option, some, none, List, [], ◌∷◌, ◌++◌,
  append_assoc, append-nil, length, length-append, Map, lookup, insert, delete, map,
  lookup-insert_self, take, min, if◌then◌else◌, arith,
}
use neofs_mount.Neofs.Listing.{SearchEntry, trim_slash}
use neofs_mount.Fs.Directory.{listed, is_ephemeral_editor_hidden_name}
use neofs_mount.Fs.Removal.{objects, exact_ids, find_objects_by_exact_path}
use neofs_mount.Fs.Changes.{Writer, Put, stored_as, not_stored}
use neofs_mount.Fs.Changes.Stored.{Serves, Puts, find-objects}
use neofs_mount.Uploads.History.{Item}
use neofs_mount.Fs.Upload.{
  Handle, System, State, WriteResult, ok, wrote, write, delete_others, forget, set_node, upload,
  after_upload, transfer_opened, release, file_base,
}
use neofs_mount.Fs.Upload.Bytes.{write_at-end}
use neofs_mount.Fs.Upload.Replaced.{Replaced, put-Replaced_same}

-- Writes one after another, each where the last one ended, to a disk with room for them.
unfoldable pub write_each : Handle → ℕ → List Text → Map Text → Map Text × List WriteResult
write_each h off [] files = (files, [])
write_each h off (c ∷ chunks) files =
    let (files', r) = write h (length c) c off files in
    let (out, rs) = write_each h (off + length c) chunks files' in (out, r ∷ rs)

unfoldable pub joined : List Text → Text
joined [] = []
joined (c ∷ chunks) = c ++ joined chunks

take-all : (l : Text) → take (length l) l ≡ l
take-all [] = refl
take-all (c ∷ l) = ap (◌∷◌ c) (take-all l)

write-end :
    (h : Handle) (c content : Text) (files : Map Text)
    → h.is_open ≡ true
    → lookup h.tmp_path files ≡ some content
    → write h (length c) c (length content) files
      ≡ (insert h.tmp_path (content ++ c) files, ok (length c))
unfolding write
write-end h c content files o e =
    let n : min (length c) (length c) ≡ length c = omega arith in
    let full : wrote (length c) (length c) ≡ ok (length c) = ground arith in
    rw (o, e, take-all c, write_at-end content c, n, full) refl

write_each-joined :
    (h : Handle) (chunks : List Text) (content : Text) (files : Map Text)
    → h.is_open ≡ true
    → lookup h.tmp_path files ≡ some content
    → (lookup h.tmp_path (write_each h (length content) chunks files).0
        ≡ some (content ++ joined chunks))
      × ((write_each h (length content) chunks files).1 ≡ map (λ c. ok (length c)) chunks)
unfolding write_each joined
write_each-joined h [] content files o e = (e ∙ ap some (sym (append-nil content)), refl)
write_each-joined h (c ∷ chunks) content files o e =
    let w = write-end h c content files o e in
    let n = length-append content c in
    let rest =
      write_each-joined h chunks (content ++ c) (insert h.tmp_path (content ++ c) files) o
        (lookup-insert_self h.tmp_path (content ++ c) files) in
    rw (w, ← n)
      (rest.0 ∙ ap some (append_assoc content c (joined chunks)), ap (◌∷◌ (ok (length c))) rest.1)

module _ {W : Type 0} (neo : Writer W) (encode : List Item → Text)
    (decode : Text → Option (List Item)) where
  set_node-world :
      (new : Text) (size : Option ℕ) (v : State W)
      → (set_node neo encode decode new size v).world ≡ v.world
  set_node-world new none v = refl
  set_node-world new (some z) v = refl

  after_upload-world :
      (h : Handle) (sys : System) (key : Text) (bytes : ℕ) (old : List Text) (content new : Text)
      (s : State W) (p : W × Put)
      → p.1 ≡ stored_as new
      → (after_upload neo encode decode h sys key bytes old content s p).world
        ≡ forget neo encode decode h.has_dir_cache (delete_others neo encode decode new old p.0)
  unfolding after_upload
  after_upload-world h sys key bytes old content new s (w, not_stored x) e = absurd (ground arith)
  after_upload-world h sys key bytes old content new s (w, stored_as id) e =
      set_node-world id (sys.stores id content) _
      ∙ ap (λ i. forget neo encode decode h.has_dir_cache (delete_others neo encode decode i old w))
          (id_of e)
    where
      id_of : stored_as id ≡ stored_as new → id ≡ new
      id_of e = ground arith

  upload-world :
      (h : Handle) (sys : System) (s : State W) (w1 : W) (ids : List Text) (buf new : Text)
      → find_objects_by_exact_path neo.client h.rel_path s.world ≡ (w1, objects ids)
      → lookup h.tmp_path s.files ≡ some buf
      → sys.open_error ≡ none
      → (neo.put h.rel_path buf [] w1).1 ≡ stored_as new
      → (upload neo encode decode h sys s).world
        ≡ forget neo encode decode h.has_dir_cache
            (delete_others neo encode decode new ids (neo.put h.rel_path buf [] w1).0)
  unfolding upload transfer_opened
  upload-world h sys s w1 ids buf new found was opens answer =
      rw (found, was, opens)
        (after_upload-world h sys _ _ ids buf new (record s { world = w1; tracker = _ })
          (neo.put h.rel_path buf [] w1) answer)

module _ {W : Type 0} (neo : Writer W) (stored : W → List SearchEntry) (payload : W → Text → Text)
    (encode : List Item → Text) (decode : Text → Option (List Item)) where
  -- An upload that can open its file replaces what is stored at its path by the file.
  upload-Replaced :
      (h : Handle) (sys : System) (s : State W) (buf : Text)
      → Serves neo stored payload
      → ((rel buf type : Text) (u : W) → Puts neo stored payload rel buf type u)
      → (neo.client.scan s.world).1 ≡ listed (stored s.world)
      → lookup h.tmp_path s.files ≡ some buf
      → sys.open_error ≡ none
      → Replaced stored payload h.rel_path buf s.world (upload neo encode decode h sys s).world
  upload-Replaced h sys s buf serves puts scans was opens =
      let w1 = (neo.client.scan s.world).0 in
      let ids = exact_ids (trim_slash h.rel_path) (stored s.world) in
      let p = puts h.rel_path buf [] w1 in
      let same = serves.works.keeps s.world in
      rw
        (upload-world neo encode decode h sys s w1 ids buf p.id
          (find-objects neo stored serves.works h.rel_path s.world scans) was opens p.answer)
        (put-Replaced_same neo stored payload encode decode serves h.rel_path buf h.has_dir_cache
          s.world w1 same (serves.scan_keeps s.world) p)

module _ {W : Type 0} (neo : Writer W) (encode : List Item → Text)
    (decode : Text → Option (List Item)) where
  release-upload :
      (h : Handle) (sys : System) (s : State W)
      → h.is_open ≡ true
      → is_ephemeral_editor_hidden_name (file_base h.rel_path) ≡ false
      → (release neo encode decode h sys s).1 ≡ upload neo encode decode h sys s
  unfolding release
  release-upload h sys s o hidden =
      ap (λ b. (if b then opened_end else (h, s)).1) o
      ∙ ap (λ b. if b then skipped else upload neo encode decode h sys s) hidden
    where
      skipped : State W
      skipped = record s {
        files = delete h.tmp_path s.files;
        world =
            neo.client.invalidate_container_scan
              (if h.has_dir_cache then neo.client.invalidate_container s.world else s.world);
      }

      opened_end : Handle × State W
      opened_end = (
        record h { is_open = false },
        if is_ephemeral_editor_hidden_name (file_base h.rel_path)
            then skipped
            else upload neo encode decode h sys s,
      )

-- On a mount with a client whose calls work and whose scan, the one that this upload makes, lists what
-- is stored (it may come from a cache that is up to date), let a file whose name is not hidden be written
-- to a new temporary file, on a disk with room for it, from its start to its end in chunks, and then
-- closed, and let the upload be able to open that file. Then every write answers its whole length, and
-- after the upload its path has one object, with a new id, whose payload is the chunks one after
-- another, and the objects with another path are stored as they were, with the payloads that they had.
pub release-Saved :
    {W : Type 0} (neo : Writer W) (stored : W → List SearchEntry) (payload : W → Text → Text)
    (encode : List Item → Text) (decode : Text → Option (List Item)) (h : Handle) (sys : System)
    (s : State W) (chunks : List Text)
    → Serves neo stored payload
    → ((rel buf type : Text) (u : W) → Puts neo stored payload rel buf type u)
    → (neo.client.scan s.world).1 ≡ listed (stored s.world)
    → h.is_open ≡ true
    → is_ephemeral_editor_hidden_name (file_base h.rel_path) ≡ false
    → lookup h.tmp_path s.files ≡ some []
    → sys.open_error ≡ none
    → let (files, results) = write_each h 0 chunks s.files in
      (results ≡ map (λ c. ok (length c)) chunks)
      × Replaced stored payload h.rel_path
          (joined chunks)
          s.world
          (release neo encode decode h sys (record s { files = files })).1.world
release-Saved neo stored payload encode decode h sys s chunks serves puts scans o hidden was opens =
    let (now, answers) = write_each-joined h chunks [] s.files o was in
    (
      answers,
      rw
          (release-upload neo encode decode h sys
            (record s { files = (write_each h 0 chunks s.files).0 }) o hidden)
          (upload-Replaced neo stored payload encode decode h sys
            (record s { files = (write_each h 0 chunks s.files).0 }) (joined chunks) serves puts
            scans now opens),
    )
