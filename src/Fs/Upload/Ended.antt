-- ===== src/Fs/Upload/Ended.antt =====
-- Every end of an upload: what it leaves behind, and what it records.
use neofs_mount.Prelude.{
  ℕ, ◌≡◌, refl, ap, sym, ◌⊎◌, inl, inr, Text, codes, Option, some, none, List, [], ◌++◌, lookup,
  lookup-delete_self,
}
use neofs_mount.Fs.Removal.{find_objects_by_exact_path}
use neofs_mount.Fs.Changes.{Writer, Put, stored_as, not_stored}
use neofs_mount.Uploads.History.{Item, append}
use neofs_mount.Uploads.Tracker.{register, finish_upload, add_sent}
use neofs_mount.Fs.Upload.{
  Handle, System, State, open_file, opened_with, size_of, history_item, history_key, log_item,
  set_node, after_upload, transfer_opened, leave, upload, old_ids, content_of,
}

module _ {W : Type 0} (neo : Writer W) (encode : List Item → Text)
    (decode : Text → Option (List Item)) where
  -- An upload that stored the content: the node has the new object, and one item says so.
  pub record Stored (h : Handle) (sys : System) (s out : State W) : Type 0 where
    pub content : Text
    pub new_id : Text
    pub was : lookup h.tmp_path s.files ≡ some content
    pub answer :
        (neo.put h.rel_path content []
          (find_objects_by_exact_path neo.client h.rel_path s.world).0).1
        ≡ stored_as new_id
    pub node : out.obj ≡ new_id
    pub logged :
        out.history
        ≡ append encode decode sys.ended
            (history_item sys.started sys.ended
              (history_key h)
              (size_of sys.stats (some content))
              (codes "ok")
              [])
            sys.saved
            s.history

  -- One that did not: the node is as before, nothing was deleted, and one item says that it failed.
  pub record NotStored (h : Handle) (sys : System) (s out : State W) : Type 0 where
    pub started : ℕ
    pub bytes : ℕ
    pub detail : Text
    pub node : out.obj ≡ s.obj
    pub size : out.file_size ≡ s.file_size
    pub logged :
        out.history
        ≡ append encode decode sys.ended
            (history_item started sys.ended (history_key h) bytes (codes "failed") detail)
            sys.saved
            s.history
    pub world :
        (out.world ≡ (find_objects_by_exact_path neo.client h.rel_path s.world).0)
        ⊎ (out.world
            ≡ (neo.put h.rel_path
                (content_of (lookup h.tmp_path s.files))
                []
                (find_objects_by_exact_path neo.client h.rel_path s.world).0).0)

  -- What every end leaves: no temporary file, nothing shown as running, and one of the two.
  pub record Ended (h : Handle) (sys : System) (s out : State W) : Type 0 where
    pub removed : lookup h.tmp_path out.files ≡ none
    pub finished : lookup h.rel_path out.tracker.entries ≡ none
    pub outcome : Stored h sys s out ⊎ NotStored h sys s out

  -- The state when the file is opened.
  abbrev pub found_old : Handle → System → State W → State W
  found_old h sys s = record s {
    tracker =
        (register h.rel_path (size_of sys.stats (lookup h.tmp_path s.files)) sys.started
          s.tracker).0;
    world = (find_objects_by_exact_path neo.client h.rel_path s.world).0;
  }

  set_node-obj :
      (new : Text) (size : Option ℕ) (v : State W)
      → (set_node neo encode decode new size v).obj ≡ new
  set_node-obj new none v = refl
  set_node-obj new (some z) v = refl

  set_node-history :
      (new : Text) (size : Option ℕ) (v : State W)
      → (set_node neo encode decode new size v).history ≡ v.history
  set_node-history new none v = refl
  set_node-history new (some z) v = refl

  module _ (h : Handle) (sys : System) (s : State W) (entry : ℕ) (old : List Text) where
    put-outcome :
        (content : Text) (p : W × Put)
        → lookup h.tmp_path s.files ≡ some content
        → neo.put h.rel_path content [] (found_old h sys s).world ≡ p
        → let u = record (found_old h sys s) {
          tracker = add_sent entry sys.read (found_old h sys s).tracker;
        } in
          let out = leave neo encode decode h (
            after_upload neo encode decode h sys
              (history_key h)
              (size_of sys.stats (some content))
              old
              content
              u
              p) in
          Stored h sys s out ⊎ NotStored h sys s out
    unfolding after_upload
    put-outcome content (w, stored_as new) was e = inl (record {
      content = content;
      new_id = new;
      was = was;
      answer = ap (λ q. q.1) e;
      node = set_node-obj new (sys.stores new content) _;
      logged =
          ap
            (append encode decode sys.ended
              (history_item sys.started sys.ended (history_key h) (size_of sys.stats (some content))
                (codes "ok") [])
              sys.saved)
            (set_node-history new (sys.stores new content) _);
    })
    put-outcome content (w, not_stored x) was e = inr (record {
      started = sys.started;
      bytes = size_of sys.stats (some content);
      detail = sys.error_text x;
      node = refl;
      size = refl;
      logged = refl;
      world = inr (rw was (ap (λ q. q.0) (sym e)));
    })

    failed-NotStored :
        (started bytes : ℕ) (detail : Text) (out : State W)
        → out
          ≡ leave neo encode decode h (
              log_item neo encode decode sys
                (history_item started sys.ended (history_key h) bytes (codes "failed") detail)
                (found_old h sys s))
        → NotStored h sys s out
    failed-NotStored started bytes detail out e = record {
      started = started;
      bytes = bytes;
      detail = detail;
      node = ap (λ o. o.obj) e;
      size = ap (λ o. o.file_size) e;
      logged = ap (λ o. o.history) e;
      world = inl (ap (λ o. o.world) e);
    }

    opened-outcome :
        (content : Text) (r : Option Text)
        → lookup h.tmp_path s.files ≡ some content
        → let out = leave neo encode decode h (
            transfer_opened neo encode decode h sys
              (size_of sys.stats (some content))
              entry
              (found_old h sys s)
              old
              (opened_with content r)) in
          Stored h sys s out ⊎ NotStored h sys s out
    unfolding transfer_opened
    opened-outcome content none was =
        put-outcome content (neo.put h.rel_path content [] (found_old h sys s).world) was refl
    opened-outcome content (some e) was = inr (
        failed-NotStored sys.ended (size_of sys.stats (some content)) (codes "open temp: " ++ e) _
          refl)

    transferred-outcome :
        (f : Option Text)
        → lookup h.tmp_path s.files ≡ f
        → let out = leave neo encode decode h (
            transfer_opened neo encode decode h sys
              (size_of sys.stats f)
              entry
              (found_old h sys s)
              old
              (open_file sys f)) in
          Stored h sys s out ⊎ NotStored h sys s out
    unfolding transfer_opened
    transferred-outcome none was =
        inr (failed-NotStored sys.ended 0 (codes "open temp: " ++ sys.missing_error) _ refl)
    transferred-outcome (some content) was = opened-outcome content sys.open_error was

  -- Whatever the client and the system answer, the upload that a Release starts removes the temporary
  -- file, is no longer shown as running, and adds one item to the history: either the content was
  -- stored, the item says ok and the node has the new object, or the item says failed, the node is as
  -- it was, and nothing but the search for old objects and the put itself was done to the container.
  pub upload-Ended :
      (h : Handle) (sys : System) (s : State W) → Ended h sys s (upload neo encode decode h sys s)
  unfolding upload register finish_upload
  upload-Ended h sys s = record {
    removed = lookup-delete_self h.tmp_path _;
    finished = lookup-delete_self h.rel_path _;
    outcome =
        transferred-outcome h sys s
          (register h.rel_path (size_of sys.stats (lookup h.tmp_path s.files)) sys.started
            s.tracker).1
          (old_ids (find_objects_by_exact_path neo.client h.rel_path s.world).1)
          (lookup h.tmp_path s.files) refl;
  }
