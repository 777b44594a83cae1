-- ===== src/Fs/Deletion.antt =====
-- internal/fs/delete_neofs.go: `deleteNeoFSObjectsUnderPrefix`, which removes a path and what is beneath
-- it, over the record of calls that a removal uses. `trim_space` is `strings.TrimSpace`, and `sort` the
-- sort of the hits by the length of their paths.
pub mod Under
mod Checks
use neofs_mount.Prelude.{
  ℕ, ◌+◌, Text, Bool, true, false, not, ◌&&◌, ◌||◌, Option, none, some, List, [], ◌∷◌, ◌++◌,
  text_eq, is_empty, if◌then◌else◌,
}
use neofs_mount.Neofs.Listing.{SearchEntry, slash, trim_slash}
use neofs_mount.Fs.Directory.{Scan, listed, scan_error, starts_with}
use neofs_mount.Fs.Removal.{Client}

-- `hit`
pub record Hit : Type 0 where
  pub id : Text
  pub path : Text

unfoldable pub is_hit : Text → List Hit → Bool
is_hit id [] = false
is_hit id (h ∷ hits) = text_eq h.id id || is_hit id hits

abbrev pub is_under : Text → Text → Bool
is_under path p = not (is_empty p) && (text_eq p path || starts_with (path ++ slash ∷ []) p)

-- One attribute of one entry.
unfoldable pub add_hit : Text → Text → Text → List Hit → List Hit
unfolding is_hit
add_hit path id p hits =
    if is_under path p
    then (if is_hit id hits then hits else hits ++ record { id = id; path = p } ∷ [])
    else hits

module _ (trim_space : Text → Text) where
  abbrev pub clean : Text → Text
  clean raw = trim_slash (trim_space raw)

  -- The loops over the entries.
  unfoldable pub find_hits : Text → List SearchEntry → List Hit → List Hit
  unfolding add_hit
  find_hits path [] hits = hits
  find_hits path (e ∷ entries) hits =
      find_hits path entries
        (add_hit path e.object_id (clean e.key) (add_hit path e.object_id (clean e.file_path) hits))

module _ {W : Type 0} (neo : Client W) where
  -- The deletions, with their number so far, up to the first error.
  unfoldable pub delete_hits : List Hit → ℕ → W → W × ℕ × Option ℕ
  delete_hits [] n w = (w, n, none)
  delete_hits (h ∷ hits) n w =
      let (w', e) = neo.delete h.id w in
      elim e [ some x ↦ (w', n, some x) | none ↦ delete_hits hits (n + 1) w' ]

  abbrev pub after_hits : W × ℕ × Option ℕ → W × ℕ × Option ℕ
  after_hits (w, n, some e) = (w, n, some e)
  after_hits (w, n, none) = (neo.invalidate_container_scan w, n, none)

  abbrev pub of_scan : (Text → Text) → (List Hit → List Hit) → Text → W × Scan → W × ℕ × Option ℕ
  of_scan trim_space sort path (w, scan_error e) = (w, 0, some e)
  of_scan trim_space sort path (w, listed entries) =
      after_hits (delete_hits (sort (find_hits trim_space path entries [])) 0 w)

  -- `deleteNeoFSObjectsUnderPrefix`
  unfoldable pub delete_under_prefix :
      (Text → Text) → (List Hit → List Hit) → Text → W → W × ℕ × Option ℕ
  unfolding delete_hits find_hits
  delete_under_prefix trim_space sort rel_path w =
      of_scan trim_space sort (clean trim_space rel_path) (neo.scan w)
