-- ===== src/Fs/Removal/Cached.antt =====
-- A removal through the client's cache of scans: `ListEntriesByHeadScan` of internal/neofs/client.go as
-- one caller alone sees it, with a network that answers, under `Unlink` of internal/fs/tree.go.
use neofs_mount.Prelude.{
  ℕ, ◌≡◌, ◌≢◌, refl, ◌⊎◌, Text, Bool, true, false, ◌||◌, Option, none, some, List, [], ◌∷◌,
  is_empty, if◌then◌else◌, arith, Option-cases, Bool-cases, ltb, ◌-◌, inl, inr,
}
use neofs_mount.Neofs.Listing.{SearchEntry}
use neofs_mount.Neofs.Scan.{
  Scans, Started, hit, follow, lead, CachedScan, check_cache, head_scan_cache_ttl, list_begin, ok,
  scan_done, invalidate_container_scan,
}
use neofs_mount.Fs.Directory.{Scan, listed, scan_error, join_rel, contains_slash, is_dots}
use neofs_mount.Fs.Removal.{
  Client, Errno, done, erofs, einval, Found, objects, not_listed, find_objects_by_exact_path,
  delete_each, after_deletes, unlink_found, unlink,
}
use neofs_mount.Fs.Removal.Exact.{Works, without}

-- What is stored, what the client keeps of its scans, and the time.
pub record World : Type 0 where
  pub stored : List SearchEntry
  pub scans : Scans
  pub now : ℕ

-- What a scan that began goes on with; one that is running is waited for without an end, since nobody
-- else makes a step, which is an error here.
unfoldable pub scan_from : World → Scans × Started → World × Scan
scan_from w (s, hit l) = (record w { scans = s }, listed l)
scan_from w (s, follow fl) = (record w { scans = s }, scan_error 0)
scan_from w (s, lead fl) =
    (record w { scans = scan_done w.now fl (ok w.stored) s }, listed w.stored)

unfoldable pub scan_alone : World → World × Scan
unfolding scan_from
scan_alone w = scan_from w (list_begin w.now w.scans)

abbrev pub cached : Client World
cached = record {
  scan = scan_alone;
  delete = λ id w. (record w { stored = without (id ∷ []) w.stored }, none);
  invalidate_container = λ w. w;
  invalidate_container_scan = λ w. record w { scans = invalidate_container_scan w.scans };
}

scan_from-stored : (w : World) (out : Scans × Started) → (scan_from w out).0.stored ≡ w.stored
unfolding scan_from
scan_from-stored w (s, hit l) = refl
scan_from-stored w (s, follow fl) = refl
scan_from-stored w (s, lead fl) = refl

-- The cached client takes what it is told to, also while its scans are out of date.
pub cached-Works : Works cached (λ w. w.stored)
unfolding scan_alone
cached-Works = record {
  keeps = λ w. scan_from-stored w (list_begin w.now w.scans);
  deletes = λ id w. refl;
  takes = λ id w. refl;
  forgets = λ w. refl;
  forgets_scan = λ w. refl;
}

-- What holds of a state before an `Unlink`, and what after one that is done.
module _ {W : Type 0} (neo : Client W) (Before After : W → Type 0)
    (scan_keeps : (w : W) → Before w → Before (neo.scan w).0)
    (delete_keeps : (id : Text) (w : W) → Before w → Before (neo.delete id w).0)
    (forget_keeps : (w : W) → Before w → Before (neo.invalidate_container w))
    (forgets : (w : W) → Before w → After (neo.invalidate_container_scan w)) where
  delete_each-Before : (ids : List Text) (w : W) → Before w → Before (delete_each neo ids w).0
  unfolding delete_each
  delete_each-Before [] w b = b
  delete_each-Before (id ∷ ids) w b = elim (Option-cases (neo.delete id w).1) [
    | inl q ↦ rw (delete_each, q) (delete_each-Before ids (neo.delete id w).0 (delete_keeps id w b))
    | inr (x, q) ↦ rw (delete_each, q) (delete_keeps id w b)
  ]

  after_deletes-After :
      (out : W × Option ℕ)
      → Before out.0
      → (after_deletes neo out).1 ≡ done
      → After (after_deletes neo out).0
  unfolding after_deletes
  after_deletes-After (w, none) b d = forgets (neo.invalidate_container w) (forget_keeps w b)
  after_deletes-After (w, some e) b d = absurd (ground (arith, d))

  unlink_found-After :
      (out : W × Found)
      → Before out.0
      → (unlink_found neo out).1 ≡ done
      → After (unlink_found neo out).0
  unfolding unlink_found
  unlink_found-After (w, not_listed e) b d = absurd (ground (arith, d))
  unlink_found-After (w, objects []) b d = absurd (ground (arith, d))
  unlink_found-After (w, objects (id ∷ ids)) b d =
      after_deletes-After (delete_each neo (id ∷ ids) w) (delete_each-Before (id ∷ ids) w b) d

  found-Before : (rel : Text) (w : W) → Before w → Before (find_objects_by_exact_path neo rel w).0
  unfolding find_objects_by_exact_path
  found-Before rel w b = scan_keeps w b

  if-After :
      (t : Bool) (e : Errno) (w : W) (out : W × Errno)
      → e ≢ done
      → (out.1 ≡ done → After out.0)
      → (if t then (w, e) else out).1 ≡ done
      → After (if t then (w, e) else out).0
  if-After true e w out ne k d = absurd (ne d)
  if-After false e w out ne k d = k d

  unlink-After :
      (ro : Bool) (path name : Text) (w : W)
      → Before w
      → (unlink neo ro path name w).1 ≡ done
      → After (unlink neo ro path name w).0
  unfolding unlink
  unlink-After ro path name w b =
      if-After ro erofs w _ (λ q. ground (arith, q))
        (if-After (is_empty name || (contains_slash name || is_dots name)) einval w _
          (λ q. ground (arith, q))
          (unlink_found-After (find_objects_by_exact_path neo (join_rel path name) w)
            (found-Before (join_rel path name) w b)))

-- No scan is running, and, after an invalidation, none is kept.
abbrev IsAlone : World → Type 0
IsAlone w = w.scans.inflight ≡ none

abbrev IsForgotten : World → Type 0
IsForgotten w = (w.scans.cache ≡ none) × (w.scans.inflight ≡ none)

scan_from-IsAlone :
    (w : World) (out : Scans × Started)
    → (out.0.inflight ≡ none) ⊎ ((fl : ℕ) × (out.1 ≡ lead fl))
    → IsAlone (scan_from w out).0
unfolding scan_from scan_done
scan_from-IsAlone w (s, hit l) (inl q) = q
scan_from-IsAlone w (s, follow fl) (inl q) = q
scan_from-IsAlone w (s, lead fl) h = refl
scan_from-IsAlone w (s, hit l) (inr (fl, q)) = absurd (ground (arith, q))
scan_from-IsAlone w (s, follow fl) (inr (_, q)) = absurd (ground (arith, q))

check_cache-alone :
    (now : ℕ) (s : Scans) (o : Option CachedScan)
    → s.inflight ≡ none
    → ((check_cache now s o).0.inflight ≡ none) ⊎ ((fl : ℕ) × ((check_cache now s o).1 ≡ lead fl))
check_cache-alone now s none alone = rw alone (inr (s.next, refl))
check_cache-alone now s (some ent) alone =
    elim (Bool-cases (ltb (now - ent.at) head_scan_cache_ttl)) [
      | inl t ↦ rw t (inl alone)
      | inr t ↦ rw (t, alone) (inr (s.next, refl))
    ]

scan_alone-IsAlone : (w : World) → IsAlone w → IsAlone (scan_alone w).0
unfolding scan_alone list_begin
scan_alone-IsAlone w alone =
    scan_from-IsAlone w (list_begin w.now w.scans)
      (check_cache-alone w.now w.scans w.scans.cache alone)

-- On a network that answers, with nobody else at work, and whatever the client keeps of earlier scans,
-- also if that is out of date: after an Unlink that answers no error the next scan lists exactly what is
-- then stored, at whatever time it begins.
pub scan-unlink :
    (ro : Bool) (path name : Text) (w : World) (later : ℕ)
    → w.scans.inflight ≡ none
    → (unlink cached ro path name w).1 ≡ done
    → let out = (unlink cached ro path name w).0 in
      (scan_alone (record out { now = later })).1 ≡ listed out.stored
unfolding scan_alone scan_from list_begin invalidate_container_scan
scan-unlink ro path name w later alone d =
    let (gone, idle) =
      unlink-After cached IsAlone IsForgotten scan_alone-IsAlone (λ id w b. b) (λ w b. b)
        (λ w b. (refl, b)) ro path name w alone d in
    rw (gone, idle) refl
