-- ===== src/Fs/Deletion/Checks.antt =====
-- A deletion of a directory of two objects, beside one that only begins like it, and with a scan that is
-- kept and does not list one that was stored since.
use neofs_mount.Prelude.{◌≡◌, refl, codes, none, List, [], ◌∷◌, text_eq, strip}
use neofs_mount.Neofs.Listing.{SearchEntry, trim_slash}
use neofs_mount.Neofs.Scan.{list_begin}
use neofs_mount.Fs.Removal.Cached.{World, scan_from, scan_alone, cached, cached-Works}
use neofs_mount.Fs.Removal.Checks.{entry, kept_scan}
use neofs_mount.Fs.Removal.Exact.{without}
use neofs_mount.Fs.Deletion.{clean, delete_under_prefix}
use neofs_mount.Fs.Deletion.Under.{under_ids, delete_under_prefix-without}

abbrev three : List SearchEntry
three =
    entry (codes "1") (codes "/docs/a") (codes "docs/a")
    ∷ entry (codes "2") (codes "docs2/b") []
    ∷ entry (codes "3") [] (codes "docs/c/d")
    ∷ []

abbrev world : World
world = record {
  stored = entry (codes "4") (codes "docs/e") [] ∷ three;
  scans = kept_scan three;
  now = 60000000000;
}

-- What is gone.
gone_ids : under_ids (λ s. s) (codes "docs") three ≡ codes "1" ∷ codes "3" ∷ []
unfolding under_ids trim_slash strip text_eq
gone_ids = refl

delete_under_prefix-without_example :
    let out = delete_under_prefix cached (λ s. s) (λ hits. hits) (codes "/docs") world in
    (out.2 ≡ none)
    × (out.0.stored
        ≡ without (under_ids (λ s. s) (clean (λ s. s) (codes "/docs")) three) world.stored)
unfolding scan_alone scan_from list_begin
delete_under_prefix-without_example =
    delete_under_prefix-without cached (λ w. w.stored) (λ s. s) (λ hits. hits) (codes "/docs") three
      world cached-Works (λ i hits. refl) refl
