-- ===== src/Neofs/Scan/Checks.antt =====
-- The scan of a container at concrete inputs.
use neofs_mount.Prelude.{◌≡◌, refl, [], ◌∷◌, codes, List, arith}
use neofs_mount.Neofs.Listing.{SearchEntry}
use neofs_mount.Neofs.Scan.{
  new_scans, list_begin, hit, lead, ok, err, scan_done, entries, follow_end,
  invalidate_container_scan,
}
use neofs_mount.Neofs.Scan.Flights.{
  arrive, Together, list_begin-Together, follow_end-invalidated, scan_done-stale,
}

abbrev scanned : List SearchEntry
scanned =
    record {
      object_id = codes "1";
      file_path = codes "a";
      file_name = [];
      name = [];
      key = [];
      size = 5;
    }
    ∷ []

list_begin-Together_example : Together 100 900 (200 ∷ 300 ∷ []) (err 7) new_scans
unfolding new_scans
list_begin-Together_example =
    list_begin-Together 100 900 (200 ∷ 300 ∷ []) new_scans refl refl (err 7)

follow_end-invalidated_example :
    follow_end 0 (
      invalidate_container_scan
        (scan_done 900 0 (ok scanned) (arrive (200 ∷ []) (list_begin 100 new_scans).0).0))
    ≡ entries []
unfolding new_scans
follow_end-invalidated_example =
    follow_end-invalidated 100 900 (200 ∷ []) new_scans refl refl scanned refl

scan_done-stale_example :
    ((list_begin 1000
        (invalidate_container_scan (scan_done 900 0 (ok scanned) (list_begin 100 new_scans).0))).1
      ≡ lead 1)
    × ((list_begin 1000
          (scan_done 900 0 (ok scanned) (invalidate_container_scan (list_begin 100 new_scans).0))).1
        ≡ hit scanned)
unfolding new_scans
scan_done-stale_example = scan_done-stale 100 900 [] new_scans refl refl 1000 scanned (omega arith)
