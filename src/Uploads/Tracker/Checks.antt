-- ===== src/Uploads/Tracker/Checks.antt =====
-- Two uploads of one path at once.
use neofs_mount.Prelude.{◌≡◌, refl, codes, none, List, [], ◌∷◌, lookup, insert, delete, text_eq}
use neofs_mount.Uploads.Tracker.{register, finish_upload, add_sent, new_tracker}
use neofs_mount.Uploads.Tracker.Runs.{
  Call, registers, finishes, adds, run, running, Shows, run-running,
}

-- The second upload of a, seen after the first has sent a byte more; last call first.
abbrev twice : List Call
twice =
    adds 0 1 ∷ adds 1 5 ∷ registers (codes "a") 9 20 ∷ adds 0 2 ∷ registers (codes "a") 4 10 ∷ []

run-running_example : Shows (codes "a") (run twice) (running (codes "a") twice)
run-running_example = run-running (codes "a") twice

-- The second upload is no longer shown when the first one ends.
finish_hides_other : lookup (codes "a") (run (finishes (codes "a") ∷ twice)).entries ≡ none
unfolding run register finish_upload add_sent new_tracker lookup text_eq delete insert
finish_hides_other = refl
