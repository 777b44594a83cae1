-- ===== src/Uploads/Tracker.antt =====
-- internal/uploads/tracker.go: the uploads that run. An entry is shared between the tracker and who
-- registered it, so the entries stand in a store of their own and the tracker maps a path to a place
-- there. The mutex makes each operation a step.
pub mod Runs
mod Checks
use neofs_mount.Prelude.{
  ℕ, ◌+◌, Text, Option, none, some, List, [], ◌∷◌, ◌++◌, length, get_elem?, suc, zero, Map, delete,
  insert,
}

pub record Entry : Type 0 where
  pub path : Text
  pub total_bytes : ℕ
  pub sent : ℕ
  pub started : ℕ

pub record Tracker : Type 0 where
  pub entries : Map ℕ
  pub made : List Entry

-- `New`
unfoldable pub new_tracker : Tracker
new_tracker = record { entries = []; made = [] }

-- `Register`, with the place of the entry that is returned.
unfoldable pub register : Text → ℕ → ℕ → Tracker → Tracker × ℕ
register path total_bytes now t =
    let e : Entry = record { path = path; total_bytes = total_bytes; sent = 0; started = now } in
    (
      record { entries = insert path (length t.made) t.entries; made = t.made ++ e ∷ [] },
      length t.made,
    )

-- `Finish`
unfoldable pub finish_upload : Text → Tracker → Tracker
finish_upload path t = record t { entries = delete path t.entries }

unfoldable pub add_at : ℕ → ℕ → List Entry → List Entry
add_at i n [] = []
add_at zero n (e ∷ l) = record e { sent = e.sent + n } ∷ l
add_at (suc i) n (e ∷ l) = e ∷ add_at i n l

-- `AddSent` of an entry.
unfoldable pub add_sent : ℕ → ℕ → Tracker → Tracker
unfolding add_at
add_sent e n t = record t { made = add_at e n t.made }

-- What `List` shows: the entries of all paths, in the order of the map.
unfoldable pub list_entries : Map ℕ → List Entry → List (Option Entry)
list_entries [] made = []
list_entries ((path, i) ∷ m) made = get_elem? made i ∷ list_entries m made
