-- ===== src/Uploads/History.antt =====
-- internal/uploads/history.go: the history of uploads and the file that keeps it. The encoding of the
-- items is an argument, and whether the file could be written; a time is zero if it is not set.
pub mod Reload
mod Checks
use neofs_mount.Prelude.{
  ℕ, Text, Bool, true, false, Option, none, some, List, [], ◌∷◌, is_empty, ltb, ◌==◌, if◌then◌else◌,
  length, take,
}

-- `HistoryItem`
pub record Item : Type 0 where
  pub finished_at : ℕ
  pub started_at : ℕ
  pub neo_key : Text
  pub disk_path : Text
  pub bytes : ℕ
  pub status : Text
  pub detail : Text

pub record History : Type 0 where
  pub path : Text
  pub max : ℕ
  pub items : List Item

-- A file that is not there, cannot be read, or has this text.
pub data File : Type 0 where
  missing : File
  unreadable : File
  written : Text → File

abbrev pub default_history_max : ℕ
default_history_max = 400

unfoldable pub cap : ℕ → List Item → List Item
cap max items = if ltb max (length items) then take max items else items

module _ (encode : List Item → Text) (decode : Text → Option (List Item)) where
  abbrev decoded : ℕ → List Item → Option (List Item) → List Item
  decoded max items none = items
  decoded max items (some loaded) = cap max loaded

  -- `load`: the items that are kept afterwards.
  unfoldable pub load : File → History → History
  load missing h = h
  load unreadable h = h
  load (written b) h =
      if is_empty h.path then h else record h { items = decoded h.max h.items (decode b) }

  -- `NewHistory`; a maximum that is not positive is 0.
  unfoldable pub new_history : Text → ℕ → File → History
  unfolding load
  new_history path max file =
      load file
        (record { path = path; max = if max == 0 then default_history_max else max; items = [] })

  -- `Append`, at the time `now`.
  unfoldable pub append : ℕ → Item → Bool → History × File → History × File
  append now it saved (h, file) =
      if is_empty h.path
      then (h, file)
      else let set = record it {
        finished_at = if it.finished_at == 0 then now else it.finished_at;
      } in
        let items = cap h.max (set ∷ h.items) in
        (record h { items = items }, if saved then written (encode items) else file)
