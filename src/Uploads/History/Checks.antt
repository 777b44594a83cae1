-- ===== src/Uploads/History/Checks.antt =====
-- A history of at most one item.
use neofs_mount.Prelude.{ℕ, refl, Text, codes, Option, some, List, [], ◌∷◌, true, arith}
use neofs_mount.Uploads.History.{Item, History, missing, append, cap}
use neofs_mount.Uploads.History.Reload.{Survives, append-Survives}

abbrev item : ℕ → Item
item at = record {
  finished_at = at;
  started_at = 1;
  neo_key = codes "c/a";
  disk_path = [];
  bytes = 5;
  status = codes "ok";
  detail = [];
}

-- An encoding of such items by their times.
unfoldable encode : List Item → Text
encode [] = []
encode (it ∷ items) = it.finished_at ∷ encode items

unfoldable items_of : Text → List Item
items_of [] = []
items_of (at ∷ b) = item at ∷ items_of b

abbrev decode : Text → Option (List Item)
decode b = some (items_of b)

abbrev one : History
one = record { path = codes "history"; max = 1; items = item 3 ∷ [] }

append-Survives_example :
    Survives encode decode (append encode decode 9 (item 0) true (one, missing))
unfolding append cap encode items_of
append-Survives_example =
    append-Survives encode decode 9 (item 0) one missing refl refl (omega arith)
