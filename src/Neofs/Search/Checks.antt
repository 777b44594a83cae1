-- ===== src/Neofs/Search/Checks.antt =====
-- The search of a container at a concrete network.
use neofs_mount.Prelude.{◌≡◌, refl, codes, none, some, [], ◌∷◌}
use neofs_mount.Neofs.Search.{
  Network, broken, page, last, not_opened, search_all_object_ids, v2_root, v2_all, ids, try, good,
  discover, try_search_v2, try_stream,
}
use neofs_mount.Neofs.Search.Outcomes.{Settled, search_all_object_ids-Settled}

-- A network that answers every call with an error.
abbrev down : Network
down = record { v2 = λ root. broken 5; stream = λ root. not_opened 5 }

abbrev up : Network
up = record {
  v2 = λ root. page (codes "1" ∷ []) (last (codes "2" ∷ []));
  stream = λ root. not_opened 5;
}

search_all_object_ids-Settled_example :
    Settled down up (search_all_object_ids down up (some v2_all))
search_all_object_ids-Settled_example = search_all_object_ids-Settled down up (some v2_all)

found :
    search_all_object_ids down up (some v2_all) ≡ (some v2_root, ids (codes "1" ∷ codes "2" ∷ []))
unfolding search_all_object_ids discover try good try_search_v2
found = refl

-- With every call failing, a search has no error.
no_error : search_all_object_ids down down (some v2_all) ≡ (none, ids [])
unfolding search_all_object_ids discover try good try_search_v2 try_stream
no_error = refl
