-- ===== src/Neofs/Search.antt =====
-- internal/neofs/client.go: `searchAllObjectIDs`. What the network answers to the calls of one search
-- is given as the sequence of the pages, or of the reads of the stream, until the loop stops.
pub mod Outcomes
mod Checks
use neofs_mount.Prelude.{ℕ, Text, Bool, true, false, Option, none, some, List, [], ◌∷◌, ◌++◌}

-- The answers of `SearchObjects`: the last page has no cursor to a next one.
pub data Pages : Type 0 where
  last : List Text → Pages
  page : List Text → Pages → Pages
  broken : ℕ → Pages

-- The answers of `ObjectSearchInit`, of the reads of its stream, and of `Close` after the end.
pub data Reads : Type 0 where
  not_opened : ℕ → Reads
  read : List Text → Reads → Reads
  read_error : ℕ → Reads
  end : List Text → Option ℕ → Reads

-- Ids, or an error.
pub data Ids : Type 0 where
  ids : List Text → Ids
  failed : ℕ → Ids

unfoldable pub try_search_v2 : List Text → Pages → Ids
try_search_v2 all (last items) = ids (all ++ items)
try_search_v2 all (page items more) = try_search_v2 (all ++ items) more
try_search_v2 all (broken e) = failed e

abbrev pub close_stream : List Text → Option ℕ → Ids
close_stream all none = ids all
close_stream all (some e) = failed e

unfoldable pub try_stream : List Text → Reads → Ids
try_stream all (not_opened e) = failed e
try_stream all (read items more) = try_stream (all ++ items) more
try_stream all (read_error e) = failed e
try_stream all (end items closed) = close_stream (all ++ items) closed

pub data Strategy : Type 0 where
  v2_root v2_all stream_root stream_all : Strategy

-- What the network answers, with the root filter and without.
pub record Network : Type 0 where
  pub v2 : Bool → Pages
  pub stream : Bool → Reads

unfoldable pub try : Network → Strategy → Ids
try net v2_root = try_search_v2 [] (net.v2 true)
try net v2_all = try_search_v2 [] (net.v2 false)
try net stream_root = try_stream [] (net.stream true)
try net stream_all = try_stream [] (net.stream false)

-- The ids of a try that had no error and found something.
unfoldable pub good : Ids → Option (List Text)
good (failed e) = none
good (ids []) = none
good (ids (id ∷ l)) = some (id ∷ l)

-- The loop over the strategies: the one to remember, and what is returned.
unfoldable pub discover : Network → List Strategy → Option Strategy × Ids
discover net [] = (none, ids [])
discover net (s ∷ ordered) = elim (good (try net s)) [
  | some l ↦ (some s, ids l)
  | none ↦ discover net ordered
]

abbrev pub ordered : List Strategy
ordered = v2_root ∷ v2_all ∷ stream_root ∷ stream_all ∷ []

-- The strategy that is remembered is tried first, against what the network answers at that time.
unfoldable pub search_all_object_ids : Network → Network → Option Strategy → Option Strategy × Ids
unfolding discover
search_all_object_ids first net none = discover net ordered
search_all_object_ids first net (some s) = elim (good (try first s)) [
  | some l ↦ (some s, ids l)
  | none ↦ discover net ordered
]
