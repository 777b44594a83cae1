-- ===== src/Neofs/Search/Outcomes.antt =====
-- What a search returns and remembers.
use neofs_mount.Prelude.{
  ◌≡◌, ◌⊎◌, refl, ◌∙◌, Text, Option, none, some, List, [], ◌∷◌, Option-cases, inl, inr, arith,
}
use neofs_mount.Neofs.Search.{
  Strategy, v2_root, v2_all, stream_root, stream_all, Network, Ids, ids, try, good, discover,
  ordered, search_all_object_ids,
}

-- Ids were found, with a strategy that is then the one remembered; or none of the strategies found
-- any, and none is remembered.
abbrev pub Settled : Network → Network → Option Strategy × Ids → Type 0
Settled first net out =
    ((s : Strategy) × (l : List Text) × (out ≡ (some s, ids l))
      × ((good (try first s) ≡ some l) ⊎ (good (try net s) ≡ some l)))
    ⊎ ((out ≡ (none, ids [])) × ((s : Strategy) → good (try net s) ≡ none))

-- The strategies in a list find nothing.
abbrev pub AllMiss : Network → List Strategy → Type 0
AllMiss net [] = Unit
AllMiss net (s ∷ rest) = (good (try net s) ≡ none) × AllMiss net rest

discover-good :
    (net : Network) (s : Strategy) (l : List Strategy) (found : List Text)
    → good (try net s) ≡ some found
    → discover net (s ∷ l) ≡ (some s, ids found)
unfolding discover
discover-good net s l found e = ground arith

discover-next :
    (net : Network) (s : Strategy) (l : List Strategy)
    → good (try net s) ≡ none
    → discover net (s ∷ l) ≡ discover net l
unfolding discover
discover-next net s l e = ground arith

discover-miss :
    (net : Network) (l : List Strategy)
    → ((s : Strategy) × (found : List Text) × (discover net l ≡ (some s, ids found))
        × (good (try net s) ≡ some found))
      ⊎ ((discover net l ≡ (none, ids [])) × AllMiss net l)
unfolding discover
discover-miss net [] = inr (refl, tt)
discover-miss net (s ∷ l) = elim (Option-cases (good (try net s))) [
  | inr (found, e) ↦ inl (s, found, discover-good net s l found e, e)
  | inl e ↦ elim (discover-miss net l) [
    | inl (s', found, d, g) ↦ inl (s', found, discover-next net s l e ∙ d, g)
    | inr (d, m) ↦ inr (discover-next net s l e ∙ d, (e, m))
  ]
]

every_one : (net : Network) → AllMiss net ordered → (s : Strategy) → good (try net s) ≡ none
every_one net (a, (b, (c, (d, u)))) v2_root = a
every_one net (a, (b, (c, (d, u)))) v2_all = b
every_one net (a, (b, (c, (d, u)))) stream_root = c
every_one net (a, (b, (c, (d, u)))) stream_all = d

discover-Settled : (first net : Network) → Settled first net (discover net ordered)
discover-Settled first net = elim (discover-miss net ordered) [
  | inl (s, l, e, g) ↦ inl (s, l, e, inr g)
  | inr (e, m) ↦ inr (e, every_one net m)
]

-- A search, whatever strategy is remembered, returns the ids that some strategy found, without an
-- error and at least one, and then remembers that strategy; or no strategy of the discovery has
-- found an id without an error, and it returns no ids, no error, and remembers no strategy.
pub search_all_object_ids-Settled :
    (first net : Network) (memory : Option Strategy)
    → Settled first net (search_all_object_ids first net memory)
unfolding search_all_object_ids
search_all_object_ids-Settled first net none = discover-Settled first net
search_all_object_ids-Settled first net (some s) = elim (Option-cases (good (try first s))) [
  | inr (l, e) ↦ inl (s, l, ground arith, inl e)
  | inl e ↦ rw (search_all_object_ids, e) (discover-Settled first net)
]
