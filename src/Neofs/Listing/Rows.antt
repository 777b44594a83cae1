-- ===== src/Neofs/Listing/Rows.antt =====
-- The rows of a listing, name by name.
use neofs_mount.Prelude.{
  ◌≡◌, refl, ap, sym, ◌∙◌, Text, Bool, true, false, Option, none, some, List, [], ◌∷◌, ◌++◌,
  text_eq, text_eq_iff, if◌then◌else◌, arith, Bool-cases, Option-cases, inl, inr,
}
use neofs_mount.Neofs.Listing.{
  SearchEntry, DirEntry, segments, Node, node, Children, nil, child, find_child, descend, row, rows,
  node_rows, list_immediate_children, build_listing_trie,
}
use neofs_mount.Neofs.Listing.Views.{
  View, look_node, view, view-build_listing_trie, beneath, first_at, expected,
}

-- The first row with a name.
unfoldable pub find_row : Text → List DirEntry → Option DirEntry
find_row name [] = none
find_row name (r ∷ l) = if text_eq r.name name then some r else find_row name l

-- The row that a view of a path makes under its last name.
abbrev pub row_of : Text → Option View → Option DirEntry
row_of name none = none
row_of name (some v) =
    if v.directory
    then some (record { name = name; object_id = []; size = 0; is_directory = true })
    else elim v.file [
      | none ↦ none
      | some e ↦
          some
            (record { name = name; object_id = e.object_id; size = e.size; is_directory = false })
    ]

row-row_of : (name : Text) (n : Node) → row name n ≡ row_of name (view [] n)
unfolding row view descend
row-row_of name (node ch f) = refl

row-name : (name : Text) (n : Node) {r : DirEntry} → row name n ≡ some r → r.name ≡ name
unfolding row
row-name name (node ch none) h = ground arith
row-name name (node ch (some e)) h = ground arith

find_row-absent :
    (name : Text) (ch : Children) → find_child name ch ≡ none → find_row name (rows ch) ≡ none
unfolding find_row rows find_child
find_row-absent name nil h = refl
find_row-absent name (child t n ch) h = elim (Option-cases (row t n)) [
  | inl e ↦ ground (arith, find_row-absent name ch)
  | inr (r, e) ↦ ground (arith, find_row-absent name ch, row-name t n e)
]

find_row-present :
    (name : Text) (ch : Children) (n : Node) (r : DirEntry)
    → find_child name ch ≡ some n
    → row name n ≡ some r
    → find_row name (rows ch) ≡ some r
unfolding find_row rows find_child
find_row-present name nil n r h p = cc
find_row-present name (child t m ch) n r h p = elim (Bool-cases (text_eq t name)) [
  | inl eq ↦
      let e : t ≡ name = (text_eq_iff t name).0 eq in
      let here : m ≡ n = ground arith in
      let q : row t m ≡ some r = rw (e, here) p in ground (arith, q, row-name t m q, eq)
  | inr ne ↦
      let later = find_row-present name ch n r (ground arith) p in
      elim (Option-cases (row t m)) [
        | inl e ↦ rw e later
        | inr (r', e) ↦ rw e (ground (arith, later, row-name t m e, ne))
      ]
]

-- The view of a name beneath a path.
view-concat :
    (p : List Text) (name : Text) (n : Node)
    → view (p ++ name ∷ []) n ≡ (elim (descend p n) [ none ↦ none | some m ↦ view (name ∷ []) m ])
unfolding view descend
view-concat [] name n = refl
view-concat (t ∷ p) name (node ch f) = elim (Option-cases (find_child t ch)) [
  | inl e ↦ rw (e, descend) refl
  | inr (m, e) ↦ rw (e, descend) (view-concat p name m)
]

-- A path that is there makes a row.
makes_row :
    (name : Text) (b : Bool) (first : Option SearchEntry) (v : View)
    → expected b first ≡ some v
    → (r : DirEntry) × (row_of name (expected b first) ≡ some r)
makes_row name true first v h = (_, refl)
makes_row name false (some e) v h = (_, refl)
makes_row name false none v h = cc

-- A node whose view makes a row, or that is not there, is listed as its view says.
find_row-node_rows :
    (name : Text) (o : Option Node) (b : Bool) (first : Option SearchEntry)
    → (elim o [ none ↦ none | some m ↦ view (name ∷ []) m ]) ≡ expected b first
    → find_row name (node_rows o) ≡ row_of name (expected b first)
unfolding node_rows
find_row-node_rows name none b first h = rw (← h) (unfold find_row in refl)
find_row-node_rows name (some (node ch f)) b first h = elim (Option-cases (find_child name ch)) [
  | inl e ↦
      let gone : expected b first ≡ none = sym h ∙ (unfold view descend in rw (e, descend) refl) in
      rw gone (find_row-absent name ch e)
  | inr (n, e) ↦
      let here : expected b first ≡ view [] n =
        sym h ∙ (unfold view descend in rw (e, descend) refl) in
      let (r, made) = makes_row name b first (look_node n) (here ∙ (unfold view descend in refl)) in
      rw made
        (find_row-present name ch n r e (row-row_of name n ∙ ap (row_of name) (sym here) ∙ made))
]

-- The first row with a name in the listing of a prefix, taken from the trie of any list of entries,
-- is a directory if some entry's path goes on beneath the prefix and the name, else the file of the
-- first entry with just that path, and is not there if no entry has such a path.
pub find_row-list_immediate_children :
    (prefix name : Text) (entries : List SearchEntry)
    → find_row name (list_immediate_children prefix (build_listing_trie entries))
      ≡ row_of name (
          expected
            (beneath (segments prefix ++ name ∷ []) entries)
            (first_at (segments prefix ++ name ∷ []) entries))
unfolding list_immediate_children
find_row-list_immediate_children prefix name entries =
    find_row-node_rows name (descend (segments prefix) (build_listing_trie entries)) _ _ (
      sym (view-concat (segments prefix) name (build_listing_trie entries))
      ∙ seen (segments prefix))
  where
    seen :
        (p : List Text)
        → view (p ++ name ∷ []) (build_listing_trie entries)
          ≡ expected (beneath (p ++ name ∷ []) entries) (first_at (p ++ name ∷ []) entries)
    seen [] = view-build_listing_trie name [] entries
    seen (t ∷ p) = view-build_listing_trie t (p ++ name ∷ []) entries
