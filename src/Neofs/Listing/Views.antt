-- ===== src/Neofs/Listing/Views.antt =====
-- What the trie says of a path, against what the list of entries says of it.
use neofs_mount.Prelude.{
  ◌≡◌, refl, ap, sym, ◌∙◌, Text, Bool, true, false, ◌||◌, Option, none, some, List, [], ◌∷◌,
  text_eq, text_eq_iff, if◌then◌else◌, arith, Bool-cases, inl, inr,
}
use neofs_mount.Neofs.Listing.{
  SearchEntry, entry_path_key, segments, Node, node, Children, nil, child, blank, update,
  find_child, has_children, or_file, park, clear, insert_segments, insert_non_empty, insert_entry,
  build_from, build_listing_trie, descend,
}

-- Whether something lives beneath a path, and the file there.
pub record View : Type 0 where
  pub directory : Bool
  pub file : Option SearchEntry

abbrev pub look_node : Node → View
look_node (node ch f) = record { directory = has_children ch; file = f }

abbrev pub view_of : Option Node → Option View
view_of none = none
view_of (some n) = some (look_node n)

-- What the trie says of a path.
unfoldable pub view : List Text → Node → Option View
view q n = view_of (descend q n)

-- How one path stands to another: `q` against the segments of an entry.
pub data Relation : Type 0 where
  same above apart : Relation

unfoldable pub relate : List Text → List Text → Relation
relate [] [] = same
relate [] (s ∷ segs) = above
relate (t ∷ q) [] = apart
relate (t ∷ q) (s ∷ segs) = if text_eq s t then relate q segs else apart

abbrev or_blank : Option Node → Node
or_blank none = blank
or_blank (some n) = n

find_child-update :
    (s t : Text) (f : Node → Node) (ch : Children)
    → find_child t (update s f ch)
      ≡ (if text_eq s t then some (f (or_blank (find_child s ch))) else find_child t ch)
unfolding find_child update
find_child-update s t f nil = ground (arith)
find_child-update s t f (child u n ch) =
    ground (arith, find_child-update s t f ch, text_eq_iff u s, text_eq_iff u t, text_eq_iff s t)

-- What an entry does to the view of a path.
unfoldable pub touch : Relation → SearchEntry → Option View → Option View
touch same e none = some (record { directory = false; file = some e })
touch same e (some v) = some (record v { file = if v.directory then v.file else or_file v.file e })
touch above e v = some (record { directory = true; file = none })
touch apart e v = v

update-has_children :
    (s : Text) (f : Node → Node) (ch : Children) → has_children (update s f ch) ≡ true
unfolding update
update-has_children s f nil = refl
update-has_children s f (child t n ch) = ground arith

view-cons :
    (t : Text) (q : List Text) (ch : Children) (f : Option SearchEntry)
    → view (t ∷ q) (node ch f) ≡ (elim (find_child t ch) [ none ↦ none | some n ↦ view q n ])
unfolding view descend
view-cons t q ch f = ground arith

-- A node that is made on the way counts as none at all.
touch-blank :
    (q segs : List Text) (e : SearchEntry) (o : Option Node)
    → touch (relate q segs) e (view q (or_blank o))
      ≡ touch (relate q segs) e (elim o [ none ↦ none | some n ↦ view q n ])
unfolding touch relate view descend find_child
touch-blank q segs e (some n) = refl
touch-blank [] [] e none = refl
touch-blank [] (s ∷ segs) e none = refl
touch-blank (t ∷ q) segs e none = refl

view-update_same :
    (t s : Text) (q : List Text) (g : Node → Node) (ch : Children) (f : Option SearchEntry)
    → text_eq s t ≡ true
    → view (t ∷ q) (node (update s g ch) f) ≡ view q (g (or_blank (find_child t ch)))
view-update_same t s q g ch f e =
    let same : s ≡ t = (text_eq_iff s t).0 e in rw (view-cons, find_child-update, e, same)

view-update_other :
    (t s : Text) (q : List Text) (g : Node → Node) (ch : Children) (f h : Option SearchEntry)
    → text_eq s t ≡ false
    → view (t ∷ q) (node (update s g ch) f) ≡ view (t ∷ q) (node ch h)
view-update_other t s q g ch f h e =
    view-cons t q (update s g ch) f ∙ (rw (find_child-update, e) (sym (view-cons t q ch h)))

relate-cons :
    (t s : Text) (q segs : List Text)
    → relate (t ∷ q) (s ∷ segs) ≡ (if text_eq s t then relate q segs else apart)
unfolding relate
relate-cons t s q segs = refl

-- One insertion, seen from any path.
view-insert :
    (q segs : List Text) (e : SearchEntry) (n : Node)
    → view q (insert_segments segs e (clear segs n)) ≡ touch (relate q segs) e (view q n)
unfolding insert_segments clear
view-insert [] [] e (node ch f) = unfold view descend park touch relate in ground arith
view-insert [] (s ∷ segs) e (node ch f) =
    unfold view descend touch relate in
    ground (arith, update-has_children s (λ n. insert_segments segs e (clear segs n)) ch)
view-insert (t ∷ q) [] e (node ch f) = unfold view descend park touch relate in refl
view-insert (t ∷ q) (s ∷ segs) e (node ch f) =
    let g = λ (n : Node). insert_segments segs e (clear segs n) in
    elim (Bool-cases (text_eq s t)) [
      | inl eq ↦
          view-update_same t s q g ch none eq
          ∙ view-insert q segs e (or_blank (find_child t ch))
          ∙ touch-blank q segs e (find_child t ch)
          ∙ rw (relate-cons, eq, view-cons) refl
      | inr ne ↦
          view-update_other t s q g ch none f ne ∙ rw (relate-cons, ne) (unfold touch in refl)
    ]

-- The root keeps its file, which no path but the empty one sees.
view-insert_non_empty :
    (t : Text) (q segs : List Text) (e : SearchEntry) (n : Node)
    → view (t ∷ q) (insert_non_empty segs e n) ≡ touch (relate (t ∷ q) segs) e (view (t ∷ q) n)
unfolding insert_non_empty
view-insert_non_empty t q [] e n = unfold relate touch in refl
view-insert_non_empty t q (s ∷ segs) e (node ch f) =
    let grown = update s (λ n. insert_segments segs e (clear segs n)) ch in
    let whole = view-insert (t ∷ q) (s ∷ segs) e (node ch f) in
    unfold insert_segments clear in (view-cons t q grown f ∙ sym (view-cons t q grown none) ∙ whole)

-- What a list of entries does to the view of a path, one entry after the other.
after : List Text → List SearchEntry → Option View → Option View
after q [] v = v
after q (e ∷ entries) v = after q entries (touch (relate q (segments (entry_path_key e))) e v)

view-build_from :
    (t : Text) (q : List Text) (entries : List SearchEntry) (root : Node)
    → view (t ∷ q) (build_from entries root) ≡ after (t ∷ q) entries (view (t ∷ q) root)
unfolding build_from insert_entry after
view-build_from t q [] root = refl
view-build_from t q (e ∷ entries) root =
    view-build_from t q entries (insert_entry e root)
    ∙ ap (after (t ∷ q) entries) (view-insert_non_empty t q (segments (entry_path_key e)) e root)

-- The specification: whether some entry lives beneath a path, and the first entry with that path.
abbrev pub is_above : Relation → Bool
is_above same = false
is_above above = true
is_above apart = false

abbrev pub keep_same : Relation → SearchEntry → Option SearchEntry → Option SearchEntry
keep_same same e later = some e
keep_same above e later = later
keep_same apart e later = later

unfoldable pub beneath : List Text → List SearchEntry → Bool
beneath q [] = false
beneath q (e ∷ entries) = is_above (relate q (segments (entry_path_key e))) || beneath q entries

unfoldable pub first_at : List Text → List SearchEntry → Option SearchEntry
first_at q [] = none
first_at q (e ∷ entries) = keep_same (relate q (segments (entry_path_key e))) e (first_at q entries)

-- A path is a directory if something lives beneath it, else the first file there, else nothing.
abbrev pub expected : Bool → Option SearchEntry → Option View
expected true e = some (record { directory = true; file = none })
expected false none = none
expected false (some e) = some (record { directory = false; file = some e })

after-directory :
    (q : List Text) (entries : List SearchEntry)
    → after q entries (expected true none) ≡ expected true none
unfolding after touch
after-directory q [] = refl
after-directory q (e ∷ entries) = ground (arith, after-directory q entries)

after-file :
    (q : List Text) (entries : List SearchEntry) (f : SearchEntry)
    → after q entries (expected false (some f)) ≡ expected (beneath q entries) (some f)
unfolding after touch beneath
after-file q [] f = refl
after-file q (e ∷ entries) f = ground (arith, after-directory q entries, after-file q entries f)

after-none :
    (q : List Text) (entries : List SearchEntry)
    → after q entries none ≡ expected (beneath q entries) (first_at q entries)
unfolding after touch beneath first_at
after-none q [] = refl
after-none q (e ∷ entries) =
    ground (arith, after-directory q entries, after-file q entries e, after-none q entries)

-- In the trie of a list of entries a path is a directory if the path of some entry goes on beneath
-- it, else the first of the entries with just that path, else it is not there.
pub view-build_listing_trie :
    (t : Text) (q : List Text) (entries : List SearchEntry)
    → view (t ∷ q) (build_listing_trie entries)
      ≡ expected (beneath (t ∷ q) entries) (first_at (t ∷ q) entries)
unfolding build_listing_trie
view-build_listing_trie t q entries =
    view-build_from t q entries blank
    ∙ (unfold view descend find_child in after-none (t ∷ q) entries)
