-- ===== src/Neofs/Linear/Agree.antt =====
-- The listing that goes through all entries agrees with that of the trie.
use neofs_mount.Prelude.{
  ◌≡◌, refl, ap, sym, ◌∙◌, ◌⊎◌, inl, inr, Text, Bool, true, false, ◌&&◌, ◌||◌, Option, none, some,
  List, [], ◌∷◌, ◌++◌, text_eq, text_eq_iff, is_empty, strip, if◌then◌else◌, arith,
}
use neofs_mount.Neofs.Listing.{
  SearchEntry, DirEntry, entry_path_key, split_slash, segments, non_empty, list_immediate_children,
  build_listing_trie,
}
use neofs_mount.Neofs.Listing.Views.{
  Relation, same, above, apart, relate, beneath, first_at, expected, is_above, keep_same,
}
use neofs_mount.Neofs.Listing.Rows.{find_row, row_of, find_row-list_immediate_children}
use neofs_mount.Neofs.Linear.{
  dir_row, file_row, piece_row, rest_row, linear_row, is_seen, add_row, linear_from,
  list_entries_by_prefix_linear, or_rows, kept_rows, Scanned, Entries, listed_rows,
  normalize_neofs_prefix, list_entries_by_prefix,
}
use neofs_mount.Neofs.Linear.Pieces.{
  prefix_text, all_segments, none_empty, after_pieces, split_rest, kind, relate-kind,
  non_empty-same, strip-prefix_text, segments-prefix_text,
}

abbrev keep_named : Text → Option DirEntry → Option DirEntry
keep_named name none = none
keep_named name (some r) = if text_eq r.name name then some r else none

abbrev or_row : Option DirEntry → Option DirEntry → Option DirEntry
or_row (some r) rest = some r
or_row none rest = rest

-- The first row with a name that the entries would make.
unfoldable first_row : Text → Text → List SearchEntry → Option DirEntry
first_row prefix name [] = none
first_row prefix name (e ∷ entries) =
    or_row (keep_named name (linear_row prefix e)) (first_row prefix name entries)

-- The rows that are seen under other names hide nothing.
find_row-linear_from :
    (prefix name : Text) (seen : List Text) (entries : List SearchEntry)
    → is_seen name seen ≡ false
    → find_row name (linear_from prefix seen entries) ≡ first_row prefix name entries
unfolding find_row linear_from first_row is_seen
find_row-linear_from prefix name seen [] h = refl
find_row-linear_from prefix name seen (e ∷ entries) h =
    added (linear_row prefix e) (find_row-linear_from prefix name seen entries h)
      (λ s k. find_row-linear_from prefix name (s ∷ seen) entries (ground (arith, h, k)))
  where
    added :
        (o : Option DirEntry)
        → find_row name (linear_from prefix seen entries) ≡ first_row prefix name entries
        → ((s : Text)
            → text_eq s name ≡ false
            → find_row name (linear_from prefix (s ∷ seen) entries) ≡ first_row prefix name entries)
        → find_row name (add_row o seen (λ seen'. linear_from prefix seen' entries))
          ≡ or_row (keep_named name o) (first_row prefix name entries)
    added none kept others = kept
    added (some r) kept others =
        let same : text_eq r.name name ≡ true → is_seen r.name seen ≡ false =
          λ q. ap (λ n. is_seen n seen) ((text_eq_iff r.name name).0 q) ∙ h in
        ground (arith, kept, others r.name, same)

-- An entry whose path has no empty segment.
abbrev pub is_plain : SearchEntry → Bool
is_plain e =
    is_empty (entry_path_key e)
    || none_empty ((split_slash (entry_path_key e)).0 ∷ (split_slash (entry_path_key e)).1)

unfoldable pub all_plain : List SearchEntry → Bool
all_plain [] = true
all_plain (e ∷ entries) = is_plain e && all_plain entries

-- The row of a name that a relation makes.
abbrev row_at : Text → SearchEntry → Relation → Option DirEntry
row_at name e same = some (file_row name e)
row_at name e above = some (dir_row name)
row_at name e apart = none

abbrev behind_row : SearchEntry → Option (Text × List Text) → Option DirEntry
behind_row e none = none
behind_row e (some ps) = piece_row e ps

piece_row-kind :
    (name : Text) (e : SearchEntry) (o : Option (Text × List Text))
    → is_empty name ≡ false
    → keep_named name (behind_row e o) ≡ row_at name e (kind name o)
unfolding text_eq
piece_row-kind name e none h = refl
piece_row-kind name e (some (piece, [])) h = ground (arith, text_eq_iff piece name, h)
piece_row-kind name e (some (piece, next ∷ more)) h = ground (arith, text_eq_iff piece name, h)

rest_row-split : (e : SearchEntry) (o : Option Text) → rest_row e o ≡ behind_row e (split_rest o)
unfolding split_slash
rest_row-split e none = refl
rest_row-split e (some []) = refl
rest_row-split e (some (c ∷ rest)) = refl

relate-short : (p : List Text) (name : Text) → relate (p ++ name ∷ []) [] ≡ apart
unfolding relate
relate-short [] name = refl
relate-short (s ∷ p) name = refl

keyed :
    (p : List Text) (name : Text) (e : SearchEntry) (key : Text)
    → all_segments p ≡ true
    → is_empty name ≡ false
    → is_empty key || none_empty ((split_slash key).0 ∷ (split_slash key).1) ≡ true
    → keep_named name (if is_empty key then none else rest_row e (strip (prefix_text p) key))
      ≡ row_at name e (relate (p ++ name ∷ []) (segments key))
unfolding segments non_empty split_slash
keyed p name e [] ok filled plain = ap (row_at name e) (sym (relate-short p name))
keyed p name e (c ∷ key) ok filled plain =
    let ps = split_slash (c ∷ key) in
    ap (keep_named name) (rest_row-split e (strip (prefix_text p) (c ∷ key)))
    ∙ ap (λ o. keep_named name (behind_row e o)) (strip-prefix_text p (c ∷ key) ok)
    ∙ piece_row-kind name e (after_pieces p ps) filled
    ∙ ap (row_at name e) (
        sym (relate-kind p name ps.0 ps.1)
        ∙ ap (relate (p ++ name ∷ [])) (sym (non_empty-same (ps.0 ∷ ps.1) plain)))

linear_row-relate :
    (p : List Text) (name : Text) (e : SearchEntry)
    → all_segments p ≡ true
    → is_empty name ≡ false
    → is_plain e ≡ true
    → keep_named name (linear_row (prefix_text p) e)
      ≡ row_at name e (relate (p ++ name ∷ []) (segments (entry_path_key e)))
unfolding linear_row
linear_row-relate p name e ok filled plain = keyed p name e (entry_path_key e) ok filled plain

-- One entry more, by its relation to the path.
related :
    (name : Text) (e : SearchEntry) (r : Relation) (b : Bool) (f : Option SearchEntry)
    (rest : Option DirEntry)
    → (is_above r || b ≡ false) ⊎ (keep_same r e f ≡ none)
    → ((b ≡ false) ⊎ (f ≡ none) → rest ≡ row_of name (expected b f))
    → or_row (row_at name e r) rest ≡ row_of name (expected (is_above r || b) (keep_same r e f))
related name e same b f rest (inl h) later = rw h refl
related name e same b f rest (inr h) later = absurd (ground arith)
related name e above b f rest one later = refl
related name e apart b f rest one later = later one

first_row-expected :
    (p : List Text) (name : Text) (entries : List SearchEntry)
    → all_segments p ≡ true
    → is_empty name ≡ false
    → all_plain entries ≡ true
    → (beneath (p ++ name ∷ []) entries ≡ false) ⊎ (first_at (p ++ name ∷ []) entries ≡ none)
    → first_row (prefix_text p) name entries
      ≡ row_of name
          (expected (beneath (p ++ name ∷ []) entries) (first_at (p ++ name ∷ []) entries))
unfolding first_row beneath first_at all_plain
first_row-expected p name [] ok filled plain one = refl
first_row-expected p name (e ∷ entries) ok filled plain one =
    let q = p ++ name ∷ [] in
    ap (λ o. or_row o (first_row (prefix_text p) name entries))
      (linear_row-relate p name e ok filled (ground (arith, plain)))
    ∙ (related name e (relate q (segments (entry_path_key e))) (beneath q entries)
        (first_at q entries) (first_row (prefix_text p) name entries) one
        (λ rest. first_row-expected p name entries ok filled (ground (arith, plain)) rest))

-- For a prefix of segments without slashes and entries whose paths have no empty segment: under any
-- name at which there is not both a file and something beneath, the listing that goes through all
-- entries and the listing of their trie have the same row, or both none.
pub find_row-list_entries_by_prefix_linear :
    (p : List Text) (name : Text) (entries : List SearchEntry)
    → all_segments p ≡ true
    → is_empty name ≡ false
    → all_plain entries ≡ true
    → (beneath (p ++ name ∷ []) entries ≡ false) ⊎ (first_at (p ++ name ∷ []) entries ≡ none)
    → find_row name (list_entries_by_prefix_linear entries (prefix_text p))
      ≡ find_row name (list_immediate_children (prefix_text p) (build_listing_trie entries))
unfolding list_entries_by_prefix_linear is_seen
find_row-list_entries_by_prefix_linear p name entries ok filled plain one =
    find_row-linear_from (prefix_text p) name [] entries refl
    ∙ first_row-expected p name entries ok filled plain one
    ∙ sym (
        find_row-list_immediate_children (prefix_text p) name entries
        ∙ ap
            (λ q.
              row_of name
                (expected (beneath (q ++ name ∷ []) entries) (first_at (q ++ name ∷ []) entries)))
            (segments-prefix_text p ok))

-- What stands first of two listings that agree on a name.
find_row-or_rows :
    (name : Text) (out alt : List DirEntry)
    → find_row name alt ≡ find_row name out
    → find_row name (or_rows out alt) ≡ find_row name out
find_row-or_rows name [] alt h = h
find_row-or_rows name (r ∷ out) alt h = refl

-- For a prefix that is normalized to segments without slashes and entries whose paths have no empty
-- segment, what ListEntriesByPrefix returns of a container that is kept has, under any name at which
-- there is not both a file and something beneath, a directory if some entry's path goes on beneath it,
-- else the file of the first entry with just that path, and nothing if no entry has such a path.
pub list_entries_by_prefix-expected :
    (trim_space : Text → Text) (prefix : Text) (p : List Text) (name : Text)
    (entries : List SearchEntry) (first : Scanned) (second : Entries)
    → normalize_neofs_prefix trim_space prefix ≡ prefix_text p
    → all_segments p ≡ true
    → is_empty name ≡ false
    → all_plain entries ≡ true
    → (beneath (p ++ name ∷ []) entries ≡ false) ⊎ (first_at (p ++ name ∷ []) entries ≡ none)
    → (l : List DirEntry) × (list_entries_by_prefix trim_space true
          (some entries)
          first
          second
          prefix
        ≡ listed_rows l)
      × (find_row name l
          ≡ row_of name
              (expected (beneath (p ++ name ∷ []) entries) (first_at (p ++ name ∷ []) entries)))
unfolding list_entries_by_prefix kept_rows
list_entries_by_prefix-expected trim_space prefix p name entries first second at ok filled plain
      one =
    let out = list_immediate_children (prefix_text p) (build_listing_trie entries) in
    (
      or_rows out (list_entries_by_prefix_linear entries (prefix_text p)),
      ap (λ q. listed_rows (kept_rows entries q)) at,
      find_row-or_rows name out (list_entries_by_prefix_linear entries (prefix_text p))
            (find_row-list_entries_by_prefix_linear p name entries ok filled plain one)
          ∙ find_row-list_immediate_children (prefix_text p) name entries
          ∙ ap
              (λ q.
                row_of name
                  (expected (beneath (q ++ name ∷ []) entries) (first_at (q ++ name ∷ []) entries)))
              (segments-prefix_text p ok),
    )
