-- ===== src/Fs/Directory/Children.antt =====
-- What `listChildren` lists, against the list of the entries.
use neofs_mount.Prelude.{
  ◌≡◌, refl, ap, sym, ◌∙◌, Text, Bool, true, false, not, ◌&&◌, ◌||◌, Option, none, some, List, [],
  ◌∷◌, ◌++◌, text_eq, text_eq_iff, is_empty, strip, if◌then◌else◌, arith, Map, lookup,
  lookup-insert,
}
use neofs_mount.Neofs.Listing.{SearchEntry, slash}
use neofs_mount.Fs.Directory.{
  starts_with, contains_slash, cut, is_ephemeral_editor_hidden_name, Child, child_or_blank,
  child_path, dir_prefix, add_child, add_rest, gather, Row, names_of, rows_of, list_children,
}
use neofs_mount.Fs.Directory.Names.{
  on_rest, starts_with-append, text_eq-append, starts_with-cut, text_eq-cut,
}

-- A name that a listing may show.
pub record IsPlain (name : Text) : Type 0 where
  pub filled : is_empty name ≡ false
  pub flat : contains_slash name ≡ false
  pub shown : is_ephemeral_editor_hidden_name name ≡ false

-- Whether the path of an entry goes on beneath a name, and whether it ends there.
abbrev pub goes_beneath : Text → Text → SearchEntry → Bool
goes_beneath prefix name e = starts_with (prefix ++ (name ++ slash ∷ [])) (child_path prefix e)

abbrev pub ends_at : Text → Text → SearchEntry → Bool
ends_at prefix name e = text_eq (child_path prefix e) (prefix ++ name)

unfoldable pub any : (SearchEntry → Bool) → List SearchEntry → Bool
any f [] = false
any f (e ∷ entries) = f e || any f entries

-- Whether there is a child with a name, and whether it is a directory.
abbrev pub kind_of : Option Child → Option Bool
kind_of none = none
kind_of (some c) = some c.is_dir

abbrev or_file : Option Bool → Option Bool
or_file none = some false
or_file (some d) = some d

-- What entries beneath a name and at it make of a kind.
abbrev pub later : Option Bool → Bool → Bool → Option Bool
later k beneath at = if beneath then some true else if at then or_file k else k

later-later :
    (k : Option Bool) (b a b' a' : Bool) → later (later k b a) b' a' ≡ later k (b || b') (a || a')
later-later none b a b' a' = ground arith
later-later (some d) b a b' a' = ground arith

module _ (name : Text) (plain : IsPlain name) where
  kind-add_child :
      (e : SearchEntry) (seg : Text) (more : Bool) (children : Map Child)
      → kind_of (lookup name (add_child e seg more children))
        ≡ later
            (kind_of (lookup name children))
            (text_eq seg name && more)
            (text_eq seg name && not more)
  unfolding add_child
  kind-add_child e seg more children = ground (
    arith,
    plain.filled,
    plain.shown,
    text_eq_iff seg name,
    lookup-insert seg name (record (child_or_blank (lookup seg children)) { is_dir = true })
        children,
    lookup-insert seg name (record { is_dir = false; size = e.size; object_id = e.object_id })
        children,
  )

  kind-add_rest :
      (prefix : Text) (e : SearchEntry) (children : Map Child)
      → kind_of (lookup name (add_rest e (strip prefix (child_path prefix e)) children))
        ≡ later
            (kind_of (lookup name children))
            (goes_beneath prefix name e)
            (ends_at prefix name e)
  unfolding add_rest
  kind-add_rest prefix e children =
      let k = kind_of (lookup name children) in
      let o = strip prefix (child_path prefix e) in
      rest_kind o
      ∙ ap (λ b. later k b (on_rest (λ rest. text_eq rest name) o))
          (sym (starts_with-append prefix (name ++ slash ∷ []) (child_path prefix e)))
      ∙ ap (λ b. later k (goes_beneath prefix name e) b)
          (sym (text_eq-append prefix name (child_path prefix e)))
    where
      rest_kind :
          (o : Option Text)
          → kind_of (lookup name (add_rest e o children))
            ≡ later
                (kind_of (lookup name children))
                (on_rest (starts_with (name ++ slash ∷ [])) o)
                (on_rest (λ rest. text_eq rest name) o)
      rest_kind none = refl
      rest_kind (some rest) =
          rw (starts_with-cut name rest plain.flat, text_eq-cut name rest plain.flat)
            (kind-add_child e (cut rest).0 (cut rest).1 children)

  -- The loop shows a name as a directory if some entry goes on beneath it, else as a file if some
  -- entry ends there.
  pub kind-gather :
      (prefix : Text) (entries : List SearchEntry) (children : Map Child)
      → kind_of (lookup name (gather prefix entries children))
        ≡ later
            (kind_of (lookup name children))
            (any (goes_beneath prefix name) entries)
            (any (ends_at prefix name) entries)
  unfolding gather any
  kind-gather prefix [] children = refl
  kind-gather prefix (e ∷ entries) children =
      kind-gather prefix entries (add_rest e (strip prefix (child_path prefix e)) children)
      ∙ ap
          (λ k.
            later k (any (goes_beneath prefix name) entries) (any (ends_at prefix name) entries))
          (kind-add_rest prefix e children)
      ∙ (later-later (kind_of (lookup name children)) (goes_beneath prefix name e)
          (ends_at prefix name e) (any (goes_beneath prefix name) entries)
          (any (ends_at prefix name) entries))

-- Whether a list of names has a name.
unfoldable pub member : Text → List Text → Bool
member name [] = false
member name (n ∷ names) = text_eq n name || member name names

unfoldable pub find_row : Text → List Row → Option Row
find_row name [] = none
find_row name (r ∷ rows) = if text_eq r.name name then some r else find_row name rows

abbrev is_kind : Option Bool → Bool
is_kind none = false
is_kind (some d) = true

member-names_of :
    (name : Text) (children : Map Child)
    → member name (names_of children) ≡ is_kind (kind_of (lookup name children))
unfolding member names_of lookup
member-names_of name [] = refl
member-names_of name ((n, c) ∷ children) = ground (arith, member-names_of name children)

find_row-rows_of :
    (name : Text) (children : Map Child) (names : List Text)
    → find_row name (rows_of children names) ≡ (
        if member name names
        then some
            (record { name = name; directory = (child_or_blank (lookup name children)).is_dir })
        else none)
unfolding find_row rows_of member
find_row-rows_of name children [] = refl
find_row-rows_of name children (n ∷ names) =
    ground (arith, find_row-rows_of name children names, text_eq_iff n name)

-- The row that a kind makes.
abbrev pub row_of : Text → Option Bool → Option Row
row_of name none = none
row_of name (some d) = some (record { name = name; directory = d })

row_of-kind :
    (name : Text) (o : Option Child)
    → (if is_kind (kind_of o)
        then some (record { name = name; directory = (child_or_blank o).is_dir })
        else none)
      ≡ row_of name (kind_of o)
row_of-kind name none = refl
row_of-kind name (some c) = refl

-- Sorting keeps the names.
abbrev pub KeepsNames : (List Text → List Text) → Type 0
KeepsNames sort = (name : Text) (names : List Text) → member name (sort names) ≡ member name names

-- For a sort that keeps the names, a name that is not empty, has no slash and is not hidden is
-- listed as a directory if some entry goes on beneath it, else as a file if some entry ends there,
-- and else not at all.
pub find_row-list_children :
    (sort : List Text → List Text) (path name : Text) (entries : List SearchEntry)
    → KeepsNames sort
    → IsPlain name
    → find_row name (list_children sort path entries)
      ≡ row_of name (
          later none
            (any (goes_beneath (dir_prefix path) name) entries)
            (any (ends_at (dir_prefix path) name) entries))
unfolding list_children lookup
find_row-list_children sort path name entries keeps plain =
    let children = gather (dir_prefix path) entries [] in
    find_row-rows_of name children (sort (names_of children))
    ∙ ap
        (λ b.
          if b
          then some
              (record { name = name; directory = (child_or_blank (lookup name children)).is_dir })
          else none)
        (keeps name (names_of children) ∙ member-names_of name children)
    ∙ row_of-kind name (lookup name children)
    ∙ ap (row_of name) (kind-gather name plain (dir_prefix path) entries [])
