-- ===== src/Neofs/Linear/Pieces.antt =====
-- Paths as texts against paths as pieces.
use neofs_mount.Prelude.{
  ℕ, ◌≡◌, refl, ap, sym, ◌∙◌, Text, Bool, true, false, not, ◌&&◌, Option, none, some, List, [], ◌∷◌,
  ◌++◌, text_eq, is_empty, strip, if◌then◌else◌, ◌==◌, arith,
}
use neofs_mount.Neofs.Listing.{slash, split_slash, non_empty, segments}
use neofs_mount.Neofs.Listing.Views.{Relation, same, above, apart, relate}
use neofs_mount.Fs.Directory.{contains_slash}

-- The prefix of some segments, each with a slash behind it.
unfoldable pub prefix_text : List Text → Text
prefix_text [] = []
prefix_text (s ∷ p) = s ++ slash ∷ prefix_text p

-- Segments that have no slash, and are not empty.
abbrev pub is_segment : Text → Bool
is_segment s = not (is_empty s) && not (contains_slash s)

unfoldable pub all_segments : List Text → Bool
all_segments [] = true
all_segments (s ∷ p) = is_segment s && all_segments p

unfoldable pub none_empty : List Text → Bool
none_empty [] = true
none_empty (s ∷ p) = not (is_empty s) && none_empty p

-- What is behind some pieces.
unfoldable pub after_pieces : List Text → Text × List Text → Option (Text × List Text)
after_pieces [] ps = some ps
after_pieces (s ∷ p) (piece, []) = none
after_pieces (s ∷ p) (piece, next ∷ more) =
    let rest = after_pieces p (next, more) in if text_eq piece s then rest else none

abbrev pub split_rest : Option Text → Option (Text × List Text)
split_rest none = none
split_rest (some rest) = some (split_slash rest)

abbrev pub put_back : ℕ → Text × List Text → Text × List Text
put_back c (piece, more) = if c == slash then ([], piece ∷ more) else (c ∷ piece, more)

split_slash-cons : (c : ℕ) (s : Text) → split_slash (c ∷ s) ≡ put_back c (split_slash s)
unfolding split_slash
split_slash-cons c s = refl

put_back-pieces :
    (c d : ℕ) (s : Text) (p : List Text) (ps : Text × List Text)
    → (c == slash) ≡ false
    → after_pieces ((c ∷ s) ∷ p) (put_back d ps)
      ≡ (if c == d then after_pieces (s ∷ p) ps else none)
unfolding after_pieces text_eq
put_back-pieces c d s p (piece, []) h = ground (arith, h)
put_back-pieces c d s p (piece, next ∷ more) h = ground (arith, h)

put_back-slash :
    (d : ℕ) (p : List Text) (ps : Text × List Text)
    → after_pieces ([] ∷ p) (put_back d ps) ≡ (if d == slash then after_pieces p ps else none)
unfolding after_pieces text_eq
put_back-slash d p (piece, []) = ground arith
put_back-slash d p (piece, next ∷ more) = ground arith

split_rest-if :
    (b : Bool) (o : Option Text)
    → split_rest (if b then o else none) ≡ (if b then split_rest o else none)
split_rest-if true o = refl
split_rest-if false o = refl

strip_segment :
    (s : Text) (p : List Text) (key : Text)
    → contains_slash s ≡ false
    → ((k : Text) → split_rest (strip (prefix_text p) k) ≡ after_pieces p (split_slash k))
    → split_rest (strip (s ++ slash ∷ prefix_text p) key) ≡ after_pieces (s ∷ p) (split_slash key)
unfolding strip contains_slash split_slash after_pieces text_eq
strip_segment [] p [] h below = refl
strip_segment [] p (d ∷ key) h below =
    split_rest-if (slash == d) (strip (prefix_text p) key)
    ∙ ap (λ r. if slash == d then r else none) (below key)
    ∙ (ground arith)
    ∙ sym (put_back-slash d p (split_slash key))
strip_segment (c ∷ s) p [] h below = refl
strip_segment (c ∷ s) p (d ∷ key) h below =
    split_rest-if (c == d) (strip (s ++ slash ∷ prefix_text p) key)
    ∙ ap (λ r. if c == d then r else none) (strip_segment s p key (ground (arith, h)) below)
    ∙ sym (put_back-pieces c d s p (split_slash key) (ground (arith, h)))

-- What follows a prefix, in pieces, is what is behind the prefix's segments.
pub strip-prefix_text :
    (p : List Text) (key : Text)
    → all_segments p ≡ true
    → split_rest (strip (prefix_text p) key) ≡ after_pieces p (split_slash key)
unfolding strip prefix_text after_pieces all_segments
strip-prefix_text [] key h = refl
strip-prefix_text (s ∷ p) key h =
    strip_segment s p key (ground (arith, h)) (λ k. strip-prefix_text p k (ground (arith, h)))

-- How a path with a name stands to pieces, by what is behind the path.
abbrev pub kind : Text → Option (Text × List Text) → Relation
kind name none = apart
kind name (some (piece, [])) = if text_eq piece name then same else apart
kind name (some (piece, next ∷ more)) = if text_eq piece name then above else apart

pub relate-kind :
    (p : List Text) (name piece : Text) (more : List Text)
    → relate (p ++ name ∷ []) (piece ∷ more) ≡ kind name (after_pieces p (piece, more))
unfolding relate after_pieces
relate-kind [] name piece [] = ground arith
relate-kind [] name piece (next ∷ more) = ground arith
relate-kind (s ∷ []) name piece [] = ground arith
relate-kind (s ∷ t ∷ p) name piece [] = ground arith
relate-kind (s ∷ p) name piece (next ∷ more) = ground (arith, relate-kind p name next more)

pub non_empty-same : (l : List Text) → none_empty l ≡ true → non_empty l ≡ l
unfolding non_empty none_empty
non_empty-same [] h = refl
non_empty-same (s ∷ l) h = ground (arith, non_empty-same l)

split_slash-append :
    (s q : Text)
    → contains_slash s ≡ false
    → split_slash (s ++ slash ∷ q) ≡ (s, (split_slash q).0 ∷ (split_slash q).1)
unfolding split_slash contains_slash
split_slash-append [] q h = refl
split_slash-append (c ∷ s) q h =
    let here : (c == slash) ≡ false = ground (arith, h) in
    rw (split_slash-append s q (ground (arith, h)), here) refl

-- The segments of a prefix.
pub segments-prefix_text : (p : List Text) → all_segments p ≡ true → segments (prefix_text p) ≡ p
unfolding segments prefix_text all_segments non_empty split_slash
segments-prefix_text [] h = refl
segments-prefix_text (s ∷ p) h =
    let q = prefix_text p in
    let filled : is_empty s ≡ false = ground (arith, h) in
    rw (split_slash-append s q (ground (arith, h)), filled)
      (ap (◌∷◌ s) (segments-prefix_text p (ground (arith, h))))
