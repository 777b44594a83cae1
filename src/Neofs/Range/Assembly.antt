-- ===== src/Neofs/Range/Assembly.antt =====
-- The bytes that a multipart read returns do not depend on the order in which its parts arrive.
use neofs_mount.Prelude.{
  ℕ, zero, suc, ◌+◌, ◌-◌, ◌≤◌, ◌<◌, ◌≡◌, ◌⊎◌, inl, inr, refl, ap, sym, ◌∙◌, Text, Bool, true, false,
  ◌||◌, Option, none, some, List, [], ◌∷◌, ◌++◌, get_elem?, set, length, map, ◌==◌, length-set,
  get_elem?-set, get_elem?-map, get_elem?-eq-none, eq_of_get_elem?, lt_of_get_elem?, length-map,
  if◌then◌else◌, arith, Option-cases,
}
use neofs_mount.Prelude.Slices.{slice}
use neofs_mount.Neofs.Range.{
  Part, bytes, failed, PartResult, blanks, take_result, collect, finish, assemble,
  split_object_range,
}
use neofs_mount.Neofs.Range.Slices.{split_object_range-Tiles, concat-slices}

-- Some result is that of the part with the index.
unfoldable pub arrived : ℕ → List PartResult → Bool
arrived i [] = false
arrived i (r ∷ rs) = r.part.index == i || arrived i rs

-- Every result is that of a part that was asked for, and brings the bytes of its range.
abbrev pub Honest : Text → List Part → List PartResult → Type 0
Honest object parts [] = Unit
Honest object parts (r ∷ rs) =
    (get_elem? parts r.part.index ≡ some r.part)
    × (r.outcome ≡ bytes (slice r.part.offset r.part.length object))
    × Honest object parts rs

collect_bytes :
    (r : PartResult) (rs : List PartResult) (out : List Text) (err : Option ℕ) (buf : Text)
    → r.outcome ≡ bytes buf
    → collect (r ∷ rs) (out, err) ≡ collect rs (set out r.part.index buf, err)
unfolding collect take_result
collect_bytes r rs out err buf o = ap (collect rs) (ground arith)

part_unique :
    (parts : List Part) (i : ℕ) (p q : Part)
    → get_elem? parts i ≡ some p
    → get_elem? parts q.index ≡ some q
    → (q.index == i) ≡ true
    → q ≡ p
part_unique parts i p q g h e =
    let same : q.index ≡ i = ground arith in
    let h' : get_elem? parts i ≡ some q = rw (← same) h in cc (g, h')

length_of_none {ℓ} : {A : Type ℓ} (xs : List A) (i : ℕ) → get_elem? xs i ≡ none → length xs ≤ i
length_of_none [] i h = omega arith
length_of_none (x ∷ xs) zero h = cc
length_of_none (x ∷ xs) (suc i) h = omega (arith, length_of_none xs i h)

length-blanks : (n : ℕ) → length (blanks n) ≡ n
unfolding blanks
length-blanks zero = refl
length-blanks (suc n) = ap suc (length-blanks n)

module _ (object : Text) (parts : List Part) where
  -- What stands in the array at an index once some results are in.
  collect-get :
      (rs : List PartResult) (out : List Text) (i : ℕ) (p : Part)
      → Honest object parts rs
      → get_elem? parts i ≡ some p
      → length out ≡ length parts
      → get_elem? (collect rs (out, none)).0 i
        ≡ (if arrived i rs then some (slice p.offset p.length object) else get_elem? out i)
  unfolding collect arrived
  collect-get [] out i p h g b = refl
  collect-get (r ∷ rs) out i p (q, o, h) g b =
      let buf = slice r.part.offset r.part.length object in
      let inside : r.part.index < length out =
        omega (arith, b, lt_of_get_elem? parts r.part.index r.part q) in
      rw (collect_bytes r rs out none buf o) (
        ground (
          arith,
          collect-get rs (set out r.part.index buf) i p h g (length-set out r.part.index buf ∙ b),
          get_elem?-set out r.part.index i buf inside,
          part_unique parts i p r.part g q,
        ))

  collect-errors :
      (rs : List PartResult) (out : List Text)
      → Honest object parts rs
      → length out ≡ length parts
      → ((collect rs (out, none)).1 ≡ none) × (length (collect rs (out, none)).0 ≡ length parts)
  unfolding collect
  collect-errors [] out h b = (refl, b)
  collect-errors (r ∷ rs) out (q, o, h) b =
      let buf = slice r.part.offset r.part.length object in
      rw (collect_bytes r rs out none buf o)
        (collect-errors rs (set out r.part.index buf) h (length-set out r.part.index buf ∙ b))

  -- Once every part is in, the array holds the bytes of the parts, in the order of their indices.
  collect-all :
      (rs : List PartResult)
      → Honest object parts rs
      → ((i : ℕ) → i < length parts → arrived i rs ≡ true)
      → collect rs (blanks (length parts), none)
        ≡ (map (λ (p : Part). slice p.offset p.length object) parts, none)
  collect-all rs h all =
      let start = blanks (length parts) in
      let b = length-blanks (length parts) in
      let fetched = λ (p : Part). slice p.offset p.length object in
      let (clean, long) = collect-errors rs start h b in
      let same = eq_of_get_elem? (collect rs (start, none)).0 (map fetched parts) λ i.
        elim (Option-cases (get_elem? parts i)) [
          | inr (p, g) ↦
              collect-get rs start i p h g b
              ∙ rw (all i (lt_of_get_elem? parts i p g)) (sym (get_elem?-map fetched parts i g))
          | inl g ↦
              get_elem?-eq-none _ i (omega (arith, long, length_of_none parts i g))
              ∙ sym (
                  get_elem?-eq-none _ i
                    (omega (arith, length-map fetched parts, length_of_none parts i g)))
        ] in
      λ k. (same k, clean k)

-- However the parts of a ranged read arrive, with every part arriving and every arrival bringing
-- the bytes of its part, the read returns the bytes of the object from `offset` on, `len` of them.
pub assemble-slice :
    (object : Text) (offset len : ℕ) (rs : List PartResult)
    → Honest object (split_object_range offset len) rs
    → ((i : ℕ) → i < length (split_object_range offset len) → arrived i rs ≡ true)
    → assemble (length (split_object_range offset len)) rs ≡ bytes (slice offset len object)
unfolding assemble
assemble-slice object offset len rs h all =
    let parts = split_object_range offset len in
    let d : offset + len - offset ≡ len = omega arith in
    rw (collect-all object parts rs h all) (
      ap bytes (
        concat-slices 0 offset (offset + len) parts object (split_object_range-Tiles offset len)
        ∙ rw d refl))

-- An error that has arrived is kept.
take_result_error :
    (r : PartResult) (s : List Text × Option ℕ) (e : ℕ)
    → (s.1 ≡ some e) ⊎ ((s.1 ≡ none) × (r.outcome ≡ failed e))
    → (take_result r s).1 ≡ some e
unfolding take_result
take_result_error r s e h = ground arith

collect_error :
    (rs : List PartResult) (s : List Text × Option ℕ) (e : ℕ)
    → s.1 ≡ some e
    → (collect rs s).1 ≡ some e
unfolding collect
collect_error [] s e h = h
collect_error (r ∷ rs) s e h =
    collect_error rs (take_result r s) e (take_result_error r s e (inl h))

collect-append :
    (a b : List PartResult) (s : List Text × Option ℕ)
    → collect (a ++ b) s ≡ collect b (collect a s)
unfolding collect
collect-append [] b s = refl
collect-append (r ∷ a) b s = collect-append a b (take_result r s)

finish_error : (s : List Text × Option ℕ) (e : ℕ) → s.1 ≡ some e → finish s ≡ failed e
unfolding finish
finish_error (out, none) e h = cc
finish_error (out, some f) e h = cc

-- A read of which some part failed returns the error that arrived first, whatever else arrives.
pub assemble-failed :
    (object : Text) (parts : List Part) (ahead rs : List PartResult) (r : PartResult) (e : ℕ)
    → Honest object parts ahead
    → r.outcome ≡ failed e
    → assemble (length parts) (ahead ++ r ∷ rs) ≡ failed e
unfolding assemble collect
assemble-failed object parts ahead rs r e honest bad =
    let clean = (collect-errors object parts ahead _ honest (length-blanks (length parts))).0 in
    rw (collect-append ahead (r ∷ rs)) (
      finish_error _ e (
        collect_error rs _ e
          (take_result_error r (collect ahead (blanks (length parts), none)) e (inr (clean, bad)))))
