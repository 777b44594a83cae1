-- ===== src/Neofs/Range/Slices.antt =====
-- The parts of a ranged read tile the range.
use neofs_mount.Prelude.{
  ℕ, zero, suc, ◌+◌, ◌-◌, ◌*◌, ◌≤◌, ◌<◌, ◌^◌, ◌≡◌, refl, Text, false, List, [], ◌∷◌, leb, min,
  arith, map,
}
use neofs_mount.Prelude.Slices.{slice, slice-append}
use neofs_mount.Neofs.Range.{concat, Part, part_size, part_at, parts_from, split_object_range}

-- The parts have the indices from `i` on, none is empty or longer than a part may be, each begins
-- where the one before it ends, and the last ends at `e`.
abbrev pub Tiles : ℕ → ℕ → ℕ → List Part → Type 0
Tiles i s e [] = s ≡ e
Tiles i s e (p ∷ ps) =
    (p.index ≡ i)
    × (p.offset ≡ s)
    × (0 < p.length)
    × (p.length ≤ part_size)
    × Tiles (i + 1) (s + p.length) e ps

-- With `n` rounds left at round `i` the range reaches into part `i + n - 1` and no further.
parts_from-Tiles :
    (offset len n i s : ℕ)
    → s ≡ offset + min (i * part_size) len
    → len ≤ (i + n) * part_size
    → (i + n) * part_size < len + part_size
    → Tiles i s (offset + len) (parts_from offset len n i)
unfolding parts_from part_at
parts_from-Tiles offset len zero i s e a b = omega arith
parts_from-Tiles offset len (suc n) i s e a b =
    let l = (part_at offset len i).length in
    let w : l ≡ min part_size (len - i * part_size) = ground arith in
    (
      refl,
      omega arith,
      omega (arith, w),
      omega (arith, w),
      parts_from-Tiles offset len n (i + 1) (s + l) (omega (arith, w)) (omega arith) (omega arith),
    )

Tiles-le : (i s e : ℕ) (ps : List Part) → Tiles i s e ps → s ≤ e
Tiles-le i s e [] t = omega arith
Tiles-le i s e (p ∷ ps) (_, _, _, _, t) = omega (arith, Tiles-le (i + 1) (s + p.length) e ps t)

-- That an int64 holds the sums that are formed for each of some parts.
abbrev pub AllFit : List Part → Type 0
AllFit [] = Unit
AllFit (p ∷ ps) = (p.offset + part_size < 2 ^ 63) × AllFit ps

Tiles-AllFit : (i s e : ℕ) (ps : List Part) → Tiles i s e ps → e + part_size < 2 ^ 63 → AllFit ps
Tiles-AllFit i s e [] t h = tt
Tiles-AllFit i s e (p ∷ ps) (_, po, pos, _, t) h = (
  omega (arith, po, pos, h, Tiles-le (i + 1) (s + p.length) e ps t),
  Tiles-AllFit (i + 1) (s + p.length) e ps t h,
)

-- The parts of a range follow one another without a gap or an overlap, from its offset to its end,
-- with the indices 0, 1, ..., none empty and none longer than the part size.
pub split_object_range-Tiles :
    (offset len : ℕ) → Tiles 0 offset (offset + len) (split_object_range offset len)
unfolding split_object_range
split_object_range-Tiles offset zero = omega arith
split_object_range-Tiles offset (suc len) =
    rw (le→leb len)
      (parts_from-Tiles offset (suc len) _ 0 offset (omega arith) (omega arith) (omega arith))
  where
    le→leb : (n : ℕ) → leb (suc n) 0 ≡ false
    le→leb n = ground arith

-- For a range whose end is a part's length or more below 2 ^ 63, no sum that the cutting forms passes
-- 2 ^ 63, and the parts follow one another without a gap or an overlap, from its offset to its end,
-- with the indices 0, 1, ..., none empty and none longer than the part size.
pub split_object_range-fits :
    (offset len : ℕ)
    → offset + len + part_size < 2 ^ 63
    → (len + part_size < 2 ^ 63)
      × AllFit (split_object_range offset len)
      × Tiles 0 offset (offset + len) (split_object_range offset len)
split_object_range-fits offset len h =
    let t = split_object_range-Tiles offset len in
    (omega (arith, h), Tiles-AllFit 0 offset (offset + len) (split_object_range offset len) t h, t)

pub concat-slices :
    (i s e : ℕ) (ps : List Part) (object : Text)
    → Tiles i s e ps
    → concat (map (λ (p : Part). slice p.offset p.length object) ps) ≡ slice s (e - s) object
unfolding concat
concat-slices i s e [] object t = let z : e - s ≡ 0 = omega arith in rw z
concat-slices i s e (p ∷ ps) object (pi, po, pos, small, t) =
    let l = p.length in
    let d : e - s ≡ l + (e - (s + l)) = omega (arith, Tiles-le (i + 1) (s + l) e ps t) in
    rw (po, concat-slices (i + 1) (s + l) e ps object t, d) (slice-append s l (e - (s + l)) object)
