-- ===== src/Neofs/Range.antt =====
-- internal/neofs/client.go: how a long ranged read is cut into parts and put together again.
-- Offsets and lengths are int64 in the source: they are natural here (`readObjectRange` refuses
-- negative ones), and stand for int64 as long as no sum passes 2 ^ 63.
pub mod Slices
pub mod Assembly
mod Checks
use neofs_mount.Prelude.Lists
use neofs_mount.Prelude.{
  ℕ, zero, suc, ◌+◌, ◌-◌, ◌*◌, ◌/◌, Text, Option, none, some, List, [], ◌∷◌, ◌++◌, ltb, leb,
  if◌then◌else◌, set,
}

abbrev pub part_size : ℕ
part_size = 524288

abbrev pub multipart_min_length : ℕ
multipart_min_length = part_size * 2

pub record Part : Type 0 where
  pub index : ℕ
  pub offset : ℕ
  pub length : ℕ

unfoldable pub part_at : ℕ → ℕ → ℕ → Part
part_at offset length i =
    let part_off = offset + i * part_size in
    let end = offset + length in
    record {
      index = i;
      offset = part_off;
      length = if ltb end (part_off + part_size) then end - part_off else part_size;
    }

-- The loop of `splitObjectRange`, with the rounds that are left and the counter.
unfoldable pub parts_from : ℕ → ℕ → ℕ → ℕ → List Part
unfolding part_at
parts_from offset length zero i = []
parts_from offset length (suc n) i = part_at offset length i ∷ parts_from offset length n (i + 1)

unfoldable pub split_object_range : ℕ → ℕ → List Part
unfolding parts_from
split_object_range offset length =
    if leb length 0 then [] else parts_from offset length ((length + part_size - 1) / part_size) 0

-- What a goroutine sends for its part: the bytes, or an error.
pub data Outcome : Type 0 where
  bytes : Text → Outcome
  failed : ℕ → Outcome

pub record PartResult : Type 0 where
  pub part : Part
  pub outcome : Outcome

-- `make([][]byte, n)`
unfoldable pub blanks : ℕ → List Text
blanks zero = []
blanks (suc n) = [] ∷ blanks n

-- One result: `out[res.part.index] = res.buf`, or the first error is kept.
unfoldable pub take_result : PartResult → List Text × Option ℕ → List Text × Option ℕ
take_result r (out, err) = elim r.outcome [
  | bytes buf ↦ (set out r.part.index buf, err)
  | failed e ↦ (out, elim err [ none ↦ some e | some first ↦ some first ])
]

-- The results in the order in which they come.
unfoldable pub collect : List PartResult → List Text × Option ℕ → List Text × Option ℕ
collect [] s = s
collect (r ∷ rs) s = collect rs (take_result r s)

unfoldable pub concat : List Text → Text
concat [] = []
concat (b ∷ bs) = b ++ concat bs

unfoldable pub finish : List Text × Option ℕ → Outcome
finish (out, none) = bytes (concat out)
finish (out, some e) = failed e

-- `readObjectRangeMultipart` once the parts are under way: `results` is what the channel delivers.
unfoldable pub assemble : ℕ → List PartResult → Outcome
unfolding finish
assemble n results = finish (collect results (blanks n, none))

-- `readObjectRangeMultipart`; a range of one part or none is read by a single call.
unfoldable pub read_object_range_multipart : Outcome → ℕ → ℕ → List PartResult → Outcome
unfolding assemble split_object_range
read_object_range_multipart single offset length results =
    let parts = split_object_range offset length in
    if leb (Lists.length parts) 1 then single else assemble (Lists.length parts) results
