-- ===== src/Neofs/Range/Checks.antt =====
-- The ranged read at concrete inputs.
use neofs_mount.Prelude.{
  ℕ, ◌+◌, ◌<◌, ◌^◌, ◌≡◌, refl, zero, suc, Text, codes, true, List, [], ◌∷◌, length, arith,
}
use neofs_mount.Prelude.Slices.{slice}
use neofs_mount.Neofs.Range.{Part, bytes, failed, PartResult, assemble, split_object_range}
use neofs_mount.Neofs.Range.Slices.{Tiles, AllFit, split_object_range-fits}
use neofs_mount.Neofs.Range.Assembly.{arrived, assemble-slice, assemble-failed}

split_object_range-fits_example :
    (600000 + 524288 < 2 ^ 63)
    × AllFit (split_object_range 7 600000)
    × Tiles 0 7 (7 + 600000) (split_object_range 7 600000)
split_object_range-fits_example = split_object_range-fits 7 600000 (omega arith)

abbrev text : Text
text = codes "hello, world"

abbrev only : Part
only = record { index = 0; offset = 7; length = 5 }

abbrev came : PartResult
came = record { part = only; outcome = bytes (codes "world") }

broke : PartResult
broke = record { part = only; outcome = failed 3 }

-- Two parts, of which the second arrives first.
abbrev first : Part
first = record { index = 0; offset = 7; length = 524288 }

abbrev second : Part
second = record { index = 1; offset = 524295; length = 3 }

abbrev both : List PartResult
both =
    record { part = second; outcome = bytes [] }
    ∷ record { part = first; outcome = bytes (codes "world") }
    ∷ []

two_parts : split_object_range 7 524291 ≡ first ∷ second ∷ []
unfolding split_object_range
two_parts = refl

all_in : (i : ℕ) → i < length (split_object_range 7 524291) → arrived i both ≡ true
unfolding split_object_range arrived
all_in zero h = refl
all_in (suc zero) h = refl
all_in (suc (suc i)) h = absurd (omega arith)

assemble-slice_example :
    assemble (length (split_object_range 7 524291)) both ≡ bytes (slice 7 524291 text)
unfolding split_object_range
assemble-slice_example = assemble-slice text 7 524291 both (refl, refl, (refl, refl, tt)) all_in

assemble-failed_example : assemble 1 (came ∷ broke ∷ came ∷ []) ≡ failed 3
unfolding broke
assemble-failed_example =
    assemble-failed text (only ∷ []) (came ∷ []) (came ∷ []) broke 3 (refl, refl, tt) refl
