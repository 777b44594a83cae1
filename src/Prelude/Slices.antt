-- ===== src/Prelude/Slices.antt =====
-- Stretches of a text by offset and length.
use Prim.Native.Nat.add
use Prim.Native.Nat.{ℕ, zero, suc, ◌+◌, ◌≤◌}
use native.Mathlib.Nat.{suc-add}
use mathlib.Core.Path.{◌≡◌, refl, ap, ◌∙◌}
use mathlib.Core.List.{[], ◌∷◌, ◌++◌}
use native.Mathlib.Omega.{arith}
use neofs_mount.Prelude.Lists.{length, take, drop}
use neofs_mount.Prelude.Texts.{Text}

take-nil : (n : ℕ) → take {A = ℕ} n [] ≡ []
take-nil zero = refl
take-nil (suc n) = refl

pub take_append_take : (a b : ℕ) (xs : Text) → take a xs ++ take b (drop a xs) ≡ take (a + b) xs
take_append_take zero b xs = rw add.zero
take_append_take (suc a) b [] = rw (take-nil b, take-nil (suc a + b))
take_append_take (suc a) b (x ∷ xs) = rw suc-add (ap (◌∷◌ x) (take_append_take a b xs))

pub drop-nil : (n : ℕ) → drop {A = ℕ} n [] ≡ []
drop-nil zero = refl
drop-nil (suc n) = refl

pub drop-drop : (a b : ℕ) (xs : Text) → drop b (drop a xs) ≡ drop (a + b) xs
drop-drop zero b xs = rw add.zero
drop-drop (suc a) b [] = rw (drop-nil b, drop-nil (suc a + b))
drop-drop (suc a) b (x ∷ xs) = rw suc-add (drop-drop a b xs)

-- The bytes of an object from `offset` on, `len` of them if there are so many.
abbrev pub slice : ℕ → ℕ → Text → Text
slice offset len object = take len (drop offset object)

pub slice-append :
    (s a b : ℕ) (object : Text)
    → slice s a object ++ slice (s + a) b object ≡ slice s (a + b) object
slice-append s a b object = rw (← drop-drop s a object) (take_append_take a b (drop s object))

pub length-slice : (off n : ℕ) (s : Text) → off + n ≤ length s → length (slice off n s) ≡ n
length-slice zero zero s h = refl
length-slice zero (suc n) [] h = absurd (omega arith)
length-slice zero (suc n) (c ∷ s) h = ap suc (length-slice zero n s (omega arith))
length-slice (suc off) n [] h = absurd (omega arith)
length-slice (suc off) n (c ∷ s) h = length-slice off n s (omega arith)

take-take : (n m : ℕ) (s : Text) → n ≤ m → take n (take m s) ≡ take n s
take-take zero m s h = refl
take-take (suc n) zero s h = absurd (omega arith)
take-take (suc n) (suc m) [] h = refl
take-take (suc n) (suc m) (c ∷ s) h = ap (◌∷◌ c) (take-take n m s (omega arith))

take-drop-take : (n k m : ℕ) (s : Text) → k + n ≤ m → take n (drop k (take m s)) ≡ take n (drop k s)
take-drop-take n zero m s h = take-take n m s (omega arith)
take-drop-take n (suc k) zero s h = absurd (omega arith)
take-drop-take n (suc k) (suc m) [] h = refl
take-drop-take n (suc k) (suc m) (c ∷ s) h = take-drop-take n k m s (omega arith)

-- A stretch of a stretch.
pub slice-slice :
    (start m k n : ℕ) (s : Text) → k + n ≤ m → slice k n (slice start m s) ≡ slice (start + k) n s
slice-slice start m k n s h =
    take-drop-take n k m (drop start s) h ∙ ap (take n) (drop-drop start k s)
