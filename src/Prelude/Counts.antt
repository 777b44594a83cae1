-- ===== src/Prelude/Counts.antt =====
-- How often a test holds in a list, and membership that keeps its witness.
use Prim.Native.Nat.{ℕ, ◌+◌, ◌≤◌, ◌<◌}
use mathlib.Core.Path.{◌≡◌, refl, sym, ◌∙◌}
use mathlib.Core.Logic.{◌⊎◌, inl, inr}
use mathlib.Core.Bool.{Bool, true}
use mathlib.Core.List.{List, [], ◌∷◌, map}
use native.Mathlib.Omega.{arith}
use neofs_mount.Prelude.Tests.{if◌then◌else◌, Bool-cases}

module _ {A : Type 0} where
  abbrev pub count : (A → Bool) → List A → ℕ
  count p [] = 0
  count p (x ∷ xs) = (if p x then 1 else 0) + count p xs

  abbrev pub In : A → List A → Type 0
  In a [] = ⊥
  In a (x ∷ xs) = (x ≡ a) ⊎ In a xs

module _ {A : Type 0} where
  pub count-le :
      (q p : A → Bool) (xs : List A)
      → ((x : A) → In x xs → q x ≡ true → p x ≡ true)
      → count q xs ≤ count p xs
  count-le q p [] h = omega arith
  count-le q p (x ∷ xs) h = ground (arith, h x (inl refl), count-le q p xs (λ y m. h y (inr m)))

  pub count_pos : (p : A → Bool) (xs : List A) (a : A) → In a xs → p a ≡ true → 0 < count p xs
  count_pos p [] a m h = elim m [ ]
  count_pos p (x ∷ xs) a (inl e) h = let q : p x ≡ true = rw e h in ground arith
  count_pos p (x ∷ xs) a (inr m) h = omega (arith, count_pos p xs a m h)

  -- Either a test holds nowhere, or somewhere.
  pub count-cases :
      (p : A → Bool) (xs : List A) → (count p xs ≡ 0) ⊎ ((a : A) × In a xs × (p a ≡ true))
  count-cases p [] = inl refl
  count-cases p (x ∷ xs) = elim (Bool-cases (p x)) [
    | inl t ↦ inr (x, inl refl, t)
    | inr t ↦ elim (count-cases p xs) [
      | inl n ↦ inl (ground arith)
      | inr (a, m, h) ↦ inr (a, inr m, h)
    ]
  ]

  -- A test that holds once at most holds for one member at most.
  pub eq_of_count :
      (p : A → Bool) (xs : List A) (a b : A)
      → count p xs ≤ 1
      → In a xs
      → In b xs
      → p a ≡ true
      → p b ≡ true
      → a ≡ b
  eq_of_count p [] a b c m n h k = elim m [ ]
  eq_of_count p (x ∷ xs) a b c (inl e) (inl f) h k = sym e ∙ f
  eq_of_count p (x ∷ xs) a b c (inl e) (inr n) h k =
      let q : p x ≡ true = rw e h in absurd (ground (arith, count_pos p xs b n k))
  eq_of_count p (x ∷ xs) a b c (inr m) (inl f) h k =
      let q : p x ≡ true = rw f k in absurd (ground (arith, count_pos p xs a m h))
  eq_of_count p (x ∷ xs) a b c (inr m) (inr n) h k = eq_of_count p xs a b (ground arith) m n h k

module _ {A B : Type 0} where
  pub count-map :
      (p : B → Bool) (f : A → B) (xs : List A) → count p (map f xs) ≡ count (λ x. p (f x)) xs
  count-map p f [] = refl
  count-map p f (x ∷ xs) = ground (arith, count-map p f xs)

  pub In-map : (f : A → B) (xs : List A) (b : B) → In b (map f xs) → (a : A) × In a xs × (f a ≡ b)
  In-map f [] b m = elim m [ ]
  In-map f (x ∷ xs) b (inl e) = (x, inl refl, e)
  In-map f (x ∷ xs) b (inr m) = let (a, n, h) = In-map f xs b m in (a, inr n, h)
