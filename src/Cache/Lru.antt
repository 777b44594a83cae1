-- ===== src/Cache/Lru.antt =====
-- The list of keys by last use: which keys it holds, and that it holds none twice.
use neofs_mount.Prelude.{
  ◌≡◌, refl, Text, Bool, false, ◌||◌, none, some, List, [], ◌∷◌, ◌++◌, text_eq, text_eq_iff,
  text_eq_refl, if◌then◌else◌, arith, Option-cases, inl, inr,
}
use neofs_mount.Cache.State.{remove_from_lru, bump_lru}
use neofs_mount.Cache.Evict.{split_last}

unfoldable pub has : Text → List Text → Bool
has k [] = false
has k (x ∷ xs) = text_eq x k || has k xs

abbrev pub Distinct : List Text → Type 0
Distinct [] = Unit
Distinct (x ∷ xs) = (has x xs ≡ false) × Distinct xs

pub has-remove :
    (k j : Text) (l : List Text)
    → Distinct l
    → has k (remove_from_lru j l) ≡ (if text_eq j k then false else has k l)
unfolding has remove_from_lru
has-remove k j [] h = ground arith
has-remove k j (x ∷ l) h =
    ground (arith, has-remove k j l h.1, text_eq_iff x j, text_eq_iff x k, text_eq_iff j k)

pub remove-Distinct : (j : Text) (l : List Text) → Distinct l → Distinct (remove_from_lru j l)
unfolding remove_from_lru
remove-Distinct j [] h = tt
remove-Distinct j (x ∷ l) h = ground (arith, remove-Distinct j l h.1, has-remove x j l h.1)

pub has-bump :
    (k j : Text) (l : List Text) → Distinct l → has k (bump_lru j l) ≡ text_eq j k || has k l
unfolding bump_lru has
has-bump k j l h = ground (arith, has-remove k j l h)

pub bump-Distinct : (j : Text) (l : List Text) → Distinct l → Distinct (bump_lru j l)
unfolding bump_lru
bump-Distinct j l h = ground (arith, has-remove j j l h, text_eq_refl j, remove-Distinct j l h)

has-append : (k : Text) (l m : List Text) → has k (l ++ m) ≡ has k l || has k m
unfolding has
has-append k [] m = refl
has-append k (x ∷ l) m = ground (arith, has-append k l m)

pub has-concat :
    (k : Text) (l : List Text) (x : Text) → has k (l ++ x ∷ []) ≡ has k l || text_eq x k
unfolding has
has-concat k l x = ground (arith, has-append k l (x ∷ []))

pub Distinct-concat :
    (l : List Text) (x : Text) → Distinct (l ++ x ∷ []) → Distinct l × (has x l ≡ false)
unfolding has
Distinct-concat [] x h = (tt, refl)
Distinct-concat (y ∷ l) x h =
    ground (arith, Distinct-concat l x h.1, has-concat y l x, text_eq_iff x y, text_eq_iff y x)

pub append_of_split_last {ℓ} :
    {A : Type ℓ} (l : List A) (front : List A) (x : A)
    → split_last l ≡ some (front, x)
    → l ≡ front ++ x ∷ []
unfolding split_last
append_of_split_last [] front x h = cc
append_of_split_last (y ∷ []) front x h = ground arith
append_of_split_last (y ∷ z ∷ l) front x h = elim (Option-cases (split_last (z ∷ l))) [
  | inl e ↦ ground arith
  | inr ((f, x'), e) ↦ ground (arith, append_of_split_last (z ∷ l) f x' e)
]

pub nil_of_split_last {ℓ} : {A : Type ℓ} (l : List A) → split_last l ≡ none → l ≡ []
unfolding split_last
nil_of_split_last [] h = refl
nil_of_split_last (y ∷ []) h = cc
nil_of_split_last (y ∷ z ∷ l) h = ground (arith, nil_of_split_last (z ∷ l))
