-- ===== src/Fs/Reader/Chunks.antt =====
-- Lists of chunks: predicates on every chunk, and what is found among them.
use neofs_mount.Prelude.{
  ℕ, ◌≡◌, ◌≢◌, true, Option, none, some, List, [], ◌∷◌, ltb, ◌==◌, arith, Bool-cases, Option-cases,
  inl, inr,
}
use neofs_mount.Fs.Reader.{Chunk, holds, pick, lookup_from, find_chunk, remove_chunk}

abbrev pub All : (Chunk → Type 0) → List Chunk → Type 0
All P [] = Unit
All P (ch ∷ l) = P ch × All P l

pub All-map :
    {P Q : Chunk → Type 0} (l : List Chunk) → ((ch : Chunk) → P ch → Q ch) → All P l → All Q l
All-map [] f h = tt
All-map (ch ∷ l) f (p, h) = (f ch p, All-map l f h)

-- No two chunks have one start.
abbrev pub Distinct : List Chunk → Type 0
Distinct [] = Unit
Distinct (ch ∷ l) = All (λ d. d.start ≢ ch.start) l × Distinct l

module _ (P : Chunk → Type 0) where
  pub All-remove_chunk : (start : ℕ) (l : List Chunk) → All P l → All P (remove_chunk start l)
  unfolding remove_chunk
  All-remove_chunk start [] h = tt
  All-remove_chunk start (ch ∷ l) (p, h) = ground (arith, All-remove_chunk start l h)

  pub All-find_chunk :
      (start : ℕ) (l : List Chunk) {ch : Chunk}
      → All P l
      → find_chunk start l ≡ some ch
      → P ch × (ch.start ≡ start)
  unfolding find_chunk
  All-find_chunk start [] h e = cc
  All-find_chunk start (c ∷ l) (p, h) e = elim (Bool-cases (c.start == start)) [
    | inl t ↦ ground arith
    | inr t ↦ All-find_chunk start l h (ground arith)
  ]

  pick_sound :
      (off : ℕ) (c : Chunk) (hit : Option Chunk)
      → P c
      → ((d : Chunk) → hit ≡ some d → P d × (holds off d ≡ true))
      → (d : Chunk) → pick off c hit ≡ some d
      → P d × (holds off d ≡ true)
  unfolding pick
  pick_sound off c hit p k d e = elim (Bool-cases (holds off c)) [
    | inr t ↦ k d (ground arith)
    | inl t ↦ elim (Option-cases hit) [ inl n ↦ ground arith | inr (x, n) ↦ ground (arith, k x n) ]
  ]

  -- What is looked up is one of the chunks, and holds the offset.
  pub All-lookup_from :
      (off : ℕ) (l : List Chunk) (hit : Option Chunk) {ch : Chunk}
      → All P l
      → ((d : Chunk) → hit ≡ some d → P d × (holds off d ≡ true))
      → lookup_from hit off l ≡ some ch
      → P ch × (holds off ch ≡ true)
  unfolding lookup_from
  All-lookup_from off [] hit {ch} h k e = k ch e
  All-lookup_from off (c ∷ l) hit (p, h) k e =
      All-lookup_from off l (pick off c hit) h (pick_sound off c hit p k) e

pub remove_chunk-gone :
    (start : ℕ) (l : List Chunk) → All (λ d. d.start ≢ start) (remove_chunk start l)
unfolding remove_chunk
remove_chunk-gone start [] = tt
remove_chunk-gone start (ch ∷ l) = ground (arith, remove_chunk-gone start l)

pub Distinct-remove_chunk :
    (start : ℕ) (l : List Chunk) → Distinct l → Distinct (remove_chunk start l)
unfolding remove_chunk
Distinct-remove_chunk start [] h = tt
Distinct-remove_chunk start (ch ∷ l) (p, h) =
    ground
      (arith, Distinct-remove_chunk start l h, All-remove_chunk (λ d. d.start ≢ ch.start) start l p)

pick-some :
    (off : ℕ) (c : Chunk) (hit : Option Chunk) (ch : Chunk)
    → hit ≡ some ch
    → (d : Chunk) × (pick off c hit ≡ some d)
unfolding pick
pick-some off c none ch e = absurd (ground arith)
pick-some off c (some x) ch e = elim (Bool-cases (holds off c)) [
  | inr t ↦ (x, rw t)
  | inl t ↦ elim (Bool-cases (ltb x.use_seq c.use_seq)) [
    | inl u ↦ (c, rw (t, u))
    | inr u ↦ (x, rw (t, u))
  ]
]

pub lookup_from-some :
    (off : ℕ) (l : List Chunk) (hit : Option Chunk) (ch : Chunk)
    → hit ≡ some ch
    → (d : Chunk) × (lookup_from hit off l ≡ some d)
unfolding lookup_from
lookup_from-some off [] hit ch e = (ch, e)
lookup_from-some off (c ∷ l) hit ch e =
    let (d, p) = pick-some off c hit ch e in lookup_from-some off l (pick off c hit) d p
