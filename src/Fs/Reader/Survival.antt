-- ===== src/Fs/Reader/Survival.antt =====
-- `evictChunksLocked` never takes the chunk that was used last: of more than `rangeReadMaxChunks`
-- chunks with different starts at most two are pinned.
use neofs_mount.Prelude.{
  ℕ, zero, suc, ◌≤◌, ◌<◌, ◌≡◌, ◌≢◌, ◌⊎◌, refl, Bool, true, false, not, ◌||◌, Option, none, some,
  List, [], ◌∷◌, ltb, if◌then◌else◌, length, arith, Bool-cases, Option-cases, ltb→lt, inl, inr,
}
use neofs_mount.Fs.Reader.{Chunk, older, victim_from, remove_chunk, evict_chunks, max_chunks}
use neofs_mount.Fs.Reader.Chunks.{All, Distinct, All-remove_chunk, Distinct-remove_chunk}

-- A chunk that is not being fetched, pinned only at one of two places, and used before `seq`.
pub record IsIdle (tail seq : ℕ) (ch : Chunk) : Type 0 where
  pub idle : ch.fetching ≡ false
  pub pins : ch.pinned ≡ true → (ch.start ≡ 0) ⊎ (ch.start ≡ tail)
  pub past : ch.use_seq < seq

unfoldable any_unpinned : List Chunk → Bool
any_unpinned [] = false
any_unpinned (ch ∷ l) = not ch.pinned || any_unpinned l

module _ (tail : ℕ) where
  -- Pinned chunks with different starts are two at most.
  pinned_few :
      (seq : ℕ) (l : List Chunk)
      → All (IsIdle tail seq) l
      → Distinct l
      → any_unpinned l ≡ false
      → length l ≤ 2
  unfolding any_unpinned
  pinned_few seq [] h d u = omega arith
  pinned_few seq (a ∷ []) h d u = omega arith
  pinned_few seq (a ∷ b ∷ []) h d u = omega arith
  pinned_few seq (a ∷ b ∷ c ∷ l) (ha, (hb, (hc, h))) ((ab, (ac, _)), ((bc, _), _)) u =
      ground (arith, ha.pins, hb.pins, hc.pins)

  module _ (P : Chunk → Type 0) where
    victim_from_sound :
        (l : List Chunk) (v : Option Chunk) {w : Chunk}
        → All P l
        → ((d : Chunk) → v ≡ some d → P d)
        → victim_from v l ≡ some w
        → P w
    unfolding victim_from
    victim_from_sound [] v {w} h k e = k w e
    victim_from_sound (ch ∷ l) v (p, h) k e =
        victim_from_sound l (if ch.pinned || ch.fetching then v else older ch v) h kept e
      where
        kept : (d : Chunk) → (if ch.pinned || ch.fetching then v else older ch v) ≡ some d → P d
        kept d q = elim (Bool-cases (ch.pinned || ch.fetching)) [
          | inl t ↦ k d (ground arith)
          | inr t ↦ elim (Option-cases v) [
            | inl n ↦ ground arith
            | inr (x, n) ↦ ground (arith, k x n)
          ]
        ]

    -- With an unpinned chunk at hand that was used before, the newest is no victim.
    victim_from_newest :
        (l : List Chunk) (new : Chunk) {w : Chunk}
        → All P l
        → All (IsIdle tail new.use_seq) l
        → any_unpinned l ≡ true
        → victim_from (some new) l ≡ some w
        → P w
    unfolding victim_from any_unpinned
    victim_from_newest [] new h i u e = cc
    victim_from_newest (ch ∷ l) new (p, h) (c, i) u e = elim (Bool-cases ch.pinned) [
      | inl t ↦ victim_from_newest l new h i (ground arith) (ground (arith, c.idle))
      | inr t ↦
          victim_from_sound l (some ch) h (λ d q. ground arith) (ground (arith, c.idle, c.past))
    ]

-- The victim among more chunks than there may be is not the newest of them.
victim-ne-newest :
    (tail : ℕ) (new : Chunk) (rest : List Chunk) (v : Chunk)
    → All (IsIdle tail new.use_seq) rest
    → Distinct (new ∷ rest)
    → max_chunks < length (new ∷ rest)
    → victim_from none (new ∷ rest) ≡ some v
    → v.start ≢ new.start
unfolding victim_from
victim-ne-newest tail new rest v i d many e = elim (Bool-cases (new.pinned || new.fetching)) [
  | inl t ↦
      victim_from_sound tail (λ d. d.start ≢ new.start) rest none {w = v} d.0
        (λ x q. absurd (ground arith)) (ground arith)
  | inr t ↦ elim (Bool-cases (any_unpinned rest)) [
    | inl u ↦
        victim_from_newest tail (λ d. d.start ≢ new.start) rest new {w = v} d.0 i u (ground arith)
    | inr u ↦ absurd (omega (arith, pinned_few tail new.use_seq rest i d.1 u, many))
  ]
]

evict_stop :
    (n : ℕ) (l : List Chunk) → ltb max_chunks (length l) ≡ false → evict_chunks (suc n) l ≡ l
unfolding evict_chunks
evict_stop n l t = rw (t, evict_chunks)

evict_none : (n : ℕ) (l : List Chunk) → victim_from none l ≡ none → evict_chunks (suc n) l ≡ l
unfolding evict_chunks
evict_none n l e = ground arith

evict_step :
    (n : ℕ) (l : List Chunk) (v : Chunk)
    → ltb max_chunks (length l) ≡ true
    → victim_from none l ≡ some v
    → evict_chunks (suc n) l ≡ evict_chunks n (remove_chunk v.start l)
unfolding evict_chunks
evict_step n l v t e = ground arith

remove_chunk-front :
    (start : ℕ) (new : Chunk) (rest : List Chunk)
    → start ≢ new.start
    → remove_chunk start (new ∷ rest) ≡ new ∷ remove_chunk start rest
unfolding remove_chunk
remove_chunk-front start new rest h = ground arith

module _ (tail : ℕ) (Q : Chunk → Type 0) (new : Chunk) where
  -- The newest chunk stays in front, and of the others some stay.
  pub record Kept (l : List Chunk) : Type 0 where
    pub others : List Chunk
    pub shape : l ≡ new ∷ others
    pub all : All Q others
    pub idle : All (IsIdle tail new.use_seq) others
    pub distinct : Distinct (new ∷ others)

  pub evict_chunks-Kept :
      (n : ℕ) (rest : List Chunk)
      → All Q rest
      → All (IsIdle tail new.use_seq) rest
      → Distinct (new ∷ rest)
      → Kept (evict_chunks n (new ∷ rest))
  unfolding evict_chunks
  evict_chunks-Kept zero rest q i d = record {
    others = rest;
    shape = refl;
    all = q;
    idle = i;
    distinct = d;
  }
  evict_chunks-Kept (suc n) rest q i d =
      let same : Kept (new ∷ rest) = record {
        others = rest;
        shape = refl;
        all = q;
        idle = i;
        distinct = d;
      } in
      elim (Bool-cases (ltb max_chunks (length (new ∷ rest)))) [
        | inr t ↦ rw (evict_stop n (new ∷ rest) t) same
        | inl t ↦ elim (Option-cases (victim_from none (new ∷ rest))) [
          | inl e ↦ rw (evict_none n (new ∷ rest) e) same
          | inr (v, e) ↦
              let ne = victim-ne-newest tail new rest v i d (ltb→lt _ _ t) e in
              let k =
                evict_chunks-Kept n (remove_chunk v.start rest) (All-remove_chunk Q v.start rest q)
                  (All-remove_chunk (IsIdle tail new.use_seq) v.start rest i)
                  (
                    All-remove_chunk (λ x. x.start ≢ new.start) v.start rest d.0,
                    Distinct-remove_chunk v.start rest d.1,
                  ) in
              rw (evict_step n (new ∷ rest) v t e, remove_chunk-front v.start new rest ne)
                (record {
                  others = k.others;
                  shape = k.shape;
                  all = k.all;
                  idle = k.idle;
                  distinct = k.distinct;
                })
        ]
      ]
