-- ===== src/Fs/Upload/Bytes.antt =====
-- What a write leaves in the temporary file, byte by byte.
use neofs_mount.Prelude.{
  ℕ, ◌≡◌, refl, ap, sym, ◌+◌, ◌-◌, Text, false, some, [], ◌∷◌, ◌++◌, append-nil, is_empty,
  if◌then◌else◌, ltb, length, drop, get_elem?, zero, suc, arith,
}
use neofs_mount.Prelude.Slices.{drop-nil}
use neofs_mount.Fs.Upload.{overlay, write_at}

pub overlay-end : (content buf : Text) → overlay (length content) buf content ≡ content ++ buf
unfolding overlay
overlay-end [] [] = refl
overlay-end [] (b ∷ buf) = append-nil (b ∷ buf)
overlay-end (c ∷ content) buf = ap (◌∷◌ c) (overlay-end content buf)

-- What is written at the end is appended.
pub write_at-end : (content buf : Text) → write_at (length content) buf content ≡ content ++ buf
unfolding write_at
write_at-end content [] = sym (append-nil content)
write_at-end content (b ∷ buf) = overlay-end content (b ∷ buf)

get_elem?-overlay_start :
    (buf content : Text) (i : ℕ)
    → get_elem? (buf ++ drop (length buf) content) i
      ≡ (if ltb i (length buf) then get_elem? buf i else get_elem? content i)
get_elem?-overlay_start [] content i = ground arith
get_elem?-overlay_start (b ∷ buf) content zero = ground arith
get_elem?-overlay_start (b ∷ buf) [] (suc i) =
    ground (arith, get_elem?-overlay_start buf [] i, drop-nil (length buf), append-nil buf)
get_elem?-overlay_start (b ∷ buf) (c ∷ content) (suc i) =
    ground (arith, get_elem?-overlay_start buf content i)

get_elem?-overlay :
    (off : ℕ) (buf content : Text) (i : ℕ)
    → get_elem? (overlay off buf content) i ≡ (
        if ltb i off
        then (if ltb i (length content) then get_elem? content i else some 0)
        else (if ltb i (off + length buf) then get_elem? buf (i - off) else get_elem? content i))
unfolding overlay
get_elem?-overlay zero buf content i = ground (arith, get_elem?-overlay_start buf content i)
get_elem?-overlay (suc off) buf [] zero = ground arith
get_elem?-overlay (suc off) buf (c ∷ content) zero = ground arith
get_elem?-overlay (suc off) buf [] (suc i) = ground (arith, get_elem?-overlay off buf [] i)
get_elem?-overlay (suc off) buf (c ∷ content) (suc i) =
    ground (arith, get_elem?-overlay off buf content i)

-- After the write of at least one byte at an offset, the bytes from there are those written, the
-- bytes behind them and the bytes before the offset are as they were, and what was missing before the
-- offset is zero.
pub get_elem?-write_at :
    (off : ℕ) (buf content : Text) (i : ℕ)
    → is_empty buf ≡ false
    → get_elem? (write_at off buf content) i ≡ (
        if ltb i off
        then (if ltb i (length content) then get_elem? content i else some 0)
        else (if ltb i (off + length buf) then get_elem? buf (i - off) else get_elem? content i))
unfolding write_at
get_elem?-write_at off [] content i h = absurd (ground arith)
get_elem?-write_at off (b ∷ buf) content i h = get_elem?-overlay off (b ∷ buf) content i
