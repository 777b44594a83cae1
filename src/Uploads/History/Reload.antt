-- ===== src/Uploads/History/Reload.antt =====
-- What was appended is there again after a restart.
use neofs_mount.Prelude.{
  ℕ, zero, suc, ◌≤◌, ◌<◌, ◌≡◌, refl, ap, sym, ◌∙◌, Text, true, false, Option, some, List, [], ◌∷◌,
  is_empty, ltb, ◌==◌, if◌then◌else◌, length, take, arith, Bool-cases, inl, inr,
}
use neofs_mount.Uploads.History.{
  Item, History, File, written, cap, load, new_history, append, default_history_max,
}

cap_length-le : (max : ℕ) (l : List Item) → length (cap max l) ≤ max
unfolding cap
cap_length-le max l = elim (Bool-cases (ltb max (length l))) [
  | inl t ↦ rw (cap, t) (take_short max l)
  | inr t ↦ rw (cap, t) (ground arith)
]
  where
    take_short : (n : ℕ) (l : List Item) → length (take n l) ≤ n
    take_short zero l = omega arith
    take_short (suc n) [] = omega arith
    take_short (suc n) (x ∷ l) = omega (arith, take_short n l)

cap-short : (max : ℕ) (l : List Item) → length l ≤ max → cap max l ≡ l
unfolding cap
cap-short max l h = ground arith

new_history-encode :
    (encode : List Item → Text) (decode : Text → Option (List Item)) (path : Text) (max : ℕ)
    (l : List Item)
    → decode (encode l) ≡ some l
    → is_empty path ≡ false
    → 0 < max
    → length l ≤ max
    → new_history encode decode path max (written (encode l))
      ≡ record { path = path; max = max; items = l }
unfolding new_history load
new_history-encode encode decode path max l round filled positive short =
    let more : (if max == 0 then default_history_max else max) ≡ max = ground arith in
    rw (new_history, filled, more, round, cap-short max l short) refl

-- What a history comes to that kept everything.
pub record Survives (encode : List Item → Text) (decode : Text → Option (List Item))
    (out : History × File) : Type 0 where
  pub bounded : length out.0.items ≤ out.0.max
  pub again : new_history encode decode out.0.path out.0.max out.1 ≡ out.0

-- After an Append that could write the file, to a history with a path and a positive maximum, if the
-- items then kept are decoded from their encoding, they are at most as many as the maximum, and a
-- new history from the file is the same history.
pub append-Survives :
    (encode : List Item → Text) (decode : Text → Option (List Item)) (now : ℕ) (it : Item)
    (h : History) (file : File)
    → decode (encode (append encode decode now it true (h, file)).0.items)
      ≡ some (append encode decode now it true (h, file)).0.items
    → is_empty h.path ≡ false
    → 0 < h.max
    → Survives encode decode (append encode decode now it true (h, file))
unfolding append new_history load
append-Survives encode decode now it h file round filled positive =
    let set = record it { finished_at = if it.finished_at == 0 then now else it.finished_at } in
    let items = cap h.max (set ∷ h.items) in
    let short = cap_length-le h.max (set ∷ h.items) in
    let kept : (append encode decode now it true (h, file)).0 ≡ record h { items = items } =
      rw (append, filled) refl in
    rw (append, filled)
      (record {
        bounded = short;
        again =
            new_history-encode encode decode h.path h.max items
              (ap (λ o. decode (encode o.items)) (sym kept) ∙ round ∙ ap (λ o. some o.items) kept)
              filled positive short;
      })
