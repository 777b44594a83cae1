-- ===== src/Uploads/Tracker/Runs.antt =====
-- What the tracker shows after any sequence of calls.
use neofs_mount.Prelude.{
  ℕ, ◌+◌, ◌≡◌, refl, ap, ◌∙◌, Text, Bool, true, false, Option, none, some, List, [], ◌∷◌, ◌++◌,
  length, length-append, get_elem?, suc, zero, Map, lookup, insert, delete, lookup-delete,
  lookup-insert, text_eq, ◌==◌, if◌then◌else◌, arith,
}
use neofs_mount.Uploads.Tracker.{
  Entry, Tracker, new_tracker, register, finish_upload, add_at, add_sent,
}

pub data Call : Type 0 where
  registers : Text → ℕ → ℕ → Call
  finishes : Text → Call
  adds : ℕ → ℕ → Call

unfoldable pub called : Call → Tracker → Tracker
called (registers path total now) t = (register path total now t).0
called (finishes path) t = finish_upload path t
called (adds e n) t = add_sent e n t

-- The tracker after some calls, the last of them first.
unfoldable pub run : List Call → Tracker
unfolding called
run [] = new_tracker
run (c ∷ earlier) = called c (run earlier)

unfoldable pub registrations : List Call → ℕ
registrations [] = 0
registrations (registers path total now ∷ earlier) = suc (registrations earlier)
registrations (finishes path ∷ earlier) = registrations earlier
registrations (adds e n ∷ earlier) = registrations earlier

abbrev pub add_to : ℕ → ℕ → Option (ℕ × Entry) → Option (ℕ × Entry)
add_to i n none = none
add_to i n (some (j, e)) = some (j, if j == i then record e { sent = e.sent + n } else e)

-- The upload of a path that is running after some calls: that of the last registration, unless it
-- finished since, with what was added to it since; registrations are numbered.
unfoldable pub running : Text → List Call → Option (ℕ × Entry)
unfolding registrations
running path [] = none
running path (registers p total now ∷ earlier) =
    let rest = running path earlier in
    if text_eq p path
    then some
        (registrations earlier, record { path = p; total_bytes = total; sent = 0; started = now })
    else rest
running path (finishes p ∷ earlier) =
    let rest = running path earlier in if text_eq p path then none else rest
running path (adds i n ∷ earlier) = add_to i n (running path earlier)

-- That the tracker has an upload under a path, or none.
abbrev pub Shows : Text → Tracker → Option (ℕ × Entry) → Type 0
Shows path t none = lookup path t.entries ≡ none
Shows path t (some (i, e)) = (lookup path t.entries ≡ some i) × (get_elem? t.made i ≡ some e)

length-add_at : (i n : ℕ) (l : List Entry) → length (add_at i n l) ≡ length l
unfolding add_at
length-add_at i n [] = refl
length-add_at zero n (e ∷ l) = refl
length-add_at (suc i) n (e ∷ l) = ap suc (length-add_at i n l)

made-length : (calls : List Call) → length (run calls).made ≡ registrations calls
unfolding run registrations register finish_upload add_sent new_tracker
made-length [] = refl
made-length (registers p total now ∷ calls) =
    length-append (run calls).made
      (record { path = p; total_bytes = total; sent = 0; started = now } ∷ [])
    ∙ omega (arith, made-length calls)
made-length (finishes p ∷ calls) = made-length calls
made-length (adds i n ∷ calls) = length-add_at i n (run calls).made ∙ made-length calls

get_elem?-append_one : (l : List Entry) (e : Entry) → get_elem? (l ++ e ∷ []) (length l) ≡ some e
get_elem?-append_one [] e = refl
get_elem?-append_one (d ∷ l) e = get_elem?-append_one l e

get_elem?-append_before :
    (l m : List Entry) (i : ℕ) (e : Entry) → get_elem? l i ≡ some e → get_elem? (l ++ m) i ≡ some e
get_elem?-append_before [] m i e h = absurd (ground arith)
get_elem?-append_before (d ∷ l) m zero e h = h
get_elem?-append_before (d ∷ l) m (suc i) e h = get_elem?-append_before l m i e h

get_elem?-add_at :
    (i n j : ℕ) (l : List Entry) (e : Entry)
    → get_elem? l j ≡ some e
    → get_elem? (add_at i n l) j ≡ some (if j == i then record e { sent = e.sent + n } else e)
unfolding add_at
get_elem?-add_at i n j [] e h = absurd (ground arith)
get_elem?-add_at zero n zero (d ∷ l) e h = ground arith
get_elem?-add_at zero n (suc j) (d ∷ l) e h = ground (arith, h)
get_elem?-add_at (suc i) n zero (d ∷ l) e h = ground (arith, h)
get_elem?-add_at (suc i) n (suc j) (d ∷ l) e h = ground (arith, get_elem?-add_at i n j l e h)

Shows-added :
    (path : Text) (i n : ℕ) (t : Tracker) (o : Option (ℕ × Entry))
    → Shows path t o
    → Shows path (add_sent i n t) (add_to i n o)
unfolding add_sent
Shows-added path i n t none h = h
Shows-added path i n t (some (j, e)) h = (h.0, get_elem?-add_at i n j t.made e h.1)

Shows-kept :
    (path : Text) (m : Map ℕ) (e : Entry) (t : Tracker) (o : Option (ℕ × Entry))
    → lookup path m ≡ lookup path t.entries
    → Shows path t o
    → Shows path (record { entries = m; made = t.made ++ e ∷ [] }) o
Shows-kept path m e t none same h = same ∙ h
Shows-kept path m e t (some (j, x)) same h =
    (same ∙ h.0, get_elem?-append_before t.made (e ∷ []) j x h.1)

Shows-left :
    (path : Text) (m : Map ℕ) (t : Tracker) (o : Option (ℕ × Entry))
    → lookup path m ≡ lookup path t.entries
    → Shows path t o
    → Shows path (record t { entries = m }) o
Shows-left path m t none same h = same ∙ h
Shows-left path m t (some (j, x)) same h = (same ∙ h.0, h.1)

-- A test that is known picks what is shown.
Shows-cases :
    (b : Bool) (path : Text) (t : Tracker) (o o' : Option (ℕ × Entry))
    → (b ≡ true → Shows path t o)
    → (b ≡ false → Shows path t o')
    → Shows path t (if b then o else o')
Shows-cases true path t o o' hit miss = hit refl
Shows-cases false path t o o' hit miss = miss refl

-- After any sequence of Register, Finish and AddSent calls on a new tracker, it has under a path the
-- entry of the last registration of the path, unless the path finished since, with the path, total and
-- start that were registered and, as bytes sent, the sum of what was added to that entry; else nothing.
pub run-running : (path : Text) (calls : List Call) → Shows path (run calls) (running path calls)
unfolding run running register finish_upload new_tracker lookup
run-running path [] = refl
run-running path (registers p total now ∷ calls) =
    let t = run calls in
    let e : Entry = record { path = p; total_bytes = total; sent = 0; started = now } in
    let m = insert p (length t.made) t.entries in
    Shows-cases (text_eq p path) path (record { entries = m; made = t.made ++ e ∷ [] })
      (some (registrations calls, e)) (running path calls)
      (λ same. (
        rw (lookup-insert, same, made-length calls) refl,
        rw (← made-length calls) (get_elem?-append_one t.made e),
      ))
      (λ other.
        Shows-kept path m e t (running path calls) (rw (lookup-insert, other) refl)
          (run-running path calls))
run-running path (finishes p ∷ calls) =
    let t = run calls in
    Shows-cases (text_eq p path) path (finish_upload p t) none (running path calls)
      (λ same. rw (lookup-delete, same) refl)
      (λ other.
        Shows-left path (delete p t.entries) t (running path calls) (rw (lookup-delete, other) refl)
          (run-running path calls))
run-running path (adds i n ∷ calls) =
    Shows-added path i n (run calls) (running path calls) (run-running path calls)
