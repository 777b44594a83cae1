-- ===== src/Neofs/Ranged/Settles.antt =====
-- A read of a range answers the range or an error, in whatever order its calls end.
use neofs_mount.Prelude.{
  ℕ, ◌≡◌, refl, ap, ◌∙◌, ◌⊎◌, inl, inr, ◌+◌, ◌-◌, ◌≤◌, ◌<◌, Text, Bool, true, false, Option, none,
  some, List, [], ◌∷◌, ◌++◌, append_assoc, Option-cases, ◌==◌, suc, if◌then◌else◌, arith,
}
use neofs_mount.Prelude.Slices.{slice}
use neofs_mount.Neofs.Range.{Outcome, bytes, failed}
use neofs_mount.Neofs.Ranged.{
  Stream, chunk, eof, broken, RangeCall, read_stream, close_result, init_result, single_rpc, Event,
  answers, timer, context_done, Answer, answered, on_result, first_of, hedge_loop,
  read_object_range_hedged, natural, of_network, should_hedge_object_range, read_object_range,
}

-- The bytes of a reader that comes to its end.
unfoldable pub stream_text : Stream → Option Text
stream_text (chunk b s) = elim (stream_text s) [ none ↦ none | some t ↦ some (b ++ t) ]
stream_text (eof b) = some b
stream_text (broken b e) = none

-- A reader that brings just the range, if it comes to its end.
abbrev pub Brings : Text → RangeCall → Type 0
Brings range c = (stream_text c.stream ≡ some range) ⊎ (stream_text c.stream ≡ none)

unfoldable pub AllBring : Text → List Event → Type 0
AllBring range [] = Unit
AllBring range (answers c ∷ events) = Brings range c × AllBring range events
AllBring range (timer ∷ events) = AllBring range events
AllBring range (context_done e ∷ events) = AllBring range events

-- The calls that end, and whether the timer goes off.
unfoldable pub ends : List Event → ℕ
ends [] = 0
ends (answers c ∷ events) = suc (ends events)
ends (timer ∷ events) = ends events
ends (context_done e ∷ events) = ends events

unfoldable pub goes_off : List Event → Bool
goes_off [] = false
goes_off (answers c ∷ events) = goes_off events
goes_off (timer ∷ events) = true
goes_off (context_done e ∷ events) = goes_off events

abbrev pub Settled : Text → Outcome → Type 0
Settled range o = (o ≡ bytes range) ⊎ ((e : ℕ) × (o ≡ failed e))

read_stream-some :
    (buf t : Text) (s : Stream) → stream_text s ≡ some t → read_stream buf s ≡ bytes (buf ++ t)
unfolding stream_text read_stream
read_stream-some buf t (chunk b s) h = elim (Option-cases (stream_text s)) [
  | inl e ↦ absurd (ground (arith, e))
  | inr (u, e) ↦
      let same : b ++ u ≡ t = ground (arith, e) in
      read_stream-some (buf ++ b) u s e ∙ ap bytes (append_assoc buf b u ∙ ap (◌++◌ buf) same)
]
read_stream-some buf t (eof b) h = ap (λ x. bytes (buf ++ x)) (ground arith)
read_stream-some buf t (broken b e) h = absurd (ground arith)

read_stream-none :
    (buf : Text) (s : Stream) → stream_text s ≡ none → (e : ℕ) × (read_stream buf s ≡ failed e)
unfolding stream_text read_stream
read_stream-none buf (chunk b s) h = elim (Option-cases (stream_text s)) [
  | inl e ↦ read_stream-none (buf ++ b) s e
  | inr (u, e) ↦ absurd (ground (arith, e))
]
read_stream-none buf (eof b) h = absurd (ground arith)
read_stream-none buf (broken b e) h = (e, refl)

read_stream-Settled :
    (range : Text) (c : RangeCall) → Brings range c → Settled range (read_stream [] c.stream)
read_stream-Settled range c (inl h) = inl (read_stream-some [] range c.stream h)
read_stream-Settled range c (inr h) = inr (read_stream-none [] c.stream h)

close_result-Settled :
    (range : Text) (x : Option ℕ) (o : Outcome) → Settled range o → Settled range (close_result x o)
close_result-Settled range x (failed e) h = inr (e, refl)
close_result-Settled range none (bytes buf) h = h
close_result-Settled range (some e) (bytes buf) h = inr (e, refl)

init_result-Settled :
    (range : Text) (x : Option ℕ) (o : Outcome) → Settled range o → Settled range (init_result x o)
init_result-Settled range none o h = h
init_result-Settled range (some e) o h = inr (e, refl)

single_rpc-Settled : (range : Text) (c : RangeCall) → Brings range c → Settled range (single_rpc c)
unfolding single_rpc
single_rpc-Settled range c h =
    init_result-Settled range c.init_error (close_result c.close_error (read_stream [] c.stream)) (
      close_result-Settled range c.close_error (read_stream [] c.stream)
        (read_stream-Settled range c h))

-- That the race has answered, with the range or an error.
abbrev pub Ends : Text → Answer → Type 0
Ends range a = (o : Outcome) × (a ≡ answered o) × Settled range o

on_result-Ends :
    (range : Text) (o : Outcome) (pending : ℕ) (first : Option ℕ) (go : ℕ → Option ℕ → Answer)
    → Settled range o
    → ((f : Option ℕ) → (pending - 1 == 0) ≡ false → Ends range (go (pending - 1) f))
    → Ends range (on_result o pending first go)
on_result-Ends range (bytes buf) pending first go h later = (bytes buf, refl, h)
on_result-Ends range (failed e) pending first go h later = picked (pending - 1 == 0) refl
  where
    picked :
        (b : Bool)
        → (pending - 1 == 0) ≡ b
        → Ends range (
            if b
            then answered (failed (first_of first e))
            else go (pending - 1) (some (first_of first e)))
    picked true q = (failed (first_of first e), refl, inr (first_of first e, refl))
    picked false q = later (some (first_of first e)) q

abbrev extra : Bool → List Event → ℕ
extra hedged events = if hedged then 0 else (if goes_off events then 1 else 0)

hedge_loop-Ends :
    (range : Text) (events : List Event) (pending : ℕ) (hedged : Bool) (first : Option ℕ)
    → AllBring range events
    → 0 < pending
    → pending + extra hedged events ≤ ends events
    → Ends range (hedge_loop events pending hedged first)
unfolding hedge_loop AllBring ends goes_off
hedge_loop-Ends range [] pending hedged first all some_left enough = absurd (ground arith)
hedge_loop-Ends range (answers c ∷ events) pending hedged first all some_left enough =
    on_result-Ends range (single_rpc c) pending first (λ p f. hedge_loop events p hedged f)
      (single_rpc-Settled range c all.0)
      (λ f q.
        hedge_loop-Ends range events (pending - 1) hedged f all.1 (ground (arith, q))
          (ground (arith, enough)))
hedge_loop-Ends range (timer ∷ events) pending true first all some_left enough =
    hedge_loop-Ends range events pending true first all some_left enough
hedge_loop-Ends range (timer ∷ events) pending false first all some_left enough =
    hedge_loop-Ends range events (pending + 1) true first all (omega arith) (omega (arith, enough))
hedge_loop-Ends range (context_done e ∷ events) pending hedged first all some_left enough =
    (failed (first_of first e), refl, inr (first_of first e, refl))

-- If every call that comes to the end of its reader has brought the range, and as many calls end as
-- were launched, one and, if the timer goes off, a second, then in whatever order that happens the read
-- of a range of natural offset and positive length answers just the range, or an error of the network.
pub read_object_range-Ends :
    (prefetch : Bool) (call : RangeCall) (events : List Event) (offset length : ℕ) (object : Text)
    → Brings (slice offset length object) call
    → AllBring (slice offset length object) events
    → (if goes_off events then 2 else 1) ≤ ends events
    → 0 < length
    → (a : Answer) × (read_object_range true prefetch call events (natural offset) (natural length)
        ≡ of_network a)
      × Ends (slice offset length object) a
unfolding read_object_range read_object_range_hedged
read_object_range-Ends prefetch call events offset length object brings all enough filled =
    let range = slice offset length object in
    let long : (length == 0) ≡ false = ground arith in
    rw long (picked (should_hedge_object_range prefetch length))
  where
    picked :
        (b : Bool)
        → (a : Answer) × ((if b
              then of_network (hedge_loop events 1 false none)
              else of_network (answered (single_rpc call)))
            ≡ of_network a)
          × Ends (slice offset length object) a
    picked true = (
      hedge_loop events 1 false none,
      refl,
      hedge_loop-Ends (slice offset length object) events 1 false none all (omega arith)
          (ground (arith, enough)),
    )
    picked false = (
      answered (single_rpc call),
      refl,
      (single_rpc call, refl, single_rpc-Settled (slice offset length object) call brings),
    )
