-- ===== src/Neofs/Ranged.antt =====
-- internal/neofs/client.go: `readObjectRange`, its single call (`readObjectRangeSingleRPC`) and the race
-- of two such calls (`readObjectRangeHedged`). What the select of that race receives is a sequence of
-- events; counters, times and the log are left out.
pub mod Settles
mod Checks
use neofs_mount.Prelude.{
  ℕ, ◌+◌, ◌-◌, Text, Bool, true, false, not, ◌&&◌, Option, none, some, List, [], ◌∷◌, ◌++◌, leb,
  ◌==◌, if◌then◌else◌,
}
use neofs_mount.Neofs.Range.{Outcome, bytes, failed}

-- What the reader of a range brings, read by read: some bytes, bytes with the end, or with an error.
pub data Stream : Type 0 where
  chunk : Text → Stream → Stream
  eof : Text → Stream
  broken : Text → ℕ → Stream

-- A call: the errors of its start and of closing its reader, and what is read.
pub record RangeCall : Type 0 where
  pub init_error : Option ℕ
  pub stream : Stream
  pub close_error : Option ℕ

-- The loop of `readObjectRangeSingleRPC`.
unfoldable pub read_stream : Text → Stream → Outcome
read_stream buf (chunk b s) = read_stream (buf ++ b) s
read_stream buf (eof b) = bytes (buf ++ b)
read_stream buf (broken b e) = failed e

abbrev pub close_result : Option ℕ → Outcome → Outcome
close_result close_error (failed e) = failed e
close_result none (bytes buf) = bytes buf
close_result (some e) (bytes buf) = failed e

abbrev pub init_result : Option ℕ → Outcome → Outcome
init_result (some e) read = failed e
init_result none read = read

-- `readObjectRangeSingleRPC`
unfoldable pub single_rpc : RangeCall → Outcome
unfolding read_stream
single_rpc c = init_result c.init_error (close_result c.close_error (read_stream [] c.stream))

-- What the race sees: a call that ends, the timer, or the end of the context with its error.
pub data Event : Type 0 where
  answers : RangeCall → Event
  timer : Event
  context_done : ℕ → Event

pub data Answer : Type 0 where
  waiting : Answer
  answered : Outcome → Answer

abbrev pub first_of : Option ℕ → ℕ → ℕ
first_of none e = e
first_of (some first) e = first

abbrev pub on_result : Outcome → ℕ → Option ℕ → (ℕ → Option ℕ → Answer) → Answer
on_result (bytes buf) pending first_err go = answered (bytes buf)
on_result (failed e) pending first_err go =
    let first = first_of first_err e in
    let next = go (pending - 1) (some first) in
    if pending - 1 == 0 then answered (failed first) else next

-- The loop of `readObjectRangeHedged`, with the calls that are pending, whether the second one was
-- launched, and the first error.
unfoldable pub hedge_loop : List Event → ℕ → Bool → Option ℕ → Answer
unfolding single_rpc
hedge_loop [] pending hedged first_err = waiting
hedge_loop (answers c ∷ events) pending hedged first_err =
    on_result (single_rpc c) pending first_err (λ p f. hedge_loop events p hedged f)
hedge_loop (timer ∷ events) pending hedged first_err =
    hedge_loop events (if hedged then pending else pending + 1) true first_err
hedge_loop (context_done e ∷ events) pending hedged first_err =
    answered (failed (first_of first_err e))

-- `readObjectRangeHedged`, which has launched the first call.
unfoldable pub read_object_range_hedged : List Event → Answer
unfolding hedge_loop
read_object_range_hedged events = hedge_loop events 1 false none

-- 256 KiB
abbrev pub hedge_min_length : ℕ
hedge_min_length = 262144

unfoldable pub should_hedge_object_range : Bool → ℕ → Bool
should_hedge_object_range prefetch length = leb hedge_min_length length && not prefetch

pub data Signed : Type 0 where
  natural : ℕ → Signed
  negative : ℕ → Signed

pub data RangeAnswer : Type 0 where
  nil_client : RangeAnswer
  negative_offset : ℕ → RangeAnswer
  negative_length : ℕ → RangeAnswer
  of_network : Answer → RangeAnswer

abbrev pub ranged : Bool → RangeCall → List Event → ℕ → ℕ → RangeAnswer
ranged prefetch call events offset length =
    if length == 0
    then of_network (answered (bytes []))
    else if should_hedge_object_range prefetch length
    then of_network (read_object_range_hedged events)
    else of_network (answered (single_rpc call))

abbrev pub with_length : Bool → RangeCall → List Event → ℕ → Signed → RangeAnswer
with_length prefetch call events offset (negative n) = negative_length n
with_length prefetch call events offset (natural n) = ranged prefetch call events offset n

abbrev pub with_offset : Bool → RangeCall → List Event → Signed → Signed → RangeAnswer
with_offset prefetch call events (negative n) length = negative_offset n
with_offset prefetch call events (natural offset) length =
    with_length prefetch call events offset length

-- `readObjectRange`, of a client or none; `call` is what its one call comes to, `events` what its race.
unfoldable pub read_object_range :
    Bool → Bool → RangeCall → List Event → Signed → Signed → RangeAnswer
unfolding should_hedge_object_range read_object_range_hedged
read_object_range has_client prefetch call events offset length =
    if has_client then with_offset prefetch call events offset length else nil_client
