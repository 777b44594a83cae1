-- ===== src/Neofs/Ranged/Checks.antt =====
-- A race in which the first call breaks after the second was launched.
use neofs_mount.Prelude.{◌≡◌, refl, inl, inr, Text, codes, false, true, none, List, [], ◌∷◌, arith}
use neofs_mount.Prelude.Slices.{slice}
use neofs_mount.Neofs.Range.{bytes}
use neofs_mount.Neofs.Ranged.{
  chunk, eof, broken, RangeCall, Event, answers, timer, Answer, natural, of_network,
  read_object_range, single_rpc, read_stream, read_object_range_hedged, hedge_loop, answered,
}
use neofs_mount.Neofs.Ranged.Settles.{
  stream_text, AllBring, ends, goes_off, Ends, read_object_range-Ends,
}

abbrev object : Text
object = codes "abcdef"

abbrev good : RangeCall
good = record {
  init_error = none;
  stream = chunk (codes "bc") (eof (codes "def"));
  close_error = none;
}

abbrev bad : RangeCall
bad = record { init_error = none; stream = broken (codes "b") 5; close_error = none }

abbrev race : List Event
race = timer ∷ answers bad ∷ answers good ∷ []

race_won : read_object_range_hedged race ≡ answered (bytes (codes "bcdef"))
unfolding read_object_range_hedged hedge_loop single_rpc read_stream
race_won = refl

read_object_range-Ends_example :
    (a : Answer) × (read_object_range true false good race (natural 1) (natural 262144)
      ≡ of_network a)
    × Ends (slice 1 262144 object) a
unfolding stream_text AllBring ends goes_off
read_object_range-Ends_example =
    read_object_range-Ends false good race 1 262144 object (inl refl) (inr refl, (inl refl, tt))
      (omega arith) (omega arith)
