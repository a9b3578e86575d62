-- ===== src/Tests/Metrics.antt =====
-- A collector at work.
use rez_sdk.Common.{◌≡◌, refl, none, some, List, [], ◌∷◌}
use rez_sdk.Common.Dict.{lookup, insert}
use rez_sdk.Metrics.{increment, record_value, reset, summaries, snapshot}
use rez_sdk.Metrics.History.{
  Op, increment_op, record_op, reset_op, perform, perform_all, recorded, counted, summary_for,
  empty, snapshot-perform_all,
}

program : Unit {0}
unfolding lookup insert increment record_value reset summaries snapshot perform perform_all recorded
    counted
program = tt

abbrev ops : List Op
ops =
    record_op "rtt" (some 90)
    ∷ reset_op
    ∷ increment_op "requests" 1
    ∷ record_op "rtt" (some 7)
    ∷ record_op "rtt" none
    ∷ record_op "rtt" (some 3)
    ∷ increment_op "requests" 2
    ∷ []

requests : lookup "requests" (snapshot (perform_all ops empty)).0 ≡ some 3
unfolding program
requests = refl

rtt :
    lookup "rtt" (snapshot (perform_all ops empty)).1
    ≡ some (record { count = 2; sum = 10; min = 3; max = 7; avg = (10, 2) })
unfolding program
rtt = refl

snapshot-perform_all_example :
    (lookup "rtt" (snapshot (perform_all ops empty)).0 ≡ counted "rtt" ops none)
    × (lookup "rtt" (snapshot (perform_all ops empty)).1 ≡ summary_for (recorded "rtt" ops []))
snapshot-perform_all_example = snapshot-perform_all "rtt" ops
