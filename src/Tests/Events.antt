-- ===== src/Tests/Events.antt =====
-- A bus at work.
use rez_sdk.Common.{◌≡◌, refl, List, [], ◌∷◌}
use rez_sdk.Common.Dict.{lookup, insert, erase}
use rez_sdk.Events.Bus.{
  plain, wrapper, Bus, or_empty, on, off, once, emit, call, go_on, remove_all_listeners,
  listener_count, Change, off_change, once_change, change, change_all, run,
}
use rez_sdk.Events.Bus.Dispatch.{calls_after, emit-calls}

program : Unit {0}
unfolding lookup insert erase on off once emit call go_on remove_all_listeners listener_count change
    change_all run
program = tt

abbrev quiet : Bus
quiet = record { handlers = []; wrappers = 0; running = []; called = [] }

-- A plain listener, and a `once` listener behind it.
abbrev two : Bus
two = record quiet { handlers = ("ready", plain 7 ∷ wrapper 0 8 ∷ []) ∷ []; wrappers = 1 }

subscribed : once "ready" 8 (on "ready" (plain 7) (on "ready" (plain 7) quiet)) ≡ two
unfolding program
subscribed = refl

-- The `once` listener is called and gone.
gone : (run ([] ∷ [] ∷ []) (emit "ready" two)).handlers ≡ ("ready", plain 7 ∷ []) ∷ []
unfolding program
gone = refl

-- The first listener takes itself off, the second one subscribes a third.
abbrev meanwhile : List (List Change)
meanwhile = (off_change "ready" (plain 7) ∷ []) ∷ (once_change "ready" 9 ∷ []) ∷ []

emit-calls_example :
    let c = run meanwhile (emit "ready" two) in
    (c.called ≡ calls_after (or_empty (lookup "ready" two.handlers)) two.called)
    × ((go_on c.running c).running ≡ two.running)
unfolding lookup listener_count
emit-calls_example = emit-calls "ready" two meanwhile refl
