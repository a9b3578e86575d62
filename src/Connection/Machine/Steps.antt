-- ===== src/Connection/Machine/Steps.antt =====
-- What can happen to the machine, one step at a time: calls, the timer, the transport, and `await`s that
-- settle (src/connection/ConnectionStateMachine.js).
use rez_sdk.Common.{
  ℕ, zero, suc, Bool, true, false, Option, none, some, List, [], ◌∷◌, if◌then◌else◌,
}
use rez_sdk.Connection.Machine.{
  Origin, Phase, Run, Machine, on_transport_disconnect, connect, connect_failed, resume_open,
  resume_prove, resume_connected, disconnect, resume_disconnected, caller, timer_callback, closing,
  opening, proving,
}

-- The phases that a transport reports.
pub data TransportPhase : Type 0 where
  down error other : TransportPhase

-- What can happen next. A settled `await` names the call by its place among `runs`; the number `r`
-- is what `Math.random()` would return.
pub data Event : Type 0 where
  call_connect call_disconnect timer_fires disconnect_settles : Event
  run_settles : ℕ → Bool → ℕ → Event
  transport_state : TransportPhase → ℕ → Event

abbrev pub get_elem? : List Run → ℕ → Option Run
get_elem? [] i = none
get_elem? (x ∷ xs) zero = some x
get_elem? (x ∷ xs) (suc i) = get_elem? xs i

abbrev pub set : List Run → ℕ → Run → List Run
set [] i v = []
set (x ∷ xs) zero v = v ∷ xs
set (x ∷ xs) (suc i) v = x ∷ set xs i v

abbrev pub remove : List Run → ℕ → List Run
remove [] i = []
remove (x ∷ xs) zero = xs
remove (x ∷ xs) (suc i) = x ∷ remove xs i

-- The call `i` goes on behind its `await`. `close` never fails for `connect`, which catches that.
unfoldable pub resume : Phase → Bool → ℕ → ℕ → Origin → Machine → Machine
unfolding resume_open resume_prove resume_connected connect_failed
resume closing _ r i origin m =
    resume_open (record m { runs = set m.runs i (record { origin = origin; phase = opening }) })
resume opening true r i origin m =
    resume_prove (record m { runs = set m.runs i (record { origin = origin; phase = proving }) })
resume proving true r i origin m = resume_connected origin (record m { runs = remove m.runs i })
resume _ false r i origin m = connect_failed r origin (record m { runs = remove m.runs i })

-- The timer's callback, for an armed timer.
unfoldable pub fire_timer : Option ℕ → Machine → Machine
unfolding connect
fire_timer none m = m
fire_timer (some _) m =
    let m1 = record m { timer = none } in if m1.closed then m1 else connect timer_callback m1

-- One of the waiting `disconnect` calls goes on.
unfoldable pub settle_disconnect : ℕ → Machine → Machine
unfolding resume_disconnected
settle_disconnect zero m = m
settle_disconnect (suc n) m = resume_disconnected (record m { closings = n })

unfoldable pub settle_run : Option Run → ℕ → Bool → ℕ → Machine → Machine
unfolding resume
settle_run none i good r m = m
settle_run (some run) i good r m = resume run.phase good r i run.origin m

-- The listener that `connect` gives to the transport.
unfoldable pub hear : TransportPhase → ℕ → Machine → Machine
unfolding on_transport_disconnect
hear other r m = m
hear _ r m = on_transport_disconnect r m

-- One event; an event that cannot happen changes nothing.
unfoldable pub handle : Event → Machine → Machine
unfolding connect disconnect fire_timer settle_disconnect settle_run hear
handle call_connect m = connect caller m
handle call_disconnect m = disconnect m
handle timer_fires m = fire_timer m.timer m
handle disconnect_settles m = settle_disconnect m.closings m
handle (run_settles i good r) m = settle_run (get_elem? m.runs i) i good r m
handle (transport_state p r) m = if m.subscribed then hear p r m else m

unfoldable pub handle_all : List Event → Machine → Machine
handle_all [] m = m
handle_all (e ∷ es) m = handle_all es (handle e m)
