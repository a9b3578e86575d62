-- ===== src/Tests/Connection.antt =====
-- Lives of a connection.
use rez_sdk.Common.{◌≡◌, refl, true, false, none, some, List, [], ◌∷◌, arith}
use rez_sdk.Connection.Machine.{
  disconnected, connected, failed, transport_reconnected, caller, timer_callback, opening, proving,
  Reconnect, Machine, new,
}
use rez_sdk.Connection.Machine.Steps.{
  handle, handle_all, Event, call_connect, call_disconnect, disconnect_settles, run_settles,
  transport_state, down,
}
use rez_sdk.Connection.Machine.Safety.{IsSafe, new-handle_all-IsSafe}
use rez_sdk.Connection.Machine.Retry.{IsWaiting, failing_attempts, failing_attempts-failed}
use rez_sdk.Connection.Machine.Teardown.{reconnected_when_closed}

program : Unit {0}
unfolding handle handle_all new failing_attempts
program = tt

-- Two reconnects are allowed.
abbrev m0 : Machine
m0 = new true none none (some 2)

abbrev opened : List Event
opened = call_connect ∷ run_settles 0 true 0 ∷ run_settles 0 true 0 ∷ run_settles 0 true 0 ∷ []

opened_connected : (handle_all opened m0).state ≡ connected
unfolding program
opened_connected = refl

abbrev lost : List Event
lost =
    call_connect
    ∷ run_settles 0 true 0
    ∷ run_settles 0 true 0
    ∷ run_settles 0 true 0
    ∷ transport_state down 0
    ∷ []

new-handle_all-IsSafe_example : IsSafe (handle_all lost (new true none none (some 2)))
new-handle_all-IsSafe_example = new-handle_all-IsSafe true none none (some 2) lost

lost-IsWaiting : IsWaiting 2 1 (handle_all lost m0)
unfolding program
lost-IsWaiting = record {
  armed = refl;
  is_open = refl;
  idle = refl;
  counted = refl;
  limited = refl;
}

failing_attempts-failed_example :
    IsWaiting 2 2 (handle_all (failing_attempts (0 ∷ [])) (handle_all lost m0))
    × ((handle_all (failing_attempts (0 ∷ 7 ∷ [])) (handle_all lost m0)).state ≡ failed)
    × ((handle_all (failing_attempts (0 ∷ 7 ∷ [])) (handle_all lost m0)).timer ≡ none)
failing_attempts-failed_example =
    failing_attempts-failed 2 1 (0 ∷ []) [] 7 (handle_all lost m0) lost-IsWaiting (omega arith)

abbrev settings : Reconnect
settings = record { enabled = true; backoff_ms = 2000; backoff_cap_ms = 60000; max_attempts = none }

-- The call of `connect` waits for the auth machine.
abbrev under_way : Machine
under_way = record m0 { runs = record { origin = caller; phase = proving } ∷ [] }

abbrev retrying : Machine
retrying = record m0 { runs = record { origin = timer_callback; phase = opening } ∷ [] }

reconnected_when_closed_example :
    let n = handle_all (call_disconnect ∷ disconnect_settles ∷ []) retrying in
    let n' = handle (run_settles 0 false 0) n in
    (n'.log ≡ transport_reconnected ∷ n.log) × (n'.closed ≡ true) × (n'.state ≡ disconnected)
unfolding new
reconnected_when_closed_example = reconnected_when_closed retrying 0 0 opening (λ e. cc) refl refl
