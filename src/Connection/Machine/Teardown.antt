-- ===== src/Connection/Machine/Teardown.antt =====
-- What `disconnect` does to calls of `connect` that are under way.
use rez_sdk.Common.{ℕ, ◌≡◌, ◌≢◌, refl, true, false, none, some, [], ◌∷◌, arith}
use rez_sdk.Connection.Machine.{
  disconnected, connected, Machine, transport_reconnected, Origin, timer_callback, Phase, closing,
  proving,
}
use rez_sdk.Connection.Machine.Steps.{
  get_elem?, handle, handle_all, run_settles, call_disconnect, disconnect_settles,
}

-- Nothing under way: after `disconnect` has settled the machine is `disconnected`, closed, deaf to
-- the transport, and has no timer; nothing is counted.
pub disconnect_settled :
    (m : Machine)
    → m.closings ≡ 0
    → let n = handle_all (call_disconnect ∷ disconnect_settles ∷ []) m in
      (n.state ≡ disconnected)
      × (n.closed ≡ true)
      × (n.subscribed ≡ false)
      × (n.timer ≡ none)
      × (n.attempts ≡ 0)
      × (n.runs ≡ m.runs)
unfolding handle_all handle
disconnect_settled m h = ground arith

-- An authentication that succeeds after `disconnect` has settled leaves the machine `connected`, though
-- it is closed.
pub connected_when_closed :
    (m : Machine) (i r : ℕ) (o : Origin)
    → m.closings ≡ 0
    → get_elem? m.runs i ≡ some (record { origin = o; phase = proving })
    → let n = handle_all (call_disconnect ∷ disconnect_settles ∷ run_settles i true r ∷ []) m in
      (n.state ≡ connected) × (n.closed ≡ true)
unfolding handle_all handle
connected_when_closed m i r o h e = ground arith

-- A reconnect that `disconnect` cuts short is announced as a success: where the timer's call fails after
-- `disconnect`, at any `await` but the first, `transport_reconnected` is emitted.
pub reconnected_when_closed :
    (m : Machine) (i r : ℕ) (p : Phase)
    → p ≢ closing
    → m.closings ≡ 0
    → get_elem? m.runs i ≡ some (record { origin = timer_callback; phase = p })
    → let n = handle_all (call_disconnect ∷ disconnect_settles ∷ []) m in
      let n' = handle (run_settles i false r) n in
      (n'.log ≡ transport_reconnected ∷ n.log) × (n'.closed ≡ true) × (n'.state ≡ disconnected)
unfolding handle_all handle
reconnected_when_closed m i r closing c h e = absurd (c refl)
reconnected_when_closed m i r _ c h e = ground arith
