-- ===== src/Connection/Machine/Safety.antt =====
-- What holds of the machine after every sequence of events.
use rez_sdk.Common.{
  ℕ, zero, suc, ◌*◌, ◌^◌, ◌≡◌, refl, ◌≤◌, Bool, true, false, Option, none, some, List, [], ◌∷◌,
  is_some, if◌then◌else◌, arith,
}
use rez_sdk.Connection.Machine.{
  ConnectionState, disconnected, connected, same_state, Effect, state_changed, Origin, caller,
  timer_callback, Phase, closing, opening, proving, Reconnect, Machine, new, emit, transition,
  exceeds, delay, schedule_reconnect, on_transport_disconnect, connect, connect_failed,
  resume_connected, disconnect, resume_disconnected, Run,
}
use rez_sdk.Connection.Machine.Steps.{
  Event, run_settles, call_connect, call_disconnect, timer_fires, disconnect_settles,
  transport_state, TransportPhase, other, remove, get_elem?, resume, hear, fire_timer,
  settle_disconnect, settle_run, handle, handle_all,
}

-- The delay of an armed timer.
abbrev pub armed_delay : Option ℕ → ℕ
armed_delay none = 0
armed_delay (some d) = d

-- The state that the listeners were told last.
abbrev pub current : List Effect → ConnectionState
current [] = disconnected
current (state_changed _ q ∷ l) = q
current (_ ∷ l) = current l

-- Every announced change starts where the one before ended, and is a change.
abbrev pub IsChain : List Effect → Type 0
IsChain [] = Unit
IsChain (state_changed p q ∷ l) = (p ≡ current l) × (same_state p q ≡ false) × IsChain l
IsChain (_ ∷ l) = IsChain l

pub record IsSafe (m : Machine) : Type 0 where
  pub armed_open : is_some m.timer ≡ true → m.closed ≡ false
  pub armed_counted : is_some m.timer ≡ true → exceeds m.attempts m.reconnect.max_attempts ≡ false
  pub armed_capped : armed_delay m.timer ≤ m.reconnect.backoff_cap_ms * 2 ^ 53
  pub connected_fresh : m.state ≡ connected → m.attempts ≡ 0
  pub told : m.state ≡ current m.log
  pub chain : IsChain m.log
  pub backoff_floor : 1000 ≤ m.reconnect.backoff_ms
  pub cap_floor : 5000 ≤ m.reconnect.backoff_cap_ms

exceeds-zero : (o : Option ℕ) → exceeds 0 o ≡ false
exceeds-zero none = refl
exceeds-zero (some n) = ground arith

pub new-IsSafe :
    (enabled : Bool) (backoff cap limit : Option ℕ) → IsSafe (new enabled backoff cap limit)
unfolding new
new-IsSafe enabled none none limit = ground arith
new-IsSafe enabled backoff cap limit = ground arith

delay-capped : (c : Reconnect) (n r : ℕ) → delay c n r ≤ c.backoff_cap_ms * 2 ^ 53
delay-capped c n r = omega arith

transition-IsSafe :
    (s : ConnectionState) (m : Machine)
    → (s ≡ connected → m.attempts ≡ 0)
    → IsSafe m
    → IsSafe (transition s m)
unfolding transition
transition-IsSafe s m f h = ground arith

schedule_reconnect-IsSafe :
    (r : ℕ) (m : Machine)
    → same_state m.state connected ≡ false
    → IsSafe m
    → IsSafe (schedule_reconnect r m)
unfolding schedule_reconnect
schedule_reconnect-IsSafe r m n h = ground arith

on_transport_disconnect-IsSafe :
    (r : ℕ) (m : Machine) → IsSafe m → IsSafe (on_transport_disconnect r m)
unfolding emit on_transport_disconnect transition
on_transport_disconnect-IsSafe r m h = ground arith

connect-IsSafe : (o : Origin) (m : Machine) → IsSafe m → IsSafe (connect o m)
unfolding connect
connect-IsSafe o m h = ground arith

disconnect-IsSafe : (m : Machine) → IsSafe m → IsSafe (disconnect m)
unfolding disconnect
disconnect-IsSafe m h = ground arith

resume_disconnected-IsSafe : (m : Machine) → IsSafe m → IsSafe (resume_disconnected m)
unfolding resume_disconnected
resume_disconnected-IsSafe m h = ground arith

connect_failed-IsSafe :
    (r : ℕ) (o : Origin) (m : Machine) → IsSafe m → IsSafe (connect_failed r o m)
unfolding connect_failed
connect_failed-IsSafe r caller m h = ground arith
connect_failed-IsSafe r timer_callback m h = ground (arith, exceeds-zero m.reconnect.max_attempts)

resume_connected-IsSafe : (o : Origin) (m : Machine) → IsSafe m → IsSafe (resume_connected o m)
unfolding resume_connected
resume_connected-IsSafe caller m h = ground (arith, exceeds-zero m.reconnect.max_attempts)
resume_connected-IsSafe timer_callback m h = ground (arith, exceeds-zero m.reconnect.max_attempts)

with_runs-IsSafe : (rs : List Run) (m : Machine) → IsSafe m → IsSafe (record m { runs = rs })
with_runs-IsSafe rs m h = ground arith

with_closings-IsSafe : (n : ℕ) (m : Machine) → IsSafe m → IsSafe (record m { closings = n })
with_closings-IsSafe n m h = ground arith

resume-IsSafe :
    (p : Phase) (good : Bool) (r i : ℕ) (o : Origin) (m : Machine)
    → IsSafe m
    → IsSafe (resume p good r i o m)
unfolding resume
resume-IsSafe closing true r i o m h = ground arith
resume-IsSafe closing false r i o m h = ground arith
resume-IsSafe opening true r i o m h = ground arith
resume-IsSafe proving true r i o m h =
    resume_connected-IsSafe o _ (with_runs-IsSafe (remove m.runs i) m h)
resume-IsSafe _ false r i o m h =
    connect_failed-IsSafe r o _ (with_runs-IsSafe (remove m.runs i) m h)

hear-IsSafe : (p : TransportPhase) (r : ℕ) (m : Machine) → IsSafe m → IsSafe (hear p r m)
unfolding hear
hear-IsSafe other r m h = h
hear-IsSafe _ r m h = on_transport_disconnect-IsSafe r m h

if-IsSafe : (b : Bool) (m n : Machine) → IsSafe m → IsSafe n → IsSafe (if b then m else n)
if-IsSafe true m n h k = h
if-IsSafe false m n h k = k

fire_timer-IsSafe : (t : Option ℕ) (m : Machine) → IsSafe m → IsSafe (fire_timer t m)
unfolding fire_timer
fire_timer-IsSafe none m h = h
fire_timer-IsSafe (some d) m h =
    let m1 = record m { timer = none } in
    let safe : IsSafe m1 = ground arith in
    if-IsSafe m.closed m1 (connect timer_callback m1) safe (connect-IsSafe timer_callback m1 safe)

settle_disconnect-IsSafe : (n : ℕ) (m : Machine) → IsSafe m → IsSafe (settle_disconnect n m)
unfolding settle_disconnect
settle_disconnect-IsSafe zero m h = h
settle_disconnect-IsSafe (suc n) m h = resume_disconnected-IsSafe _ (with_closings-IsSafe n m h)

settle_run-IsSafe :
    (o : Option Run) (i : ℕ) (good : Bool) (r : ℕ) (m : Machine)
    → IsSafe m
    → IsSafe (settle_run o i good r m)
unfolding settle_run
settle_run-IsSafe none i good r m h = h
settle_run-IsSafe (some run) i good r m h = resume-IsSafe run.phase good r i run.origin m h

handle-IsSafe : (e : Event) (m : Machine) → IsSafe m → IsSafe (handle e m)
unfolding handle
handle-IsSafe call_connect m h = connect-IsSafe caller m h
handle-IsSafe call_disconnect m h = disconnect-IsSafe m h
handle-IsSafe timer_fires m h = fire_timer-IsSafe m.timer m h
handle-IsSafe disconnect_settles m h = settle_disconnect-IsSafe m.closings m h
handle-IsSafe (run_settles i good r) m h = settle_run-IsSafe (get_elem? m.runs i) i good r m h
handle-IsSafe (transport_state p r) m h =
    if-IsSafe m.subscribed (hear p r m) m (hear-IsSafe p r m h) h

handle_all-IsSafe : (es : List Event) (m : Machine) → IsSafe m → IsSafe (handle_all es m)
unfolding handle_all
handle_all-IsSafe [] m h = h
handle_all-IsSafe (e ∷ es) m h = handle_all-IsSafe es (handle e m) (handle-IsSafe e m h)

-- A new machine satisfies the invariant after any events in any order: an armed timer means that the
-- machine is open, that the attempts allowed are not used up, and that the delay is within the cap;
-- a connected machine has 0 attempts counted; the announced changes of state form a chain without
-- stutter from `disconnected` to the state of the machine; the backoff is at least 1 s and its cap
-- at least 5 s.
pub new-handle_all-IsSafe :
    (enabled : Bool) (backoff cap limit : Option ℕ) (es : List Event)
    → IsSafe (handle_all es (new enabled backoff cap limit))
new-handle_all-IsSafe enabled backoff cap limit es =
    handle_all-IsSafe es (new enabled backoff cap limit) (new-IsSafe enabled backoff cap limit)
