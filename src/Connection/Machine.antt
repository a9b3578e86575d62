-- ===== src/Connection/Machine.antt =====
-- The connection state machine (src/connection/ConnectionState.js and ConnectionStateMachine.js).
-- Each handler runs to its next `await`; what is awaited settles in a later event, so that calls
-- of `connect` and `disconnect`, the timer and the transport interleave in every order.
pub mod Steps
pub mod Safety
pub mod Retry
pub mod Teardown
use rez_sdk.Common.{
  ℕ, zero, suc, ◌+◌, ◌-◌, ◌*◌, ◌/◌, ◌^◌, min, max, ◌≡◌, Bool, true, false, not, Option, none, some,
  List, [], ◌∷◌, String, ltb, is_some, if◌then◌else◌,
}

-- `CONNECTION_STATES`
pub data ConnectionState : Type 0 where
  disconnected connecting authenticating connected reconnecting failed : ConnectionState

pub ConnectionState-discrete : Discrete ConnectionState
ConnectionState-discrete = hlevel

abbrev pub same_state : ConnectionState → ConnectionState → Bool
same_state disconnected disconnected = true
same_state connecting connecting = true
same_state authenticating authenticating = true
same_state connected connected = true
same_state reconnecting reconnecting = true
same_state failed failed = true
same_state _ _ = false

-- The calls that the machine makes: on the event bus, the transport and the auth machine.
pub data Effect : Type 0 where
  state_changed : ConnectionState → ConnectionState → Effect
  transport_reconnecting : ℕ → ℕ → Effect
  transport_reconnected transport_close transport_connect : Effect
  transport_unsubscribe transport_subscribe authenticate auth_reset : Effect

-- Who called `connect`, and the `await` at which the call stands.
pub data Origin : Type 0 where
  caller timer_callback : Origin

pub data Phase : Type 0 where
  closing opening proving : Phase

pub record Run : Type 0 where
  pub origin : Origin
  pub phase : Phase

-- `#reconnect`; no `max_attempts` is `Infinity`.
pub record Reconnect : Type 0 where
  pub enabled : Bool
  pub backoff_ms : ℕ
  pub backoff_cap_ms : ℕ
  pub max_attempts : Option ℕ

-- The machine, the calls of `connect` and of `disconnect` that wait, and the effects so far, newest
-- first. An armed timer is kept with its delay, in units of 2^-53 ms.
pub record Machine : Type 0 where
  pub state : ConnectionState
  pub reconnect : Reconnect
  pub timer : Option ℕ
  pub attempts : ℕ
  pub closed : Bool
  pub subscribed : Bool
  pub runs : List Run
  pub closings : ℕ
  pub log : List Effect

-- `Number(option) || otherwise`; `none` is a value that is no number.
abbrev pub number_or : Option ℕ → ℕ → ℕ
number_or none d = d
number_or (some zero) d = d
number_or (some (suc n)) d = suc n

unfoldable pub new : Bool → Option ℕ → Option ℕ → Option ℕ → Machine
new enabled backoff_ms backoff_cap_ms max_attempts = record {
  state = disconnected;
  reconnect = record {
    enabled = enabled;
    backoff_ms = max 1000 (number_or backoff_ms 2000);
    backoff_cap_ms = max 5000 (number_or backoff_cap_ms 60_000);
    max_attempts = max_attempts;
  };
  timer = none;
  attempts = 0;
  closed = false;
  subscribed = false;
  runs = [];
  closings = 0;
  log = [];
}

unfoldable pub emit : Effect → Machine → Machine
emit e m = record m { log = e ∷ m.log }

-- `#transition`
unfoldable pub transition : ConnectionState → Machine → Machine
transition s m =
    if same_state m.state s
    then m
    else record m { state = s; log = state_changed m.state s ∷ m.log }

-- `#stopReconnectTimer`
unfoldable pub stop_reconnect_timer : Machine → Machine
stop_reconnect_timer m = record m { timer = none }

-- `attempts > maxAttempts`
abbrev pub exceeds : ℕ → Option ℕ → Bool
exceeds n none = false
exceeds n (some k) = ltb k n

-- `Math.random()` is `r / 2^53`, so the jitter `0.5 + Math.random()` is `(2^52 + r) / 2^53`.
abbrev pub delay : Reconnect → ℕ → ℕ → ℕ
delay c attempts r =
    min (c.backoff_cap_ms * 2 ^ 53) (c.backoff_ms * 2 ^ (attempts - 1) * (2 ^ 52 + r))

-- `Math.round` of a delay
abbrev pub round : ℕ → ℕ
round d = (d + 2 ^ 52) / 2 ^ 53

-- `#scheduleReconnect` on the raised counter
unfoldable pub arm : ℕ → Machine → Machine
unfolding transition
arm r m = if exceeds m.attempts m.reconnect.max_attempts then transition failed m else record m {
  timer = some (delay m.reconnect m.attempts r);
  log = transport_reconnecting m.attempts (round (delay m.reconnect m.attempts r)) ∷ m.log;
}

unfoldable pub schedule_reconnect : ℕ → Machine → Machine
unfolding arm
schedule_reconnect r m =
    if m.closed
    then m
    else if is_some m.timer
    then m
    else arm r (record m { attempts = m.attempts + 1 })

-- `#onTransportDisconnect`
unfoldable pub on_transport_disconnect : ℕ → Machine → Machine
unfolding emit transition schedule_reconnect
on_transport_disconnect r m =
    if m.closed
    then m
    else if same_state m.state disconnected
    then m
    else if same_state m.state reconnecting
    then m
    else if not m.reconnect.enabled
    then transition failed (emit auth_reset m)
    else schedule_reconnect r (transition reconnecting (emit auth_reset m))

-- `connect` up to its first `await`
unfoldable pub connect : Origin → Machine → Machine
unfolding emit transition stop_reconnect_timer
connect origin m =
    let m1 = stop_reconnect_timer (record m { closed = false }) in
    let m2 = emit transport_close (transition connecting m1) in
    record m2 { runs = record { origin = origin; phase = closing } ∷ m2.runs }

-- The `then` of the timer's `connect()`: nothing waits for a caller's call.
unfoldable pub on_resolved : Origin → Machine → Machine
on_resolved caller m = m
on_resolved timer_callback m = record m { attempts = 0; log = transport_reconnected ∷ m.log }

unfoldable pub on_rejected : ℕ → Origin → Machine → Machine
unfolding schedule_reconnect
on_rejected r caller m = m
on_rejected r timer_callback m = if m.closed then m else schedule_reconnect r m

-- The `catch` of `connect`
unfoldable pub connect_failed : ℕ → Origin → Machine → Machine
unfolding transition on_resolved on_rejected
connect_failed r origin m =
    if m.closed then on_resolved origin m else on_rejected r origin (transition failed m)

-- `connect` behind `await this.#transport.close()`
unfoldable pub resume_open : Machine → Machine
resume_open m = record m {
  subscribed = true;
  log =
      transport_connect
      ∷ transport_subscribe
      ∷ (if m.subscribed then transport_unsubscribe ∷ m.log else m.log);
}

-- `connect` behind `await this.#transport.connect()`
unfoldable pub resume_prove : Machine → Machine
unfolding emit transition
resume_prove m = emit authenticate (transition authenticating m)

-- `connect` behind `await this.#authMachine.authenticate(…)`
unfoldable pub resume_connected : Origin → Machine → Machine
unfolding transition on_resolved
resume_connected origin m = on_resolved origin (transition connected (record m { attempts = 0 }))

-- `disconnect` up to its `await`, and behind it
unfoldable pub disconnect : Machine → Machine
unfolding stop_reconnect_timer
disconnect m =
    let m1 = stop_reconnect_timer (record m { closed = true }) in
    record m1 {
      attempts = 0;
      subscribed = false;
      closings = m1.closings + 1;
      log = transport_close ∷ (if m1.subscribed then transport_unsubscribe ∷ m1.log else m1.log);
    }

unfoldable pub resume_disconnected : Machine → Machine
unfolding emit transition
resume_disconnected m = transition disconnected (emit auth_reset m)
