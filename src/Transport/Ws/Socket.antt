-- ===== src/Transport/Ws/Socket.antt =====
-- The transport's state, its calls, the heartbeat and the events of sockets and timers
-- (src/transport/WsTransport.js).
use rez_sdk.Common.{
  ℕ, zero, suc, ◌+◌, Bool, true, false, not, Option, none, some, List, [], ◌∷◌, ◌++◌, String, ltb,
  leb, ◌==◌, is_some, if◌then◌else◌, length,
}
use rez_sdk.Common.Text.{is_empty, trim}
use rez_sdk.Transport.Requests.{
  RequestId, Frame, TransportError, as_error, or_text, Requests, Sending, issue, expire, reject_all,
}

-- `readyState`: 0, 1, 2 and 3
pub data ReadyState : Type 0 where
  connecting open_state closing closed : ReadyState

-- A socket that `wsFactory` has made: whether the promise of `connect` still waits for it, and whether
-- the listeners for messages, errors and its end are attached, which are never taken off.
pub record Socket : Type 0 where
  pub ready_state : ReadyState
  pub awaited : Bool
  pub attached : Bool

-- What the state listeners are told.
pub data StateEvent : Type 0 where
  connected : StateEvent
  disconnected : String → StateEvent
  error : String → StateEvent
  warn : String → StateEvent

-- The fields, with the sockets in the order in which they were made (`#ws` is one of them by its
-- number); `states` and `frames` are what the listeners were told, the last first.
pub record WsTransport : Type 0 where
  pub sockets : List Socket
  pub ws : Option ℕ
  pub requests : Requests
  pub heartbeat_timer : Bool
  pub last_pong_at_ms : ℕ
  pub missed_pongs : ℕ
  pub bad_frame_count : ℕ
  pub bad_frame_window_start : ℕ
  pub states : List StateEvent
  pub frames : List Frame

unfoldable pub new : WsTransport
new = record {
  sockets = [];
  ws = none;
  requests = record { seq = 0; pending = []; settled = [] };
  heartbeat_timer = false;
  last_pong_at_ms = 0;
  missed_pongs = 0;
  bad_frame_count = 0;
  bad_frame_window_start = 0;
  states = [];
  frames = [];
}

unfoldable pub socket : ℕ → List Socket → Option Socket
socket n [] = none
socket zero (s ∷ ss) = some s
socket (suc n) (s ∷ ss) = socket n ss

unfoldable pub set_socket : ℕ → Socket → List Socket → List Socket
set_socket n new_one [] = []
set_socket zero new_one (s ∷ ss) = new_one ∷ ss
set_socket (suc n) new_one (s ∷ ss) = s ∷ set_socket n new_one ss

abbrev pub is_open : Option Socket → Bool
is_open none = false
is_open (some s) = elim s.ready_state [ open_state ↦ true | _ ↦ false ]

abbrev pub is_open_at : Option ℕ → List Socket → Bool
is_open_at none ss = false
is_open_at (some n) ss = is_open (socket n ss)

-- `isConnected`
unfoldable pub is_connected : WsTransport → Bool
is_connected t = is_open_at t.ws t.sockets

-- `#emitState`
unfoldable pub emit_state : StateEvent → WsTransport → WsTransport
emit_state e t = record t { states = e ∷ t.states }

-- `#stopHeartbeat`
unfoldable pub stop_heartbeat : WsTransport → WsTransport
stop_heartbeat t = record t { heartbeat_timer = false }

-- `#startHeartbeat`; an interval of 0 turns it off.
unfoldable pub start_heartbeat : ℕ → WsTransport → WsTransport
start_heartbeat interval_ms t =
    if interval_ms == 0
    then t
    else record t { heartbeat_timer = true; last_pong_at_ms = 0; missed_pongs = 0 }

-- `ws.close()` of a socket
abbrev pub close_of : Socket → Socket
close_of s = record s { ready_state = elim s.ready_state [ closed ↦ closed | _ ↦ closing ] }

abbrev pub closed_at : ℕ → Option Socket → List Socket → List Socket
closed_at n none ss = ss
closed_at n (some s) ss = set_socket n (close_of s) ss

abbrev pub close_socket : Option ℕ → List Socket → List Socket
close_socket none ss = ss
close_socket (some n) ss = closed_at n (socket n ss) ss

-- `close`
unfoldable pub close : WsTransport → WsTransport
close t = record t {
  heartbeat_timer = false;
  requests = reject_all (as_error "DISCONNECTED" "socket closed" true none) t.requests;
  sockets = close_socket t.ws t.sockets;
  ws = none;
}

-- `#onClosed`; an event without a reason has "".
unfoldable pub on_closed : String → WsTransport → WsTransport
unfolding stop_heartbeat emit_state
on_closed reason t = emit_state (disconnected reason) (record (stop_heartbeat t) {
  requests =
      reject_all (as_error "DISCONNECTED" (or_text reason "socket closed") true none) t.requests;
})

-- `connect` up to its wait: the factory makes a socket, unless one is open.
unfoldable pub connect : WsTransport → WsTransport
connect t = if is_connected t then t else record t {
  sockets = t.sockets ++ record { ready_state = connecting; awaited = true; attached = false } ∷ [];
  ws = some (length t.sockets);
}

-- The rest of `connect`, when the socket opens. A socket on which `connect` has given up is open all the
-- same.
abbrev pub opened : ℕ → ℕ → Option Socket → WsTransport → WsTransport
opened interval_ms n none t = t
opened interval_ms n (some s) t =
    if s.awaited
    then start_heartbeat interval_ms (record t {
      states = connected ∷ t.states;
      sockets =
          set_socket n (record { ready_state = open_state; awaited = false; attached = true })
            t.sockets;
    })
    else record t { sockets = set_socket n (record s { ready_state = open_state }) t.sockets }

unfoldable pub on_open : ℕ → ℕ → WsTransport → WsTransport
unfolding start_heartbeat
on_open interval_ms n t = opened interval_ms n (socket n t.sockets) t

-- `connect` gives up, at its timeout or an error: the socket stays where it is.
abbrev pub given_up : ℕ → Option Socket → WsTransport → WsTransport
given_up n none t = t
given_up n (some s) t = record t { sockets = set_socket n (record s { awaited = false }) t.sockets }

unfoldable pub on_connect_timeout : ℕ → WsTransport → WsTransport
on_connect_timeout n t = given_up n (socket n t.sockets) t

-- An error event: of a socket that is awaited, or of one with listeners.
abbrev pub failed : ℕ → String → Option Socket → WsTransport → WsTransport
failed n message none t = t
failed n message (some s) t =
    if s.awaited
    then given_up n (some s) t
    else if s.attached
    then record t { states = error (or_text message "socket error") ∷ t.states }
    else t

unfoldable pub on_error : ℕ → String → WsTransport → WsTransport
on_error n message t = failed n message (socket n t.sockets) t

-- A close event.
abbrev pub ended : ℕ → String → Option Socket → WsTransport → WsTransport
ended n reason none t = t
ended n reason (some s) t =
    let after = record t { sockets = set_socket n (record s { ready_state = closed }) t.sockets } in
    if s.attached then on_closed reason after else after

unfoldable pub on_close : ℕ → String → WsTransport → WsTransport
unfolding on_closed
on_close n reason t = ended n reason (socket n t.sockets) t

-- What `sendRequest` is refused with at once, or none: the transport is left as it is.
unfoldable pub refused_request : String → WsTransport → Option TransportError
unfolding is_connected
refused_request type t =
    if not (is_connected t)
    then some (as_error "DISCONNECTED" "socket not connected" true none)
    else if is_empty (trim type)
    then some (as_error "BAD_REQUEST" "type required" false none)
    else none

-- `sendRequest`
unfoldable pub send_request : String → Option String → ℕ → Sending → WsTransport → WsTransport
send_request type expected now answer t =
    if is_some (refused_request type t)
    then t
    else record t { requests = issue (trim type) expected now answer t.requests }

-- The timer of a request.
unfoldable pub on_request_timeout : RequestId → WsTransport → WsTransport
on_request_timeout id t = record t { requests = expire id t.requests }

-- The ping goes out, unless the codec or the socket throws.
unfoldable pub send_ping : Bool → WsTransport → WsTransport
unfolding on_closed
send_ping sent t =
    let s = record t { missed_pongs = t.missed_pongs + 1; last_pong_at_ms = 0 } in
    if sent then s else on_closed "heartbeat send failed" s

-- `#sendHeartbeat`
unfoldable pub send_heartbeat : Bool → WsTransport → WsTransport
unfolding is_connected send_ping on_closed
send_heartbeat sent t =
    if not (is_connected t)
    then t
    else if ltb 0 t.last_pong_at_ms
    then send_ping sent (record t { missed_pongs = 0 })
    else if leb 2 t.missed_pongs
    then (let c = on_closed "heartbeat pong timeout" t in
        record c { sockets = close_socket c.ws c.sockets })
    else send_ping sent t

-- The interval timer, while it is set.
unfoldable pub on_tick : Bool → WsTransport → WsTransport
on_tick sent t = if t.heartbeat_timer then send_heartbeat sent t else t
