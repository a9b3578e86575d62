-- ===== src/Transport/Tcp/Socket.antt =====
-- The transport's state, its calls, the frames that come in and the events of sockets and timers
-- (src/transport/TcpTransport.js).
use rez_sdk.Common.{
  ℕ, zero, suc, ◌+◌, Bool, true, false, not, ◌&&◌, Option, none, some, List, [], ◌∷◌, ◌++◌, String,
  str_eq, ◌==◌, is_some, if◌then◌else◌, length,
}
use rez_sdk.Common.Text.{is_empty, trim}
use rez_sdk.Transport.Framing.{Drained, on_data}
use rez_sdk.Transport.Requests.{
  RequestId, FrameId, issued, foreign, Frame, TransportError, as_error, or_text, Entry, Outcome,
  rejected, Requests, find, Sending, issue, settle, expire, reject_all, response,
}

-- What the codec makes of a payload as text: a frame, or the message of what it throws.
pub data Decoded : Type 0 where
  frame : Frame → Decoded
  bad : String → Decoded

-- A socket: whether it was destroyed, whether the promise of `connect` still waits for it, and how often
-- the listeners for data, errors and its end were attached.
pub record Socket : Type 0 where
  pub destroyed : Bool
  pub awaited : Bool
  pub listeners : ℕ

-- What the state listeners are told.
pub data StateEvent : Type 0 where
  connected_event : StateEvent
  disconnected : String → StateEvent
  error : String → StateEvent
  warn : String → StateEvent

-- The fields, with the sockets in the order in which they were made.
pub record TcpTransport : Type 0 where
  pub sockets : List Socket
  pub socket : Option ℕ
  pub connected : Bool
  pub requests : Requests
  pub keep_alive_timer : Bool
  pub read_buffer : List ℕ
  pub states : List StateEvent
  pub frames : List Frame

unfoldable pub new : TcpTransport
new = record {
  sockets = [];
  socket = none;
  connected = false;
  requests = record { seq = 0; pending = []; settled = [] };
  keep_alive_timer = false;
  read_buffer = [];
  states = [];
  frames = [];
}

unfoldable pub socket_at : ℕ → List Socket → Option Socket
socket_at n [] = none
socket_at zero (s ∷ ss) = some s
socket_at (suc n) (s ∷ ss) = socket_at n ss

-- A change of one socket.
unfoldable pub change_socket : (Socket → Socket) → ℕ → List Socket → List Socket
change_socket f n [] = []
change_socket f zero (s ∷ ss) = f s ∷ ss
change_socket f (suc n) (s ∷ ss) = s ∷ change_socket f n ss

abbrev pub change_current : (Socket → Socket) → Option ℕ → List Socket → List Socket
change_current f none ss = ss
change_current f (some n) ss = change_socket f n ss

abbrev pub destroy : Socket → Socket
destroy s = record s { destroyed = true }

abbrev pub is_alive : Option Socket → Bool
is_alive none = false
is_alive (some s) = not s.destroyed

abbrev pub is_alive_at : Option ℕ → List Socket → Bool
is_alive_at none ss = false
is_alive_at (some n) ss = is_alive (socket_at n ss)

-- `isConnected`
unfoldable pub is_connected : TcpTransport → Bool
is_connected t = t.connected && is_alive_at t.socket t.sockets

-- The constructor's options that are read later; the codec takes a payload's bytes as UTF-8.
pub record Settings : Type 0 where
  pub max_frame_bytes : ℕ
  pub decode_frame : List ℕ → Decoded
  pub keep_alive_ms : ℕ

-- `connect` up to its wait: a new socket, unless there is a connection.
unfoldable pub connect : TcpTransport → TcpTransport
connect t = if is_connected t then t else record t {
  sockets = t.sockets ++ record { destroyed = false; awaited = true; listeners = 0 } ∷ [];
  socket = some (length t.sockets);
}

-- The rest of `connect`: the listeners go to the socket that is the current one by then.
abbrev pub established : ℕ → ℕ → Option Socket → TcpTransport → TcpTransport
established keep_alive_ms n none t = t
established keep_alive_ms n (some s) t =
    if s.awaited
    then record t {
      connected = true;
      read_buffer = [];
      states = connected_event ∷ t.states;
      sockets =
          change_current (λ (a : Socket). record a { listeners = a.listeners + 1 }) t.socket
            (change_socket (λ (a : Socket). record a { awaited = false }) n t.sockets);
      keep_alive_timer = (if keep_alive_ms == 0 then t.keep_alive_timer else true);
    }
    else t

unfoldable pub on_connect : ℕ → ℕ → TcpTransport → TcpTransport
on_connect keep_alive_ms n t = established keep_alive_ms n (socket_at n t.sockets) t

-- The timeout of `connect` destroys the socket that it waits for.
abbrev pub timed_out : ℕ → Option Socket → TcpTransport → TcpTransport
timed_out n none t = t
timed_out n (some s) t =
    if s.awaited
    then record t {
      sockets =
          change_socket (λ (a : Socket). record a { destroyed = true; awaited = false }) n
            t.sockets;
    }
    else t

unfoldable pub on_connect_timeout : ℕ → TcpTransport → TcpTransport
on_connect_timeout n t = timed_out n (socket_at n t.sockets) t

-- Each of the listeners of a socket is called.
unfoldable pub times : ℕ → (TcpTransport → TcpTransport) → TcpTransport → TcpTransport
times zero f t = t
times (suc n) f t = times n f (f t)

-- An error event.
abbrev pub failed : ℕ → String → Option Socket → TcpTransport → TcpTransport
failed n message none t = t
failed n message (some s) t =
    if s.awaited
    then record t {
      sockets = change_socket (λ (a : Socket). record a { awaited = false }) n t.sockets;
    }
    else times s.listeners
        (λ (u : TcpTransport). record u {
          states = error (or_text message "socket error") ∷ u.states;
        })
        t

unfoldable pub on_error : ℕ → String → TcpTransport → TcpTransport
unfolding times
on_error n message t = failed n message (socket_at n t.sockets) t

-- `close`
unfoldable pub close : TcpTransport → TcpTransport
close t = record t {
  keep_alive_timer = false;
  connected = false;
  requests = reject_all (as_error "DISCONNECTED" "socket closed" true none) t.requests;
  sockets = change_current destroy t.socket t.sockets;
  socket = none;
  read_buffer = [];
}

-- `#onClosed`
unfoldable pub on_closed : String → TcpTransport → TcpTransport
on_closed reason t = record t {
  keep_alive_timer = false;
  connected = false;
  requests =
      reject_all (as_error "DISCONNECTED" (or_text reason "socket closed") true none) t.requests;
  states = disconnected reason ∷ t.states;
}

-- A close event.
abbrev pub ended : ℕ → Option Socket → TcpTransport → TcpTransport
ended n none t = t
ended n (some s) t =
    times s.listeners (on_closed "socket closed")
      (record t { sockets = change_socket destroy n t.sockets })

unfoldable pub on_close : ℕ → TcpTransport → TcpTransport
unfolding times on_closed
on_close n t = ended n (socket_at n t.sockets) t

-- What `sendRequest` is refused with at once, or none.
unfoldable pub refused_request : String → TcpTransport → Option TransportError
refused_request type t =
    if not (is_connected t)
    then some (as_error "DISCONNECTED" "socket not connected" true none)
    else if is_empty (trim type)
    then some (as_error "BAD_REQUEST" "type required" false none)
    else none

-- `sendRequest`
unfoldable pub send_request : String → Option String → ℕ → Sending → TcpTransport → TcpTransport
send_request type expected now answer t =
    if is_some (refused_request type t)
    then t
    else record t { requests = issue (trim type) expected now answer t.requests }

unfoldable pub on_request_timeout : RequestId → TcpTransport → TcpTransport
on_request_timeout id t = record t { requests = expire id t.requests }

-- `#sendKeepAlive`: whether the ping could be written; no answer is waited for.
unfoldable pub send_keep_alive : Bool → TcpTransport → TcpTransport
unfolding on_closed
send_keep_alive sent t =
    if not (is_connected t) then t else if sent then t else on_closed "keep-alive send failed" t

-- The interval timer, while it is set.
unfoldable pub on_tick : Bool → TcpTransport → TcpTransport
on_tick sent t = if t.keep_alive_timer then send_keep_alive sent t else t

abbrev pub is_error_type : String → Bool
is_error_type type = str_eq type "error"

-- What a frame makes of the request it answers; a detail is not looked at.
unfoldable pub outcome_of : Frame → Entry → Outcome
outcome_of f e =
    if is_error_type f.type
    then rejected (
        as_error (or_text f.body.code "REMOTE_ERR") (or_text f.body.message "remote error")
          f.body.retryable none)
    else response f e

-- The id under which a request may wait for the frame.
abbrev pub asked_by : Option FrameId → List Entry → Option RequestId
asked_by none es = none
asked_by (some (foreign text)) es = none
asked_by (some (issued id)) es = if is_some (find id es) then some id else none

abbrev pub correlated : Frame → Option RequestId → TcpTransport → TcpTransport
correlated f none t = record t { frames = f ∷ t.frames }
correlated f (some id) t = record t { requests = settle (outcome_of f) id t.requests }

-- `#processFrame`
abbrev pub decoded : Decoded → TcpTransport → TcpTransport
decoded (frame f) t = correlated f (asked_by f.id t.requests.pending) t
decoded (bad reason) t = record t { states = warn (or_text reason "bad frame") ∷ t.states }

unfoldable pub process_frame : Settings → List ℕ → TcpTransport → TcpTransport
process_frame c payload t = decoded (c.decode_frame payload) t

unfoldable pub process_frames : Settings → List (List ℕ) → TcpTransport → TcpTransport
process_frames c [] t = t
process_frames c (payload ∷ payloads) t = process_frames c payloads (process_frame c payload t)

-- `#onData`, its loop by what it hands on and leaves.
abbrev pub drained : Settings → Drained → TcpTransport → TcpTransport
drained c d t =
    let u = process_frames c d.frames (record t { read_buffer = d.rest }) in
    if d.too_large then record u { states = warn "frame too large" ∷ u.states } else u

unfoldable pub receive : Settings → List ℕ → TcpTransport → TcpTransport
unfolding process_frames process_frame
receive c chunk t = drained c (on_data c.max_frame_bytes t.read_buffer chunk) t

-- A data event.
abbrev pub received : Settings → List ℕ → Option Socket → TcpTransport → TcpTransport
received c chunk none t = t
received c chunk (some s) t = times s.listeners (receive c chunk) t

unfoldable pub on_chunk : Settings → ℕ → List ℕ → TcpTransport → TcpTransport
unfolding times receive
on_chunk c n chunk t = received c chunk (socket_at n t.sockets) t

-- What may happen next: a call, or an event of a socket or of a timer.
pub data Event : Type 0 where
  connect_call close_call : Event
  request_call : String → Option String → ℕ → Sending → Event
  connect_event connect_timeout_event close_event : ℕ → Event
  error_event : ℕ → String → Event
  data_event : ℕ → List ℕ → Event
  request_timeout_event : RequestId → Event
  tick_event : Bool → Event

unfoldable pub react : Settings → Event → TcpTransport → TcpTransport
react c connect_call t = connect t
react c close_call t = close t
react c (request_call type expected now answer) t = send_request type expected now answer t
react c (connect_event n) t = on_connect c.keep_alive_ms n t
react c (connect_timeout_event n) t = on_connect_timeout n t
react c (close_event n) t = on_close n t
react c (error_event n message) t = on_error n message t
react c (data_event n chunk) t = on_chunk c n chunk t
react c (request_timeout_event id) t = on_request_timeout id t
react c (tick_event sent) t = on_tick sent t

unfoldable pub run : Settings → List Event → TcpTransport → TcpTransport
run c [] t = t
run c (e ∷ es) t = run c es (react c e t)
