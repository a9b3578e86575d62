-- ===== src/Transport/Ws/Inbound.antt =====
-- Frames that come in on a socket (src/transport/WsTransport.js, `#onRawFrame`).
use Prim.Native.Char.{code}
use rez_sdk.Common.{
  ℕ, ◌+◌, ◌-◌, Bool, false, ◌||◌, Option, none, some, List, [], ◌∷◌, String, str_eq, ltb,
  if◌then◌else◌, is_some,
}
use rez_sdk.Transport.Requests.{
  RequestId, FrameId, issued, foreign, Body, Frame, as_error, or_text, Entry, Outcome, rejected,
  find, settle, response,
}
use rez_sdk.Transport.Ws.Socket.{
  Socket, error, warn, WsTransport, emit_state, close, connect, on_open, on_connect_timeout,
  on_error, on_close, send_request, on_request_timeout, on_tick, socket,
}
use rez_sdk.Transport.Requests.{Sending}

-- The length of `new TextEncoder().encode(raw)`
abbrev utf8_width : ℕ → ℕ
utf8_width c = if ltb c 128 then 1 else if ltb c 2048 then 2 else if ltb c 65536 then 3 else 4

unfoldable pub byte_length : String → ℕ
byte_length String.[] = 0
byte_length (String.◌∷◌ c s) = utf8_width (code c) + byte_length s

-- What the codec makes of a text: a frame, or the message of what it throws.
pub data Decoded : Type 0 where
  frame : Frame → Decoded
  bad : String → Decoded

-- `frameBody.retryable === true || detail.retryable === true`
abbrev pub is_retryable : Body → Bool
is_retryable b = b.retryable || elim b.detail [ none ↦ false | some r ↦ r ]

abbrev pub is_error_type : String → Bool
is_error_type type = str_eq type "error" || str_eq type "chat.error"

-- What a frame makes of the request it answers.
unfoldable pub outcome_of : Frame → Entry → Outcome
outcome_of f e =
    if is_error_type f.type
    then rejected (
        as_error (or_text f.body.code "REMOTE_ERR") (or_text f.body.message "remote error")
          (is_retryable f.body) f.body.detail)
    else response f e

-- The id under which a request may wait for the frame.
abbrev pub asked_by : Option FrameId → List Entry → Option RequestId
asked_by none es = none
asked_by (some (foreign text)) es = none
asked_by (some (issued id)) es = if is_some (find id es) then some id else none

abbrev pub correlated : Frame → Option RequestId → WsTransport → WsTransport
correlated f none t = record t { frames = f ∷ t.frames }
correlated f (some id) t = record t { requests = settle (outcome_of f) id t.requests }

-- A frame that is well formed: a pong, the answer to a request, or one for the frame listeners.
unfoldable pub on_frame : ℕ → Frame → WsTransport → WsTransport
on_frame now f t =
    if str_eq f.type "pong"
    then record t { last_pong_at_ms = now }
    else correlated f (asked_by f.id t.requests.pending) t

-- A frame that is not: eleven of them within five seconds end the connection.
unfoldable pub on_bad_frame : ℕ → String → WsTransport → WsTransport
unfolding emit_state
on_bad_frame now reason t =
    let fresh = ltb 5000 (now - t.bad_frame_window_start) in
    let t' = record (emit_state (warn reason) t) {
      bad_frame_count = (if fresh then 0 else t.bad_frame_count) + 1;
      bad_frame_window_start = (if fresh then now else t.bad_frame_window_start);
    } in
    if ltb 10 t'.bad_frame_count
    then close (emit_state (error "too many bad frames — disconnecting") t')
    else t'

abbrev pub decoded : ℕ → Decoded → WsTransport → WsTransport
decoded now (frame f) t = on_frame now f t
decoded now (bad reason) t = on_bad_frame now (or_text reason "bad frame") t

-- The limit, the codec and the interval that the constructor was given.
pub record Settings : Type 0 where
  pub max_frame_bytes : ℕ
  pub decode_frame : String → Decoded
  pub heartbeat_interval_ms : ℕ

-- `#onRawFrame`
unfoldable pub on_raw_frame : Settings → ℕ → String → WsTransport → WsTransport
unfolding on_frame on_bad_frame emit_state
on_raw_frame c now raw t =
    if ltb c.max_frame_bytes (byte_length raw)
    then emit_state (warn "frame too large") t
    else decoded now (c.decode_frame raw) t

abbrev pub received : Settings → ℕ → String → Option Socket → WsTransport → WsTransport
received c now raw none t = t
received c now raw (some s) t = if s.attached then on_raw_frame c now raw t else t

unfoldable pub on_message : Settings → ℕ → ℕ → String → WsTransport → WsTransport
on_message c now n raw t = received c now raw (socket n t.sockets) t

-- What may happen next: a call, or an event of a socket or of a timer. A close of the socket that
-- `#ws.close()` has begun comes as an event of its own.
pub data Event : Type 0 where
  connect_call close_call : Event
  request_call : String → Option String → ℕ → Sending → Event
  open_event connect_timeout_event : ℕ → Event
  error_event close_event : ℕ → String → Event
  message_event : ℕ → ℕ → String → Event
  request_timeout_event : RequestId → Event
  tick_event : Bool → Event

unfoldable pub react : Settings → Event → WsTransport → WsTransport
react c connect_call t = connect t
react c close_call t = close t
react c (request_call type expected now answer) t = send_request type expected now answer t
react c (open_event n) t = on_open c.heartbeat_interval_ms n t
react c (connect_timeout_event n) t = on_connect_timeout n t
react c (error_event n message) t = on_error n message t
react c (close_event n reason) t = on_close n reason t
react c (message_event now n raw) t = on_message c now n raw t
react c (request_timeout_event id) t = on_request_timeout id t
react c (tick_event sent) t = on_tick sent t

unfoldable pub run : Settings → List Event → WsTransport → WsTransport
run c [] t = t
run c (e ∷ es) t = run c es (react c e t)
