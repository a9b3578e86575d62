-- ===== src/Tests/Transport.antt =====
-- Transports at work.
use rez_sdk.Common.{
  ℕ, ◌≡◌, refl, true, false, none, some, List, [], ◌∷◌, ◌++◌, String, str_eq, if◌then◌else◌, length,
  arith, ◌==◌,
}
use rez_sdk.Common.Text.{trim_start, trim_end, trim, is_space}
use rez_sdk.Common.Value.{undefined}
use rez_sdk.Transport.Framing.{write_frame, on_data, drain}
use rez_sdk.Transport.Framing.Bounds.{IsBounded, on_data-IsBounded}
use rez_sdk.Transport.Requests.{
  RequestId, Frame, issued, as_error, sent, find, put, remove, issue, settle, expire, reject_each,
  reject_all,
}
use rez_sdk.Transport.Ws.Socket.{
  WsTransport, new, socket, set_socket, is_connected, emit_state, stop_heartbeat, start_heartbeat,
  close, on_closed, connect, on_open, on_connect_timeout, on_error, on_close, refused_request,
  send_request, on_request_timeout, send_ping, send_heartbeat, on_tick, disconnected,
}
use rez_sdk.Transport.Ws.Inbound.{
  frame, bad, byte_length, Settings, on_frame, on_bad_frame, on_raw_frame, on_message, outcome_of,
  Event, connect_call, close_call, request_call, open_event, close_event, message_event, react, run,
}
use rez_sdk.Transport.Ws.Once.{IsOrderly, run-IsOrderly}
use rez_sdk.Transport.Ws.Heartbeat.{ticks, IsGivenUp, ticks-IsGivenUp}
use rez_sdk.Transport.Ws.Malformed.{feed, IsDropped, feed-malformed}
use rez_sdk.Transport.Ws.Stale.{on_close-replaced, IsDeaf, on_open-IsDeaf}
use rez_sdk.Transport.Tcp.Socket as Tcp
use rez_sdk.Transport.Tcp.Once as TcpOnce
use rez_sdk.Transport.Tcp.Chunks.{receive_all, receive_all-stream}

program : Unit {0}
unfolding trim trim_start trim_end is_space find put remove issue settle expire reject_each
    reject_all new socket set_socket is_connected emit_state stop_heartbeat start_heartbeat close
    on_closed connect on_open on_connect_timeout on_error on_close refused_request send_request
    on_request_timeout send_ping send_heartbeat on_tick byte_length on_frame on_bad_frame
    on_raw_frame on_message outcome_of react run
program = tt

abbrev first_id : RequestId
first_id = record { prefix = "chat.get"; at = 7; seq = 1 }

abbrev reply : Frame
reply = record {
  id = some (issued first_id);
  type = "chat.got";
  version = undefined;
  body = record { code = ""; message = ""; retryable = false; detail = none };
}

abbrev pong : Frame
pong = record {
  id = none;
  type = "pong";
  version = undefined;
  body = record { code = ""; message = ""; retryable = false; detail = none };
}

abbrev settings : Settings
settings = record {
  max_frame_bytes = 1024;
  decode_frame = λ (raw : String).
      if str_eq raw "reply"
      then frame reply
      else if str_eq raw "pong"
      then frame pong
      else bad "bad frame json";
  heartbeat_interval_ms = 30_000;
}

-- A connection with one request under way.
abbrev opening : List Event
opening = connect_call ∷ open_event 0 ∷ request_call " chat.get" (some "chat.got") 7 sent ∷ []

abbrev waiting : WsTransport
waiting = run settings opening new

sent_once : waiting.requests.pending ≡ record { id = first_id; expected = some "chat.got" } ∷ []
unfolding program
sent_once = refl

replied : (run settings (message_event 8 0 "reply" ∷ []) waiting).requests.pending ≡ []
unfolding program
replied = refl

run-IsOrderly_example :
    IsOrderly
      (run settings (opening ++ message_event 8 0 "reply" ∷ close_event 0 "" ∷ []) new).requests
run-IsOrderly_example =
    run-IsOrderly settings (opening ++ message_event 8 0 "reply" ∷ close_event 0 "" ∷ [])

ticks-IsGivenUp_example : IsGivenUp waiting (ticks 3 waiting)
unfolding program
ticks-IsGivenUp_example =
    ticks-IsGivenUp 2 waiting (record { connected = refl; timer = refl }) refl (omega arith)

abbrev garbage : List (ℕ × String)
garbage =
    (2, "x")
    ∷ (3, "x")
    ∷ (4, "x")
    ∷ (5, "x")
    ∷ (6, "x")
    ∷ (7, "x")
    ∷ (8, "x")
    ∷ (9, "x")
    ∷ (10, "x")
    ∷ (11, "x")
    ∷ []

feed-malformed_example : IsDropped (feed settings ((1, "x") ∷ garbage) waiting)
unfolding program
feed-malformed_example = feed-malformed settings (1, "x") garbage waiting (ground arith)

-- The transport is closed and connected again before the end of the first socket comes in.
abbrev replaced : WsTransport
replaced =
    run settings
      (close_call ∷ connect_call ∷ open_event 1 ∷ request_call "chat.get" none 9 sent ∷ []) waiting

on_close-replaced_example :
    let t = on_close 0 "" replaced in
    (is_connected t ≡ true)
    × (t.requests.pending ≡ [])
    × (t.requests.settled
        ≡ reject_each
            (as_error "DISCONNECTED" "socket closed" true none)
            replaced.requests.pending
            replaced.requests.settled)
    × (t.states ≡ disconnected "" ∷ replaced.states)
    × (t.heartbeat_timer ≡ false)
unfolding program
on_close-replaced_example = on_close-replaced replaced 0 1 _ "" refl refl refl refl refl

abbrev asked : WsTransport
asked = run settings (connect_call ∷ []) new

on_open-IsDeaf_example : IsDeaf settings 0 (on_open 30_000 0 (on_connect_timeout 0 asked))
unfolding program
on_open-IsDeaf_example = on_open-IsDeaf settings asked 0 _ refl refl refl refl

on_data-IsBounded_example : IsBounded 3 (on_data 3 (0 ∷ 0 ∷ []) (0 ∷ 9 ∷ 1 ∷ []))
on_data-IsBounded_example = on_data-IsBounded 3 (0 ∷ 0 ∷ []) (0 ∷ 9 ∷ 1 ∷ [])

-- Over TCP.
abbrev tcp_settings : Tcp.Settings
tcp_settings = record {
  max_frame_bytes = 1024;
  decode_frame = λ (payload : List ℕ).
      if length payload == 2 then Tcp.Decoded.frame reply else Tcp.Decoded.bad "bad frame json";
  keep_alive_ms = 30_000;
}

abbrev tcp_opening : List Tcp.Event
tcp_opening =
    Tcp.Event.connect_call
    ∷ Tcp.Event.connect_event 0
    ∷ Tcp.Event.request_call "chat.get" none 7 sent
    ∷ []

abbrev tcp_run : List Tcp.Event
tcp_run =
    tcp_opening
    ++ Tcp.Event.data_event 0 (0 ∷ 0 ∷ 0 ∷ [])
      ∷ Tcp.Event.data_event 0 (2 ∷ 65 ∷ 66 ∷ [])
      ∷ Tcp.Event.close_event 0
      ∷ []

tcp_program : Unit {0}
unfolding program Tcp.new Tcp.connect Tcp.is_connected Tcp.on_connect Tcp.socket_at
    Tcp.change_socket Tcp.send_request Tcp.refused_request Tcp.on_chunk Tcp.times Tcp.receive
    Tcp.process_frames Tcp.process_frame Tcp.outcome_of Tcp.on_close Tcp.on_closed Tcp.react Tcp.run
    on_data drain write_frame
tcp_program = tt

-- The answer comes in two chunks, and the end of the socket finds nothing pending.
tcp_replied : (Tcp.run tcp_settings tcp_run Tcp.new).requests.pending ≡ []
unfolding tcp_program
tcp_replied = refl

run_frames-IsOrderly_example : TcpOnce.IsOrderly (Tcp.run tcp_settings tcp_run Tcp.new).requests
run_frames-IsOrderly_example = TcpOnce.run_frames-IsOrderly tcp_settings tcp_run

abbrev tcp_waiting : Tcp.TcpTransport
tcp_waiting = Tcp.run tcp_settings tcp_opening Tcp.new

receive_all-stream_example :
    receive_all tcp_settings
      ((0 ∷ 0 ∷ 0 ∷ []) ∷ (2 ∷ 65 ∷ 66 ∷ 0 ∷ 0 ∷ 0 ∷ 1 ∷ []) ∷ (67 ∷ []) ∷ [])
      tcp_waiting
    ≡ Tcp.process_frames tcp_settings ((65 ∷ 66 ∷ []) ∷ (67 ∷ []) ∷ []) tcp_waiting
unfolding tcp_program
receive_all-stream_example =
    receive_all-stream tcp_settings ((65 ∷ 66 ∷ []) ∷ (67 ∷ []) ∷ [])
      ((0 ∷ 0 ∷ 0 ∷ []) ∷ (2 ∷ 65 ∷ 66 ∷ 0 ∷ 0 ∷ 0 ∷ 1 ∷ []) ∷ (67 ∷ []) ∷ []) tcp_waiting
      (ground arith) refl refl
