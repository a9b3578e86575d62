-- ===== src/Transport/Tcp/Once.antt =====
-- Every request is settled once, and resolved by its answer alone.
use rez_sdk.Common.{
  ℕ, zero, suc, ◌≡◌, refl, sym, ap, ◌∙◌, Bool, true, false, not, Option, none, some, List, [], ◌∷◌,
  String, if◌then◌else◌, is_some, arith, inl, inr, Bool-cases,
}
use rez_sdk.Common.Text.{trim}
use rez_sdk.Transport.Framing.{on_data}
use rez_sdk.Transport.Requests.{
  RequestId, FrameId, issued, foreign, Frame, Entry, TransportError, Requests, Sending, find, issue,
  settle, expire, reject_all,
}
use rez_sdk.Transport.Requests.Tally.{Tally, settle-Tally, reject_all-Tally, issue-Tally}
use rez_sdk.Transport.Requests.Answers.{
  AreAnswers, IsAnswer, response-IsAnswer, settle-AreAnswers, reject_all-AreAnswers,
  issue-AreAnswers,
}
use rez_sdk.Transport.Tcp.Socket.{
  Decoded, frame, bad, Socket, TcpTransport, new, socket_at, is_connected, Settings, connect,
  established, on_connect, timed_out, on_connect_timeout, times, failed, on_error, close, on_closed,
  ended, on_close, send_request, on_request_timeout, send_keep_alive, on_tick, is_error_type,
  outcome_of, asked_by, correlated, decoded, process_frame, process_frames, receive, received,
  on_chunk, Event, connect_call, close_call, request_call, connect_event, connect_timeout_event,
  close_event, error_event, data_event, request_timeout_event, tick_event, react, run,
}

pub record IsOrderly (r : Requests) : Type 0 where
  pub tally : Tally r
  pub answers : AreAnswers is_error_type r.settled

-- A property of the requests that sending, answering, timing out and rejecting all of them keeps is kept
-- by every event.
module _ (P : Requests → Type 0) (c : Settings)
    (sends : (type : String) (expected : Option String) (now : ℕ) (answer : Sending) (r : Requests)
      → P r
      → P (issue type expected now answer r))
    (answers : (f : Frame) (id : RequestId) (r : Requests)
      → f.id ≡ some (issued id)
      → P r
      → P (settle (outcome_of f) id r))
    (expires : (id : RequestId) (r : Requests) → P r → P (expire id r))
    (rejects : (err : TransportError) (r : Requests) → P r → P (reject_all err r)) where
  if_either :
      (b : Bool) (x y : TcpTransport)
      → P x.requests
      → P y.requests
      → P (if b then x else y).requests
  if_either true x y h k = h
  if_either false x y h k = k

  times_keeps :
      (n : ℕ) (f : TcpTransport → TcpTransport)
      → ((t : TcpTransport) → P t.requests → P (f t).requests)
      → (t : TcpTransport) → P t.requests
      → P (times n f t).requests
  unfolding times
  times_keeps zero f k t h = h
  times_keeps (suc n) f k t h = times_keeps n f k (f t) (k t h)

  established_keeps :
      (ms n : ℕ) (o : Option Socket) (t : TcpTransport)
      → P t.requests
      → P (established ms n o t).requests
  established_keeps ms n none t h = h
  established_keeps ms n (some s) t h = if_either s.awaited _ _ h h

  timed_out_keeps :
      (n : ℕ) (o : Option Socket) (t : TcpTransport) → P t.requests → P (timed_out n o t).requests
  timed_out_keeps n none t h = h
  timed_out_keeps n (some s) t h = if_either s.awaited _ _ h h

  failed_keeps :
      (n : ℕ) (m : String) (o : Option Socket) (t : TcpTransport)
      → P t.requests
      → P (failed n m o t).requests
  failed_keeps n m none t h = h
  failed_keeps n m (some s) t h =
      if_either s.awaited _ _ h (times_keeps s.listeners _ (λ u k. k) t h)

  on_closed_keeps : (m : String) (t : TcpTransport) → P t.requests → P (on_closed m t).requests
  unfolding on_closed
  on_closed_keeps m t h = rejects _ t.requests h

  ended_keeps :
      (n : ℕ) (o : Option Socket) (t : TcpTransport) → P t.requests → P (ended n o t).requests
  ended_keeps n none t h = h
  ended_keeps n (some s) t h =
      times_keeps s.listeners (on_closed "socket closed") (on_closed_keeps "socket closed") _ h

  correlated_keeps :
      (f : Frame) (o : Option FrameId) (t : TcpTransport)
      → f.id ≡ o
      → P t.requests
      → P (correlated f (asked_by o t.requests.pending) t).requests
  correlated_keeps f none t e h = h
  correlated_keeps f (some (foreign text)) t e h = h
  correlated_keeps f (some (issued id)) t e h =
      elim (Bool-cases (is_some (find id t.requests.pending))) [
        | inl k ↦ rw k (answers f id t.requests e h)
        | inr k ↦ rw k h
      ]

  decoded_keeps : (d : Decoded) (t : TcpTransport) → P t.requests → P (decoded d t).requests
  decoded_keeps (frame f) t h = correlated_keeps f f.id t refl h
  decoded_keeps (bad m) t h = h

  process_frames_keeps :
      (ps : List (List ℕ)) (t : TcpTransport) → P t.requests → P (process_frames c ps t).requests
  unfolding process_frames process_frame
  process_frames_keeps [] t h = h
  process_frames_keeps (p ∷ ps) t h =
      process_frames_keeps ps (process_frame c p t) (decoded_keeps (c.decode_frame p) t h)

  receive_keeps :
      (chunk : List ℕ) (t : TcpTransport) → P t.requests → P (receive c chunk t).requests
  unfolding receive
  receive_keeps chunk t h =
      let d = on_data c.max_frame_bytes t.read_buffer chunk in
      let k = process_frames_keeps d.frames (record t { read_buffer = d.rest }) h in
      if_either d.too_large _ _ k k

  received_keeps :
      (chunk : List ℕ) (o : Option Socket) (t : TcpTransport)
      → P t.requests
      → P (received c chunk o t).requests
  received_keeps chunk none t h = h
  received_keeps chunk (some s) t h =
      times_keeps s.listeners (receive c chunk) (receive_keeps chunk) t h

  send_keep_alive_keeps :
      (sent : Bool) (t : TcpTransport) → P t.requests → P (send_keep_alive sent t).requests
  unfolding send_keep_alive
  send_keep_alive_keeps sent t h = elim (Bool-cases (not (is_connected t))) [
    | inl a ↦ rw a h
    | inr a ↦ rw a (elim (Bool-cases sent) [
      | inl b ↦ rw b h
      | inr b ↦ rw b (on_closed_keeps "keep-alive send failed" t h)
    ])
  ]

  react_keeps : (e : Event) (t : TcpTransport) → P t.requests → P (react c e t).requests
  unfolding react connect close send_request on_connect on_connect_timeout on_error on_close
      on_chunk on_request_timeout on_tick
  react_keeps connect_call t h = if_either _ _ _ h h
  react_keeps close_call t h = rejects _ t.requests h
  react_keeps (request_call type expected now answer) t h =
      if_either _ _ _ h (sends (trim type) expected now answer t.requests h)
  react_keeps (connect_event n) t h = established_keeps _ n (socket_at n t.sockets) t h
  react_keeps (connect_timeout_event n) t h = timed_out_keeps n (socket_at n t.sockets) t h
  react_keeps (close_event n) t h = ended_keeps n (socket_at n t.sockets) t h
  react_keeps (error_event n m) t h = failed_keeps n m (socket_at n t.sockets) t h
  react_keeps (data_event n chunk) t h = received_keeps chunk (socket_at n t.sockets) t h
  react_keeps (request_timeout_event id) t h = expires id t.requests h
  react_keeps (tick_event sent) t h =
      if_either t.keep_alive_timer _ _ (send_keep_alive_keeps sent t h) h

  run_keeps : (es : List Event) (t : TcpTransport) → P t.requests → P (run c es t).requests
  unfolding run
  run_keeps [] t h = h
  run_keeps (e ∷ es) t h = run_keeps es (react c e t) (react_keeps e t h)

outcome_of-IsAnswer :
    (f : Frame) (e : Entry) → f.id ≡ some (issued e.id) → IsAnswer is_error_type e (outcome_of f e)
unfolding outcome_of
outcome_of-IsAnswer f e here = elim (Bool-cases (is_error_type f.type)) [
  | inl k ↦ rw k tt
  | inr k ↦ rw k (response-IsAnswer is_error_type f e here k)
]

-- Whatever calls are made and in whatever order sockets, chunks of bytes and timers strike, every
-- request that was sent is either waiting or settled, and settled once; one that is resolved was
-- answered by a frame with its id, which is no error and has the type that was expected.
pub run_frames-IsOrderly : (c : Settings) (es : List Event) → IsOrderly (run c es new).requests
unfolding new
run_frames-IsOrderly c es =
    run_keeps IsOrderly c
      (λ type expected now answer r h. record {
        tally = issue-Tally type expected now answer r h.tally;
        answers = issue-AreAnswers is_error_type type expected now answer r h.answers;
      })
      (λ f id r here h. record {
        tally = settle-Tally (outcome_of f) id r h.tally;
        answers =
            settle-AreAnswers is_error_type (outcome_of f) id r
              (λ e same. outcome_of-IsAnswer f e (here ∙ ap (λ i. some (issued i)) (sym same)))
              h.answers;
      })
      (λ id r h.
        unfold expire in
        record {
          tally = settle-Tally _ id r h.tally;
          answers = settle-AreAnswers is_error_type _ id r (λ e same. tt) h.answers;
        })
      (λ err r h. record {
        tally = reject_all-Tally err r h.tally;
        answers = reject_all-AreAnswers is_error_type err r h.answers;
      })
      es new (record { tally = λ n. ground arith; answers = tt })
