-- ===== src/Transport/Ws/Once.antt =====
-- Every request is settled once, and resolved by its answer alone.
use rez_sdk.Common.Text.{trim}
use rez_sdk.Common.{
  ◌==◌, not, ltb, ℕ, leb, ◌≡◌, refl, sym, ap, ◌∙◌, Bool, true, false, Option, none, some, List, [],
  ◌∷◌, String, if◌then◌else◌, is_some, arith, inl, inr, Bool-cases,
}
use rez_sdk.Transport.Requests.{
  RequestId, FrameId, issued, foreign, Frame, Entry, Requests, find, settle, expire, issue, Sending,
  TransportError, reject_all,
}
use rez_sdk.Transport.Requests.Tally.{Tally, settle-Tally, reject_all-Tally, issue-Tally}
use rez_sdk.Transport.Requests.Answers.{
  AreAnswers, IsAnswer, response-IsAnswer, settle-AreAnswers, reject_all-AreAnswers,
  issue-AreAnswers,
}
use rez_sdk.Transport.Ws.Socket.{
  Socket, WsTransport, new, socket, start_heartbeat, close, on_closed, connect, opened, on_open,
  given_up, on_connect_timeout, failed, on_error, ended, on_close, send_request, on_request_timeout,
  send_ping, send_heartbeat, on_tick, is_connected,
}
use rez_sdk.Transport.Ws.Inbound.{
  is_error_type, outcome_of, asked_by, correlated, on_frame, on_bad_frame, Decoded, frame, bad,
  decoded, Settings, on_raw_frame, received, on_message, Event, connect_call, close_call,
  request_call, open_event, connect_timeout_event, error_event, close_event, message_event,
  request_timeout_event, tick_event, react, run,
}

-- Of the requests.
pub record IsOrderly (r : Requests) : Type 0 where
  pub tally : Tally r
  pub answers : AreAnswers is_error_type r.settled

-- A property of the requests that sending, answering, timing out and rejecting all of them keeps is kept
-- by every event.
module _ (P : Requests → Type 0) (c : Settings)
    (sends : (type : String) (expected : Option String) (now : ℕ) (answer : Sending) (r : Requests)
      → P r
      → P (issue type expected now answer r))
    (answers : (f : Frame) (id : RequestId) (r : Requests)
      → f.id ≡ some (issued id)
      → P r
      → P (settle (outcome_of f) id r))
    (expires : (id : RequestId) (r : Requests) → P r → P (expire id r))
    (rejects : (err : TransportError) (r : Requests) → P r → P (reject_all err r)) where
  if_either :
      (b : Bool) (x y : WsTransport) → P x.requests → P y.requests → P (if b then x else y).requests
  if_either true x y h k = h
  if_either false x y h k = k

  start_heartbeat_keeps :
      (ms : ℕ) (t : WsTransport) → P t.requests → P (start_heartbeat ms t).requests
  unfolding start_heartbeat
  start_heartbeat_keeps ms t h = if_either (ms == 0) _ _ h h

  opened_keeps :
      (ms n : ℕ) (o : Option Socket) (t : WsTransport) → P t.requests → P (opened ms n o t).requests
  opened_keeps ms n none t h = h
  opened_keeps ms n (some s) t h = if_either s.awaited _ _ (start_heartbeat_keeps ms _ h) h

  given_up_keeps :
      (n : ℕ) (o : Option Socket) (t : WsTransport) → P t.requests → P (given_up n o t).requests
  given_up_keeps n none t h = h
  given_up_keeps n (some s) t h = h

  failed_keeps :
      (n : ℕ) (m : String) (o : Option Socket) (t : WsTransport)
      → P t.requests
      → P (failed n m o t).requests
  failed_keeps n m none t h = h
  failed_keeps n m (some s) t h =
      if_either s.awaited _ _ (given_up_keeps n (some s) t h) (if_either s.attached _ _ h h)

  on_closed_keeps : (m : String) (t : WsTransport) → P t.requests → P (on_closed m t).requests
  unfolding on_closed
  on_closed_keeps m t h = rejects _ t.requests h

  ended_keeps :
      (n : ℕ) (m : String) (o : Option Socket) (t : WsTransport)
      → P t.requests
      → P (ended n m o t).requests
  ended_keeps n m none t h = h
  ended_keeps n m (some s) t h = if_either s.attached _ _ (on_closed_keeps m _ h) h

  send_ping_keeps : (sent : Bool) (t : WsTransport) → P t.requests → P (send_ping sent t).requests
  unfolding send_ping on_closed
  send_ping_keeps true t h = h
  send_ping_keeps false t h = rejects _ t.requests h

  send_heartbeat_keeps :
      (sent : Bool) (t : WsTransport) → P t.requests → P (send_heartbeat sent t).requests
  unfolding send_heartbeat
  send_heartbeat_keeps sent t h = elim (Bool-cases (not (is_connected t))) [
    | inl a ↦ rw a h
    | inr a ↦ rw a (elim (Bool-cases (ltb 0 t.last_pong_at_ms)) [
      | inl b ↦ rw b (send_ping_keeps sent (record t { missed_pongs = 0 }) h)
      | inr b ↦ rw b (elim (Bool-cases (leb 2 t.missed_pongs)) [
        | inl d ↦ rw d (on_closed_keeps "heartbeat pong timeout" t h)
        | inr d ↦ rw d (send_ping_keeps sent t h)
      ])
    ])
  ]

  correlated_keeps :
      (f : Frame) (o : Option FrameId) (t : WsTransport)
      → f.id ≡ o
      → P t.requests
      → P (correlated f (asked_by o t.requests.pending) t).requests
  correlated_keeps f none t e h = h
  correlated_keeps f (some (foreign text)) t e h = h
  correlated_keeps f (some (issued id)) t e h =
      elim (Bool-cases (is_some (find id t.requests.pending))) [
        | inl k ↦ rw k (answers f id t.requests e h)
        | inr k ↦ rw k h
      ]

  decoded_keeps :
      (now : ℕ) (d : Decoded) (t : WsTransport) → P t.requests → P (decoded now d t).requests
  unfolding on_frame on_bad_frame close
  decoded_keeps now (frame f) t h = if_either _ _ _ h (correlated_keeps f f.id t refl h)
  decoded_keeps now (bad m) t h = if_either _ _ _ (rejects _ t.requests h) h

  received_keeps :
      (now : ℕ) (raw : String) (o : Option Socket) (t : WsTransport)
      → P t.requests
      → P (received c now raw o t).requests
  unfolding on_raw_frame
  received_keeps now raw none t h = h
  received_keeps now raw (some s) t h =
      if_either s.attached _ _ (if_either _ _ _ h (decoded_keeps now (c.decode_frame raw) t h)) h

  react_keeps : (e : Event) (t : WsTransport) → P t.requests → P (react c e t).requests
  unfolding react connect close send_request on_open on_connect_timeout on_error on_close on_message
      on_request_timeout on_tick
  react_keeps connect_call t h = if_either _ _ _ h h
  react_keeps close_call t h = rejects _ t.requests h
  react_keeps (request_call type expected now answer) t h =
      if_either _ _ _ h (sends (trim type) expected now answer t.requests h)
  react_keeps (open_event n) t h = opened_keeps _ n (socket n t.sockets) t h
  react_keeps (connect_timeout_event n) t h = given_up_keeps n (socket n t.sockets) t h
  react_keeps (error_event n m) t h = failed_keeps n m (socket n t.sockets) t h
  react_keeps (close_event n m) t h = ended_keeps n m (socket n t.sockets) t h
  react_keeps (message_event now n raw) t h = received_keeps now raw (socket n t.sockets) t h
  react_keeps (request_timeout_event id) t h = expires id t.requests h
  react_keeps (tick_event sent) t h =
      if_either t.heartbeat_timer _ _ (send_heartbeat_keeps sent t h) h

  run_keeps : (es : List Event) (t : WsTransport) → P t.requests → P (run c es t).requests
  unfolding run
  run_keeps [] t h = h
  run_keeps (e ∷ es) t h = run_keeps es (react c e t) (react_keeps e t h)

outcome_of-IsAnswer :
    (f : Frame) (e : Entry) → f.id ≡ some (issued e.id) → IsAnswer is_error_type e (outcome_of f e)
unfolding outcome_of
outcome_of-IsAnswer f e here = elim (Bool-cases (is_error_type f.type)) [
  | inl k ↦ rw k tt
  | inr k ↦ rw k (response-IsAnswer is_error_type f e here k)
]

-- Whatever calls are made and in whatever order sockets, messages and timers strike, every request
-- that was sent is either waiting or settled, and settled once; one that is resolved was answered by a
-- frame with its id, which is no error and has the type that was expected.
pub run-IsOrderly : (c : Settings) (es : List Event) → IsOrderly (run c es new).requests
unfolding new
run-IsOrderly c es =
    run_keeps IsOrderly c
      (λ type expected now answer r h. record {
        tally = issue-Tally type expected now answer r h.tally;
        answers = issue-AreAnswers is_error_type type expected now answer r h.answers;
      })
      (λ f id r here h. record {
        tally = settle-Tally (outcome_of f) id r h.tally;
        answers =
            settle-AreAnswers is_error_type (outcome_of f) id r
              (λ e same. outcome_of-IsAnswer f e (here ∙ ap (λ i. some (issued i)) (sym same)))
              h.answers;
      })
      (λ id r h.
        unfold expire in
        record {
          tally = settle-Tally _ id r h.tally;
          answers = settle-AreAnswers is_error_type _ id r (λ e same. tt) h.answers;
        })
      (λ err r h. record {
        tally = reject_all-Tally err r h.tally;
        answers = reject_all-AreAnswers is_error_type err r h.answers;
      })
      es new (record { tally = λ n. ground arith; answers = tt })
