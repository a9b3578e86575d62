-- ===== src/Transport/Ws/Heartbeat.antt =====
-- A connection whose pings are not answered is given up, and one whose pings are answered is kept.
use rez_sdk.Common.{
  ℕ, zero, suc, ◌+◌, ◌≤◌, ◌<◌, ◌≡◌, refl, sym, subst, true, false, Option, none, some, List, [],
  ◌∷◌, ltb, leb, arith, All,
}
use rez_sdk.Transport.Requests.{Frame, reject_all}
use rez_sdk.Transport.Ws.Socket.{
  open_state, closed, closing, connecting, Socket, disconnected, WsTransport, socket, set_socket,
  is_connected, on_closed, send_ping, send_heartbeat, on_tick, close_of, closed_at, close_socket,
  is_open, is_open_at,
}
use rez_sdk.Transport.Ws.Inbound.{on_frame}

-- Connected, with the timer set.
pub record IsBeating (t : WsTransport) : Type 0 where
  pub connected : is_connected t ≡ true
  pub timer : t.heartbeat_timer ≡ true

-- So many pings go out, and nothing comes in.
unfoldable pub ticks : ℕ → WsTransport → WsTransport
ticks zero t = t
ticks (suc n) t = ticks n (on_tick true t)

-- A pong for each ping, at the given times.
unfoldable pub answered_ticks : Frame → List ℕ → WsTransport → WsTransport
answered_ticks pong [] t = t
answered_ticks pong (now ∷ times) t = answered_ticks pong times (on_tick true (on_frame now pong t))

close_of-not_open : (s : Socket) → is_open (some (close_of s)) ≡ false
close_of-not_open s =
    elim s.ready_state
      as (λ x.
        is_open (some (record s { ready_state = elim x [ closed ↦ closed | _ ↦ closing ] }))
        ≡ false) [ connecting ↦ refl | open_state ↦ refl | closing ↦ refl | closed ↦ refl ]

is_open-set_socket :
    (n : ℕ) (s : Socket) (ss : List Socket)
    → is_open (some s) ≡ false
    → is_open (socket n (set_socket n s ss)) ≡ false
unfolding socket set_socket
is_open-set_socket n s [] h = refl
is_open-set_socket zero s (a ∷ ss) h = h
is_open-set_socket (suc n) s (a ∷ ss) h = is_open-set_socket n s ss h

closed_at-not_open :
    (n : ℕ) (o : Option Socket) (ss : List Socket)
    → socket n ss ≡ o
    → is_open (socket n (closed_at n o ss)) ≡ false
closed_at-not_open n none ss e = rw e refl
closed_at-not_open n (some s) ss e = is_open-set_socket n (close_of s) ss (close_of-not_open s)

pub close_socket-not_open :
    (ws : Option ℕ) (ss : List Socket) → is_open_at ws (close_socket ws ss) ≡ false
close_socket-not_open none ss = refl
close_socket-not_open (some n) ss = closed_at-not_open n (socket n ss) ss refl

-- What the end of the heartbeat leaves.
pub record IsGivenUp (t t' : WsTransport) : Type 0 where
  pub disconnected_now : is_connected t' ≡ false
  pub stopped : t'.heartbeat_timer ≡ false
  pub emptied : t'.requests.pending ≡ []
  pub told : t'.states ≡ disconnected "heartbeat pong timeout" ∷ t.states

unanswered_tick :
    (t : WsTransport)
    → IsBeating t
    → t.last_pong_at_ms ≡ 0
    → t.missed_pongs < 2
    → on_tick true t ≡ record t { missed_pongs = t.missed_pongs + 1; last_pong_at_ms = 0 }
unfolding on_tick send_heartbeat send_ping
unanswered_tick t b quiet few = rw (b.timer, b.connected, quiet) (ground arith)

last_tick :
    (t : WsTransport)
    → IsBeating t
    → t.last_pong_at_ms ≡ 0
    → 2 ≤ t.missed_pongs
    → IsGivenUp t (on_tick true t)
unfolding on_tick send_heartbeat
last_tick t b quiet many =
    let full : leb 2 t.missed_pongs ≡ true = ground arith in
    rw (b.timer, b.connected, quiet, full)
      (unfold on_closed reject_all in
        record {
          disconnected_now = unfold is_connected in close_socket-not_open t.ws t.sockets;
          stopped = refl;
          emptied = refl;
          told = refl;
        })

-- With no pong, the connection is given up at the third ping at the latest: the timer stops, nothing is
-- pending any more, the socket is closed, and the listeners are told once.
pub ticks-IsGivenUp :
    (n : ℕ) (t : WsTransport)
    → IsBeating t
    → t.last_pong_at_ms ≡ 0
    → n + t.missed_pongs ≡ 2
    → IsGivenUp t (ticks (suc n) t)
unfolding ticks
ticks-IsGivenUp zero t b quiet few = last_tick t b quiet (omega arith)
ticks-IsGivenUp (suc n) t b quiet few = rw (unanswered_tick t b quiet (omega arith)) (
    let t' = record t { missed_pongs = t.missed_pongs + 1; last_pong_at_ms = 0 } in
    let g =
      ticks-IsGivenUp n t'
        (unfold is_connected in record { connected = b.connected; timer = b.timer }) refl
        (omega arith) in
    record {
      disconnected_now = g.disconnected_now;
      stopped = g.stopped;
      emptied = g.emptied;
      told = g.told;
    })

answered_tick :
    (pong : Frame) (now : ℕ) (t : WsTransport)
    → pong.type ≡ "pong"
    → 0 < now
    → IsBeating t
    → on_tick true (on_frame now pong t) ≡ record t { missed_pongs = 1; last_pong_at_ms = 0 }
unfolding on_tick on_frame send_heartbeat send_ping
answered_tick pong now t e h b =
    let positive : ltb 0 now ≡ true = ground arith in
    let open_still : is_connected (record t { last_pong_at_ms = now }) ≡ true =
      unfold is_connected in b.connected in
    rw (e, b.timer, open_still, positive) refl

-- Connected, the timer set, the requests and the sockets untouched, and the listeners told nothing.
abbrev pub IsKept : WsTransport → WsTransport → Type 0
IsKept t t' =
    IsBeating t' × (t'.requests ≡ t.requests) × (t'.sockets ≡ t.sockets) × (t'.states ≡ t.states)

-- However often a pong comes in between two pings, the connection stays as it is: connected, the timer
-- set, the requests and the sockets untouched, and the listeners told nothing.
pub answered_ticks-IsKept :
    (pong : Frame) (times : List ℕ) (t : WsTransport)
    → pong.type ≡ "pong"
    → All (λ now. 0 < now) times
    → IsBeating t
    → IsKept t (answered_ticks pong times t)
unfolding answered_ticks
answered_ticks-IsKept pong [] t e h b = (b, refl, refl, refl)
answered_ticks-IsKept pong (now ∷ times) t e h b =
    subst (λ u. IsKept t (answered_ticks pong times u)) (sym (answered_tick pong now t e h.0 b))
      (answered_ticks-IsKept pong times (record t { missed_pongs = 1; last_pong_at_ms = 0 }) e h.1
        (unfold is_connected in record { connected = b.connected; timer = b.timer }))
