-- ===== src/Transport/Ws/Stale.antt =====
-- Events of a socket that the transport has let go of, or on which `connect` has given up.
use rez_sdk.Common.{
  ℕ, zero, suc, ◌≡◌, refl, ap, sym, ◌∙◌, true, false, none, some, List, [], ◌∷◌, String, ◌==◌,
  arith,
}
use rez_sdk.Transport.Requests.{as_error, or_text, reject_each, reject_all}
use rez_sdk.Transport.Ws.Socket.{
  open_state, closed, Socket, disconnected, WsTransport, socket, set_socket, is_open, is_open_at,
  is_connected, on_closed, connect, on_open, on_connect_timeout, on_close,
}
use rez_sdk.Transport.Ws.Inbound.{Settings, on_message}

socket-set_socket :
    (j k : ℕ) (s : Socket) (ss : List Socket)
    → (k == j) ≡ false
    → socket j (set_socket k s ss) ≡ socket j ss
unfolding socket set_socket
socket-set_socket j k s [] h = refl
socket-set_socket zero zero s (a ∷ ss) h = cc
socket-set_socket zero (suc k) s (a ∷ ss) h = refl
socket-set_socket (suc j) zero s (a ∷ ss) h = refl
socket-set_socket (suc j) (suc k) s (a ∷ ss) h = socket-set_socket j k s ss (ground arith)

socket-set_socket_self :
    (k : ℕ) (s a : Socket) (ss : List Socket)
    → socket k ss ≡ some a
    → socket k (set_socket k s ss) ≡ some s
unfolding socket set_socket
socket-set_socket_self k s a [] h = cc
socket-set_socket_self zero s a (b ∷ ss) h = refl
socket-set_socket_self (suc k) s a (b ∷ ss) h = socket-set_socket_self k s a ss h

-- When a socket ends that the transport has already replaced by another one, which is open, all the
-- requests that wait on the new one are rejected and the listeners are told that the transport is
-- disconnected. It is not, and its heartbeat has stopped.
pub on_close-replaced :
    (t : WsTransport) (k j : ℕ) (s : Socket) (reason : String)
    → socket k t.sockets ≡ some s
    → s.attached ≡ true
    → t.ws ≡ some j
    → (k == j) ≡ false
    → is_connected t ≡ true
    → let t' = on_close k reason t in
      (is_connected t' ≡ true)
      × (t'.requests.pending ≡ [])
      × (t'.requests.settled
          ≡ reject_each
              (as_error "DISCONNECTED" (or_text reason "socket closed") true none)
              t.requests.pending
              t.requests.settled)
      × (t'.states ≡ disconnected reason ∷ t.states)
      × (t'.heartbeat_timer ≡ false)
unfolding on_close on_closed reject_all is_connected
on_close-replaced t k j s reason there attached current other up =
    rw (there, attached, current)
      (
        ap is_open (
              socket-set_socket j k (record s { ready_state = closed; attached = true }) t.sockets
                other)
            ∙ ap (λ o. is_open_at o t.sockets) (sym current)
            ∙ up,
        refl,
        refl,
        refl,
        refl,
      )

-- The transport counts as connected, `connect` does nothing, what the socket sends changes nothing, and its
-- end changes nothing but the socket: the requests still wait, no listener is told, and the heartbeat
-- stays.
abbrev pub IsDeaf : Settings → ℕ → WsTransport → Type 0
IsDeaf c n t =
    (is_connected t ≡ true)
    × (connect t ≡ t)
    × ((now : ℕ) (raw : String) → on_message c now n raw t ≡ t)
    × ((reason : String)
        → on_close n reason t ≡ record t { sockets = (on_close n reason t).sockets })

unattached-IsDeaf :
    (c : Settings) (t : WsTransport) (n : ℕ) (s : Socket)
    → socket n t.sockets ≡ some s
    → is_open (some s) ≡ true
    → s.attached ≡ false
    → t.ws ≡ some n
    → IsDeaf c n t
unfolding on_close on_message connect
unattached-IsDeaf c t n s there up unattached current =
    let connected_now : is_connected t ≡ true = unfold is_connected in rw (current, there) up in
    (
      connected_now,
      rw connected_now refl,
      λ now raw. rw (there, unattached) refl,
      λ reason. rw (there, unattached) refl,
    )

-- When a socket opens on which `connect` has given up, and it is still the current one, since no later
-- `connect` has replaced it: the transport counts as connected, `connect` does nothing any more, what the
-- socket sends changes nothing, and its end changes nothing but the socket, so that the requests wait on
-- and no listener is told.
pub on_open-IsDeaf :
    (c : Settings) (t : WsTransport) (n : ℕ) (s : Socket)
    → socket n t.sockets ≡ some s
    → s.awaited ≡ true
    → s.attached ≡ false
    → t.ws ≡ some n
    → IsDeaf c n (on_open c.heartbeat_interval_ms n (on_connect_timeout n t))
unfolding on_open on_connect_timeout
on_open-IsDeaf c t n s there awaited unattached current =
    let idle = record s { awaited = false } in
    let late = record idle { ready_state = open_state } in
    let ss = set_socket n idle t.sockets in
    let kept : socket n ss ≡ some idle = socket-set_socket_self n idle s t.sockets there in
    rw (there, kept)
      (unattached-IsDeaf c (record t { sockets = set_socket n late ss }) n late
        (socket-set_socket_self n late idle ss kept) refl unattached current)
