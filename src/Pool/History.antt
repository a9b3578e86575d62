-- ===== src/Pool/History.antt =====
-- The pool under any sequence of operations.
use rez_sdk.Common.{
  ℕ, ◌≡◌, refl, ap, ◌∙◌, true, false, Option, none, some, List, [], ◌∷◌, String, is_some, arith,
}
use rez_sdk.Common.Text.{is_empty}
use rez_sdk.Pool.State.{
  Failure, offline, World, Pool, new, close, emit_state, schedule_reconnect, err_obj,
  terminal_home_rejection_code,
}
use rez_sdk.Pool.Connect.{run_connect, raw_message}
use rez_sdk.Pool.Connect.FirstUplink.{first_up, first_failure, run_connect_down}
use rez_sdk.Pool.Failover.{on_conn_down, attempt_reconnect, fire_timer, connect_now}
use rez_sdk.Pool.Requests.{Request, send_request}
use rez_sdk.Pool.Requests.Order.{send_request-IsSound}
use rez_sdk.Pool.Soundness.{IsSound, unready-IsSound}
use rez_sdk.Pool.Soundness.Connecting.{run_connect-IsSound}
use rez_sdk.Pool.Soundness.Switching.{
  on_conn_down-IsSound, fire_timer-IsSound, connect_now-IsSound, close-IsSound,
}

-- The operations, as the callers, the timer and the transports make them.
pub data Op : Type 0 where
  connect_op connect_now_op close_op timer_op : Op
  down_op : String → String → Op
  request_op : Request → Op

unfoldable pub perform : World → Op → Pool → Pool
perform w connect_op p = (run_connect w p).0
perform w connect_now_op p = (connect_now w p).0
perform w close_op p = close p
perform w timer_op p = fire_timer w p
perform w (down_op url reason) p = on_conn_down w url reason p
perform w (request_op r) p = (send_request w r p).0

unfoldable pub perform_all : World → List Op → Pool → Pool
perform_all w [] p = p
perform_all w (o ∷ os) p = perform_all w os (perform w o p)

perform-IsSound : (w : World) (o : Op) (p : Pool) → IsSound p → IsSound (perform w o p)
unfolding perform
perform-IsSound w connect_op p h = run_connect-IsSound w p
perform-IsSound w connect_now_op p h = connect_now-IsSound w p h
perform-IsSound w close_op p h = close-IsSound p
perform-IsSound w timer_op p h = fire_timer-IsSound w p h
perform-IsSound w (down_op url reason) p h = on_conn_down-IsSound w url reason p h
perform-IsSound w (request_op r) p h = send_request-IsSound w r p h

perform_all-IsSound :
    (w : World) (os : List Op) (p : Pool) → IsSound p → IsSound (perform_all w os p)
unfolding perform_all
perform_all-IsSound w [] p h = h
perform_all-IsSound w (o ∷ os) p h =
    perform_all-IsSound w os (perform w o p) (perform-IsSound w o p h)

-- Whatever the world answers, a new pool is sound after any operations: if it is ready, it has an active
-- uplink whose connection is ready; a reconnect is scheduled only while the pool is open; and its delay is
-- within the cap.
pub new-perform_all-IsSound :
    (w : World) (uplinks : List String) (spares : ℕ) (backoff cap : Option ℕ) (os : List Op)
    → IsSound (perform_all w os (new uplinks spares backoff cap))
unfolding new
new-perform_all-IsSound w uplinks spares backoff cap os =
    perform_all-IsSound w os (new uplinks spares backoff cap)
      (unready-IsSound _ refl (ground arith))

schedule_reconnect-armed :
    (p : Pool) → p.closed ≡ false → is_some (schedule_reconnect p).reconnect_timer ≡ true
unfolding schedule_reconnect
schedule_reconnect-armed p o = ground arith

attempt_reconnect_failed :
    (w : World) (p : Pool) {f : Failure}
    → (run_connect w p).1 ≡ some f
    → attempt_reconnect w p
      ≡ (schedule_reconnect (emit_state (offline "reconnect failed") (run_connect w p).0), some f)
unfolding attempt_reconnect
attempt_reconnect_failed w p e = rw e refl

-- A home that refuses for good is asked again: after a reconnect that no uplink lets succeed a new one is
-- scheduled, also where the error that comes back is the terminal one.
pub attempt_reconnect_again :
    (w : World) (p : Pool)
    → first_up w p.tries p.uplinks ≡ none
    → (is_some (attempt_reconnect w p).0.reconnect_timer ≡ true)
      × (is_empty (terminal_home_rejection_code (first_failure w p.tries p.uplinks)) ≡ false
          → (attempt_reconnect w p).1
            ≡ some (
                err_obj
                  (terminal_home_rejection_code (first_failure w p.tries p.uplinks))
                  (raw_message (first_failure w p.tries p.uplinks))
                  false))
unfolding emit_state
attempt_reconnect_again w p e =
    let (_, _, is_open, (_, err)) = run_connect_down w p e in
    let failed = attempt_reconnect_failed w p err in
    (
      ap (λ (o : Pool × Option Failure). is_some o.0.reconnect_timer) failed
          ∙ schedule_reconnect-armed _ is_open,
      λ terminal. ap (λ (o : Pool × Option Failure). o.1) failed ∙ rw terminal refl,
    )
