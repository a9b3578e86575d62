-- ===== src/Pool/Failover.antt =====
-- Failover and reconnects (src/pool/UplinkPool.js).
pub mod Promotion
use rez_sdk.Common.{
  ◌+◌, Bool, true, false, not, ◌&&◌, Option, none, some, List, [], ◌∷◌, String, is_some,
  if◌then◌else◌,
}
use rez_sdk.Common.Dict.{lookup}
use rez_sdk.Pool.State.{
  Failure, World, Pool, connected, offline, failover, reconnected, err_obj, or_else, emit_state,
  is_warm, is_url, has_url, mark, set_active, close_connections, stop_reconnect_timer,
  schedule_reconnect, go_offline,
}
use rez_sdk.Pool.Connect.{ensure_warm_spare_target, run_connect}

-- `#findConnectedSpare`, the loop
unfoldable pub find_spare : Pool → List String → Option String
find_spare p [] = none
find_spare p (url ∷ urls) =
    let rest = find_spare p urls in
    if is_url p.active_url url
    then rest
    else if is_warm (lookup url p.conns)
    then some url
    else rest

abbrev pub find_connected_spare : Pool → Option String
find_connected_spare p = find_spare p p.uplinks

-- `#notifyReconnected`: the hooks run; if all succeed the event bus is told.
unfoldable pub notify_reconnected : World → Pool → Pool × Option Failure
notify_reconnected w p =
    let q = record p { restorations = p.restorations + 1 } in
    let err = w.restores p.restorations in
    if is_some err then (q, err) else (emit_state reconnected q, none)

-- `err && err.message ? err.message : "session restore failed"`
abbrev pub restore_message : Option Failure → String
restore_message none = "session restore failed"
restore_message (some f) = or_else f.message "session restore failed"

-- The rest of a promotion, for the spare that was found.
unfoldable pub promote : World → Option String → Pool → Pool × Bool
promote w none p = (p, false)
promote w (some candidate) p =
    let active = record (set_active w candidate p) { ready = true } in
    let (q, err) = notify_reconnected w (emit_state (failover p.active_url candidate) active) in
    if is_some err
    then (go_offline (restore_message err) q, false)
    else (ensure_warm_spare_target w (emit_state (connected candidate) q), true)

-- `#promoteNextConnectedSpare`
unfoldable pub promote_next_connected_spare : World → Pool → Pool × Bool
promote_next_connected_spare w p =
    if is_some (find_connected_spare p)
    then promote w (find_connected_spare p) p
    else (let q = ensure_warm_spare_target w p in promote w (find_connected_spare q) q)

-- A transport reports that it is down.
unfoldable pub on_conn_down : World → String → String → Pool → Pool
on_conn_down w url reason p =
    let marked = mark url false false p in
    if is_url p.active_url url
    then (let (q, promoted) = promote_next_connected_spare w marked in
        if promoted then q else go_offline reason q)
    else ensure_warm_spare_target w marked

-- `#attemptReconnect`: the pool, and the error that is rethrown.
unfoldable pub attempt_reconnect : World → Pool → Pool × Option Failure
attempt_reconnect w p =
    let (q, err) = run_connect w p in
    if is_some err
    then (schedule_reconnect (emit_state (offline "reconnect failed") q), err)
    else (let (r, failed) = notify_reconnected w q in
        if is_some failed
        then (
          schedule_reconnect (emit_state (offline (restore_message failed)) (close_connections r)),
          failed,
        )
        else (record r { reconnect_attempts = 0 }, none))

-- The callback of the timer.
unfoldable pub fire_timer : World → Pool → Pool
fire_timer w p =
    let q = record p { reconnect_timer = none } in
    let next = (attempt_reconnect w q).0 in
    if not (is_some p.reconnect_timer) then p else if p.closed then q else next

-- `connectNow`
unfoldable pub connect_now : World → Pool → Pool × Option Failure
connect_now w p =
    if p.closed
    then (p, some (err_obj "CLOSED" "uplink pool is closed" false))
    else if p.ready && has_url p.active_url
    then (p, none)
    else attempt_reconnect w (stop_reconnect_timer p)
