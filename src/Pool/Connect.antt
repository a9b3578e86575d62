-- ===== src/Pool/Connect.antt =====
-- Connecting (src/pool/UplinkPool.js): one uplink, the first that answers, and the warm spares. An
-- operation runs to its end before the next begins, so no call finds another one to join.
pub mod Single
pub mod FirstUplink
use rez_sdk.Common.{
  ℕ, zero, suc, ◌+◌, ◌≡◌, Bool, true, false, not, ◌&&◌, ◌||◌, Option, none, some, List, [], ◌∷◌,
  String, str_eq, is_some, if◌then◌else◌, leb, filter, length,
}
use rez_sdk.Common.Text.{is_empty}
use rez_sdk.Common.Dict.{lookup, insert}
use rez_sdk.Pool.State.{
  Failure, World, Pool, Conn, PoolEvent, connected, offline, terminal_home_rejection_code, err_obj,
  or_else, emit_state, is_warm, is_ready, is_url, has_url, mark, set_active, close_connections,
  stop_reconnect_timer, schedule_reconnect,
}

-- The new entry of `#conns`, if there is none.
unfoldable pub add_conn : String → Pool → Pool
add_conn url p =
    if is_some (lookup url p.conns)
    then p
    else record p { conns = insert url (record { ready = false; healthy = false }) p.conns }

-- The entry is there, and one more question is put to the world.
unfoldable pub attempted : String → Pool → Pool
attempted url p = record (add_conn url p) { tries = p.tries + 1 }

-- What follows the attempt to connect and to authenticate.
unfoldable pub finish_connect : String → Option Failure → Pool → Pool × Option Failure
unfolding mark
finish_connect url none p = (mark url true true p, none)
finish_connect url (some err) p = (p, some err)

-- `#ensureConnected`: no error is success.
unfoldable pub ensure_connected : World → String → Pool → Pool × Option Failure
unfolding add_conn finish_connect
ensure_connected w url p =
    if is_ready (lookup url p.conns)
    then (p, none)
    else finish_connect url (w.connects p.tries) (attempted url p)

-- `connectedSpares()`
abbrev pub connected_spares : Pool → ℕ
connected_spares p =
    length (filter (λ u. not (is_url p.active_url u) && is_warm (lookup u p.conns)) p.uplinks)

-- `try { await this.#ensureConnected(url); } catch { this.#mark(url, …); }`
unfoldable pub warm_up : World → String → Pool → Pool
warm_up w url p =
    let (q, err) = ensure_connected w url p in if is_some err then mark url false false q else q

-- The loop over the uplinks.
unfoldable pub warm_loop : World → List String → Pool → Pool
warm_loop w [] p = p
warm_loop w (url ∷ urls) p =
    let go_on = warm_loop w urls p in
    let go_on_warmed = warm_loop w urls (warm_up w url p) in
    if is_url p.active_url url
    then go_on
    else if leb p.warm_spare_count (connected_spares p)
    then p
    else if is_warm (lookup url p.conns)
    then go_on
    else go_on_warmed

-- `#ensureWarmSpareTarget`
unfoldable pub ensure_warm_spare_target : World → Pool → Pool
ensure_warm_spare_target w p =
    if not (has_url p.active_url)
    then p
    else if leb p.warm_spare_count 0
    then p
    else if leb p.warm_spare_count (connected_spares p)
    then p
    else warm_loop w p.uplinks p

-- The first error that was met is kept.
abbrev pub first_error : Option Failure → Option Failure → Option Failure
first_error none e = e
first_error (some f) e = some f

-- The uplink that answered becomes the active one.
unfoldable pub adopt : World → String → Pool → Pool
adopt w url p = emit_state (connected url) (record (set_active w url p) { ready = true })

-- The loop of `#runConnect`, with `firstErr`.
unfoldable pub connect_loop : World → List String → Pool → Option Failure → Pool × Option Failure
connect_loop w [] p first = (p, first)
connect_loop w (url ∷ urls) p first =
    let (q, err) = ensure_connected w url p in
    let go_on = connect_loop w urls q (first_error first err) in
    if is_some err then go_on else (adopt w url q, first)

-- `firstErr && firstErr.message || "no uplinks available"`
abbrev pub message_of : Option Failure → String
message_of none = "no uplinks available"
message_of (some f) = or_else f.message "no uplinks available"

-- The text of an error, as the terminal branch reads it.
abbrev pub raw_message : Option Failure → String
raw_message none = ""
raw_message (some f) = f.message

-- `#runConnect` behind its loop: the pool, and the error that is thrown.
unfoldable pub conclude_connect : World → Option Failure → Pool → Pool × Option Failure
conclude_connect w first p =
    if not p.ready || not (has_url p.active_url)
    then (let terminal = terminal_home_rejection_code first in
        if is_empty terminal
        then (
          schedule_reconnect (emit_state (offline (message_of first)) p),
          some (err_obj "UNREACHABLE" (message_of first) true),
        )
        else (
          emit_state (offline (raw_message first)) p,
          some (err_obj terminal (raw_message first) false),
        ))
    else (ensure_warm_spare_target w p, none)

unfoldable pub run_connect : World → Pool → Pool × Option Failure
run_connect w p =
    let start = close_connections (stop_reconnect_timer (record p { closed = false })) in
    let (q, first) = connect_loop w start.uplinks start none in conclude_connect w first q
