-- ===== src/Pool/State.antt =====
-- The pool's state and its small steps (src/pool/UplinkPool.js): what is stored for each
-- uplink, the timer of the next reconnect, and the events that listeners are told.
use rez_sdk.Common.{
  ℕ, zero, suc, ◌+◌, ◌-◌, ◌*◌, ◌^◌, min, max, Bool, true, false, not, ◌&&◌, ◌||◌, Option, none,
  some, List, [], ◌∷◌, String, str_eq, is_some, if◌then◌else◌,
}
use rez_sdk.Common.Text.{is_empty, trim}
use rez_sdk.Common.Dict.{Dict, lookup, insert}

-- An error object: its `code`, `serverCode` and `message`, each "" where it is absent.
pub record Failure : Type 0 where
  pub code : String
  pub server_code : String
  pub message : String
  pub retryable : Bool

-- `TERMINAL_HOME_REJECTION_CODES.includes(code)`
abbrev pub is_terminal_code : String → Bool
is_terminal_code code = str_eq code "DELEGATED_DEVICES_UNSUPPORTED"

-- `terminalHomeRejectionCode`
unfoldable pub terminal_home_rejection_code : Option Failure → String
terminal_home_rejection_code none = ""
terminal_home_rejection_code (some err) =
    if is_terminal_code (trim err.code)
    then trim err.code
    else if is_terminal_code (trim err.server_code)
    then trim err.server_code
    else ""

-- `message || code || "UPLINK_ERR"`, and so for the code
abbrev pub or_else : String → String → String
or_else a b = if is_empty a then b else a

unfoldable pub err_obj : String → String → Bool → Failure
err_obj code message retryable = record {
  code = or_else code "UPLINK_ERR";
  server_code = "";
  message = or_else message (or_else code "UPLINK_ERR");
  retryable = retryable;
}

-- What the listeners of the pool and the event bus are told.
pub data PoolEvent : Type 0 where
  connected : String → PoolEvent
  offline : String → PoolEvent
  failover : Option String → String → PoolEvent
  uplink_changed : String → PoolEvent
  reconnected : PoolEvent

-- An entry of `#conns`; the transport itself is outside.
pub record Conn : Type 0 where
  pub ready : Bool
  pub healthy : Bool

-- The answers from outside, by how many questions were asked before: whether a transport connects
-- and authenticates, the session that the auth machine then has, whether the hooks that restore a
-- session succeed, and what a request is answered.
pub record World : Type 0 where
  pub connects : ℕ → Option Failure
  pub session : ℕ → Option String
  pub restores : ℕ → Option Failure
  pub replies : ℕ → Option Failure

-- The state; `tries`, `restorations` and `requests` count the questions asked to the world.
pub record Pool : Type 0 where
  pub uplinks : List String
  pub warm_spare_count : ℕ
  pub reconnect_backoff_ms : ℕ
  pub reconnect_backoff_cap_ms : ℕ
  pub conns : Dict Conn
  pub active_url : Option String
  pub session_info : Option String
  pub ready : Bool
  pub reconnect_timer : Option ℕ
  pub reconnect_attempts : ℕ
  pub closed : Bool
  pub tries : ℕ
  pub restorations : ℕ
  pub requests : ℕ
  pub log : List PoolEvent

abbrev pub number_or : Option ℕ → ℕ → ℕ
number_or none d = d
number_or (some zero) d = d
number_or (some (suc n)) d = suc n

abbrev pub trim_all : List String → List String
trim_all [] = []
trim_all (u ∷ us) = let rest = trim_all us in if is_empty (trim u) then rest else trim u ∷ rest

-- The constructor's part that sets up the connections; options that are absent or no numbers are `none`.
unfoldable pub new : List String → ℕ → Option ℕ → Option ℕ → Pool
unfolding trim
new uplinks warm_spare_count backoff_ms backoff_cap_ms = record {
  uplinks = trim_all uplinks;
  warm_spare_count = warm_spare_count;
  reconnect_backoff_ms = max 1000 (number_or backoff_ms 2000);
  reconnect_backoff_cap_ms = max 5000 (number_or backoff_cap_ms 60_000);
  conns = [];
  active_url = none;
  session_info = none;
  ready = false;
  reconnect_timer = none;
  reconnect_attempts = 0;
  closed = false;
  tries = 0;
  restorations = 0;
  requests = 0;
  log = [];
}

unfoldable pub emit_state : PoolEvent → Pool → Pool
emit_state e p = record p { log = e ∷ p.log }

-- `st && st.ready && st.healthy`
abbrev pub is_warm : Option Conn → Bool
is_warm none = false
is_warm (some c) = c.ready && c.healthy

-- `existing && existing.ready`
abbrev pub is_ready : Option Conn → Bool
is_ready none = false
is_ready (some c) = c.ready

-- `url === this.#activeUrl`
abbrev pub is_url : Option String → String → Bool
is_url none url = false
is_url (some a) url = str_eq a url

-- `!this.#activeUrl` is `not (has_url …)`
abbrev pub has_url : Option String → Bool
has_url none = false
has_url (some a) = not (is_empty a)

-- `#mark`
unfoldable pub mark : String → Bool → Bool → Pool → Pool
mark url ready healthy p =
    if is_some (lookup url p.conns)
    then record p { conns = insert url (record { ready = ready; healthy = healthy }) p.conns }
    else p

-- `#setActive`
unfoldable pub set_active : World → String → Pool → Pool
set_active w url p = record p {
  active_url = some url;
  session_info = w.session p.tries;
  log = (if is_empty url then p.log else uplink_changed url ∷ p.log);
}

-- `#closeConnections`, but for the counters of the inbound side, which are kept elsewhere.
unfoldable pub close_connections : Pool → Pool
close_connections p = record p { conns = []; active_url = none; session_info = none; ready = false }

-- `#stopReconnectTimer`
unfoldable pub stop_reconnect_timer : Pool → Pool
stop_reconnect_timer p = record p { reconnect_timer = none }

-- The delay of the n-th attempt
abbrev pub backoff : ℕ → ℕ → ℕ → ℕ
backoff backoff_ms cap_ms attempts = min cap_ms (backoff_ms * 2 ^ (attempts - 1))

-- `#scheduleReconnect`
unfoldable pub schedule_reconnect : Pool → Pool
schedule_reconnect p = if p.closed || is_some p.reconnect_timer then p else record p {
  reconnect_attempts = p.reconnect_attempts + 1;
  reconnect_timer =
      some (backoff p.reconnect_backoff_ms p.reconnect_backoff_cap_ms (p.reconnect_attempts + 1));
}

-- The pool is left without an uplink.
unfoldable pub go_offline : String → Pool → Pool
unfolding emit_state schedule_reconnect
go_offline reason p = schedule_reconnect (
    emit_state (offline reason)
      (record p { ready = false; active_url = none; session_info = none }))

-- `close`
unfoldable pub close : Pool → Pool
unfolding stop_reconnect_timer close_connections
close p =
    close_connections
      (record (stop_reconnect_timer (record p { closed = true })) { reconnect_attempts = 0 })

-- `getUplinkStates`
pub record UplinkState : Type 0 where
  pub url : String
  pub active : Bool
  pub ready : Bool
  pub healthy : Bool

abbrev pub is_healthy : Option Conn → Bool
is_healthy none = false
is_healthy (some c) = c.healthy

unfoldable pub get_uplink_states_of : Pool → List String → List UplinkState
get_uplink_states_of p [] = []
get_uplink_states_of p (u ∷ us) =
    record {
      url = u;
      active = is_url p.active_url u;
      ready = is_ready (lookup u p.conns);
      healthy = is_healthy (lookup u p.conns);
    }
    ∷ get_uplink_states_of p us
