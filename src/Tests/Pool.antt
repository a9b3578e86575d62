-- ===== src/Tests/Pool.antt =====
-- Lives of a pool of two uplinks.
use rez_sdk.Common.{
  zero, suc, ◌≡◌, refl, true, false, none, some, List, [], ◌∷◌, is_some, if◌then◌else◌,
}
use rez_sdk.Common.Text.{is_empty, trim}
use rez_sdk.Common.Dict.{lookup, insert}
use rez_sdk.Pool.State.{
  Failure, World, Pool, new, is_ready, terminal_home_rejection_code, err_obj, mark, set_active,
  emit_state, close_connections, stop_reconnect_timer, schedule_reconnect, go_offline, close,
}
use rez_sdk.Pool.Connect.{
  message_of, raw_message, add_conn, attempted, finish_connect, ensure_connected, warm_up,
  warm_loop, ensure_warm_spare_target, adopt, connect_loop, conclude_connect, run_connect,
}
use rez_sdk.Pool.Connect.FirstUplink.{first_up, first_failure, run_connect_up, run_connect_down}
use rez_sdk.Pool.Failover.{
  find_spare, notify_reconnected, promote, promote_next_connected_spare, on_conn_down,
  attempt_reconnect, fire_timer, connect_now,
}
use rez_sdk.Pool.Failover.Promotion.{on_conn_down_spare, on_conn_down_no_spare}
use rez_sdk.Pool.Requests.{
  Request, failed, ask, send_active, ordered, adopt_answering, send_loop, send_ordered, send_all,
  send_request,
}
use rez_sdk.Pool.Requests.Order.{send_request-not_ready}
use rez_sdk.Pool.Soundness.{IsSound}
use rez_sdk.Pool.History.{
  Op, connect_op, timer_op, down_op, perform, perform_all, new-perform_all-IsSound,
  attempt_reconnect_again,
}

program : Unit {0}
unfolding new mark set_active emit_state close_connections stop_reconnect_timer schedule_reconnect
    go_offline close terminal_home_rejection_code err_obj add_conn attempted finish_connect
    ensure_connected warm_up warm_loop ensure_warm_spare_target adopt connect_loop conclude_connect
    run_connect first_up find_spare notify_reconnected promote promote_next_connected_spare
    on_conn_down attempt_reconnect fire_timer connect_now ask send_active ordered adopt_answering
    send_loop send_ordered send_all send_request perform perform_all trim lookup insert
program = tt

abbrev refusal : Failure
refusal = record {
  code = "RESPONSE_ERR";
  server_code = "DELEGATED_DEVICES_UNSUPPORTED";
  message = "old home";
  retryable = false;
}

abbrev unreachable : Failure
unreachable = record {
  code = "ECONNREFUSED";
  server_code = "";
  message = "refused";
  retryable = true;
}

-- The first attempt fails, all later ones succeed.
abbrev second_up : World
second_up = record {
  connects = λ n. elim n [ zero ↦ some unreachable | suc _ ↦ none ];
  session = λ _. some "session";
  restores = λ _. none;
  replies = λ _. none;
}

-- Every uplink refuses for good.
abbrev all_refuse : World
all_refuse = record {
  connects = λ _. some refusal;
  session = λ _. none;
  restores = λ _. none;
  replies = λ _. none;
}

abbrev p0 : Pool
p0 = new ("wss://a" ∷ " wss://b " ∷ "" ∷ []) 1 none none

trimmed_uplinks : p0.uplinks ≡ "wss://a" ∷ "wss://b" ∷ []
unfolding program
trimmed_uplinks = refl

-- The second uplink becomes active and the first one, tried once more, its warm spare.
connected_to_second : (run_connect second_up p0).0.active_url ≡ some "wss://b"
unfolding program
connected_to_second = refl

failed_over :
    (on_conn_down second_up "wss://b" "gone" (run_connect second_up p0).0).active_url
    ≡ some "wss://a"
unfolding program
failed_over = refl

run_connect_up_example :
    let o = run_connect second_up p0 in
    (o.1 ≡ none)
    × (o.0.active_url ≡ some "wss://b")
    × (o.0.ready ≡ true)
    × (is_ready (lookup "wss://b" o.0.conns) ≡ true)
    × (o.0.reconnect_timer ≡ none)
unfolding new first_up trim
run_connect_up_example = run_connect_up second_up p0 refl refl

run_connect_down_example :
    let o = run_connect all_refuse p0 in
    let terminal = terminal_home_rejection_code (first_failure all_refuse p0.tries p0.uplinks) in
    (o.0.ready ≡ false)
    × (o.0.active_url ≡ none)
    × (o.0.closed ≡ false)
    × ((is_some o.0.reconnect_timer ≡ is_empty terminal)
        × (o.1
            ≡ some (
                if is_empty terminal
                then err_obj "UNREACHABLE"
                    (message_of (first_failure all_refuse p0.tries p0.uplinks))
                    true
                else err_obj terminal
                    (raw_message (first_failure all_refuse p0.tries p0.uplinks))
                    false)))
unfolding new first_up trim
run_connect_down_example = run_connect_down all_refuse p0 refl

-- No reconnect after a terminal refusal of `connect` itself.
stopped : (run_connect all_refuse p0).0.reconnect_timer ≡ none
unfolding program
stopped = refl

abbrev life : List Op
life = connect_op ∷ down_op "wss://b" "gone" ∷ timer_op ∷ []

new-perform_all-IsSound_example :
    IsSound (perform_all second_up life (new ("wss://a" ∷ "wss://b" ∷ []) 1 none (some 9000)))
new-perform_all-IsSound_example =
    new-perform_all-IsSound second_up ("wss://a" ∷ "wss://b" ∷ []) 1 none (some 9000) life

attempt_reconnect_again_example :
    let first = first_failure all_refuse p0.tries p0.uplinks in
    let terminal = terminal_home_rejection_code first in
    (is_some (attempt_reconnect all_refuse p0).0.reconnect_timer ≡ true)
    × (is_empty terminal ≡ false
        → (attempt_reconnect all_refuse p0).1 ≡ some (err_obj terminal (raw_message first) false))
unfolding new first_up trim
attempt_reconnect_again_example = attempt_reconnect_again all_refuse p0 refl

abbrev sweep : Request
sweep = record {
  type = "inbox.fetch";
  try_all_uplinks = true;
  continue_on_codes = [];
  adopt_successful_uplink = true;
  skip_active_uplink = false;
}

send_request-not_ready_example :
    let p = (send_request second_up sweep p0).0 in
    (p.active_url ≡ some "wss://b")
    × ((send_request second_up (record sweep { try_all_uplinks = false }) p).1
        ≡ failed (err_obj "NOT_READY" "uplink pool not ready" true))
unfolding program
send_request-not_ready_example =
    send_request-not_ready second_up sweep (record sweep { try_all_uplinks = false }) p0 "wss://b"
      refl refl refl refl refl refl refl

on_conn_down_spare_example :
    let q = on_conn_down second_up "wss://b" "gone" (run_connect second_up p0).0 in
    (q.active_url ≡ some "wss://a")
    × (q.ready ≡ true)
    × (is_ready (lookup "wss://a" q.conns) ≡ true)
    × (q.reconnect_timer ≡ none)
unfolding program
on_conn_down_spare_example =
    on_conn_down_spare second_up "wss://b" "gone" "wss://a" (run_connect second_up p0).0 refl refl
      refl

-- The first attempt succeeds, all later ones fail.
abbrev only_first : World
only_first = record second_up { connects = λ n. elim n [ zero ↦ none | suc _ ↦ some unreachable ] }

on_conn_down_no_spare_example :
    let q = on_conn_down only_first "wss://a" "gone" (run_connect only_first p0).0 in
    (q.ready ≡ false) × (q.active_url ≡ none) × (is_some q.reconnect_timer ≡ true)
unfolding program
on_conn_down_no_spare_example =
    on_conn_down_no_spare only_first "wss://a" "gone" (run_connect only_first p0).0 refl refl refl
      refl
