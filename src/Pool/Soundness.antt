-- ===== src/Pool/Soundness.antt =====
-- What holds of the pool between two operations.
pub mod Connecting
pub mod Switching
use rez_sdk.Common.{
  ℕ, zero, suc, ◌+◌, ◌*◌, ◌^◌, min, ◌≡◌, refl, sym, ap, subst, ◌∙◌, ◌≤◌, Bool, true, false, not,
  ◌&&◌, ◌||◌, Option, none, some, List, [], ◌∷◌, String, str_eq, eq_iff, is_some, if◌then◌else◌,
  arith, inl, inr, Bool-cases, Option-cases,
}
use rez_sdk.Common.Text.{is_empty}
use rez_sdk.Common.Dict.{Dict, lookup}
use rez_sdk.Pool.State.{
  Failure, World, Pool, PoolEvent, Conn, connected, failover, is_warm, is_ready, is_url, has_url,
  mark, set_active, emit_state, close_connections, stop_reconnect_timer, schedule_reconnect,
  go_offline, close, backoff, terminal_home_rejection_code,
}
use rez_sdk.Pool.Connect.{
  adopt, ensure_connected, connect_loop, first_error, conclude_connect, run_connect,
  ensure_warm_spare_target,
}
use rez_sdk.Pool.Connect.Single.{
  Keeps, ensure_connected-Keeps, ensure_warm_spare_target-Keeps, ensure_connected_other,
  ensure_connected_up, ensure_connected_down, mark-Keeps, ensure_warm_spare_target_active,
}
use rez_sdk.Pool.Failover.{
  find_spare, find_connected_spare, notify_reconnected, promote, promote_next_connected_spare,
  on_conn_down, attempt_reconnect, fire_timer, connect_now, restore_message,
}

abbrev pub armed_delay : Option ℕ → ℕ
armed_delay none = 0
armed_delay (some d) = d

pub record IsTimed (p : Pool) : Type 0 where
  pub armed_open : is_some p.reconnect_timer ≡ true → p.closed ≡ false
  pub capped : armed_delay p.reconnect_timer ≤ p.reconnect_backoff_cap_ms

-- The active uplink has a connection that is ready.
abbrev pub links : Option String → Dict Conn → Bool
links none m = false
links (some u) m = is_ready (lookup u m)

pub record IsSound (p : Pool) : Type 0 where
  pub timed : IsTimed p
  pub linked : p.ready ≡ true → links p.active_url p.conns ≡ true

pub Keeps-IsTimed : (p q : Pool) → Keeps p q → IsTimed p → IsTimed q
Keeps-IsTimed p q k t = ground arith

pub schedule_reconnect-IsTimed : (p : Pool) → IsTimed p → IsTimed (schedule_reconnect p)
unfolding schedule_reconnect
schedule_reconnect-IsTimed p t = ground arith

pub schedule_reconnect-IsSound : (p : Pool) → IsSound p → IsSound (schedule_reconnect p)
unfolding schedule_reconnect
schedule_reconnect-IsSound p h = record {
  timed = unfold schedule_reconnect in schedule_reconnect-IsTimed p h.timed;
  linked = ground (arith, h.linked);
}

pub emit_state-IsSound : (e : PoolEvent) (p : Pool) → IsSound p → IsSound (emit_state e p)
unfolding emit_state
emit_state-IsSound e p h = record {
  timed = record { armed_open = h.timed.armed_open; capped = h.timed.capped };
  linked = h.linked;
}

-- A pool that is not ready is sound if its timer is.
pub unready-IsSound : (p : Pool) → p.ready ≡ false → IsTimed p → IsSound p
unready-IsSound p r t = record { timed = t; linked = λ h. cc }

pub go_offline-IsSound : (reason : String) (p : Pool) → IsTimed p → IsSound (go_offline reason p)
unfolding go_offline
go_offline-IsSound reason p t =
    schedule_reconnect-IsSound _
      (unready-IsSound _ refl (record { armed_open = t.armed_open; capped = t.capped }))

pub close_connections-IsSound : (p : Pool) → IsTimed p → IsSound (close_connections p)
unfolding close_connections
close_connections-IsSound p t =
    unready-IsSound _ refl (record { armed_open = t.armed_open; capped = t.capped })

ensure_warm_spare_target-links :
    (w : World) (p : Pool) (a : Option String)
    → p.active_url ≡ a
    → links a (ensure_warm_spare_target w p).conns ≡ links a p.conns
ensure_warm_spare_target-links w p none e = refl
ensure_warm_spare_target-links w p (some u) e = ap is_ready (ensure_warm_spare_target_active w p e)

pub ensure_warm_spare_target-IsSound :
    (w : World) (p : Pool) → IsSound p → IsSound (ensure_warm_spare_target w p)
ensure_warm_spare_target-IsSound w p h =
    let k = ensure_warm_spare_target-Keeps w p in
    record {
      timed = Keeps-IsTimed p _ k h.timed;
      linked = λ r.
          subst (λ a. links a (ensure_warm_spare_target w p).conns ≡ true) (sym k.active_url)
            (ensure_warm_spare_target-links w p p.active_url refl ∙ h.linked (sym k.ready ∙ r));
    }
