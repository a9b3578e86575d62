-- ===== src/Pool/Failover/Promotion.antt =====
-- What becomes of the pool when its active uplink goes down.
use rez_sdk.Common.{
  ◌+◌, ◌≡◌, refl, ap, ◌∙◌, true, false, none, some, String, is_some, if◌then◌else◌, arith,
}
use rez_sdk.Common.Dict.{lookup}
use rez_sdk.Pool.State.{
  World, Pool, connected, failover, reconnected, emit_state, is_ready, is_url, mark, set_active,
  schedule_reconnect, go_offline,
}
use rez_sdk.Pool.Connect.{ensure_warm_spare_target}
use rez_sdk.Pool.Connect.Single.{
  mark-Keeps, ensure_warm_spare_target-Keeps, ensure_warm_spare_target_active,
}
use rez_sdk.Pool.Failover.{
  find_connected_spare, notify_reconnected, promote, promote_next_connected_spare, on_conn_down,
}
use rez_sdk.Pool.Soundness.Switching.{find_spare-ready}

-- The spare is active and its session restored.
abbrev promoted_to : World → String → Pool → Pool
promoted_to w v p = emit_state (connected v) (
    emit_state reconnected
      (record (emit_state (failover p.active_url v) (record (set_active w v p) { ready = true })) {
        restorations = p.restorations + 1;
      }))

promoted_to-keeps :
    (w : World) (v : String) (p : Pool)
    → ((promoted_to w v p).active_url ≡ some v)
      × ((promoted_to w v p).ready ≡ true)
      × ((promoted_to w v p).conns ≡ p.conns)
      × ((promoted_to w v p).reconnect_timer ≡ p.reconnect_timer)
unfolding emit_state set_active
promoted_to-keeps w v p = (refl, refl, refl, refl)

promote_up :
    (w : World) (v : String) (p : Pool)
    → w.restores p.restorations ≡ none
    → promote w (some v) p ≡ (ensure_warm_spare_target w (promoted_to w v p), true)
unfolding promote notify_reconnected emit_state set_active
promote_up w v p e = rw e refl

mark_restorations :
    (url : String) (p : Pool) → (mark url false false p).restorations ≡ p.restorations
unfolding mark
mark_restorations url p = ground arith

on_conn_down_found :
    (w : World) (url reason v : String) (p : Pool)
    → is_url p.active_url url ≡ true
    → find_connected_spare (mark url false false p) ≡ some v
    → w.restores p.restorations ≡ none
    → on_conn_down w url reason p
      ≡ ensure_warm_spare_target w (promoted_to w v (mark url false false p))
unfolding on_conn_down promote_next_connected_spare
on_conn_down_found w url reason v p a e r =
    let up =
      promote_up w v (mark url false false p) (ap w.restores (mark_restorations url p) ∙ r) in
    rw (a, e) (rw up refl)

-- If the active uplink goes down, a warm spare is connected and its session can be restored, then the
-- first such spare in the order of the uplinks is active, the pool is ready, the spare's connection is
-- ready, and no reconnect is scheduled on account of it.
pub on_conn_down_spare :
    (w : World) (url reason v : String) (p : Pool)
    → is_url p.active_url url ≡ true
    → find_connected_spare (mark url false false p) ≡ some v
    → w.restores p.restorations ≡ none
    → let q = on_conn_down w url reason p in
      (q.active_url ≡ some v)
      × (q.ready ≡ true)
      × (is_ready (lookup v q.conns) ≡ true)
      × (q.reconnect_timer ≡ p.reconnect_timer)
on_conn_down_spare w url reason v p a e r =
    let marked = mark url false false p in
    let t = promoted_to w v marked in
    let (active, ready, conns, timer) = promoted_to-keeps w v marked in
    let keeps = ensure_warm_spare_target-Keeps w t in
    let same = on_conn_down_found w url reason v p a e r in
    (
      ap (λ (q : Pool). q.active_url) same ∙ keeps.active_url ∙ active,
      ap (λ (q : Pool). q.ready) same ∙ keeps.ready ∙ ready,
      ap (λ (q : Pool). is_ready (lookup v q.conns)) same
          ∙ ap is_ready (ensure_warm_spare_target_active w t active)
          ∙ ap (λ m. is_ready (lookup v m)) conns
          ∙ find_spare-ready marked marked.uplinks e,
      ap (λ (q : Pool). q.reconnect_timer) same
          ∙ keeps.reconnect_timer
          ∙ timer
          ∙ (mark-Keeps url false false p).reconnect_timer,
    )

on_conn_down_lost :
    (w : World) (url reason : String) (p : Pool)
    → is_url p.active_url url ≡ true
    → find_connected_spare (mark url false false p) ≡ none
    → find_connected_spare (ensure_warm_spare_target w (mark url false false p)) ≡ none
    → on_conn_down w url reason p
      ≡ go_offline reason (ensure_warm_spare_target w (mark url false false p))
unfolding on_conn_down promote_next_connected_spare promote
on_conn_down_lost w url reason p a e f = rw (a, e) (rw f refl)

go_offline-settled :
    (reason : String) (p : Pool)
    → ((go_offline reason p).ready ≡ false)
      × ((go_offline reason p).active_url ≡ none)
      × (is_some (go_offline reason p).reconnect_timer
          ≡ (if p.closed then is_some p.reconnect_timer else true))
unfolding go_offline emit_state schedule_reconnect
go_offline-settled reason p = ground arith

-- If the active uplink goes down and no spare is connected, nor after one more attempt to warm the
-- spares, then the pool is not ready, has no active uplink, and a reconnect is scheduled.
pub on_conn_down_no_spare :
    (w : World) (url reason : String) (p : Pool)
    → p.closed ≡ false
    → is_url p.active_url url ≡ true
    → find_connected_spare (mark url false false p) ≡ none
    → find_connected_spare (ensure_warm_spare_target w (mark url false false p)) ≡ none
    → let q = on_conn_down w url reason p in
      (q.ready ≡ false) × (q.active_url ≡ none) × (is_some q.reconnect_timer ≡ true)
on_conn_down_no_spare w url reason p o a e f =
    let marked = mark url false false p in
    let t = ensure_warm_spare_target w marked in
    let is_open =
      (ensure_warm_spare_target-Keeps w marked).closed
      ∙ (mark-Keeps url false false p).closed
      ∙ o in
    let (ready, active, timer) = go_offline-settled reason t in
    let same = on_conn_down_lost w url reason p a e f in
    (
      ap (λ (q : Pool). q.ready) same ∙ ready,
      ap (λ (q : Pool). q.active_url) same ∙ active,
      ap (λ (q : Pool). is_some q.reconnect_timer) same
          ∙ timer
          ∙ ap (λ c. if c then is_some t.reconnect_timer else true) is_open,
    )
