-- ===== src/Pool/Soundness/Switching.antt =====
-- Failover and reconnects keep the pool sound.
use rez_sdk.Common.{
  ◌+◌, ◌≡◌, refl, sym, ap, subst, ◌∙◌, Bool, true, false, not, ◌&&◌, Option, none, some, List, [],
  ◌∷◌, String, is_some, if◌then◌else◌, arith, inl, inr, Bool-cases,
}
use mathlib.Core.Bool.{false≢true}
use rez_sdk.Common.Dict.{lookup}
use rez_sdk.Pool.State.{
  Failure, World, Pool, connected, failover, is_ready, is_url, has_url, mark, set_active,
  emit_state, stop_reconnect_timer, close,
}
use rez_sdk.Pool.Connect.{run_connect, ensure_warm_spare_target}
use rez_sdk.Pool.Connect.Single.{ensure_warm_spare_target-Keeps, mark-Keeps, mark_other, not_url}
use rez_sdk.Pool.Failover.{
  find_spare, find_connected_spare, notify_reconnected, promote, promote_next_connected_spare,
  on_conn_down, attempt_reconnect, fire_timer, connect_now,
}
use rez_sdk.Pool.Soundness.{
  IsTimed, IsSound, links, Keeps-IsTimed, schedule_reconnect-IsSound, emit_state-IsSound,
  unready-IsSound, close_connections-IsSound, ensure_warm_spare_target-IsSound, go_offline-IsSound,
}
use rez_sdk.Pool.Soundness.Connecting.{run_connect-IsSound, if-IsSound}

pub find_spare-ready :
    (p : Pool) (urls : List String) {u : String}
    → find_spare p urls ≡ some u
    → is_ready (lookup u p.conns) ≡ true
unfolding find_spare
find_spare-ready p [] e = cc
find_spare-ready p (url ∷ urls) {u} e = ground (arith, find_spare-ready p urls {u = u})

notify_reconnected-IsSound : (w : World) (p : Pool) → IsSound p → IsSound (notify_reconnected w p).0
unfolding notify_reconnected
notify_reconnected-IsSound w p h =
    let q = record p { restorations = p.restorations + 1 } in
    let safe : IsSound q = record {
      timed = record { armed_open = h.timed.armed_open; capped = h.timed.capped };
      linked = h.linked;
    } in
    elim (Bool-cases (is_some (w.restores p.restorations))) [
      | inl e ↦ rw e safe
      | inr e ↦ rw e (emit_state-IsSound _ q safe)
    ]

activate-IsSound :
    (w : World) (url : String) (p : Pool)
    → is_ready (lookup url p.conns) ≡ true
    → IsTimed p
    → IsSound (record (set_active w url p) { ready = true })
unfolding set_active
activate-IsSound w url p r t = record {
  timed = record { armed_open = t.armed_open; capped = t.capped };
  linked = λ _. r;
}

-- A promotion that succeeds leaves a sound pool, and one that does not leaves its timer sound.
promote-IsSound :
    (w : World) (o : Option String) (p : Pool)
    → ((u : String) → o ≡ some u → is_ready (lookup u p.conns) ≡ true)
    → IsTimed p
    → IsTimed (promote w o p).0 × ((promote w o p).1 ≡ true → IsSound (promote w o p).0)
unfolding promote
promote-IsSound w none p r t = (t, λ e. absurd (false≢true e))
promote-IsSound w (some c) p r t =
    let active = record (set_active w c p) { ready = true } in
    let moved = emit_state (failover p.active_url c) active in
    let safe =
      notify_reconnected-IsSound w moved
        (emit_state-IsSound _ active (activate-IsSound w c p (r c refl) t)) in
    elim (Bool-cases (is_some (notify_reconnected w moved).1)) [
      | inl e ↦ rw e ((go_offline-IsSound _ _ safe.timed).timed, λ k. absurd (false≢true k))
      | inr e ↦
          let done =
            ensure_warm_spare_target-IsSound w _ (emit_state-IsSound (connected c) _ safe) in
          rw e (done.timed, λ _. done)
    ]

promote_next_connected_spare-IsSound :
    (w : World) (p : Pool)
    → IsTimed p
    → IsTimed (promote_next_connected_spare w p).0
      × ((promote_next_connected_spare w p).1 ≡ true → IsSound (promote_next_connected_spare w p).0)
unfolding promote_next_connected_spare
promote_next_connected_spare-IsSound w p t = elim (Bool-cases (is_some (find_connected_spare p))) [
  | inl e ↦ rw e (promote-IsSound w _ p (λ u h. find_spare-ready p p.uplinks h) t)
  | inr e ↦
      let q = ensure_warm_spare_target w p in
      rw e (
        promote-IsSound w _ q (λ u h. find_spare-ready q q.uplinks h)
          (Keeps-IsTimed p q (ensure_warm_spare_target-Keeps w p) t))
]

links-mark :
    (a : Option String) (url : String) (p : Pool)
    → is_url a url ≡ false
    → links a p.conns ≡ true
    → links a (mark url false false p).conns ≡ true
links-mark none url p e h = h
links-mark (some u) url p e h = ap is_ready (mark_other url u false false p (not_url u url e)) ∙ h

mark-IsSound :
    (url : String) (p : Pool)
    → is_url p.active_url url ≡ false
    → IsSound p
    → IsSound (mark url false false p)
mark-IsSound url p e h =
    let k = mark-Keeps url false false p in
    record {
      timed = Keeps-IsTimed p _ k h.timed;
      linked = λ r.
          subst (λ a. links a (mark url false false p).conns ≡ true) (sym k.active_url)
            (links-mark p.active_url url p e (h.linked (sym k.ready ∙ r)));
    }

-- A transport that goes down leaves a sound pool, whether it was the active one or not.
pub on_conn_down-IsSound :
    (w : World) (url reason : String) (p : Pool) → IsSound p → IsSound (on_conn_down w url reason p)
unfolding on_conn_down
on_conn_down-IsSound w url reason p h = elim (Bool-cases (is_url p.active_url url)) [
  | inl e ↦
      let marked = mark url false false p in
      let (t, done) =
        promote_next_connected_spare-IsSound w marked
          (Keeps-IsTimed p marked (mark-Keeps url false false p) h.timed) in
      rw e (elim (Bool-cases (promote_next_connected_spare w marked).1) [
        | inl k ↦ rw k (done k)
        | inr k ↦ rw k (go_offline-IsSound reason _ t)
      ])
  | inr e ↦ rw e (ensure_warm_spare_target-IsSound w _ (mark-IsSound url p e h))
]

pub attempt_reconnect-IsSound : (w : World) (p : Pool) → IsSound (attempt_reconnect w p).0
unfolding attempt_reconnect
attempt_reconnect-IsSound w p =
    let q = (run_connect w p).0 in
    let safe = run_connect-IsSound w p in
    let told = notify_reconnected-IsSound w q safe in
    elim (Bool-cases (is_some (run_connect w p).1)) [
      | inl e ↦ rw e (schedule_reconnect-IsSound _ (emit_state-IsSound _ q safe))
      | inr e ↦ rw e (elim (Bool-cases (is_some (notify_reconnected w q).1)) [
        | inl k ↦ rw k (
            schedule_reconnect-IsSound _
              (emit_state-IsSound _ _ (close_connections-IsSound _ told.timed)))
        | inr k ↦ rw k (record {
          timed = record { armed_open = told.timed.armed_open; capped = told.timed.capped };
          linked = told.linked;
        })
      ])
    ]

unarmed-IsSound : (p : Pool) → IsSound p → IsSound (record p { reconnect_timer = none })
unarmed-IsSound p h = record {
  timed = record { armed_open = λ e. absurd (false≢true e); capped = omega arith };
  linked = h.linked;
}

pub fire_timer-IsSound : (w : World) (p : Pool) → IsSound p → IsSound (fire_timer w p)
unfolding fire_timer
fire_timer-IsSound w p h =
    let q = record p { reconnect_timer = none } in
    if-IsSound (not (is_some p.reconnect_timer)) p _ h
      (if-IsSound p.closed q _ (unarmed-IsSound p h) (attempt_reconnect-IsSound w q))

if-IsSound_first :
    (b : Bool) (x y : Pool × Option Failure)
    → IsSound x.0
    → IsSound y.0
    → IsSound (if b then x else y).0
if-IsSound_first true x y h k = h
if-IsSound_first false x y h k = k

pub connect_now-IsSound : (w : World) (p : Pool) → IsSound p → IsSound (connect_now w p).0
unfolding connect_now
connect_now-IsSound w p h =
    if-IsSound_first p.closed (p, _) _ h
      (if-IsSound_first (p.ready && has_url p.active_url) (p, none) _ h
        (attempt_reconnect-IsSound w (stop_reconnect_timer p)))

pub close-IsSound : (p : Pool) → IsSound (close p)
unfolding close
close-IsSound p = unready-IsSound _ refl (ground arith)
